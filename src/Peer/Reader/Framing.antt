-- ===== src/Peer/Reader/Framing.antt =====
-- A message is taken off the stream with its header part, or skipped if it is too long.
use robotframework_jsonrpcre.Base.{
  ℕ, true, Option, none, some, List, ◌++◌, ◌≡◌, refl, ap, ◌∙◌, arith, length, drop, if◌then◌else◌,
  inl, inr, Bool-cases, All, take-length, drop-length, length-append, ◌≤◌,
}
use robotframework_jsonrpcre.Base.Codes.{Codes}
use robotframework_jsonrpcre.Peer.State.{Bytes}
use robotframework_jsonrpcre.Peer.Stream.{Stream, total, Read, bytes, overrun, incomplete}
use robotframework_jsonrpcre.Peer.Stream.Until.{ReadsExactly, read_exactly-ReadsExactly}
use robotframework_jsonrpcre.Peer.Reader.{
  Reading, got, eof, Header, no_header, read_header_part, is_valid_length, int_of, Received,
  too_big, content, on_content, read_content, with_length, read_with, on_header, read_message,
  above,
}
use robotframework_jsonrpcre.Peer.Reader.HeaderLine.{Gives}
use robotframework_jsonrpcre.Peer.Reader.HeaderPart.{
  header_bytes, IsLine, header_of, read_header_part-Gives,
}
use robotframework_jsonrpcre.Peer.Reader.Skip.{skip_content-total}

-- The read gives `a`, and leaves these bytes.
abbrev pub Leaves : Received → Bytes → Reading Received → Type 0
Leaves a left (got b s) = (b ≡ a) × (total s ≡ left)
Leaves a left (eof partial) = ⊥

-- What a message of these bytes is.
abbrev pub received : Option ℕ → Option Codes → Bytes → Received
received most charset body =
    if above (length body) most then too_big (length body) else content charset body

-- Where the length says nothing of use, the message ends with its header part.
abbrev pub Lengths : Option Codes → Bytes → Type 0
Lengths none body = ⊥
Lengths (some raw) body = (is_valid_length raw ≡ true) × (int_of 0 raw ≡ length body)

content-Leaves :
    (charset : Option Codes) (body rest : Bytes) (limit : ℕ) (r : Read)
    → ReadsExactly limit (length body) (body ++ rest) r
    → Leaves (content charset body) rest (on_content charset r)
content-Leaves charset body rest limit (bytes b left) (i, t, m) =
    (ap (content charset) (i ∙ take-length body rest), t ∙ drop-length body rest)
content-Leaves charset body rest limit (overrun k left) r = absurd r
content-Leaves charset body rest limit (incomplete b) r = absurd r

read_content-Leaves :
    (most : Option ℕ) (charset : Option Codes) (body rest : Bytes) (s : Stream)
    → total s ≡ body ++ rest
    → Leaves (received most charset body) rest (read_content most charset (length body) s)
unfolding read_content
read_content-Leaves most charset body rest s t = elim (Bool-cases (above (length body) most)) [
  | inl y ↦
      rw y (
        refl,
        skip_content-total (length body) s ∙ ap (drop (length body)) t ∙ drop-length body rest,
      )
  | inr n ↦
      let enough : length body ≤ length (total s) = rw t (omega (arith, length-append body rest)) in
      rw n (
        content-Leaves charset body rest s.limit _
          (rw t at (read_exactly-ReadsExactly s.limit (length body) s.buffer s.coming enough)))
]

with_length-Leaves :
    (most : Option ℕ) (charset raw : Option Codes) (body rest : Bytes) (s : Stream)
    → Lengths raw body
    → total s ≡ body ++ rest
    → Leaves (received most charset body) rest (with_length most charset s raw)
with_length-Leaves most charset none body rest s l t = absurd l
with_length-Leaves most charset (some raw) body rest s (v, n) t =
    rw (v, n) (read_content-Leaves most charset body rest s t)

header-Leaves :
    (most : Option ℕ) (h : Header) (body rest : Bytes) (limit : ℕ) (r : Reading Header)
    → Gives h (body ++ rest) limit r
    → Lengths h.length_value body
    → Leaves (received most h.charset body) rest (on_header most r)
unfolding read_with
header-Leaves most h body rest limit (got g s) (i, t, m) l =
    rw i (with_length-Leaves most h.charset h.length_value body rest s l t)
header-Leaves most h body rest limit (eof partial) g l = absurd g

-- A message whose header part is lines without a CR in them, then an empty line, and gives the length of its content, in whatever chunks it
-- arrives: up to the maximum of the peer, `_read_message` takes exactly its content, with the charset of the
-- header part; a longer one is never taken, but reported with its length and skipped. Either way exactly the
-- bytes behind the message are left, so that the next one is read.
pub read_message-Leaves :
    (most : Option ℕ) (s : Stream) (ls : List Bytes) (body rest : Bytes)
    → All IsLine ls
    → total s ≡ header_bytes ls (body ++ rest)
    → Lengths (header_of s.limit ls no_header).length_value body
    → Leaves
        (received most (header_of s.limit ls no_header).charset body)
        rest
        (read_message most s)
unfolding read_message
read_message-Leaves most s ls body rest i t l =
    header-Leaves most (header_of s.limit ls no_header) body rest s.limit (read_header_part s)
      (read_header_part-Gives s ls (body ++ rest) i t) l

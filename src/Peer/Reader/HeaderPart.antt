-- ===== src/Peer/Reader/HeaderPart.antt =====
-- A header part is read line by line, up to its empty line, and a message with it.
use robotframework_jsonrpcre.Base.{
  ℕ, zero, suc, Bool, true, false, Option, none, some, List, [], ◌∷◌, ◌++◌, ◌+◌, ◌<◌, ◌≡◌, refl,
  subst, arith, length, drop, ltb, ◌==◌, if◌then◌else◌, All, take-length, length-append,
}
use robotframework_jsonrpcre.Base.Codes.{Codes}
use robotframework_jsonrpcre.Peer.State.{Bytes}
use robotframework_jsonrpcre.Peer.Stream.{Stream, total, find_crlf}
use robotframework_jsonrpcre.Peer.Reader.{
  Reading, got, eof, decode_ascii, Header, no_header, header_line, on_line, read_header_line,
  read_lines, read_header_part,
}
use robotframework_jsonrpcre.Peer.Reader.HeaderLine.{Gives, read_header_line-Gives}

-- Lines with their ends, the empty line behind them, and what follows.
abbrev pub header_bytes : List Bytes → Bytes → Bytes
header_bytes [] rest = 13 ∷ 10 ∷ rest
header_bytes (l ∷ ls) rest = l ++ (13 ∷ 10 ∷ header_bytes ls rest)

-- A line that is not empty, with no CR in it.
abbrev pub NoReturn : Bytes → Type 0
NoReturn l = All (λ c. (c == 13) ≡ false) l

abbrev pub IsLine : Bytes → Type 0
IsLine [] = ⊥
IsLine (c ∷ l) = NoReturn (c ∷ l)

-- What the lines say: one that is longer than the limit says nothing.
abbrev pub header_of : ℕ → List Bytes → Header → Header
header_of limit [] h = h
header_of limit (l ∷ ls) h =
    header_of limit ls (if ltb limit (length l) then h else header_line (decode_ascii l) h)

find_crlf-line : (l x : Bytes) → NoReturn l → find_crlf (l ++ (13 ∷ 10 ∷ x)) ≡ some (length l)
unfolding find_crlf
find_crlf-line [] x h = refl
find_crlf-line (c ∷ []) x (h, _) = rw h refl
find_crlf-line (c ∷ d ∷ l) x (h, hs) = rw (h, find_crlf-line (d ∷ l) x hs) refl

drop-line : (l x : Bytes) → drop (length l + 2) (l ++ (13 ∷ 10 ∷ x)) ≡ x
drop-line [] x = refl
drop-line (c ∷ l) x =
    let e : suc (length l) + 2 ≡ suc (length l + 2) = omega arith in rw e (drop-line l x)

-- The line is read, and what follows it is left.
line-Gives :
    (l x : Bytes) (s : Stream)
    → NoReturn l
    → total s ≡ l ++ (13 ∷ 10 ∷ x)
    → Gives
        (if ltb s.limit (length l) then none else some (decode_ascii l))
        x
        s.limit
        (read_header_line s)
line-Gives l x s h t =
    let found : find_crlf (total s) ≡ some (length l) = rw t (find_crlf-line l x h) in
    rw (t, take-length l (13 ∷ 10 ∷ x), drop-line l x) at
      (read_header_line-Gives s (length l) found)

ltb_zero : (n : ℕ) → ltb n 0 ≡ false
ltb_zero n = ground arith

-- A turn on an empty line, and on another one.
empty-Gives :
    (again : Header → Stream → Reading Header) (h : Header) (x : Bytes) (limit : ℕ)
    (r : Reading (Option Codes))
    → Gives (some []) x limit r
    → Gives h x limit (on_line again h r)
empty-Gives again h x limit (got a rest) (i, t, l) = rw i (refl, t, l)
empty-Gives again h x limit (eof partial) g = absurd g

next-Gives :
    (again : Header → Stream → Reading Header) (h a : Header) (c : ℕ) (l x left : Bytes) (limit : ℕ)
    (long : Bool) (r : Reading (Option Codes))
    → Gives (if long then none else some (decode_ascii (c ∷ l))) x limit r
    → ((rest : Stream)
        → total rest ≡ x
        → rest.limit ≡ limit
        → Gives a left limit
            (again (if long then h else header_line (decode_ascii (c ∷ l)) h) rest))
    → Gives a left limit (on_line again h r)
next-Gives again h a c l x left limit true (got b rest) (i, t, m) k = rw i (k rest t m)
next-Gives again h a c l x left limit false (got b rest) (i, t, m) k = rw i (k rest t m)
next-Gives again h a c l x left limit long (eof partial) g k = absurd g

read_lines-Gives :
    (ls : List Bytes) (rest : Bytes) (fuel : ℕ) (h : Header) (s : Stream)
    → All IsLine ls
    → total s ≡ header_bytes ls rest
    → length ls < fuel
    → Gives (header_of s.limit ls h) rest s.limit (read_lines fuel h s)
unfolding read_lines
read_lines-Gives ls rest zero h s i t e = absurd (omega arith)
read_lines-Gives [] rest (suc fuel) h s i t e =
    empty-Gives (read_lines fuel) h rest s.limit (read_header_line s)
      (rw (ltb_zero s.limit) at (line-Gives [] rest s tt t))
read_lines-Gives ([] ∷ ls) rest (suc fuel) h s (i, is) t e = absurd i
read_lines-Gives ((c ∷ l) ∷ ls) rest (suc fuel) h s (i, is) t e =
    next-Gives (read_lines fuel) h (header_of s.limit ((c ∷ l) ∷ ls) h) c l (header_bytes ls rest)
      rest s.limit (ltb s.limit (length (c ∷ l))) (read_header_line s)
      (line-Gives (c ∷ l) (header_bytes ls rest) s i t)
      (λ left u m.
        let g = if ltb s.limit (length (c ∷ l)) then h else header_line (decode_ascii (c ∷ l)) h in
        subst (λ n. Gives (header_of n ls g) rest n (read_lines fuel g left)) m
          (read_lines-Gives ls rest fuel g left is u (omega (arith, e))))

-- The lines take more bytes than there are lines.
length-header_bytes : (ls : List Bytes) (rest : Bytes) → length ls < length (header_bytes ls rest)
length-header_bytes [] rest = omega arith
length-header_bytes (l ∷ ls) rest =
    omega (arith, length-header_bytes ls rest, length-append l (13 ∷ 10 ∷ header_bytes ls rest))

-- `_read_header_part` comes to an end on every header part of lines and an empty one, however many lines it has
-- and in whatever chunks they arrive: it gives what the lines say, in their order, where a line that is
-- longer than the limit of the stream says nothing, and leaves what follows. The lines hold no CR.
pub read_header_part-Gives :
    (s : Stream) (ls : List Bytes) (rest : Bytes)
    → All IsLine ls
    → total s ≡ header_bytes ls rest
    → Gives (header_of s.limit ls no_header) rest s.limit (read_header_part s)
unfolding read_header_part
read_header_part-Gives s ls rest i t =
    read_lines-Gives ls rest (suc (length (total s))) no_header s i t
      (rw t (omega (arith, length-header_bytes ls rest)))

-- ===== src/Peer/Reader/Frame.antt =====
-- What one peer writes, the other reads: the frames of `_write_frame`, read by `_read_message`.
use mathlib.Core.List.{append_assoc, reverse, reverse-cons, reverse-reverse}
use robotframework_jsonrpcre.Base.{
  ℕ, Bool, true, false, Option, some, List, [], ◌∷◌, ◌++◌, ◌+◌, ◌*◌, ◌-◌, ◌≤◌, ◌≡◌, refl, subst,
  sym, ap, ◌∙◌, arith, length, ltb, ◌==◌, if◌then◌else◌, All, All-append, All-map,
}
use Prim.Native.Char.{code}
use Prim.Native.String.{String}
use robotframework_jsonrpcre.Base.Codes.{
  Codes, codes, codes_equal, is_space, strip_left, strip_by, strip, lower_code, lower, partition,
}
use robotframework_jsonrpcre.Base.Decimal.{
  decimal, is_digit, is_cons, decimal-All, decimal-is_cons, spelled, spelled-decimal,
}
use robotframework_jsonrpcre.Peer.State.{Bytes}
use robotframework_jsonrpcre.Peer.Stream.{Stream, total}
use robotframework_jsonrpcre.Peer.Send.{ascii, crlf, frame}
use robotframework_jsonrpcre.Peer.Reader.{
  decode_ascii, Header, no_header, header_line, all_digits, is_valid_length, int_of, read_message,
}
use robotframework_jsonrpcre.Peer.Reader.HeaderPart.{header_bytes, NoReturn, IsLine, header_of}
use robotframework_jsonrpcre.Peer.Reader.Framing.{Leaves, received, Lengths, read_message-Leaves}

abbrev Digits : Codes → Type 0
Digits s = All (λ c. is_digit c ≡ true) s

ascii-codes : (s : String) → ascii s ≡ codes s
ascii-codes String.[] = refl
ascii-codes (String.◌∷◌ c s) = ap (λ (t : Codes). code c ∷ t) (ascii-codes s)

digit-plain :
    (c : ℕ) → is_digit c ≡ true → (is_space c ≡ false) × (ltb c 128 ≡ true) × ((c == 13) ≡ false)
unfolding is_space
digit-plain c h = ground arith

decode-Digits : (t : Codes) → Digits t → decode_ascii t ≡ t
decode-Digits [] h = refl
decode-Digits (c ∷ t) (h, hs) =
    let (s, l, r) = digit-plain c h in rw l (ap (λ u. c ∷ u) (decode-Digits t hs))

strip_left-Digits : (t : Codes) → Digits t → strip_left is_space t ≡ t
unfolding strip_left
strip_left-Digits [] h = refl
strip_left-Digits (c ∷ t) (h, hs) = let (s, l, r) = digit-plain c h in rw s refl

reverse-Digits : (t : Codes) → Digits t → Digits (reverse t)
reverse-Digits [] h = tt
reverse-Digits (c ∷ t) (h, hs) =
    rw (reverse-cons c t) (All-append _ (reverse t) (c ∷ []) (reverse-Digits t hs) (h, tt))

strip-Digits : (t : Codes) → Digits t → strip (32 ∷ t) ≡ t
unfolding strip strip_by strip_left
strip-Digits t h =
    let e : strip_left is_space (32 ∷ t) ≡ t = strip_left-Digits t h in
    rw (e, strip_left-Digits (reverse t) (reverse-Digits t h)) (reverse-reverse t)

NoReturn-Digits : (t : Codes) → Digits t → NoReturn t
NoReturn-Digits t h = All-map _ _ (λ c d. (digit-plain c d).2) t h

all_digits-Digits : (t : Codes) → Digits t → all_digits t ≡ true
all_digits-Digits [] h = refl
all_digits-Digits (c ∷ t) (h, hs) = rw (all_digits-Digits t hs) (ground (arith, h))

int_of-spelled : (acc : ℕ) (t : Codes) → int_of acc t ≡ spelled acc t
unfolding int_of
int_of-spelled acc [] = refl
int_of-spelled acc (c ∷ t) = int_of-spelled (acc * 10 + (c - b'0')) t

valid : (t : Codes) → is_cons t ≡ true → Digits t → length t ≤ 18 → is_valid_length t ≡ true
unfolding is_valid_length
valid [] c h l = absurd (cc)
valid (d ∷ t) c h l = rw (all_digits-Digits (d ∷ t) h) (ground arith)

-- The first line of a frame.
abbrev pub length_line : Codes → Bytes
length_line t = ascii "Content-Length: " ++ t

length_line-header :
    (t : Codes) (h : Header)
    → Digits t
    → header_line (decode_ascii (length_line t)) h ≡ record h { length_value = some t }
unfolding header_line partition lower strip strip_by strip_left codes_equal lower_code
length_line-header t h d =
    ap (λ (v : Codes). record h { length_value = some v })
      (ap (λ (u : Codes). strip (32 ∷ u)) (decode-Digits t d) ∙ strip-Digits t d)

length_line-IsLine : (t : Codes) → Digits t → IsLine (length_line t)
length_line-IsLine t d = (
  refl,
  (
    refl,
    (
      refl,
      (
        refl,
        (
          refl,
          (
            refl,
            (
              refl,
              (
                refl,
                (refl, (refl, (refl, (refl, (refl, (refl, (refl, (refl, NoReturn-Digits t d)))))))),
              ),
            ),
          ),
        ),
      ),
    ),
  ),
)

-- The lines of other fields, each with its end; a field that keeps the length that is known.
abbrev pub field_bytes : List Bytes → Bytes
field_bytes [] = []
field_bytes (l ∷ ls) = l ++ (crlf ++ field_bytes ls)

abbrev pub KeepsLength : Bytes → Type 0
KeepsLength l = (h : Header) → (header_line (decode_ascii l) h).length_value ≡ h.length_value

kept :
    (long : Bool) (l : Bytes) (h : Header)
    → KeepsLength l
    → (if long then h else header_line (decode_ascii l) h).length_value ≡ h.length_value
kept true l h k = refl
kept false l h k = k h

header_of-KeepsLength :
    (limit : ℕ) (ls : List Bytes) (h : Header)
    → All KeepsLength ls
    → (header_of limit ls h).length_value ≡ h.length_value
header_of-KeepsLength limit [] h k = refl
header_of-KeepsLength limit (l ∷ ls) h (k, ks) =
    header_of-KeepsLength limit ls _ ks ∙ kept (ltb limit (length l)) l h k

length_of_line :
    (t : Codes) (long : Bool)
    → Digits t
    → long ≡ false
    → (if long
        then no_header
        else header_line (decode_ascii (length_line t)) no_header).length_value
      ≡ some t
length_of_line t true d e = absurd (cc)
length_of_line t false d e = ap (λ (h : Header). h.length_value) (length_line-header t no_header d)

fields-header_bytes :
    (ls : List Bytes) (rest : Bytes) → header_bytes ls rest ≡ field_bytes ls ++ (crlf ++ rest)
fields-header_bytes [] rest = refl
fields-header_bytes (l ∷ ls) rest =
    rw (fields-header_bytes ls rest) (sym (append_assoc l (crlf ++ field_bytes ls) (crlf ++ rest)))

frame-header_bytes :
    (ls : List Bytes) (body rest : Bytes)
    → frame (field_bytes ls) body ++ rest
      ≡ header_bytes (length_line (codes (decimal (length body))) ∷ ls) (body ++ rest)
unfolding frame
frame-header_bytes ls body rest =
    rw (ascii-codes (decimal (length body)), fields-header_bytes ls (body ++ rest)) simp
      append_assoc refl

-- A frame that a peer writes, with other fields that say nothing of the length, behind which any bytes may follow, and in
-- whatever chunks it arrives at a peer whose limit holds the length line: `_read_message` takes the content
-- that was written, or reports its length and skips it if it is above the maximum, and leaves what follows. The
-- content has less than 10 ^ 18 bytes, which eighteen digits tell.
pub read_message-frame :
    (most : Option ℕ) (s : Stream) (ls : List Bytes) (body rest : Bytes)
    → All IsLine ls
    → All KeepsLength ls
    → length (codes (decimal (length body))) ≤ 18
    → length (length_line (codes (decimal (length body)))) ≤ s.limit
    → total s ≡ frame (field_bytes ls) body ++ rest
    → Leaves
        (received most
          (header_of s.limit (length_line (codes (decimal (length body))) ∷ ls) no_header).charset
          body)
        rest
        (read_message most s)
read_message-frame most s ls body rest lines keep few short t =
    let n = codes (decimal (length body)) in
    let d = decimal-All (length body) in
    let f : ltb s.limit (length (length_line n)) ≡ false = ground arith in
    let e : (header_of s.limit (length_line n ∷ ls) no_header).length_value ≡ some n =
      header_of-KeepsLength s.limit ls _ keep
      ∙ length_of_line n (ltb s.limit (length (length_line n))) d f in
    read_message-Leaves most s (length_line n ∷ ls) body rest (length_line-IsLine n d, lines)
      (t ∙ frame-header_bytes ls body rest)
      (subst (λ (v : Option Codes). Lengths v body) (sym e)
        (
          valid n (decimal-is_cons (length body)) d few,
          int_of-spelled 0 n ∙ spelled-decimal (length body),
        ))

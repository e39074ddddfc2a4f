-- ===== src/Peer/Reader.antt =====
-- Reading messages from the stream: `_charset_of`, `_read_header_line`, `_read_header_part`,
-- `_skip_content` and `_read_message` of packages/jsonrpcpeer/src/jsonrpcpeer/peer.py.
pub mod HeaderLine
pub mod Skip
pub mod HeaderPart
pub mod Framing
pub mod Frame
use robotframework_jsonrpcre.Base.{
  ℕ, zero, suc, Bool, true, false, Option, none, some, List, [], ◌∷◌, ◌++◌, ◌+◌, ◌-◌, ◌*◌, ◌&&◌,
  map, length, take, drop, min, ltb, leb, ◌==◌, if◌then◌else◌,
}
use robotframework_jsonrpcre.Base.Codes.{
  Codes, codes, codes_equal, strip, strip_by, lower, partition, split,
}
use robotframework_jsonrpcre.Peer.State.{Bytes}
use robotframework_jsonrpcre.Peer.Stream.{
  Stream, Read, bytes, overrun, incomplete, read_until, read_exactly, total,
}

-- A read that may meet EOF first: asyncio.IncompleteReadError, with the bytes that were left.
pub data Reading (A : Type 0) : Type 0 where
  got : A → Stream → Reading A
  eof : Bytes → Reading A

-- line.decode("ascii", "replace")
abbrev pub decode_ascii : Bytes → Codes
decode_ascii = map (λ b. if ltb b 128 then b else 65533)

-- line_bytes[:-2]
abbrev pub cut_end : Bytes → Bytes
cut_end line = take (length line - 2) line

-- After LimitOverrunError: the bytes are dropped, and the loop goes on.
abbrev pub on_dropped : (Stream → Reading (Option Codes)) → Read → Reading (Option Codes)
on_dropped again (bytes dropped left) = again left
on_dropped again (overrun k left) = eof []
on_dropped again (incomplete partial) = eof partial

abbrev pub on_read : Bool → (Stream → Reading (Option Codes)) → Read → Reading (Option Codes)
on_read too_long again (bytes line rest) =
    got (if too_long then none else some (decode_ascii (cut_end line))) rest
on_read too_long again (overrun consumed rest) =
    on_dropped again (read_exactly rest.limit consumed rest.buffer rest.coming)
on_read too_long again (incomplete partial) = eof partial

-- The loop of `_read_header_line`, with fuel: `none` is a line that is too long. Each round that does
-- not end drops at least a byte, so one more than the bytes that are left is enough.
unfoldable pub read_line : ℕ → Bool → Stream → Reading (Option Codes)
read_line zero too_long s = eof []
read_line (suc fuel) too_long s =
    on_read too_long (λ left. read_line fuel true left) (read_until s.limit s.buffer s.coming)

unfoldable pub read_header_line : Stream → Reading (Option Codes)
unfolding read_line
read_header_line s = read_line (suc (length (total s))) false s

-- The charset of the first part named charset; an empty one is none.
abbrev or_none : Codes → Option Codes
or_none [] = none
or_none s = some s

charset_in : List Codes → Option Codes
charset_in [] = none
charset_in (part ∷ parts) =
    let (name, value) = partition b'=' part in
    if codes_equal (lower (strip name)) (codes "charset")
    then or_none (strip_by (λ c. c == b'"') (strip value))
    else charset_in parts

unfoldable pub charset_of : Codes → Option Codes
unfolding charset_in
charset_of content_type = charset_in (split b';' content_type)

-- The values of Content-Length and of the charset, so far.
pub record Header : Type 0 where
  pub length_value : Option Codes
  pub charset : Option Codes

abbrev pub no_header : Header
no_header = record { length_value = none; charset = none }

unfoldable pub header_line : Codes → Header → Header
header_line line h =
    let (raw_name, value) = partition b':' line in
    let name = lower (strip raw_name) in
    if codes_equal name (codes "content-length")
    then record h { length_value = some (strip value) }
    else if codes_equal name (codes "content-type")
    then record h { charset = charset_of value }
    else h

-- One turn of the loop of `_read_header_part`, on what its line gives.
abbrev pub on_line :
    (Header → Stream → Reading Header) → Header → Reading (Option Codes) → Reading Header
on_line again h (eof partial) = eof partial
on_line again h (got none rest) = again h rest
on_line again h (got (some []) rest) = got h rest
on_line again h (got (some (c ∷ line)) rest) = again (header_line (c ∷ line) h) rest

-- The loop, with fuel: each line takes at least its two end bytes.
unfoldable pub read_lines : ℕ → Header → Stream → Reading Header
unfolding read_header_line
read_lines zero h s = eof []
read_lines (suc fuel) h s = on_line (λ g rest. read_lines fuel g rest) h (read_header_line s)

unfoldable pub read_header_part : Stream → Reading Header
unfolding read_lines
read_header_part s = read_lines (suc (length (total s))) no_header s

-- [0-9]{1,18}
abbrev pub all_digits : Codes → Bool
all_digits [] = true
all_digits (c ∷ s) = leb b'0' c && leb c b'9' && all_digits s

unfoldable pub is_valid_length : Codes → Bool
is_valid_length [] = false
is_valid_length s = all_digits s && leb (length s) 18

-- int(raw_length), of digits.
unfoldable pub int_of : ℕ → Codes → ℕ
int_of acc [] = acc
int_of acc (c ∷ s) = int_of (acc * 10 + (c - b'0')) s

-- What `_read_message` does with one message: it reports a header part that it cannot use, answers
-- a message that is too long and skips its content, or starts the handling of the content.
pub data Received : Type 0 where
  no_length : Received
  bad_length : Codes → Received
  too_big : ℕ → Received
  content : (charset : Option Codes) → Bytes → Received

-- reader.read(n) once there is data: at most `n` of the bytes that have arrived, none at EOF.
abbrev pub fill : Bytes → List Bytes → Bytes × List Bytes
fill (b ∷ buffer) coming = (b ∷ buffer, coming)
fill [] [] = ([], [])
fill [] (chunk ∷ coming) = fill chunk coming

unfoldable pub read_some : ℕ → Stream → Bytes × Stream
read_some n s =
    let (buffer, coming) = fill s.buffer s.coming in
    (take n buffer, record s { buffer = drop n buffer; coming = coming })

-- The loop of `_skip_content`, with fuel: each round takes a byte at least, or ends.
abbrev pub on_chunk : (ℕ → Stream → Stream) → ℕ → Bytes × Stream → Stream
on_chunk again n ([], rest) = rest
on_chunk again n (b ∷ chunk, rest) = again (n - length (b ∷ chunk)) rest

unfoldable pub skip : ℕ → ℕ → Stream → Stream
unfolding read_some
skip zero n s = s
skip (suc fuel) n s =
    let round = on_chunk (λ m rest. skip fuel m rest) n (read_some (min n 65536) s) in
    if n == 0 then s else round

unfoldable pub skip_content : ℕ → Stream → Stream
unfolding skip
skip_content n s = skip n n s

abbrev pub above : ℕ → Option ℕ → Bool
above n none = false
above n (some most) = ltb most n

abbrev pub on_content : Option Codes → Read → Reading Received
on_content charset (bytes body rest) = got (content charset body) rest
on_content charset (incomplete partial) = eof partial
on_content charset (overrun k rest) = eof []

unfoldable pub read_content : Option ℕ → Option Codes → ℕ → Stream → Reading Received
read_content max_message_size charset n s =
    if above n max_message_size
    then got (too_big n) (skip_content n s)
    else on_content charset (read_exactly s.limit n s.buffer s.coming)

abbrev pub with_length : Option ℕ → Option Codes → Stream → Option Codes → Reading Received
with_length max_message_size charset s none = got no_length s
with_length max_message_size charset s (some raw) =
    if is_valid_length raw
    then read_content max_message_size charset (int_of 0 raw) s
    else got (bad_length raw) s

unfoldable pub read_with : Option ℕ → Header → Stream → Reading Received
unfolding read_content
read_with max_message_size h s = with_length max_message_size h.charset s h.length_value

abbrev pub on_header : Option ℕ → Reading Header → Reading Received
on_header max_message_size (eof partial) = eof partial
on_header max_message_size (got h rest) = read_with max_message_size h rest

unfoldable pub read_message : Option ℕ → Stream → Reading Received
unfolding read_with
read_message max_message_size s = on_header max_message_size (read_header_part s)

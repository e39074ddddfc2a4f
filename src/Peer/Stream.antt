-- ===== src/Peer/Stream.antt =====
-- What the peer uses of asyncio.StreamReader: `readuntil(b"\r\n")`, `readexactly` and `read`, over
-- the bytes in the buffer and the chunks that are still to come; after the last chunk is EOF.
pub mod Until
use robotframework_jsonrpcre.Base.{
  ℕ, suc, Bool, true, false, Option, none, some, List, [], ◌∷◌, ◌++◌, ◌+◌, ◌-◌, ◌&&◌, length, take,
  drop, ltb, leb, ◌==◌, if◌then◌else◌,
}
use robotframework_jsonrpcre.Peer.State.{Bytes}

pub record Stream : Type 0 where
  pub buffer : Bytes
  pub coming : List Bytes
  pub limit : ℕ

abbrev pub concat : List Bytes → Bytes
concat [] = []
concat (c ∷ cs) = c ++ concat cs

-- All the bytes up to EOF.
abbrev pub total : Stream → Bytes
total s = s.buffer ++ concat s.coming

abbrev shift : Option ℕ → Option ℕ
shift none = none
shift (some i) = some (suc i)

-- The place of the first CR LF.
unfoldable pub find_crlf : Bytes → Option ℕ
find_crlf [] = none
find_crlf (c ∷ []) = none
find_crlf (c ∷ d ∷ s) = if c == 13 && d == 10 then some 0 else shift (find_crlf (d ∷ s))

-- A look at the buffer: the separator is there, the limit is passed (LimitOverrunError, with the
-- bytes to consume), or more bytes are needed.
pub data Scan : Type 0 where
  found : ℕ → Scan
  over : ℕ → Scan
  more : Scan

unfoldable pub scan : ℕ → Bytes → Scan
scan limit buffer = elim (find_crlf buffer) [
  | some i ↦ if ltb limit i then over i else found i
  | none ↦ if ltb limit (length buffer - 1) then over (length buffer - 1) else more
]

-- What a read gives: bytes, asyncio.LimitOverrunError or asyncio.IncompleteReadError.
pub data Read : Type 0 where
  bytes : Bytes → Stream → Read
  overrun : ℕ → Stream → Read
  incomplete : Bytes → Read

abbrev at_buffer : ℕ → Bytes → List Bytes → ℕ → Read
at_buffer limit buffer coming n =
    bytes (take n buffer) (record { buffer = drop n buffer; coming = coming; limit = limit })

unfoldable pub read_until : ℕ → Bytes → List Bytes → Read
read_until limit buffer [] = elim (scan limit buffer) [
  | found i ↦ at_buffer limit buffer [] (i + 2)
  | over k ↦ overrun k (record { buffer = buffer; coming = []; limit = limit })
  | more ↦ incomplete buffer
]
read_until limit buffer (chunk ∷ coming) =
    let rest = read_until limit (buffer ++ chunk) coming in
    elim (scan limit buffer) [
      | found i ↦ at_buffer limit buffer (chunk ∷ coming) (i + 2)
      | over k ↦ overrun k (record { buffer = buffer; coming = chunk ∷ coming; limit = limit })
      | more ↦ rest
    ]

unfoldable pub read_exactly : ℕ → ℕ → Bytes → List Bytes → Read
read_exactly limit n buffer [] =
    if leb n (length buffer) then at_buffer limit buffer [] n else incomplete buffer
read_exactly limit n buffer (chunk ∷ coming) =
    let rest = read_exactly limit n (buffer ++ chunk) coming in
    if leb n (length buffer) then at_buffer limit buffer (chunk ∷ coming) n else rest

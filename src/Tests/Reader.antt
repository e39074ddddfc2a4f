-- ===== src/Tests/Reader.antt =====
-- The theorems on the reading of messages at concrete inputs.
use robotframework_jsonrpcre.Base.{arith, [], some, ◌++◌, ◌∷◌, refl}
use robotframework_jsonrpcre.Peer.Stream.{Stream}
use robotframework_jsonrpcre.Base.Codes.{codes_equal, lower, strip, partition}
use robotframework_jsonrpcre.Peer.State.{Bytes}
use robotframework_jsonrpcre.Base.Decimal.{decimal}
use robotframework_jsonrpcre.Base.Codes.{codes}
use robotframework_jsonrpcre.Peer.Send.{ascii, frame}
use robotframework_jsonrpcre.Peer.Reader.Frame.{length_line, read_message-frame}
use robotframework_jsonrpcre.Peer.Reader.{
  no_header, header_line, is_valid_length, int_of, read_message,
}
use robotframework_jsonrpcre.Peer.Reader.HeaderPart.{IsLine, header_of}
use robotframework_jsonrpcre.Peer.Reader.Framing.{Leaves, received, read_message-Leaves}

-- "ab", CR LF and "c", in two chunks that break the line end.
abbrev chunks : Stream
chunks = record { buffer = 97 ∷ 98 ∷ 13 ∷ []; coming = (10 ∷ 99 ∷ []) ∷ []; limit = 10 }

-- "Content-Length: 2" and a message "hi", with the next one behind it, in two chunks.
abbrev first_line : Bytes
first_line = ascii "Content-Length: 2"

abbrev message_bytes : Bytes
message_bytes = first_line ++ (13 ∷ 10 ∷ 13 ∷ 10 ∷ 104 ∷ [])

abbrev message_chunks : Stream
message_chunks = record { buffer = message_bytes; coming = (105 ∷ 67 ∷ []) ∷ []; limit = 100 }

first_line-IsLine : IsLine first_line
first_line-IsLine = (
  refl,
  (
    refl,
    (
      refl,
      (
        refl,
        (
          refl,
          (
            refl,
            (
              refl,
              (refl, (refl, (refl, (refl, (refl, (refl, (refl, (refl, (refl, (refl, tt)))))))))),
            ),
          ),
        ),
      ),
    ),
  ),
)

read_message-Leaves_example :
    Leaves
      (received (some 1) (header_of 100 (first_line ∷ []) no_header).charset (104 ∷ 105 ∷ []))
      (67 ∷ [])
      (read_message (some 1) message_chunks)
unfolding header_line is_valid_length int_of codes_equal lower strip partition
read_message-Leaves_example =
    read_message-Leaves (some 1) message_chunks (first_line ∷ []) (104 ∷ 105 ∷ []) (67 ∷ [])
      (first_line-IsLine, tt) refl (refl, refl)

-- The frame of "hi", with the first byte of the next one.
abbrev framed : Stream
framed = record { buffer = frame [] (104 ∷ 105 ∷ []); coming = (67 ∷ []) ∷ []; limit = 100 }

read_message-frame_example :
    Leaves
      (received
        (some 5)
        (header_of 100 (length_line (codes (decimal 2)) ∷ []) no_header).charset
        (104 ∷ 105 ∷ []))
      (67 ∷ [])
      (read_message (some 5) framed)
unfolding decimal
read_message-frame_example =
    read_message-frame (some 5) framed [] (104 ∷ 105 ∷ []) (67 ∷ []) tt tt (omega arith)
      (omega arith) refl

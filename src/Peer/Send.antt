-- ===== src/Peer/Send.antt =====
-- Writing frames and answers: `_encode_message`, `_write_frame`, `_encode_response`, `_write_answer`
-- and `_answer_problem` of packages/jsonrpcpeer/src/jsonrpcpeer/peer.py.
use Prim.Native.Char.{code}
use Prim.Native.String
use robotframework_jsonrpcre.Base.{
  ℕ, String, Option, none, some, [], ◌∷◌, ◌++◌, length, ltb, if◌then◌else◌,
}
use robotframework_jsonrpcre.Base.Decimal.{decimal}
use robotframework_jsonrpcre.Base.Result.{Result, ok, err, ◌>>=◌, Exception}
use robotframework_jsonrpcre.Value.{Value, null}
use robotframework_jsonrpcre.Peer.Message.{
  JsonRpcErrorCode, internal_error, Message, response, message_value, Response, failure,
  response_id,
}
use robotframework_jsonrpcre.Peer.State.{
  Peer, Runtime, Bytes, write_fails, drain_fails, report_problem, traceback_data,
}
use robotframework_jsonrpcre.Peer.Dispatch.{Finished, finished, died, error_of}

-- text.encode("ascii"), of an ASCII text.
abbrev pub ascii : String → Bytes
ascii String.[] = []
ascii (String.◌∷◌ c s) = code c ∷ ascii s

abbrev pub crlf : Bytes
crlf = 13 ∷ 10 ∷ []

-- The header part and the content of a frame.
unfoldable pub frame : Bytes → Bytes → Bytes
frame content_type_field body =
    ascii "Content-Length: "
    ++ (ascii (decimal (length body)) ++ (crlf ++ (content_type_field ++ (crlf ++ body))))

-- ValueError("Outgoing message size … exceeds maximum …")
too_long : ℕ → ℕ → Exception
too_long size most = record {
  type_name = "ValueError";
  message =
      String.◌++◌ "Outgoing message size "
        (String.◌++◌ (decimal size) (String.◌++◌ " exceeds maximum " (decimal most)));
  trace = "";
}

within : Option ℕ → Bytes → Result Exception Bytes
within none body = ok body
within (some most) body =
    if ltb most (length body) then err (too_long (length body) most) else ok body

module _ {S P : Type 0} where
  -- `_write_frame`: writer.write
  unfoldable pub write_frame : Bytes → Peer S P → Result Exception (Peer S P)
  write_frame body p =
      let written = record p { sent = p.sent ++ frame p.config.content_type_field body ∷ [] } in
      elim p.writer [ write_fails x ↦ err x | _ ↦ ok written ]

  -- `await self.writer.drain()`
  unfoldable pub drain : Peer S P → Result Exception (Unit {0})
  drain p = elim p.writer [ drain_fails x ↦ err x | _ ↦ ok tt ]

  -- The exceptions of the write and of drain() are dropped.
  unfoldable pub write_answer : Bytes → Peer S P → Peer S P
  unfolding write_frame
  write_answer body p = elim (write_frame body p) [ ok q ↦ q | err x ↦ p ]

module _ {S P : Type 0} (env : Runtime P) where
  unfoldable pub encode_message : Message → Peer S P → Result Exception Bytes
  unfolding within too_long
  encode_message m p = do
    written ← env.dumps (message_value m)
    body ← env.encode (String.◌++◌ written "\r\n")
    within p.config.max_message_size body

  -- The answer that stands for one that cannot be sent.
  unfoldable pub substitute : Response → Exception → Peer S P → Response
  substitute r x p =
      failure (response_id r) (error_of internal_error x.message (traceback_data x p))

  unfoldable pub encode_response : Response → Peer S P → Result Exception Bytes
  unfolding encode_message
  encode_response r p = elim (encode_message (response r) p) [
    | ok body ↦ ok body
    | err x ↦ do
      written ← env.dumps (message_value (response (substitute r x p)))
      ok (env.encode_any (String.◌++◌ written "\r\n"))
  ]

  -- The end of a message's task: the answer is written, if it could be encoded.
  abbrev pub write_encoded : Result Exception Bytes → Peer S P → Finished (Unit {0}) × Peer S P
  write_encoded (ok body) p = (finished tt, write_answer body p)
  write_encoded (err x) p = (died x, p)

  unfoldable pub answer_problem :
      JsonRpcErrorCode → String → Value → Peer S P → Finished (Unit {0}) × Peer S P
  answer_problem code problem error_data p =
      let reported = report_problem problem p in
      write_encoded (encode_response (failure null (error_of code problem error_data)) reported)
        reported

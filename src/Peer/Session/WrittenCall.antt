-- ===== src/Peer/Session/WrittenCall.antt =====
-- A call across two peers as it is written: from the content of the request's frame to the future of the
-- call, by `handle_message` on both sides (packages/jsonrpcpeer/src/jsonrpcpeer/peer.py).
use Prim.Native.String
use robotframework_jsonrpcre.Base.{
  ℕ, String, true, Option, none, some, List, [], ◌∷◌, ◌++◌, ◌≡◌, refl, subst, ◌∙◌, inl, inr, arith,
}
use robotframework_jsonrpcre.Base.Dict.{lookup}
use robotframework_jsonrpcre.Base.Decimal.{decimal}
use robotframework_jsonrpcre.Base.Result.{ok, err, Result-cases, Exception}
use robotframework_jsonrpcre.Value.{Value, text}
use robotframework_jsonrpcre.Peer.Message.{
  internal_error, invalid_params, JsonRpcRequest, JsonRpcError, Response, result, failure, request,
  response, response_id, message_value, is_usable_id,
}
use robotframework_jsonrpcre.Peer.State.{
  Peer, Runtime, Config, Bytes, works, traceback_data, Future, waiting, resolved, failed,
  response_error, set_future, HandlerEntry,
}
use robotframework_jsonrpcre.Peer.Dispatch.{
  Call, Finished, finished, died, error_of, with_answer, answer_call, call_handler, process_request,
  process_single_message,
}
use robotframework_jsonrpcre.Peer.Send.{
  frame, write_answer, write_frame, encode_message, encode_response,
}
use robotframework_jsonrpcre.Peer.Handle.{write_single, handle_message}
use robotframework_jsonrpcre.Peer.Handle.Written.{
  WritesErrors, encode_response_total, write_answer-sent,
}
use robotframework_jsonrpcre.Peer.Handle.Frames.{Kept, process_single_message-Kept}
use robotframework_jsonrpcre.Peer.Session.RemoteCall.{
  is_params, process_single_message-request, response_result, response_failure,
}

-- The answer that one side writes is read on the other as what was written: the response itself, or the
-- internal error in its place.
abbrev pub ReadsAnswer : {S P Q : Type 0} → Runtime P → Runtime Q → Peer S Q → Response → Type 0
ReadsAnswer reader writer q r =
    ((body : Bytes)
      → encode_message writer (response r) q ≡ ok body
      → reader.loads (reader.decode body) ≡ ok (message_value (response r)))
    × ((x : Exception) (s : String)
        → encode_message writer (response r) q ≡ err x
        → let e = message_value (
            response
              (failure (response_id r) (error_of internal_error x.message (traceback_data x q)))) in
          writer.dumps e ≡ ok s
          → reader.loads (reader.decode (writer.encode_any (String.◌++◌ s "\r\n"))) ≡ ok e)

-- The error in place of an answer that cannot be sent.
abbrev pub unsent : {S P : Type 0} → Exception → Peer S P → Future
unsent x q = failed (response_error (error_of internal_error x.message (traceback_data x q)))

abbrev pub failure_sent_as :
    {S P : Type 0} → Runtime P → Peer S P → Value → JsonRpcError → Option Future
failure_sent_as env q id e = elim (encode_message env (response (failure id e)) q) [
  | ok body ↦ some (failed (response_error e))
  | err x ↦ some (unsent x q)
]

-- What the answer of a handler is for the caller: what it stands for, if it can be written and is not
-- too long, and otherwise an internal error that says why.
abbrev pub sent_as : {S P : Type 0} → Runtime P → Peer S P → Value → Call → Option Future
sent_as env q id Call.cancelled = none
sent_as env q id (Call.value v) = elim (encode_message env (response (result id v)) q) [
  | ok body ↦ some (resolved v)
  | err x ↦ some (unsent x q)
]
sent_as env q id (Call.response_error e) = failure_sent_as env q id e
sent_as env q id (Call.bad_params x) =
    failure_sent_as env q id (error_of invalid_params x.message (traceback_data x q))
sent_as env q id (Call.crashed x) =
    failure_sent_as env q id (error_of internal_error x.message (traceback_data x q))

module _ {S P : Type 0} (here : Runtime P) where
  write_answer-futures : (body : Bytes) (p : Peer S P) → (write_answer body p).futures ≡ p.futures
  unfolding write_answer write_frame
  write_answer-futures body p = ground arith

  write_single-futures :
      (r : Finished (Option Response) × Peer S P) → (write_single here r).1.futures ≡ r.1.futures
  unfolding write_single
  write_single-futures (finished none, p) = refl
  write_single-futures (finished (some r), p) = elim (Result-cases (encode_response here r p)) [
    | inl (body, e) ↦ rw e (write_answer-futures body p)
    | inr (x, e) ↦ rw e refl
  ]
  write_single-futures (Finished.cancelled, p) = refl
  write_single-futures (died x, p) = refl

  read_answer :
      (r : Response) (body : Bytes) (p : Peer S P)
      → here.loads (here.decode body) ≡ ok (message_value (response r))
      → (handle_message here (here.decode body) p).1.futures
        ≡ (process_single_message here (message_value (response r)) p).1.futures
  unfolding handle_message message_value
  read_answer (result id v) body p h = rw (h, handle_message) (write_single-futures _)
  read_answer (failure id e) body p h = rw (h, handle_message) (write_single-futures _)

module _ {T Q : Type 0} (there : Runtime Q) where
  answer_call-peer : (id : Value) (c : Call × Peer T Q) → (with_answer (answer_call id c)).1 ≡ c.1
  unfolding answer_call
  answer_call-peer id (Call.value v, q) = refl
  answer_call-peer id (Call.response_error e, q) = refl
  answer_call-peer id (Call.bad_params x, q) = refl
  answer_call-peer id (Call.crashed x, q) = refl
  answer_call-peer id (Call.cancelled, q) = refl

  handled-sent :
      (id : Value) (c : Call × Peer T Q) (q : Peer T Q) (r : Finished (Option Response) × Peer T Q)
      → r ≡ with_answer (answer_call id c)
      → Kept q r.1
      → Kept q c.1
  handled-sent id c q r h k = rw (h, answer_call-peer id c) at k

  read_request :
      (m : JsonRpcRequest) (body : Bytes) (q : Peer T Q)
      → there.loads (there.decode body) ≡ ok (message_value (request m))
      → handle_message there (there.decode body) q
        ≡ write_single there (process_single_message there (message_value (request m)) q)
  unfolding handle_message message_value
  read_request m body q h = rw (h, handle_message) refl

  handled_call :
      (n : ℕ) (method : String) (params : Value) (entry : HandlerEntry T Q) (q : Peer T Q)
      → is_params params ≡ true
      → lookup method q.request_handlers ≡ some entry
      → let m : JsonRpcRequest = record {
        method = method;
        id = text (decimal n);
        params = params;
      } in
        process_single_message there (message_value (request m)) q
        ≡ with_answer (answer_call (text (decimal n)) (call_handler there entry params q))
  unfolding process_request is_usable_id
  handled_call n method params entry q k e =
      process_single_message-request there
        (record { method = method; id = text (decimal n); params = params }) q refl k
      ∙ rw (e, process_request) refl

module _ {S P T Q : Type 0} (here : Runtime P) (there : Runtime Q)
    (writes : WritesErrors there) where
  -- How a call ends, from the frames that the other side had sent: one more frame, which this side's
  -- future takes, or none if the handler was cancelled.
  abbrev pub Ends :
      Bytes → List Bytes → ℕ → Peer S P → Option Future → Finished (Unit {0}) × Peer T Q → Type 0
  Ends field sent n p (some f) (finished done, q) =
      (body : Bytes) × (q.sent ≡ sent ++ frame field body ∷ [])
      × ((handle_message here (here.decode body) p).1.futures ≡ set_future n f p.futures)
  Ends field sent n p none (Finished.cancelled, q) = q.sent ≡ sent
  Ends field sent n p _ _ = ⊥

  response-Ends :
      (n : ℕ) (p : Peer S P) (q : Peer T Q) (r : Response) (f : Future)
      → lookup (decimal n) p.pending_requests ≡ some n
      → p.futures n ≡ waiting
      → q.writer ≡ works
      → response_id r ≡ text (decimal n)
      → ReadsAnswer here there q r
      → (process_single_message here (message_value (response r)) p).1.futures
        ≡ set_future n f p.futures
      → Ends q.config.content_type_field q.sent n p
          (elim (encode_message there (response r) q) [
            | ok body ↦ some f
            | err x ↦ some (unsent x q)
          ])
          (write_single there (finished (some r), q))
  unfolding write_single is_usable_id
  response-Ends n p q r f h w live i reads d =
      let (body, e, stands) = encode_response_total there writes r q (rw i refl) in
      elim stands [
        | inl k ↦
            rw (k, e)
              (body, write_answer-sent body q live, read_answer here r body p (reads.0 body k) ∙ d)
        | inr (x, s, k, dumped, b) ↦
            let problem = error_of internal_error x.message (traceback_data x q) in
            rw (k, e)
              (
                body,
                write_answer-sent body q live,
                read_answer here (failure (response_id r) problem) body p
                      (rw b (reads.1 x s k dumped))
                    ∙ rw i (response_failure here n problem p h w),
              )
      ]

  call-Ends :
      (n : ℕ) (p : Peer S P) (c : Call × Peer T Q)
      → lookup (decimal n) p.pending_requests ≡ some n
      → p.futures n ≡ waiting
      → c.1.writer ≡ works
      → ((r : Response)
          → (answer_call (text (decimal n)) c).0 ≡ finished r
          → ReadsAnswer here there c.1 r)
      → Ends c.1.config.content_type_field c.1.sent n p
          (sent_as there c.1 (text (decimal n)) c.0)
          (write_single there (with_answer (answer_call (text (decimal n)) c)))
  unfolding answer_call write_single
  call-Ends n p (Call.value v, q) h w k reads =
      response-Ends n p q _ (resolved v) h w k refl (reads _ refl) (response_result here n v p h w)
  call-Ends n p (Call.response_error e, q) h w k reads =
      response-Ends n p q _ _ h w k refl (reads _ refl) (response_failure here n e p h w)
  call-Ends n p (Call.bad_params x, q) h w k reads =
      response-Ends n p q _ _ h w k refl (reads _ refl) (response_failure here n _ p h w)
  call-Ends n p (Call.crashed x, q) h w k reads =
      response-Ends n p q _ _ h w k refl (reads _ refl) (response_failure here n _ p h w)
  call-Ends n p (Call.cancelled, q) h w k reads = refl

  Ends-Kept :
      (n : ℕ) (p : Peer S P) (q c : Peer T Q) (o : Option Future)
      (r : Finished (Unit {0}) × Peer T Q)
      → Kept q c
      → Ends c.config.content_type_field c.sent n p o r
      → Ends q.config.content_type_field q.sent n p o r
  Ends-Kept n p q c o r kept ends =
      subst (λ (config : Config). Ends config.content_type_field q.sent n p o r) kept.same_config
        (subst (λ (sent : List Bytes). Ends c.config.content_type_field sent n p o r) kept.same_sent
          ends)

  -- A call across two peers: the content that was written here for request `n`, which waits, is handled
  -- there, where its method has a handler, the transport takes writes, and the JSON encoder writes
  -- error responses with a plain id. Unless the handler is cancelled, one more frame is written there.
  -- Its content, handled here, sets the future of request `n`, and no other: to what the handler
  -- returned, or to the error that stands for what it raised, if this can be written and is not too
  -- long, and otherwise to an internal error that says why. The request and the answer are read on the
  -- other side as what was written.
  pub written_call :
      (n : ℕ) (method : String) (params : Value) (entry : HandlerEntry T Q) (p : Peer S P)
      (q : Peer T Q) (body : Bytes)
      → lookup (decimal n) p.pending_requests ≡ some n
      → p.futures n ≡ waiting
      → is_params params ≡ true
      → lookup method q.request_handlers ≡ some entry
      → q.writer ≡ works
      → let m : JsonRpcRequest = record {
        method = method;
        id = text (decimal n);
        params = params;
      } in
        let called = call_handler there entry params q in
        encode_message here (request m) p ≡ ok body
        → (encode_message here (request m) p ≡ ok body
            → there.loads (there.decode body) ≡ ok (message_value (request m)))
        → ((r : Response)
            → (answer_call (text (decimal n)) called).0 ≡ finished r
            → ReadsAnswer here there called.1 r)
        → Ends q.config.content_type_field q.sent n p
            (sent_as there called.1 (text (decimal n)) called.0)
            (handle_message there (there.decode body) q)
  written_call n method params entry p q body h w k e live written read reads =
      let m : JsonRpcRequest = record { method = method; id = text (decimal n); params = params } in
      let called = call_handler there entry params q in
      let same = handled_call there n method params entry q k e in
      let kept =
        handled-sent there (text (decimal n)) called q _ same
          (process_single_message-Kept there (message_value (request m)) q) in
      let ends = call-Ends n p called h w (kept.same_writer ∙ live) reads in
      rw (read_request there m body q (read written), same)
        (Ends-Kept n p q called.1 (sent_as there called.1 (text (decimal n)) called.0)
          (write_single there (with_answer (answer_call (text (decimal n)) called))) kept ends)

-- ===== src/Peer/Dispatch/Answers.antt =====
-- Which messages are answered, and under which id.
use robotframework_jsonrpcre.Base.{
  String, Bool, true, false, Option, none, some, not, ◌&&◌, ◌||◌, ◌≡◌, refl, arith, if◌then◌else◌,
  Option-cases, inl, inr,
}
use robotframework_jsonrpcre.Base.Dict.{lookup, has}
use robotframework_jsonrpcre.Value.{Value, null, text, object, Fields, fields, is_none, get}
use robotframework_jsonrpcre.Peer.Message.{
  JsonRpcRequest, Response, response_id, is_usable_id, is_version,
}
use robotframework_jsonrpcre.Peer.State.{Peer, Runtime}
use robotframework_jsonrpcre.Peer.Dispatch.{
  Call, Finished, finished, answer_call, call_handler, process_request, is_structure,
  process_notification, no_answer, with_answer, process_call, process_method,
  process_single_message, invalid_message,
}

-- The id under which a message is answered: its own, if it is a text or an integer.
abbrev pub reply_id : Value → Value
reply_id (object message) = let id = get "id" message in if is_usable_id id then id else null
reply_id _ = null

abbrev is_text : Value → Bool
is_text (text s) = true
is_text _ = false

-- A response: an id and no method.
abbrev pub is_response : Fields → Bool
is_response message = has "id" (fields message) && not (has "method" (fields message))

-- A notification as JSON-RPC 2.0 defines it: the version, a method, no id, and params, if it has
-- any, that are an array or an object.
abbrev is_notification : Fields → Bool
is_notification message =
    not (has "id" (fields message))
    && is_version (get "jsonrpc" message)
    && is_text (get "method" message)
    && (is_none (get "params" message) || is_structure (get "params" message))

-- The messages that JSON-RPC 2.0 leaves unanswered.
abbrev pub is_silent : Value → Bool
is_silent (object message) = is_response message || is_notification message
is_silent _ = false

-- What is known of an answer, whichever way the message went.
abbrev pub Answers {ℓ} : {A : Type 0} → (A → Type ℓ) → Finished A → Type ℓ
Answers Q (finished a) = Q a
Answers Q _ = Unit

abbrev pub AnswersTo : Bool → Value → Option Response → Type 0
AnswersTo silent id none = silent ≡ true
AnswersTo silent id (some r) = (silent ≡ false) × (response_id r ≡ id)

module _ {S P : Type 0} where
  answer_call-id :
      (id : Value) (c : Call × Peer S P) → Answers (λ r. response_id r ≡ id) (answer_call id c).0
  unfolding answer_call
  answer_call-id id (Call.value v, p) = refl
  answer_call-id id (Call.bad_params x, p) = refl
  answer_call-id id (Call.response_error e, p) = refl
  answer_call-id id (Call.crashed x, p) = refl
  answer_call-id id (Call.cancelled, p) = tt

  no_answer-Answers :
      (silent : Bool) (id : Value) (r : Finished (Unit {0}) × Peer S P)
      → silent ≡ true
      → Answers (AnswersTo silent id) (no_answer r).0
  no_answer-Answers silent id (finished _, p) h = h
  no_answer-Answers silent id (Finished.cancelled, p) h = tt
  no_answer-Answers silent id (Finished.died x, p) h = tt

  with_answer-Answers :
      (silent : Bool) (id : Value) (r : Finished Response × Peer S P)
      → Answers (λ a. response_id a ≡ id) r.0
      → silent ≡ false
      → Answers (AnswersTo silent id) (with_answer r).0
  with_answer-Answers silent id (finished _, p) h k = (k, h)
  with_answer-Answers silent id (Finished.cancelled, p) h k = tt
  with_answer-Answers silent id (Finished.died x, p) h k = tt

module _ {S P : Type 0} (env : Runtime P) where
  pub process_request-id :
      (m : JsonRpcRequest) (p : Peer S P)
      → Answers (λ r. response_id r ≡ m.id) (process_request env m p).0
  unfolding process_request
  process_request-id m p = elim (Option-cases (lookup m.method p.request_handlers)) [
    | inl e ↦ rw (e, process_request) refl
    | inr (entry, e) ↦
        rw (e, process_request) (answer_call-id m.id (call_handler env entry m.params p))
  ]

  process_call-Answers :
      (method : String) (message : Fields) (p : Peer S P)
      → is_response message ≡ false
      → is_version (get "jsonrpc" message) ≡ true
      → is_text (get "method" message) ≡ true
      → Answers
          (AnswersTo (is_silent (object message)) (reply_id (object message)))
          (process_call env method message (reply_id (object message)) p).0
  unfolding process_call invalid_message
  process_call-Answers method message p h k l =
      let id = reply_id (object message) in
      let silent = is_silent (object message) in
      let params = get "params" message in
      ground (
        arith,
        no_answer-Answers silent id
            (process_notification env (record { method = method; params = params }) p),
        with_answer-Answers silent id
            (process_request env (record { method = method; id = id; params = params }) p),
        process_request-id (record { method = method; id = id; params = params }) p,
      )

  process_method-Answers :
      (m : Value) (message : Fields) (p : Peer S P)
      → get "method" message ≡ m
      → is_response message ≡ false
      → is_version (get "jsonrpc" message) ≡ true
      → Answers
          (AnswersTo (is_silent (object message)) (reply_id (object message)))
          (process_method env m message (reply_id (object message)) p).0
  unfolding process_method invalid_message
  process_method-Answers (text method) message p e h k =
      process_call-Answers method message p h k (rw e refl)
  process_method-Answers _ message p e h k = (rw (h, e) (ground arith), refl)

  -- A message that is handled to its end gets an answer exactly when it is neither a response nor a
  -- valid notification, and the answer has the id of the message, or null where that is not usable.
  pub process_single_message-Answers :
      (v : Value) (p : Peer S P)
      → Answers (AnswersTo (is_silent v) (reply_id v)) (process_single_message env v p).0
  unfolding process_single_message invalid_message
  process_single_message-Answers (object message) p =
      ground (arith, process_method-Answers (get "method" message) message p refl)
  process_single_message-Answers _ p = (refl, refl)

-- ===== src/Peer/Handle/Written.antt =====
-- What the handling of one message writes.
use Prim.Native.String
use robotframework_jsonrpcre.Base.{
  String, Bool, true, false, Option, none, some, List, [], ◌∷◌, ◌++◌, ◌||◌, ◌≡◌, refl, arith, ap,
  ◌∙◌, inl, inr, ◌⊎◌,
}
use mathlib.Core.Path.{ap₂}
use robotframework_jsonrpcre.Base.Result.{ok, err, Result-cases, Exception}
use robotframework_jsonrpcre.Value.{Value, array, object, is_none}
use robotframework_jsonrpcre.Peer.Message.{
  internal_error, Response, response, response_id, failure, message_value, is_usable_id,
}
use robotframework_jsonrpcre.Peer.State.{Peer, Runtime, Bytes, Config, works, traceback_data}
use robotframework_jsonrpcre.Peer.Dispatch.{
  Finished, finished, died, error_of, process_single_message,
}
use robotframework_jsonrpcre.Peer.Dispatch.Answers.{
  Answers, AnswersTo, is_silent, reply_id, process_single_message-Answers,
}
use robotframework_jsonrpcre.Peer.Send.{
  frame, write_frame, write_answer, encode_message, encode_response, substitute,
}
use robotframework_jsonrpcre.Peer.Handle.{write_single, handle_message}
use robotframework_jsonrpcre.Peer.Handle.Frames.{Kept, process_single_message-Kept}

-- None, a text or an integer.
abbrev pub is_plain : Value → Bool
is_plain v = is_none v || is_usable_id v

-- The JSON encoder writes an internal error whose id and data are plain.
abbrev pub WritesErrors : {P : Type 0} → Runtime P → Type 0
WritesErrors env =
    (id error_data : Value) (problem : String)
    → is_plain id ≡ true
    → is_plain error_data ≡ true
    → (s : String) × (env.dumps
          (message_value (response (failure id (error_of internal_error problem error_data))))
        ≡ ok s)

-- One more frame, unless the message is one that gets no answer.
abbrev pub Writes : {S P : Type 0} → Bool → Peer S P → Peer S P → Type 0
Writes true p q = q.sent ≡ p.sent
Writes false p q = (body : Bytes) × (q.sent ≡ p.sent ++ frame p.config.content_type_field body ∷ [])

-- The other side's message gives one JSON value that is no array.
abbrev is_single : Value → Bool
is_single (array vs) = false
is_single v = true

reply_id-plain : (v : Value) → is_plain (reply_id v) ≡ true
unfolding is_usable_id
reply_id-plain (object message) = ground arith
reply_id-plain _ = refl

module _ {S P : Type 0} where
  traceback_data-plain : (x : Exception) (p : Peer S P) → is_plain (traceback_data x p) ≡ true
  unfolding traceback_data is_usable_id
  traceback_data-plain x p = ground arith

  pub write_answer-sent :
      (body : Bytes) (p : Peer S P)
      → p.writer ≡ works
      → (write_answer body p).sent ≡ p.sent ++ frame p.config.content_type_field body ∷ []
  unfolding write_answer write_frame
  write_answer-sent body p h = ground arith

-- The content of an answer: the response itself, or, where this cannot be written or is too long, an
-- internal error with the reason, under the same id.
abbrev pub Stands : {S P : Type 0} → Runtime P → Response → Peer S P → Bytes → Type 0
Stands env r p body =
    (encode_message env (response r) p ≡ ok body)
    ⊎ ((x : Exception) × (s : String) × (encode_message env (response r) p ≡ err x)
        × (env.dumps (
              message_value (
                response (
                  failure (response_id r)
                    (error_of internal_error x.message (traceback_data x p)))))
            ≡ ok s)
        × (body ≡ env.encode_any (String.◌++◌ s "\r\n")))

module _ {S P : Type 0} (env : Runtime P) (writes : WritesErrors env) where
  pub encode_response_total :
      (r : Response) (p : Peer S P)
      → is_plain (response_id r) ≡ true
      → (body : Bytes) × (encode_response env r p ≡ ok body) × Stands env r p body
  unfolding encode_response substitute
  encode_response_total r p h = elim (Result-cases (encode_message env (response r) p)) [
    | inl (body, e) ↦ (body, rw (e, encode_response) refl, inl e)
    | inr (x, e) ↦
        let (s, k) =
          writes (response_id r) (traceback_data x p) x.message h (traceback_data-plain x p) in
        (
          env.encode_any (String.◌++◌ s "\r\n"),
          rw (e, encode_response) (rw k refl),
          inr (x, s, e, k, refl),
        )
  ]

  write_single-Writes :
      (silent : Bool) (id : Value) (p : Peer S P) (r : Finished (Option Response) × Peer S P)
      → is_plain id ≡ true
      → Answers (AnswersTo silent id) r.0
      → Kept p r.1
      → p.writer ≡ works
      → Answers (λ _. Writes silent p (write_single env r).1) (write_single env r).0
  unfolding write_single
  write_single-Writes true id p (finished none, q) h a k w = k.same_sent
  write_single-Writes false id p (finished none, q) h a k w = absurd (cc)
  write_single-Writes true id p (finished (some r), q) h a k w = absurd (ground arith)
  write_single-Writes false id p (finished (some r), q) h a k w =
      let (body, e, _) = encode_response_total r q (rw a.1 h) in
      rw e (
        body,
        write_answer-sent body q (k.same_writer ∙ w)
            ∙ ap₂ (λ (sent : List Bytes) (field : Bytes). sent ++ frame field body ∷ []) k.same_sent
                (ap (λ (c : Config). c.content_type_field) k.same_config),
      )
  write_single-Writes _ id p (Finished.cancelled, q) h a k w = tt
  write_single-Writes _ id p (died x, q) h a k w = tt

  handle_message-single :
      (json : String) (v : Value) (p : Peer S P)
      → env.loads json ≡ ok v
      → is_single v ≡ true
      → handle_message env json p ≡ write_single env (process_single_message env v p)
  unfolding handle_message
  handle_message-single json (array vs) p h k = cc
  handle_message-single json (object fs) p h k = rw (h, handle_message)
  handle_message-single json _ p h k = rw (h, handle_message)

  -- A message that is handled to its end writes exactly one frame, whatever its handler did, and
  -- none if it is a response or a valid notification. The transport takes writes, and the JSON
  -- encoder writes error responses with a plain id.
  pub handle_message-Writes :
      (json : String) (v : Value) (p : Peer S P)
      → env.loads json ≡ ok v
      → is_single v ≡ true
      → p.writer ≡ works
      → Answers
          (λ _. Writes (is_silent v) p (handle_message env json p).1)
          (handle_message env json p).0
  handle_message-Writes json v p h k w = rw (handle_message-single json v p h k) (
      write_single-Writes (is_silent v) (reply_id v) p (process_single_message env v p)
        (reply_id-plain v) (process_single_message-Answers env v p)
        (process_single_message-Kept env v p) w)

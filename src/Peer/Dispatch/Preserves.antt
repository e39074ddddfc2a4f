-- ===== src/Peer/Dispatch/Preserves.antt =====
-- A relation between the peer before and after holds across a request or a notification if it holds
-- across the reports of problems and the changes that handlers make to what the application holds.
use robotframework_jsonrpcre.Base.{String, ◌≡◌, refl, arith, Option-cases, inl, inr}
use robotframework_jsonrpcre.Base.Dict.{lookup}
use robotframework_jsonrpcre.Base.Result.{Result, ok, err, Exception}
use robotframework_jsonrpcre.Value.{Value, text, Fields, get}
use robotframework_jsonrpcre.Peer.Message.{JsonRpcRequest, JsonRpcNotification, Response}
use robotframework_jsonrpcre.Peer.State.{Peer, Runtime, HandlerEntry, report_problem}
use robotframework_jsonrpcre.Peer.Dispatch.{
  Call, Finished, finished, died, run_handler, answer_call, report_call, invalid_message,
  call_handler, process_request, process_notification, no_answer, with_answer, process_call,
  process_method,
}

pub record Preserving {S P : Type 0} (R : Peer S P → Peer S P → Type 0) : Type 0 where
  pub same : (p : Peer S P) → R p p
  pub then : (p q r : Peer S P) → R p q → R q r → R p r
  pub reports : (problem : String) (p : Peer S P) → R p (report_problem problem p)
  pub runs : (app : S) (p : Peer S P) → R p (record p { app = app })

module _ {S P : Type 0} (R : Peer S P → Peer S P → Type 0) (keeps : Preserving R) where
  run_handler-Preserves :
      (entry : HandlerEntry S P) (converted : Result Exception Value) (p : Peer S P)
      → R p (run_handler entry converted p).1
  unfolding run_handler
  run_handler-Preserves entry (err x) p = keeps.same p
  run_handler-Preserves entry (ok v) p = keeps.runs _ p

  report_call-Preserves : (method : String) (c : Call × Peer S P) → R c.1 (report_call method c).1
  unfolding report_call
  report_call-Preserves method (Call.value v, p) = keeps.same p
  report_call-Preserves method (Call.bad_params x, p) = keeps.reports _ p
  report_call-Preserves method (Call.response_error e, p) = keeps.reports _ p
  report_call-Preserves method (Call.crashed x, p) = keeps.reports _ p
  report_call-Preserves method (Call.cancelled, p) = keeps.same p

module _ {S P : Type 0} where
  answer_call-state : (id : Value) (c : Call × Peer S P) → (answer_call id c).1 ≡ c.1
  unfolding answer_call
  answer_call-state id (Call.value v, p) = refl
  answer_call-state id (Call.bad_params x, p) = refl
  answer_call-state id (Call.response_error e, p) = refl
  answer_call-state id (Call.crashed x, p) = refl
  answer_call-state id (Call.cancelled, p) = refl

  no_answer-state : (r : Finished (Unit {0}) × Peer S P) → (no_answer r).1 ≡ r.1
  no_answer-state (finished _, p) = refl
  no_answer-state (Finished.cancelled, p) = refl
  no_answer-state (died x, p) = refl

  with_answer-state : (r : Finished Response × Peer S P) → (with_answer r).1 ≡ r.1
  with_answer-state (finished _, p) = refl
  with_answer-state (Finished.cancelled, p) = refl
  with_answer-state (died x, p) = refl

module _ {S P : Type 0} (env : Runtime P) (R : Peer S P → Peer S P → Type 0)
    (keeps : Preserving R) where
  pub process_request-Preserves :
      (m : JsonRpcRequest) (p : Peer S P) → R p (process_request env m p).1
  unfolding process_request call_handler
  process_request-Preserves m p = elim (Option-cases (lookup m.method p.request_handlers)) [
    | inl e ↦ rw (e, process_request) (keeps.same p)
    | inr (entry, e) ↦
        rw (e, process_request) (rw answer_call-state (run_handler-Preserves R keeps entry _ p))
  ]

  pub process_notification-Preserves :
      (m : JsonRpcNotification) (p : Peer S P) → R p (process_notification env m p).1
  unfolding process_notification call_handler
  process_notification-Preserves m p =
      elim (Option-cases (lookup m.method p.notification_handlers)) [
        | inl e ↦ rw (e, process_notification) (keeps.same p)
        | inr (entry, e) ↦
            rw (e, process_notification)
              (keeps.then p _ _ (run_handler-Preserves R keeps entry _ p)
                (report_call-Preserves R keeps m.method _))
      ]

  process_call-Preserves :
      (method : String) (message : Fields) (id : Value) (p : Peer S P)
      → R p (process_call env method message id p).1
  unfolding process_call invalid_message
  process_call-Preserves method message id p =
      let params = get "params" message in
      let m : JsonRpcRequest = record { method = method; id = id; params = params } in
      let n : JsonRpcNotification = record { method = method; params = params } in
      ground (
        arith,
        keeps.reports "Invalid Request: the params must be an array or an object" p,
        keeps.reports "Invalid Request: the id must be a string or an integer" p,
        no_answer-state (process_notification env n p),
        with_answer-state (process_request env m p),
        process_notification-Preserves n p,
        process_request-Preserves m p,
      )

  pub process_method-Preserves :
      (m : Value) (message : Fields) (id : Value) (p : Peer S P)
      → R p (process_method env m message id p).1
  unfolding process_method invalid_message
  process_method-Preserves (text method) message id p = process_call-Preserves method message id p
  process_method-Preserves _ message id p = keeps.reports _ p

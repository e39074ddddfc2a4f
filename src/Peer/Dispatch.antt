-- ===== src/Peer/Dispatch.antt =====
-- How a message from the other side is handled: `_call_handler`, `process_request`,
-- `process_notification`, `process_single_message`, `_handle_batch` and `handle_message` of
-- packages/jsonrpcpeer/src/jsonrpcpeer/peer.py. A handler changes what the application holds.
pub mod Answers
pub mod Preserves
use robotframework_jsonrpcre.Base.{
  ℕ, String, Bool, Option, none, some, List, [], ◌∷◌, not, ◌&&◌, ◌||◌, map, format, if◌then◌else◌,
}
use robotframework_jsonrpcre.Base.Dict.{lookup, has}
use robotframework_jsonrpcre.Base.Result.{Result, ok, err, Exception}
use robotframework_jsonrpcre.Value.{
  Value, null, text, array, object, Fields, items, fields, is_none, get,
}
use robotframework_jsonrpcre.Peer.Message.{
  JsonRpcErrorCode, parse_error, invalid_request, method_not_found, invalid_params, internal_error,
  code_value, JsonRpcError, JsonRpcRequest, JsonRpcNotification, Response, result, failure,
  is_usable_id, is_version,
}
use robotframework_jsonrpcre.Peer.State.{
  Peer, Runtime, HandlerEntry, Outcome, returned, raised_response, raised, report_problem,
  traceback_data,
}
use robotframework_jsonrpcre.Peer.State
use robotframework_jsonrpcre.Peer.Responses.{handle_response}

-- What `_call_handler` returns or raises. The exception of invalid params is `_InvalidParamsError`,
-- with the message of the conversion.
pub data Call : Type 0 where
  value : Value → Call
  bad_params : Exception → Call
  response_error : JsonRpcError → Call
  crashed : Exception → Call
  cancelled : Call

-- A message's task comes to its end, is cancelled while a handler runs, or ends by an exception.
pub data Finished (A : Type 0) : Type 0 where
  finished : A → Finished A
  cancelled : Finished A
  died : Exception → Finished A

abbrev pub error_of : JsonRpcErrorCode → String → Value → JsonRpcError
error_of c m d = record { code = code_value c; message = m; error_data = d }

abbrev outcome_call : Outcome → Call
outcome_call (returned v) = value v
outcome_call (raised_response e) = response_error e
outcome_call (raised x) = crashed x
outcome_call State.cancelled = Call.cancelled

-- isinstance(params, (dict, list))
abbrev pub is_structure : Value → Bool
is_structure (array vs) = Bool.true
is_structure (object fs) = Bool.true
is_structure _ = Bool.false

module _ {S P : Type 0} where
  -- handler(self, converted) or handler(converted), and its result awaited.
  unfoldable pub run_handler :
      HandlerEntry S P → Result Exception Value → Peer S P → Call × Peer S P
  run_handler entry (err x) p = (bad_params x, p)
  run_handler entry (ok converted) p =
      let (outcome, app') = entry.handler.call entry.pass_peer converted p.app in
      (outcome_call outcome, record p { app = app' })

  -- The answer to request `id`, by what its handler did.
  unfoldable pub answer_call : Value → Call × Peer S P → Finished Response × Peer S P
  answer_call id (value v, p) = (finished (result id v), p)
  answer_call id (response_error e, p) = (finished (failure id e), p)
  answer_call id (bad_params x, p) =
      (finished (failure id (error_of invalid_params x.message (traceback_data x p))), p)
  answer_call id (crashed x, p) =
      (finished (failure id (error_of internal_error x.message (traceback_data x p))), p)
  answer_call id (Call.cancelled, p) = (Finished.cancelled, p)

  unfoldable pub report_call : String → Call × Peer S P → Finished (Unit {0}) × Peer S P
  report_call method (value v, p) = (finished tt, p)
  report_call method (bad_params x, p) = (
    finished tt,
    report_problem
        (format ("The params of notification '" ∷ method ∷ "' are invalid: " ∷ x.message ∷ [])) p,
  )
  report_call method (response_error e, p) = (
    finished tt,
    report_problem
        (format ("The handler of notification '" ∷ method ∷ "' failed: " ∷ e.message ∷ [])) p,
  )
  report_call method (crashed x, p) = (
    finished tt,
    report_problem
        (format ("The handler of notification '" ∷ method ∷ "' failed: " ∷ x.message ∷ [])) p,
  )
  report_call method (Call.cancelled, p) = (Finished.cancelled, p)

  -- `_invalid_message`: reported, and the answer.
  unfoldable pub invalid_message : String → Value → Peer S P → Finished (Option Response) × Peer S P
  invalid_message problem id p = (
    finished (some (failure id (error_of invalid_request problem null))),
    report_problem problem p,
  )

  abbrev pub no_answer : Finished (Unit {0}) × Peer S P → Finished (Option Response) × Peer S P
  no_answer (finished _, p) = (finished none, p)
  no_answer (Finished.cancelled, p) = (Finished.cancelled, p)
  no_answer (died x, p) = (died x, p)

  abbrev pub with_answer : Finished Response × Peer S P → Finished (Option Response) × Peer S P
  with_answer (finished r, p) = (finished (some r), p)
  with_answer (Finished.cancelled, p) = (Finished.cancelled, p)
  with_answer (died x, p) = (died x, p)

module _ {S P : Type 0} (env : Runtime P) where
  unfoldable pub call_handler : HandlerEntry S P → Value → Peer S P → Call × Peer S P
  unfolding run_handler
  call_handler entry params p = run_handler entry (env.from_dict entry.param_type params) p

  unfoldable pub process_request : JsonRpcRequest → Peer S P → Finished Response × Peer S P
  process_request m p = elim (lookup m.method p.request_handlers) [
    | some entry ↦ answer_call m.id (call_handler entry m.params p)
    | none ↦ (
      finished (
          failure m.id (
            error_of method_not_found
              (format ("Method for request `" ∷ m.method ∷ "` not found" ∷ [])) null)),
      p,
    )
  ]

  unfoldable pub process_notification :
      JsonRpcNotification → Peer S P → Finished (Unit {0}) × Peer S P
  process_notification m p = elim (lookup m.method p.notification_handlers) [
    | some entry ↦ report_call m.method (call_handler entry m.params p)
    | none ↦ (finished tt, p)
  ]

  -- `process_single_message` from the check of the params on; `usable_id` is null if the id is not.
  unfoldable pub process_call :
      String → Fields → Value → Peer S P → Finished (Option Response) × Peer S P
  process_call method message usable_id p =
      let params = get "params" message in
      if not (is_none params) && not (is_structure params)
      then invalid_message "Invalid Request: the params must be an array or an object" usable_id p
      else if not (has "id" (fields message))
      then no_answer (process_notification (record { method = method; params = params }) p)
      else if is_none usable_id
      then invalid_message "Invalid Request: the id must be a string or an integer" null p
      else with_answer
          (process_request (record { method = method; id = usable_id; params = params }) p)

  -- The check of the method, on message.get("method").
  unfoldable pub process_method :
      Value → Fields → Value → Peer S P → Finished (Option Response) × Peer S P
  process_method (text method) message usable_id p = process_call method message usable_id p
  process_method _ message usable_id p =
      invalid_message "Invalid Request: a message needs a string as its method" usable_id p

  unfoldable pub process_single_message : Value → Peer S P → Finished (Option Response) × Peer S P
  process_single_message (object message) p =
      let id = get "id" message in
      if has "id" (fields message) && not (has "method" (fields message))
      then (finished none, handle_response env message id p)
      else let usable_id = if is_usable_id id then id else null in
        if not (is_version (get "jsonrpc" message))
        then invalid_message "Invalid JSON-RPC version" usable_id p
        else process_method (get "method" message) message usable_id p
  process_single_message _ p = invalid_message "Invalid JSON-RPC payload" null p

-- ===== src/Client/Call.antt =====
-- A keyword call of the client: `JsonRpcRemote.run_keyword`, `_Session.run_keyword` and `_ClientEndpoint` of
-- src/JsonRpcRemote/__init__.py.
pub mod Level
use robotframework_jsonrpcre.Base.{
  ℕ, Bool, true, false, not, Option, none, some, List, [], ◌∷◌, ◌++◌, String, ◌≡◌, refl, ◌=ₛ◌, ◌==◌,
  if◌then◌else◌, format, map,
}
use robotframework_jsonrpcre.Base.Int.{ℤ}
use robotframework_jsonrpcre.Base.Result.{Result, ok, err, ◌>>=◌, Exception}
use robotframework_jsonrpcre.Value.{Value, null}
use robotframework_jsonrpcre.Jsonable.{Pickle, value_to_jsonable, jsonable_to_value}
use robotframework_jsonrpcre.Protocol.{RunKeywordError, RunKeywordResult, ServerCapabilities}
use robotframework_jsonrpcre.Client.Failure.{RemoteError, keyword_failure}
use robotframework_jsonrpcre.Client.LogSink.{Event, LogSink, attach, detach}
use robotframework_jsonrpcre.Client.LogSink

-- `_describe_error`
abbrev pub describe_error : Exception → String
describe_error e =
    if e.message =ₛ "" then e.type_name else format (e.type_name ∷ ": " ∷ e.message ∷ [])

-- What is sent to the server.
pub data Sent : Type 0 where
  set_log_level : String → Sent
  run_keyword_sent : (token name : String) → List Value → List (String × Value) → Sent
  finalize_library_sent : (token : String) → Sent
  shutdown_sent : Sent
  exit_sent : Sent

-- _ClientEndpoint, with what it has sent, in this order.
pub record Endpoint : Type 0 where
  pub log_level : Option String
  pub library_token : Option String
  pub server_capabilities : Option ServerCapabilities
  pub sent : List Sent

abbrev pub send : Sent → Endpoint → Endpoint
send m e = record e { sent = e.sent ++ (m ∷ []) }

abbrev pub is_level : String → Option String → Bool
is_level l none = false
is_level l (some k) = l =ₛ k

-- The exception that was raised, if one was, and the endpoint after it.
abbrev pub Done : Type 0
Done = Option Exception × Endpoint

abbrev pub told : Option Exception → String → Endpoint → Done
told none l e = (none, send (set_log_level l) e)
told (some x) l e = (some x, e)

-- `report_log_level`; `failure` is what sending the message raises.
unfoldable pub report_log_level : (failure : Option Exception) → Option String → Endpoint → Done
report_log_level failure none e = (none, e)
report_log_level failure (some l) e =
    if is_level l e.log_level then (none, e) else told failure l (record e { log_level = some l })

abbrev no_token : Exception
no_token = record {
  type_name = "RuntimeError";
  message = "Library token is not initialized yet";
  trace = "";
}

abbrev pub and_then : Done → (Endpoint → Done) → Done
and_then (none, e) go = go e
and_then (some x, e) go = (some x, e)

abbrev pub with_token : Option String → Endpoint → (String → Done) → Done
with_token none e go = (some no_token, e)
with_token (some token) e go = go token

-- `_Session.run_keyword` up to the wait for the answer.
unfoldable pub begin_run :
    (failure : Option Exception)
    → (name : String) → List Value
    → List (String × Value)
    → Option String
    → Endpoint
    → Done
unfolding report_log_level
begin_run failure name args named level e = with_token e.library_token e (λ token.
    and_then (report_log_level failure level e)
      (λ f. (none, send (run_keyword_sent token name args named) f)))

abbrev pub supports_exit : Option ServerCapabilities → Bool
supports_exit none = false
supports_exit (some c) = elim c.support_exit [ none ↦ false | some b ↦ b ]

abbrev finalized : Option String → Endpoint → Endpoint
finalized none e = e
finalized (some token) e = send (finalize_library_sent token) e

-- `graceful_shutdown` on a connected endpoint: every step is tried, whatever comes of the one before.
unfoldable pub graceful_shutdown : Endpoint → Endpoint
graceful_shutdown e =
    let shut_down = send shutdown_sent (finalized e.library_token e) in
    if supports_exit e.server_capabilities then send exit_sent shut_down else shut_down

-- `loss_cause` of a session that has ended, by its error and the exit code of its process, as a text.
abbrev cause_of : Option Exception → String
cause_of none = "the connection was closed by the server"
cause_of (some e) = describe_error e

unfoldable pub loss_cause : Option Exception → (exit_code : Option String) → String
loss_cause e none = cause_of e
loss_cause e (some code) =
    format (cause_of e ∷ " (server process exited with code " ∷ code ∷ ")" ∷ [])

abbrev connection_error : List String → Exception
connection_error parts = record {
  type_name = "ConnectionError";
  message = format parts;
  trace = "";
}

abbrev while_running : Option String → String
while_running none = ""
while_running (some keyword) = format (" while running keyword '" ∷ keyword ∷ "'" ∷ [])

unfoldable pub lost_error : (uri : String) → Option String → (cause : String) → Exception
lost_error uri keyword cause =
    connection_error
      ("Connection to '" ∷ uri ∷ "' was lost" ∷ while_running keyword ∷ ": " ∷ cause ∷ [])

unfoldable pub closed_error : (uri : String) → Exception
closed_error uri = connection_error ("Connection to '" ∷ uri ∷ "' is closed" ∷ [])

-- `_response_failure`, with `data` as its text.
unfoldable pub response_failure : (mark message : String) → Option String → RemoteError
response_failure mark message text_of_data = keyword_failure mark (record {
  error_message = message;
  error_type = none;
  error_traceback = text_of_data;
  mode = none;
})

-- `_attempts`, with the number's text.
unfoldable pub attempts_text : (digits : String) → ℕ → String
attempts_text digits n =
    if n == 1 then format (digits ∷ " attempt" ∷ []) else format (digits ∷ " attempts" ∷ [])

-- What the wait for a submitted call comes to.
pub data Answer : Type 0 where
  result : RunKeywordResult → Answer
  response_error : (message : String) → Option String → Answer
  raised : Exception → Answer

-- What a keyword raises.
pub data Raised : Type 0 where
  remote : RemoteError → Raised
  exception : Exception → Raised

-- An exception of the call: that of a broken connection or a cancellation, which `is_connection` tells, is
-- replaced on a lost session.
abbrev pub reraise : (is_connection : Exception → Bool) → Option Exception → Exception → Raised
reraise is_connection none x = exception x
reraise is_connection (some lost) x = if is_connection x then exception lost else exception x

abbrev or_null : Option Value → Value
or_null none = null
or_null (some v) = v

abbrev unpickled : (Exception → Raised) → Result Exception Value → Result Raised Value
unpickled again (ok v) = ok v
unpickled again (err x) = err (again x)

abbrev take_result :
    Pickle
    → (mark : String) → (Exception → Raised)
    → RunKeywordResult
    → Option RunKeywordError
    → Result Raised Value
take_result pickle mark again r (some e) = err (remote (keyword_failure mark e))
take_result pickle mark again r none =
    unpickled again (jsonable_to_value pickle (or_null r.run_result))

-- `run_keyword` after the wait; `lost` is the session's `lost_error`, if it is lost.
unfoldable pub finish_run :
    Pickle
    → (mark : String) → (is_connection : Exception → Bool) → (lost : Option Exception) → Answer
    → Result Raised Value
unfolding jsonable_to_value response_failure
finish_run pickle mark is_connection lost (result r) =
    take_result pickle mark (reraise is_connection lost) r r.run_error
finish_run pickle mark is_connection lost (response_error message d) =
    err (remote (response_failure mark message d))
finish_run pickle mark is_connection lost (raised x) = err (reraise is_connection lost x)

-- `run_keyword` of JsonRpcRemote on a session: what it sends, what it gives, and its log sink; what
-- happens to the sink while it waits, messages and turns of the loop, is `during`.
pub record Run : Type 0 where
  pub endpoint : Endpoint
  pub outcome : Result Raised Value
  pub sink : LogSink

-- `submit` raises, and the call never runs.
abbrev accepted : Option Exception → Endpoint → Done → Done
accepted none e begun = begun
accepted (some x) e begun = (some x, e)

abbrev after_begin : Done → Answer → Answer
after_begin (none, e) a = a
after_begin (some x, e) a = raised x

unfoldable pub run_keyword :
    Pickle
    → (mark : String) → (is_connection : Exception → Bool) → (lost : Option Exception)
    → (rejection : Option Exception) → (failure : Option Exception) → (name : String) → List Value
    → List (String × Value)
    → (level : Option String) → Answer
    → (during : List Event) → Endpoint
    → LogSink
    → Run
unfolding begin_run finish_run LogSink.run
run_keyword pickle mark is_connection lost rejection failure name args named level answer during e
      sink =
    let begun = accepted rejection e (
      begin_run failure name (map (value_to_jsonable pickle) args)
        (map (λ (p : String × Value). (p.0, value_to_jsonable pickle p.1)) named) level e) in
    record {
      endpoint = begun.1;
      outcome = finish_run pickle mark is_connection lost (after_begin begun answer);
      sink = detach (LogSink.run during (attach sink));
    }

-- ===== src/Tests/Client.antt =====
-- The theorems on the client and the protocol at concrete inputs.
use robotframework_jsonrpcre.Base.{some, ℕ, true, false, none, List, [], ◌∷◌, ◌++◌, ◌+◌, ◌≡◌, refl}
use robotframework_jsonrpcre.Base.Result.{ok, err, Exception}
use robotframework_jsonrpcre.Protocol.{KeywordDefinition, LibraryDefinition}
use robotframework_jsonrpcre.Client.LogSink.{
  LogMessage, Event, submitted, attached, drained, turned, loop_closed, detached, run, new,
}
use robotframework_jsonrpcre.Client.LogSink.Order.{count, run-count, run_in_order}
use robotframework_jsonrpcre.Client.Failure.{
  ExecutionFailed, run_keyword_error, keyword_failure, kind_of, keyword_failure-run_keyword_error,
}
use robotframework_jsonrpcre.Client.Retry.{
  Texts, reconnected, ensure_session, failed, Session, Client, Attempt, connect_with_retry,
}
use robotframework_jsonrpcre.Client.Retry.Definition.{until_connected, until_connected-Checked}
use robotframework_jsonrpcre.Client.Retry.Attempts.{
  after_failures, then_call, connect_with_retry-window, connect_with_retry-spent,
}

abbrev note : LogMessage
note = record { text = "note"; level = "INFO"; html = false; console = none }

abbrev late : LogMessage
late = record { text = "late"; level = "WARN"; html = false; console = none }

abbrev events : List Event
events =
    submitted note
    ∷ attached
    ∷ submitted late
    ∷ turned
    ∷ loop_closed
    ∷ submitted note
    ∷ detached
    ∷ []

run_in_order_example :
    (run events new).written ++ ((run events new).queued ++ (run events new).waiting)
    ≡ note ∷ late ∷ note ∷ []
unfolding run
run_in_order_example = run_in_order events (refl, (refl, tt))

-- A message that overtakes another, and one that is dropped.
abbrev overtaken : List Event
overtaken =
    attached
    ∷ submitted note
    ∷ detached
    ∷ submitted late
    ∷ drained
    ∷ turned
    ∷ attached
    ∷ submitted note
    ∷ loop_closed
    ∷ []

overtaken_ends :
    ((run overtaken new).written ≡ late ∷ note ∷ []) × ((run overtaken new).dropped ≡ note ∷ [])
unfolding run
overtaken_ends = (refl, refl)

run-count_example :
    count (λ m. true) (run overtaken new).written
      + count (λ m. true) (run overtaken new).queued
      + count (λ m. true) (run overtaken new).waiting
      + count (λ m. true) (run overtaken new).dropped
    ≡ count (λ m. true) (note ∷ late ∷ note ∷ [])
run-count_example = run-count (λ m. true) overtaken

abbrev failure : ExecutionFailed
failure = record {
  failure_message = "no";
  skip = false;
  exit = true;
  continue_on_failure = true;
  original = none;
}

keyword_failure-run_keyword_error_example :
    ((keyword_failure "" (run_keyword_error failure)).remote_message ≡ "no")
    × (kind_of
          (keyword_failure "" (run_keyword_error failure)).is_skip
          (keyword_failure "" (run_keyword_error failure)).is_fatal
          (keyword_failure "" (run_keyword_error failure)).is_continuable
        ≡ kind_of false true true)
keyword_failure-run_keyword_error_example = keyword_failure-run_keyword_error "" failure

abbrev client : Client
client = record {
  session = none;
  outage = none;
  incompatible = none;
  registered_definition = none;
  with_retry = true;
  stopped_sessions = [];
  reports = [];
}

abbrev refused : Exception
refused = record { type_name = "ConnectionRefusedError"; message = "refused"; trace = "" }

abbrev spent : Exception → ℕ → Exception
spent e n = e

abbrev a_session : Session
a_session = record { session_id = 1; library_definition = none; loss = none }

abbrev fails : Attempt
fails = record { outcome = err refused; remains = true }

abbrev connects : Attempt
connects = record { outcome = ok a_session; remains = true }

abbrev fails_last : Attempt
fails_last = record { outcome = err refused; remains = false }

connect_with_retry-window_example :
    connect_with_retry spent (fails ∷ fails_last ∷ []) client
    ≡ failed (spent refused 2) (after_failures 2 true client)
connect_with_retry-window_example =
    connect_with_retry-window spent (fails ∷ []) fails_last [] client refl refl ((refl, refl), tt)
      refl

connect_with_retry-spent_example :
    then_call spent
      (connect_with_retry spent (fails ∷ fails_last ∷ []) client)
      (fails ∷ connects ∷ [])
    ≡ failed refused (after_failures 3 true client)
connect_with_retry-spent_example =
    connect_with_retry-spent spent (fails ∷ []) fails_last [] refused fails (connects ∷ []) client
      refl refl ((refl, refl), tt) refl refl

abbrev a_keyword : KeywordDefinition
a_keyword = record {
  keyword_name = "Open";
  keyword_args = [];
  keyword_doc = none;
  tags = none;
  keyword_source = none;
  keyword_lineno = none;
}

abbrev a_library : LibraryDefinition
a_library = record {
  library_name = "Lib";
  keywords = a_keyword ∷ [];
  doc = none;
  doc_format = none;
  scope = none;
  version = none;
  source = none;
  lineno = none;
}

abbrev a_loss : Session
a_loss = record { session_id = 0; library_definition = none; loss = some "reset" }

abbrev lost_client : Client
lost_client = record client { session = some a_loss }

abbrev texts : Texts
texts = record {
  definition_changes = λ a b. "";
  connection_error = λ s. refused;
  describe_changes = λ s. s;
  spent_error = spent;
  lost_error = λ s. refused;
}

-- The client after the reconnect, in the second call.
abbrev reconnected_client : Client
reconnected_client = record client {
  session = some a_session;
  stopped_sessions = 0 ∷ [];
  reports = reconnected "reset" 3 ∷ [];
}

until_connected-Checked_example :
    texts.definition_changes lost_client.registered_definition a_session.library_definition ≡ ""
unfolding until_connected ensure_session
until_connected-Checked_example =
    until_connected-Checked texts ((fails ∷ fails_last ∷ []) ∷ (connects ∷ []) ∷ []) a_loss "reset"
      lost_client a_session reconnected_client refl refl refl

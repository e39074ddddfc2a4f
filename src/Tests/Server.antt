-- ===== src/Tests/Server.antt =====
-- The theorems on the server at concrete inputs.
use robotframework_jsonrpcre.Base.{some, ℕ, true, false, none, [], ◌∷◌, String, ◌≡◌, refl, eq_refl}
use robotframework_jsonrpcre.Base.Dict.{contains, add, discard}
use robotframework_jsonrpcre.Base.Result.{Result, ok, Exception}
use robotframework_jsonrpcre.Protocol.{InitializeParams, ImportLibraryParams, LibraryDefinition}
use robotframework_jsonrpcre.Server.Runner as Runner
use robotframework_jsonrpcre.Server.Runner.{
  LogMessage, Queued, next_round, Ran, returned, Context, is_pending, submit, enqueue, request,
}
use robotframework_jsonrpcre.Server.Runner.Sound.{in_queue}
use robotframework_jsonrpcre.Server.Runner.Routing.{next_round-given}
use robotframework_jsonrpcre.Server.Runner.Steps as Steps
use robotframework_jsonrpcre.Server.Runner.Steps.{no_command_forgotten}
use robotframework_jsonrpcre.Server.Endpoint.{
  request_started, request_finished, Endpoint, begin_import, started, end_import,
}
use robotframework_jsonrpcre.Server.Library.{LibraryKeyword, choose_keyword, choose_keyword-exact}
use robotframework_jsonrpcre.Server.Endpoint.Idle as Idle
use robotframework_jsonrpcre.Server.Endpoint.Idle.{Running-idle}
use robotframework_jsonrpcre.Server.Endpoint.Tokens as Tokens
use robotframework_jsonrpcre.Server.Endpoint.Tokens.{connected, no_library_left}

abbrev set_log_level : String → ℕ → Result Exception ℕ
set_log_level level robot = ok robot

abbrev command : ℕ → Ran ℕ ℕ
command robot = record { messages = []; ending = returned 1; robot_after = robot }

abbrev levels : ℕ → String
levels i = "INFO"

-- A context with one command.
abbrev busy : Context ℕ ℕ
busy = enqueue command none (Runner.init levels 0)

no_command_forgotten_example : (in_queue 0 busy.command_queue ≡ true) × (busy.closed ≡ false)
unfolding request submit
no_command_forgotten_example =
    no_command_forgotten set_log_level levels 0 busy
      (Steps.step Steps.here
        (Steps.submitted "run_keyword" command none (0, busy) (λ robot. refl) refl))
      0 refl

abbrev params : ImportLibraryParams
params = record { import_name = ""; import_args = none; import_kw_args = none }

-- A connection after the handshake, to a server with one library.
abbrev pub ready : Endpoint
ready = record ((connected ("Lib" ∷ []) "e").endpoint) {
  initialize_received = true;
  initialized_received = true;
}

abbrev greeting : InitializeParams
greeting = record {
  client_capabilities = none;
  client_info = none;
  initialization_options = none;
  trace_value = none;
  initial_log_level = none;
}

abbrev definition : LibraryDefinition
definition = record {
  library_name = "Lib";
  keywords = [];
  doc = none;
  doc_format = none;
  scope = none;
  version = none;
  source = none;
  lineno = none;
}

-- The state after an import whose library is stored, while the client leaves.
abbrev token : String
token = (started "Lib" params ready).0.token

abbrev over : Tokens.Connection
over = record {
  endpoint = record ready { next_token_id = 1; disconnected = true };
  importing = discard token (add token []);
  held = discard token (add token []);
  finalizing = discard token (add token []);
  turns = [];
}

added : (t : String) → contains t (add t []) ≡ true
unfolding add contains
added t = rw (eq_refl t) refl

emptied : (t : String) → discard t (add t []) ≡ []
unfolding discard add contains
emptied t = rw (eq_refl t) refl

no_library_left_example : contains token over.held ≡ false
unfolding begin_import end_import contains
no_library_left_example =
    no_library_left ("Lib" ∷ []) "e" over
      (Tokens.step
        (Tokens.step
          (Tokens.step
            (Tokens.step
              (Tokens.step
                (Tokens.step (Tokens.step Tokens.here (Tokens.greeted "1" greeting))
                  Tokens.confirmed)
                (Tokens.asked params (started "Lib" params ready) refl))
              (Tokens.stored token (added token)))
            Tokens.left)
          (Tokens.import_ended_late token definition refl))
        (Tokens.finalized token))
      refl refl (emptied token) (emptied token) token

-- A keyword with an embedded argument.
abbrev a_keyword : LibraryKeyword
a_keyword = record {
  name = "Open ${door}";
  args = [];
  doc = "";
  tags = [];
  source = "";
  lineno = none;
  embedded = true;
}

choose_keyword-exact_example : a_keyword.name ≡ "Open ${door}"
unfolding choose_keyword
choose_keyword-exact_example =
    choose_keyword-exact "Open ${door}" "Lib" (a_keyword ∷ []) a_keyword refl refl

abbrev log : String → LogMessage
log level = record { text = "no"; level = level; html = false; timestamp = "" }

-- A command of subscriber 3 that fails, with a traceback behind the failure.
abbrev logging : Queued ℕ ℕ
logging = record {
  command = λ robot. record {
    messages = log "FAIL" ∷ log "DEBUG" ∷ log "INFO" ∷ [];
    ending = returned 1;
    robot_after = robot;
  };
  future = 0;
  subscriber = some 3;
}

next_round-given_example :
    (next_round set_log_level (logging ∷ []) busy).given ≡ (3, log "FAIL") ∷ (3, log "INFO") ∷ []
next_round-given_example = next_round-given set_log_level logging [] busy

-- Two handlers have started, and one of them has ended.
abbrev one_left : Endpoint
one_left = request_finished (request_started (request_started ((connected [] "e").endpoint)))

Running-idle_example : (one_left.requests_in_progress ≡ 1) × (one_left.idle ≡ false)
Running-idle_example =
    Running-idle [] "e" 1 one_left (Idle.ends (Idle.starts (Idle.starts Idle.connected)))

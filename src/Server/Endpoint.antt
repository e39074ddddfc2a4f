-- ===== src/Server/Endpoint.antt =====
-- RobotServerEndpoint: what the server does for one client connection.
-- packages/server/src/robot_jsonrpcremote_server/_endpoint.py. A handler that waits for the runner is two
-- functions: up to the wait, and after it.
pub mod Guards
pub mod Idle
pub mod Tokens
use robotframework_jsonrpcre.Base.{
  ℕ, suc, ◌-◌, Bool, true, false, not, Option, none, some, List, [], ◌∷◌, ◌++◌, String, ◌&&◌, ◌||◌,
  ◌==◌, ◌=ₛ◌, if◌then◌else◌, format,
}
use robotframework_jsonrpcre.Base.Dict.{contains, add, discard}
use robotframework_jsonrpcre.Base.Decimal.{decimal}
use robotframework_jsonrpcre.Base.Int.{ℤ, negsuc}
use robotframework_jsonrpcre.Base.Result.{Result, ok, err, Exception}
use robotframework_jsonrpcre.Value.{Value, Fields, end}
use robotframework_jsonrpcre.Protocol.{
  robot_code_value, not_initialized, LogLevel, trace, debug, info, warn, error, console, html,
  InitializeParams, InitializeResult, SetLogLevelParams, ImportLibraryParams, ImportLibraryResult,
  LibraryDefinition, RunKeywordParams, RunKeywordResult, RunKeywordError, LogParams,
}

-- JsonRpcResponseError
pub record ResponseError : Type 0 where
  pub code : ℤ
  pub message : String

pub record Endpoint : Type 0 where
  pub server_libraries : List String
  pub client_log_level : String
  pub initialize_received : Bool
  pub initialized_received : Bool
  pub endpoint_id : String
  pub next_token_id : ℕ
  pub imported_tokens : List String
  pub disconnected : Bool
  pub shutdown_received : Bool
  pub registered : Bool
  pub has_peer : Bool
  pub requests_in_progress : ℕ
  pub idle : Bool

-- RobotServerEndpoint.__init__, once it has its peer; the id is from uuid4.
abbrev pub init : List String → String → Endpoint
init libraries id = record {
  server_libraries = libraries;
  client_log_level = "INFO";
  initialize_received = false;
  initialized_received = false;
  endpoint_id = id;
  next_token_id = 0;
  imported_tokens = [];
  disconnected = false;
  shutdown_received = false;
  registered = true;
  has_peer = true;
  requests_in_progress = 0;
  idle = true;
}

abbrev pub request_started : Endpoint → Endpoint
request_started e = record e { requests_in_progress = suc e.requests_in_progress; idle = false }

unfoldable pub request_finished : Endpoint → Endpoint
request_finished e =
    let d = record e { requests_in_progress = e.requests_in_progress - 1 } in
    if d.requests_in_progress == 0 then record d { idle = true } else d

abbrev pub cleanup : Endpoint → Endpoint
cleanup e = record e {
  registered = false;
  initialize_received = false;
  initialized_received = false;
  has_peer = false;
}

-- The level is upper-cased first, by `upper` of Python.
unfoldable pub protocol_level : String → LogLevel
protocol_level level =
    if level =ₛ "TRACE"
    then trace
    else if level =ₛ "DEBUG"
    then debug
    else if level =ₛ "INFO"
    then info
    else if level =ₛ "WARN"
    then warn
    else if level =ₛ "ERROR"
    then error
    else if level =ₛ "CONSOLE"
    then console
    else if level =ₛ "HTML"
    then html
    else info

-- `log`: the params of the notification for the client, if there is still a peer.
abbrev log : String → LogLevel → Option Bool → Bool → Endpoint → Option LogParams
log message level is_console is_html e =
    if e.has_peer
    then some (record {
      log_text = message;
      level = some level;
      is_html = some is_html;
      is_console = is_console;
      timestamp = none;
    })
    else none

-- What `log_message` sends to the client.
unfoldable pub log_message :
    (String → String) → String → String → Bool → Endpoint → Option LogParams
unfolding protocol_level
log_message upper message level is_html e =
    if not e.registered
    then none
    else if level =ₛ "FAIL" || level =ₛ "SKIP"
    then none
    else log message (protocol_level (upper level)) none is_html e

abbrev pub set_level : Option String → Endpoint → Endpoint
set_level none e = e
set_level (some level) e = record e { client_log_level = level }

abbrev pub initialize : String → InitializeParams → Endpoint → InitializeResult × Endpoint
initialize version params e = (
  record {
    server_capabilities =
        some (record { support_exit = some true; libraries = some e.server_libraries });
    server_info =
        some (record { server_name = "RobotJsonRpcRemoteServer"; server_version = version });
  },
  set_level params.initial_log_level (record e { initialize_received = true }),
)

abbrev pub initialized : Endpoint → Endpoint
initialized e = record e { initialized_received = true }

abbrev pub set_log_level : SetLogLevelParams → Endpoint → Endpoint
set_log_level params e = record e { client_log_level = params.log_level }

abbrev pub not_ready : String → ResponseError
not_ready what = record {
  code = robot_code_value not_initialized;
  message = format ("Initialize and Initialized must be received before " ∷ what ∷ "." ∷ []);
}

abbrev pub invalid_params : String → ResponseError
invalid_params message = record { code = negsuc 32601; message = message }

abbrev pub is_ready : Endpoint → Bool
is_ready e = e.initialize_received && e.initialized_received

-- The library to import: an empty name stands for the first library of the server.
abbrev pub requested : String → List String → Result ResponseError String
requested name [] =
    if name =ₛ ""
    then err (
        invalid_params
          "Library name cannot be empty when there are no libraries defined at server startup.")
    else ok name
requested name (first ∷ more) = if name =ₛ "" then ok first else ok name

abbrev pub is_available : String → List String → Bool
is_available name [] = true
is_available name (first ∷ more) = contains name (first ∷ more)

-- f"{lib_name}_{self._endpoint_id}_{next(self._token_ids)}"
abbrev pub next_token : String → Endpoint → String
next_token name e = format (name ∷ "_" ∷ e.endpoint_id ∷ "_jsonrpc_" ∷ decimal e.next_token_id ∷ [])

-- The command that an import submits to the runner.
pub record Import : Type 0 where
  pub library : String
  pub args : List Value
  pub kw_args : Fields
  pub token : String

abbrev or_empty : Option (List Value) → List Value
or_empty none = []
or_empty (some xs) = xs

abbrev or_no_fields : Option Fields → Fields
or_no_fields none = end
or_no_fields (some xs) = xs

abbrev pub started : String → ImportLibraryParams → Endpoint → Import × Endpoint
started name params e = (
  record {
    library = name;
    args = or_empty params.import_args;
    kw_args = or_no_fields params.import_kw_args;
    token = next_token name e;
  },
  record e { next_token_id = suc e.next_token_id },
)

abbrev pub start_import :
    String → ImportLibraryParams → Endpoint → Result ResponseError (Import × Endpoint)
start_import name params e =
    if is_available name e.server_libraries
    then ok (started name params e)
    else err (invalid_params (format ("Library '" ∷ name ∷ "' is not available." ∷ [])))

abbrev pub start_requested :
    Result ResponseError String
    → ImportLibraryParams
    → Endpoint
    → Result ResponseError (Import × Endpoint)
start_requested (err x) params e = err x
start_requested (ok name) params e = start_import name params e

-- `import_library` up to the wait.
unfoldable pub begin_import :
    ImportLibraryParams → Endpoint → Result ResponseError (Import × Endpoint)
begin_import params e =
    if is_ready e
    then start_requested (requested params.import_name e.server_libraries) params e
    else err (not_ready "ImportLibrary")

-- After the wait: the token is kept, or, once the client is gone, to be finalized by the handler
-- itself, which the flag says. An exception of the runner ends the handler.
unfoldable pub end_import :
    String
    → Result Exception LibraryDefinition
    → Endpoint
    → Result Exception (ImportLibraryResult × Bool) × Endpoint
end_import token (err x) e = (err x, e)
end_import token (ok definition) e =
    let reply : ImportLibraryResult = record { import_token = token; definition = definition } in
    if e.disconnected
    then (ok (reply, true), e)
    else (ok (reply, false), record e { imported_tokens = add token e.imported_tokens })

-- `run_keyword` up to the wait: what it submits to the runner.
pub record Run : Type 0 where
  pub run_token : String
  pub keyword : String
  pub run_args : List Value
  pub run_kwargs : Fields

unfoldable pub begin_run : RunKeywordParams → Endpoint → Result ResponseError Run
begin_run params e =
    if is_ready e
    then ok (record {
      run_token = params.library_token;
      keyword = params.run_name;
      run_args = or_empty params.run_args;
      run_kwargs = or_no_fields params.run_kwargs;
    })
    else err (not_ready "RunKeyword")

-- What the runner raises for a keyword: KeywordFailedError or anything else.
pub data RunFailure : Type 0 where
  keyword_failed : RunKeywordError → RunFailure
  other_failure : Exception → RunFailure

unfoldable pub end_run : Result RunFailure Value → Result Exception RunKeywordResult
end_run (ok v) = ok (record { run_result = some v; run_error = none })
end_run (err (keyword_failed x)) = ok (record { run_result = none; run_error = some x })
end_run (err (other_failure x)) = err x

-- `finalize_library`, after the runner has finalized the token, or failed to.
unfoldable pub end_finalize : String → Option Exception → Endpoint → Option Exception × Endpoint
end_finalize token (some x) e = (some x, e)
end_finalize token none e = (none, record e { imported_tokens = discard token e.imported_tokens })

abbrev pub shutdown : Endpoint → Endpoint
shutdown e = record e { shutdown_received = true }

-- `exit`: whether the connection of the peer is ended.
abbrev pub exit : Endpoint → Bool
exit e = e.has_peer

-- `finalize_all`: the tokens it goes through, and the end of each turn, where a failure is only logged.
abbrev pub begin_finalize_all : Endpoint → List String × Endpoint
begin_finalize_all e = (e.imported_tokens, record e { disconnected = true })

abbrev pub end_finalize_turn : String → Endpoint → Endpoint
end_finalize_turn token e = record e { imported_tokens = discard token e.imported_tokens }

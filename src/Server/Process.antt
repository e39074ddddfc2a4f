-- ===== src/Server/Process.antt =====
-- The server process: packages/server/src/robot_jsonrpcremote_server/__main__.py. The main thread, `run`, waits for the
-- thread of `run_server` and then runs Robot Framework; that thread serves one transport. Their steps, in any
-- interleaving, are in Process/Steps.
pub mod Addresses
pub mod Steps
pub mod Start
use robotframework_jsonrpcre.Base.{
  ℕ, Bool, true, false, not, Option, none, some, List, [], ◌∷◌, String, ◌||◌, ◌&&◌, ◌==◌,
  if◌then◌else◌, format,
}
use robotframework_jsonrpcre.Base.Result.{Exception}

pub data Mode : Type 0 where
  tcp stdio pipe : Mode

-- `run`: it waits for the server, runs Robot Framework, has called stop_server, has exited, or
-- has raised SystemExit(1).
pub data MainPhase : Type 0 where
  main_starts waits_for_start runs_robot stops_server exited failed : MainPhase

-- `run_server`: `listening` is before the transport is up; `closing` after it has dropped its stop hook; `cleared`
-- between `_server_started_event.clear()` and `_server_stop_event.set()`.
pub data ThreadPhase : Type 0 where
  not_started listening up closing cleared ended start_failed : ThreadPhase

-- `stop_hook` is _loop with _stop_callable, `stop_requested` what the hook sets off. `clients` are the tasks
-- of `handle_client` in _clients, `closed_clients` those whose connection `close_clients` has ended.
pub record Process : Type 0 where
  pub mode : Mode
  pub main : MainPhase
  pub thread : ThreadPhase
  pub server : Bool
  pub started_event : Bool
  pub stop_event : Bool
  pub start_error : Option Exception
  pub stop_hook : Bool
  pub stop_requested : Bool
  pub clients : List ℕ
  pub closed_clients : List ℕ
  pub runner_stopped : Bool

abbrev pub new_process : Mode → Process
new_process mode = record {
  mode = mode;
  main = main_starts;
  thread = not_started;
  server = false;
  started_event = false;
  stop_event = false;
  start_error = none;
  stop_hook = false;
  stop_requested = false;
  clients = [];
  closed_clients = [];
  runner_stopped = false;
}

-- `_server_has_been_up`
abbrev pub server_has_been_up : Process → Bool
server_has_been_up p = p.started_event || p.stop_event

abbrev pub is_alive : ThreadPhase → Bool
is_alive listening = true
is_alive up = true
is_alive closing = true
is_alive cleared = true
is_alive t = false

abbrev pub is_tcp : Mode → Bool
is_tcp tcp = true
is_tcp m = false

-- The transports that `run` starts; `pipe` is an error of the command line.
abbrev pub is_supported : Mode → Bool
is_supported pipe = false
is_supported m = true

-- `run` up to the start of the server's thread.
unfoldable pub start_thread : Process → Process
start_thread p =
    if is_supported p.mode
    then record p { main = waits_for_start; thread = listening }
    else record p { main = failed }

-- `run_server_async` to where the transport is up: `run_tcp_server` or `run_stdio_server`, whose client
-- is the first one.
unfoldable pub bring_up : Process → Process
bring_up p = record p {
  thread = up;
  server = is_tcp p.mode;
  stop_hook = true;
  started_event = true;
  stop_event = false;
  clients = if is_tcp p.mode then p.clients else 0 ∷ p.clients;
}

-- `run_server` on an exception.
unfoldable pub handle_error : Exception → Process → Process
handle_error e p =
    if server_has_been_up p then p else record p { start_error = some e; thread = start_failed }

abbrev pub contains : ℕ → List ℕ → Bool
contains n [] = false
contains n (m ∷ ms) = m == n || contains n ms

abbrev pub pop : ℕ → List ℕ → List ℕ
pop n [] = []
pop n (m ∷ ms) = let rest = pop n ms in if m == n then rest else m ∷ rest

-- `handle_client` from the registration of its task to its end.
abbrev pub add_client : ℕ → Process → Process
add_client n p = record p { clients = n ∷ p.clients }

abbrev pub end_client : ℕ → Process → Process
end_client n p = record p { clients = pop n p.clients }

-- `close_clients` once the requests in progress are done or out of time: it ends every connection it has found.
unfoldable pub close_clients : Process → Process
close_clients p = record p { closed_clients = p.clients }

-- The end of the wait of a transport: `finally`, up to `close_clients`.
-- Assignments that follow each other without a wait are one step, here as in `bring_up`.
unfoldable pub begin_close : Process → Process
begin_close p = record p { thread = closing; server = false; stop_hook = false }

-- The rest of it: the two events, and for stdio the stop of the runner.
unfoldable pub clear_started : Process → Process
clear_started p = record p { thread = cleared; started_event = false }

unfoldable pub set_stopped : Process → Process
set_stopped p = record p {
  thread = ended;
  stop_event = true;
  runner_stopped = p.runner_stopped || not (is_tcp p.mode);
}

-- `stop_server`: the hook runs on the transport's loop.
unfoldable pub stop_server : Process → Process
stop_server p = record p { main = stops_server; stop_requested = p.stop_hook || p.stop_requested }

-- `run` after its wait for the server.
unfoldable pub check_start : Process → Process
check_start p =
    if server_has_been_up p then record p { main = runs_robot } else record p { main = failed }

-- The message of a failed start.
unfoldable pub start_failure : Option Exception → String
start_failure none = "Server failed to start: the server thread ended"
start_failure (some e) = format ("Server failed to start: " ∷ e.message ∷ [])

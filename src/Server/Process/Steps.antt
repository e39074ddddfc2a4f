-- ===== src/Server/Process/Steps.antt =====
-- The steps of the main thread, the server's thread and the clients of the server process.
use robotframework_jsonrpcre.Base.{ℕ, true, false, ◌≡◌, ◌⊎◌}
use robotframework_jsonrpcre.Base.Result.{Exception}
use robotframework_jsonrpcre.Server.Process.{
  Mode, tcp, stdio, main_starts, waits_for_start, runs_robot, stops_server, exited, not_started,
  listening, up, closing, cleared, Process, new_process, is_alive, start_thread, bring_up,
  handle_error, contains, add_client, end_client, close_clients, begin_close, clear_started,
  set_stopped, stop_server, check_start,
}

-- An exception of a transport that is up ends its thread as every other end does, by its `finally`.
pub data Step (p : Process) : Process → Type 0 where
  starts_thread : p.main ≡ main_starts → p.thread ≡ not_started → Step p (start_thread p)
  comes_up : p.thread ≡ listening → Step p (bring_up p)
  fails_to_start : (e : Exception) → p.thread ≡ listening → Step p (handle_error e p)
  -- The loop of `run` has seen the event, or that the thread has ended; then it looks at both events.
  checks_start :
      p.main ≡ waits_for_start
      → (p.started_event ≡ true) ⊎ (is_alive p.thread ≡ false)
      → Step p (check_start p)
  -- Robot Framework ends: by its own stop, an interrupt or a signal.
  robot_ends : p.main ≡ runs_robot → Step p (stop_server p)
  exits : p.main ≡ stops_server → Step p (record p { main = exited })
  connects :
      (n : ℕ) → p.mode ≡ tcp → (p.thread ≡ up) ⊎ (p.thread ≡ closing) → Step p (add_client n p)
  disconnects : (n : ℕ) → contains n p.clients ≡ true → Step p (end_client n p)
  -- stop_requested is set, the client of stdio has ended, or the transport is cancelled.
  stops_serving : p.thread ≡ up → Step p (begin_close p)
  closes_clients : (p.thread ≡ closing) ⊎ (p.mode ≡ stdio) → Step p (close_clients p)
  clears : p.thread ≡ closing → Step p (clear_started p)
  sets_stopped : p.thread ≡ cleared → Step p (set_stopped p)

pub data Reachable : Process → Type 0 where
  at_first : (mode : Mode) → Reachable (new_process mode)
  then_step : {p q : Process} → Reachable p → Step p q → Reachable q

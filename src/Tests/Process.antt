-- ===== src/Tests/Process.antt =====
-- The theorems on the server process at concrete runs.
use robotframework_jsonrpcre.Base.{true, false, ◌≡◌, refl, inl, ◌&&◌, is_some}
use robotframework_jsonrpcre.Base.Result.{Exception}
use robotframework_jsonrpcre.Server.Process.{
  tcp, Process, ended, start_failed, new_process, start_thread, bring_up, check_start, handle_error,
  is_tcp,
}
use robotframework_jsonrpcre.Server.Process.Steps.{
  starts_thread, comes_up, fails_to_start, checks_start, Reachable, at_first, then_step,
}
use robotframework_jsonrpcre.Server.Process.Start.{has_run, was_up, is_up, run-was_up}

abbrev serving : Process
serving = check_start (bring_up (start_thread (new_process tcp)))

serving-Reachable : Reachable serving
unfolding start_thread bring_up check_start
serving-Reachable =
    then_step (then_step (then_step (at_first tcp) (starts_thread refl refl)) (comes_up refl))
      (checks_start refl (inl refl))

run-was_up_example :
    (has_run serving.main ≡ true
      → (was_up serving.thread ≡ true) × (is_some serving.start_error ≡ false))
    × ((serving.stop_hook ≡ is_up serving.thread)
        × ((serving.server ≡ (is_up serving.thread && is_tcp serving.mode))
            × ((serving.thread ≡ ended
                  → (serving.stop_event ≡ true) × (serving.started_event ≡ false))
                × (serving.thread ≡ start_failed
                    → (serving.stop_event ≡ false) × (serving.started_event ≡ false)))))
run-was_up_example = run-was_up serving serving-Reachable

abbrev in_use : Exception
in_use = record { type_name = "OSError"; message = "address in use"; trace = "" }

abbrev refused : Process
refused = handle_error in_use (start_thread (new_process tcp))

refused-Reachable : Reachable refused
unfolding start_thread handle_error
refused-Reachable =
    then_step (then_step (at_first tcp) (starts_thread refl refl)) (fails_to_start in_use refl)

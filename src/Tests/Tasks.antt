-- ===== src/Tests/Tasks.antt =====
-- The stop of a peer at concrete steps.
use robotframework_jsonrpcre.Base.{ℕ, true, [], ◌∷◌, ◌≡◌, refl}
use robotframework_jsonrpcre.Peer.Lifecycle.{task_cancelled}
use robotframework_jsonrpcre.Peer.Tasks.{
  Tasks, is_done, start_loop, start_task, finish_loop, begin_stop, cancel_inflight, end_stop,
  starts, loop_runs, reads, loop_ends, loop_over, task_ends, stop_begins, stop_goes_on,
  stop_returns, Reach, here, next, fresh, over, reading, discard,
}
use robotframework_jsonrpcre.Peer.Tasks.Stopped.{stop_returned}
use robotframework_jsonrpcre.Tests.Peer.{config, env}

-- A peer that runs and handles two messages.
abbrev busy : Tasks ℕ ℕ
busy =
    start_task (start_task (record (start_loop (fresh {P = ℕ} config 7)) { read_task = reading }))

-- `stop` has cancelled the read task, which has ended, and the two tasks, which end in the other order.
abbrev stopped_loop : Tasks ℕ ℕ
stopped_loop = record (finish_loop task_cancelled (begin_stop 0 busy)) { read_task = over }

abbrev last_task : Tasks ℕ ℕ
last_task =
    let s = cancel_inflight 0 stopped_loop in
    record s { inflight = discard 0 (discard 1 s.inflight) }

stop_reached : Reach env (fresh config 7) (end_stop 0 last_task)
unfolding start_loop start_task finish_loop begin_stop cancel_inflight end_stop
stop_reached =
    next
      (next
        (next
          (next
            (next
              (next
                (next
                  (next
                    (next (next (next here (starts refl refl)) (loop_runs refl refl))
                      (reads refl refl))
                    (reads refl refl))
                  (stop_begins 0 refl))
                (loop_ends task_cancelled refl refl))
              (loop_over refl))
            (stop_goes_on 0 refl refl))
          (task_ends 1))
        (task_ends 0))
      (stop_returns 0 (1 ∷ 0 ∷ []) refl refl)

stop_returned_example :
    (is_done (end_stop 0 last_task).read_task ≡ true)
    × ((end_stop 0 last_task).inflight ≡ [])
    × ((end_stop 0 last_task).session.peer.closed ≡ true)
    × ((end_stop 0 last_task).session.peer.app ≡ (end_stop 0 last_task).session.peer.app)
unfolding end_stop
stop_returned_example = stop_returned {S = ℕ} env config 7 0 stop_reached refl here

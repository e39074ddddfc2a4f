-- ===== src/Server/Process/Start.antt =====
-- The main thread runs Robot Framework only for a server that has been up, and the stop hook is there
-- exactly while the server is up.
use robotframework_jsonrpcre.Base.{
  Bool, true, false, ◌≡◌, refl, sym, ◌∙◌, inl, inr, arith, ◌&&◌, ◌||◌, is_some, Bool-cases,
}
use robotframework_jsonrpcre.Base.Result.{Exception}
use robotframework_jsonrpcre.Server.Process.{
  MainPhase, runs_robot, stops_server, exited, ThreadPhase, not_started, listening, up, closing,
  cleared, ended, start_failed, Process, server_has_been_up, is_tcp, is_supported, start_thread,
  bring_up, handle_error, close_clients, begin_close, clear_started, set_stopped, stop_server,
  check_start,
}
use robotframework_jsonrpcre.Server.Process.Steps.{
  Step, starts_thread, comes_up, fails_to_start, checks_start, robot_ends, exits, connects,
  disconnects, stops_serving, closes_clients, clears, sets_stopped, Reachable, at_first, then_step,
}

-- Robot Framework has been run.
abbrev pub has_run : MainPhase → Bool
has_run runs_robot = true
has_run stops_server = true
has_run exited = true
has_run m = false

-- The transport is up or was.
abbrev pub was_up : ThreadPhase → Bool
was_up up = true
was_up closing = true
was_up cleared = true
was_up ended = true
was_up t = false

abbrev pub is_up : ThreadPhase → Bool
is_up up = true
is_up t = false

-- _server_started_event and _server_stop_event by the phase of the thread.
abbrev starts : ThreadPhase → Bool
starts up = true
starts closing = true
starts t = false

abbrev has_ended : ThreadPhase → Bool
has_ended ended = true
has_ended t = false

abbrev has_failed : ThreadPhase → Bool
has_failed start_failed = true
has_failed t = false

abbrev Agrees : Process → Type 0
Agrees p =
    (p.started_event ≡ starts p.thread)
    × (p.stop_event ≡ has_ended p.thread)
    × (p.stop_hook ≡ is_up p.thread)
    × (p.server ≡ (is_up p.thread && is_tcp p.mode))
    × (is_some p.start_error ≡ has_failed p.thread)
    × (has_run p.main ≡ true → was_up p.thread ≡ true)

start_thread-Agrees : (p : Process) → p.thread ≡ not_started → Agrees p → Agrees (start_thread p)
unfolding start_thread
start_thread-Agrees p g (a, b, c, d, e, f) = elim (Bool-cases (is_supported p.mode)) [
  | inl y ↦ rw y (rw g at a, rw g at b, rw g at c, rw g at d, rw g at e, (λ x. absurd (cc)))
  | inr n ↦ rw n (a, b, c, d, e, (λ x. absurd (cc)))
]

handle_error-Agrees :
    (x : Exception) (p : Process) → p.thread ≡ listening → Agrees p → Agrees (handle_error x p)
unfolding handle_error
handle_error-Agrees x p h (a, b, c, d, e, f) =
    let s : server_has_been_up p ≡ false = rw (a, b, h) refl in
    rw s (rw h at a, rw h at b, rw h at c, rw h at d, refl, (λ y. absurd (cc (rw h at (f y)))))

was_up_if : (t : ThreadPhase) → (starts t || has_ended t) ≡ true → was_up t ≡ true
was_up_if t h = ground arith

check_start-Agrees : (p : Process) → Agrees p → Agrees (check_start p)
unfolding check_start
check_start-Agrees p (a, b, c, d, e, f) = elim (Bool-cases (server_has_been_up p)) [
  | inl y ↦ rw y (a, b, c, d, e, (λ _. was_up_if p.thread (rw (a, b) at y)))
  | inr n ↦ rw n (a, b, c, d, e, (λ x. absurd (cc)))
]

step-Agrees : (p q : Process) → Step p q → Agrees p → Agrees q
unfolding bring_up close_clients begin_close clear_started set_stopped stop_server
step-Agrees p _ (starts_thread h g) i = start_thread-Agrees p g i
step-Agrees p _ (comes_up h) (a, b, c, d, e, f) = (refl, refl, refl, refl, rw h at e, (λ _. refl))
step-Agrees p _ (fails_to_start x h) i = handle_error-Agrees x p h i
step-Agrees p _ (checks_start h g) i = check_start-Agrees p i
step-Agrees p _ (robot_ends h) (a, b, c, d, e, f) = (a, b, c, d, e, (λ _. f (rw h refl)))
step-Agrees p _ (exits h) (a, b, c, d, e, f) = (a, b, c, d, e, (λ _. f (rw h refl)))
step-Agrees p _ (connects n m h) (a, b, c, d, e, f) = (a, b, c, d, e, f)
step-Agrees p _ (disconnects n h) (a, b, c, d, e, f) = (a, b, c, d, e, f)
step-Agrees p _ (stops_serving h) (a, b, c, d, e, f) =
    (rw h at a, rw h at b, refl, refl, rw h at e, (λ _. refl))
step-Agrees p _ (closes_clients h) (a, b, c, d, e, f) = (a, b, c, d, e, f)
step-Agrees p _ (clears h) (a, b, c, d, e, f) =
    (refl, rw h at b, rw h at c, rw h at d, rw h at e, (λ _. refl))
step-Agrees p _ (sets_stopped h) (a, b, c, d, e, f) =
    (rw h at a, refl, rw h at c, rw h at d, rw h at e, (λ _. refl))

Reachable-Agrees : (p : Process) → Reachable p → Agrees p
Reachable-Agrees _ (at_first mode) = (refl, refl, refl, refl, refl, (λ h. absurd (cc)))
Reachable-Agrees q (then_step {p} r step) = step-Agrees p q step (Reachable-Agrees p r)

failed-not_up : (t : ThreadPhase) → was_up t ≡ true → has_failed t ≡ false
failed-not_up t h = ground arith

-- In any interleaving of the two threads and the clients: Robot Framework runs only for a server whose transport
-- has come up and that has no start error; the stop hook, which stop_server needs, is registered exactly while the
-- transport is up, and so is the listening server of TCP; once the thread of a server that has been up has ended, the
-- stop event is set and the start event is not; and after a failed start neither is set.
pub run-was_up :
    (p : Process)
    → Reachable p
    → (has_run p.main ≡ true → (was_up p.thread ≡ true) × (is_some p.start_error ≡ false))
      × ((p.stop_hook ≡ is_up p.thread)
          × ((p.server ≡ (is_up p.thread && is_tcp p.mode))
              × ((p.thread ≡ ended → (p.stop_event ≡ true) × (p.started_event ≡ false))
                  × (p.thread ≡ start_failed
                      → (p.stop_event ≡ false) × (p.started_event ≡ false)))))
run-was_up p r =
    let (a, b, c, d, e, f) = Reachable-Agrees p r in
    (
      (λ h. (f h, e ∙ failed-not_up p.thread (f h))),
      (c, (d, ((λ h. (rw h at b, rw h at a)), (λ h. (rw h at b, rw h at a))))),
    )

has_failed-≡ : (t : ThreadPhase) → has_failed t ≡ true → t ≡ start_failed
has_failed-≡ start_failed h = refl
has_failed-≡ t h = absurd (cc)

not_run_by :
    (m : MainPhase) (t : ThreadPhase)
    → t ≡ start_failed
    → (has_run m ≡ true → was_up t ≡ true)
    → has_run m ≡ false
not_run_by m t g f = elim (Bool-cases (has_run m)) [
  | inl y ↦ absurd (cc (rw g at (f y)))
  | inr n ↦ n
]

-- A failed start is never taken for a server: with a start error, Robot Framework is not run, and the thread
-- is over without having been up.
pub start_error-not_run :
    (p : Process)
    → Reachable p
    → is_some p.start_error ≡ true
    → (has_run p.main ≡ false) × ((p.thread ≡ start_failed) × (server_has_been_up p ≡ false))
start_error-not_run p r h =
    let (a, b, c, d, e, f) = Reachable-Agrees p r in
    let g = has_failed-≡ p.thread (sym e ∙ h) in
    (not_run_by p.main p.thread g f, (g, rw (a, b, g) refl))

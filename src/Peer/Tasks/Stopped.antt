-- ===== src/Peer/Tasks/Stopped.antt =====
-- What holds once a call of `stop` has returned.
use robotframework_jsonrpcre.Base.{
  ℕ, Bool, true, false, [], ◌≡◌, refl, subst, ◌∙◌, arith, inl, inr, Bool-cases,
}
use robotframework_jsonrpcre.Peer.State.{Peer, Runtime, Config}
use robotframework_jsonrpcre.Peer.Lifecycle.{ensure_finished, finish, mark_closed}
use robotframework_jsonrpcre.Peer.Tasks.{
  reading, is_done, returned, Tasks, start_loop, start_task, cancel_inflight, await_loop,
  not_running, begin_stop, end_stop, finish_loop, may_act, Step, acts, starts, loop_runs,
  loop_never_runs, reads, loop_ends, loop_over, task_ends, stop_begins, stop_goes_on, stop_returns,
  Reach, here, next, fresh,
}
use robotframework_jsonrpcre.Peer.Tasks.Phases.{
  FineTasks, Inv, Step-app, Step-Inv, Reach-Inv, other_phase,
}

module _ {S P : Type 0} (env : Runtime P) where
  -- A call of `stop` that has returned takes no further step.
  Step-returned :
      {s t : Tasks S P} (k : ℕ)
      → Step env s t
      → s.stop_phases k ≡ returned
      → t.stop_phases k ≡ returned
  unfolding start_loop start_task finish_loop begin_stop cancel_inflight end_stop
  Step-returned k (acts step a) h = h
  Step-returned k (starts n b) h = h
  Step-returned k (loop_runs c n) h = h
  Step-returned k (loop_never_runs c n) h = h
  Step-returned k (reads r n) h = h
  Step-returned k (loop_ends e r m) h = h
  Step-returned k (loop_over f) h = h
  Step-returned k (task_ends n) h = h
  Step-returned {s} k (stop_begins j n) h = elim (Bool-cases (is_done s.read_task)) [
    | inl d ↦ rw d (other_phase j k _ s.stop_phases (λ e. absurd (cc)) h)
    | inr d ↦ rw d (other_phase j k _ s.stop_phases (λ e. absurd (cc)) h)
  ]
  Step-returned {s} k (stop_goes_on j w o) h = other_phase j k _ s.stop_phases (λ e. absurd (cc)) h
  Step-returned {s} k (stop_returns j tasks w l) h =
      other_phase j k _ s.stop_phases (λ e. absurd (cc)) h

  await_loop-app :
      (b : Bool) (k : ℕ) (s : Tasks S P)
      → (await_loop b k (not_running s)).session.peer.app ≡ s.session.peer.app
  unfolding cancel_inflight
  await_loop-app true k s = refl
  await_loop-app false k s = refl

  ensure_finished-app : (p : Peer S P) → (ensure_finished p).app ≡ p.app
  unfolding ensure_finished finish mark_closed
  ensure_finished-app p = ground arith

  -- No handler runs any more.
  quiet-app :
      {s t : Tasks S P}
      → Step env s t
      → FineTasks env s returned
      → t.session.peer.app ≡ s.session.peer.app
  unfolding start_loop start_task finish_loop begin_stop cancel_inflight end_stop
  quiet-app {s} (acts step a) (b, d, i, c) =
      Step-app env step (subst (λ tasks. may_act env step tasks ≡ true) i a) c
  quiet-app (starts n b) f = refl
  quiet-app (loop_runs c n) f = refl
  quiet-app (loop_never_runs c n) f = refl
  quiet-app (reads r n) f = refl
  quiet-app {s} (loop_ends e r m) (b, d, _, _) =
      absurd (let i : is_done reading ≡ true = rw r at d in cc)
  quiet-app (loop_over f) g = refl
  quiet-app (task_ends n) f = refl
  quiet-app {s} (stop_begins j n) f = await_loop-app (is_done s.read_task) j s
  quiet-app (stop_goes_on j w o) f = refl
  quiet-app {s} (stop_returns j tasks w l) f = ensure_finished-app s.session.peer

  later :
      {s t : Tasks S P} (k : ℕ)
      → Inv env s
      → s.stop_phases k ≡ returned
      → Reach env s t
      → Inv env t × (t.stop_phases k ≡ returned) × (t.session.peer.app ≡ s.session.peer.app)
  later k v h here = (v, h, refl)
  later k v h (next {t} r step) =
      let (w, there, same) = later k v h r in
      (Step-Inv env step w, Step-returned k step there, quiet-app step (rw there at (w k)) ∙ same)

  -- Once some call of `stop` has returned, and ever after, the read task is done, no task is in flight and
  -- the peer is closed, whatever else runs in between; and no handler changes what the application holds.
  pub stop_returned :
      (config : Config) (app : S) {s t : Tasks S P} (k : ℕ)
      → Reach env (fresh config app) s
      → s.stop_phases k ≡ returned
      → Reach env s t
      → (is_done t.read_task ≡ true)
        × (t.inflight ≡ [])
        × (t.session.peer.closed ≡ true)
        × (t.session.peer.app ≡ s.session.peer.app)
  stop_returned config app k r h further =
      let (w, there, same) = later k (Reach-Inv env config app r) h further in
      let (_, d, i, c) = rw there at (w k) in (d, i, c, same)

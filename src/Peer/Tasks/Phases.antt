-- ===== src/Peer/Tasks/Phases.antt =====
-- Where each call of `stop` may be: the invariant of the tasks of a peer.
use robotframework_jsonrpcre.Base.{
  ℕ, Bool, true, false, List, [], ◌∷◌, ◌≡◌, ◌≢◌, refl, sym, subst, arith, ◌==◌, inl, inr,
  Bool-cases,
}
use robotframework_jsonrpcre.Peer.State.{Peer, Runtime, Config}
use robotframework_jsonrpcre.Peer.Requests.{
  forget, begin_request, write_failed, time_out, finish_request, finish_as,
}
use robotframework_jsonrpcre.Peer.Lifecycle.{ensure_finished, finish, mark_closed}
use robotframework_jsonrpcre.Peer.Session as Session
use robotframework_jsonrpcre.Peer.Session.{
  calls, drain_fails, times_out, wakes, receives, answers, ends, stops,
}
use robotframework_jsonrpcre.Peer.Session.Advance.{
  time_out-Advances, write_answer-Advances, end_loop-Advances, stop-Advances,
}
use robotframework_jsonrpcre.Peer.Session.Respond.{process_single_message-Advances}
use robotframework_jsonrpcre.Peer.Tasks.{
  ReadTask, created, reading, over, is_done, StopPhase, not_stopping, awaits_loop, awaits_tasks,
  returned, Tasks, among, discard, none_left, set_phase, start_loop, start_task, cancel_inflight,
  await_loop, not_running, begin_stop, end_stop, finish_loop, may_act, Step, acts, starts,
  loop_runs, loop_never_runs, reads, loop_ends, loop_over, task_ends, stop_begins, stop_goes_on,
  stop_returns, Reach, here, next, fresh,
}

-- What a call of `stop` has come to, on whether one has begun, the read task, the tasks in flight and
-- whether the peer is closed.
abbrev pub Fine : Bool → ReadTask → List ℕ → Bool → StopPhase → Type 0
Fine stopping read inflight closed not_stopping = Unit
Fine stopping read inflight closed awaits_loop = stopping ≡ true
Fine stopping read inflight closed (awaits_tasks tasks) =
    (stopping ≡ true)
    × (is_done read ≡ true)
    × ((n : ℕ) → among n inflight ≡ true → among n tasks ≡ true)
Fine stopping read inflight closed returned =
    (stopping ≡ true) × (is_done read ≡ true) × (inflight ≡ []) × (closed ≡ true)

-- What may change under a call of `stop`: once the read task is done it stays so, tasks only end, and
-- the peer stays closed.
record Settles (read read' : ReadTask) (inflight inflight' : List ℕ) (closed closed' : Bool)
    : Type 0 where
  stays : is_done read' ≡ true
  fewer : (n : ℕ) → among n inflight' ≡ true → among n inflight ≡ true
  none_new : inflight ≡ [] → inflight' ≡ []
  closes : closed ≡ true → closed' ≡ true

Settles-Fine :
    (stopping stopping' : Bool) (read read' : ReadTask) (inflight inflight' : List ℕ)
    (closed closed' : Bool) (phase : StopPhase)
    → (stopping ≡ true → stopping' ≡ true)
    → (is_done read ≡ true → Settles read read' inflight inflight' closed closed')
    → Fine stopping read inflight closed phase
    → Fine stopping' read' inflight' closed' phase
Settles-Fine _ _ _ _ _ _ _ _ not_stopping s h f = tt
Settles-Fine _ _ _ _ _ _ _ _ awaits_loop s h f = s f
Settles-Fine _ _ _ _ _ _ _ _ (awaits_tasks tasks) s h (b, d, i) =
    let k = h d in (s b, k.stays, λ n m. i n (k.fewer n m))
Settles-Fine _ _ _ _ _ _ _ _ returned s h (b, d, i, c) =
    let k = h d in (s b, k.stays, k.none_new i, k.closes c)

among-discard : (n m : ℕ) (ms : List ℕ) → among n (discard m ms) ≡ true → among n ms ≡ true
among-discard n m [] h = h
among-discard n m (k ∷ ms) h = ground (arith, among-discard n m ms)

none_left-among :
    (tasks inflight : List ℕ) (n : ℕ)
    → none_left tasks inflight ≡ true
    → among n tasks ≡ true
    → among n inflight ≡ false
none_left-among [] inflight n h a = cc
none_left-among (t ∷ tasks) inflight n h a = elim (Bool-cases (t == n)) [
  | inl e ↦
      let same : t ≡ n = ground arith in subst (λ k. among k inflight ≡ false) same (ground arith)
  | inr e ↦ none_left-among tasks inflight n (ground arith) (rw e at a)
]

none_left-nil :
    (tasks inflight : List ℕ)
    → none_left tasks inflight ≡ true
    → ((n : ℕ) → among n inflight ≡ true → among n tasks ≡ true)
    → inflight ≡ []
none_left-nil tasks [] h i = refl
none_left-nil tasks (n ∷ ns) h i =
    let there : among n (n ∷ ns) ≡ true = ground arith in
    absurd (let gone = none_left-among tasks (n ∷ ns) n h (i n there) in cc)

Settles-same :
    (read : ReadTask) (inflight : List ℕ) (closed closed' : Bool)
    → (closed ≡ true → closed' ≡ true)
    → is_done read ≡ true
    → Settles read read inflight inflight closed closed'
Settles-same read inflight closed closed' c d = record {
  stays = d;
  fewer = λ n h. h;
  none_new = λ h. h;
  closes = c;
}

-- Before the first `stop` no call of it has begun.
Fine-not_stopping :
    (read read' : ReadTask) (inflight inflight' : List ℕ) (closed closed' : Bool)
    (phase : StopPhase)
    → Fine false read inflight closed phase
    → Fine false read' inflight' closed' phase
Fine-not_stopping _ _ _ _ _ _ not_stopping f = tt
Fine-not_stopping _ _ _ _ _ _ awaits_loop f = absurd (cc)
Fine-not_stopping _ _ _ _ _ _ (awaits_tasks tasks) (b, _, _) = absurd (cc)
Fine-not_stopping _ _ _ _ _ _ returned (b, _, _, _) = absurd (cc)

pub other_phase :
    (j k : ℕ) (phase : StopPhase) (phases : ℕ → StopPhase)
    → phases j ≢ returned
    → phases k ≡ returned
    → set_phase j phase phases k ≡ returned
other_phase j k phase phases n h = elim (Bool-cases (j == k)) [
  | inl e ↦
      let same : j ≡ k = ground arith in absurd (n (subst (λ i. phases i ≡ returned) (sym same) h))
  | inr e ↦ rw e h
]

module _ {S P : Type 0} (env : Runtime P) where
  -- A closed peer stays closed.
  Step-closed :
      {s t : Session.Session S P} (step : Session.Step env s t)
      → s.peer.closed ≡ true
      → t.peer.closed ≡ true
  unfolding begin_request write_failed forget finish_request finish_as
  Step-closed {s} (calls method params) h = rw h refl
  Step-closed {s} (drain_fails n x c) h = h
  Step-closed {s} (times_out n c) h = (time_out-Advances n s.peer).closes h
  Step-closed {s} (wakes n t c d) h = ground arith
  Step-closed {s} (receives m) h = (process_single_message-Advances env m s.peer).closes h
  Step-closed {s} (answers body) h = (write_answer-Advances body s.peer).closes h
  Step-closed {s} (ends e) h = (end_loop-Advances e s.peer).closes h
  Step-closed {s} (stops b) h = (stop-Advances b s.peer).closes h

  -- Without a task in flight, and once it is closed, no step changes what the application holds.
  pub Step-app :
      {s t : Session.Session S P} (step : Session.Step env s t)
      → may_act env step [] ≡ true
      → s.peer.closed ≡ true
      → t.peer.app ≡ s.peer.app
  unfolding begin_request write_failed forget finish_request finish_as time_out
  Step-app {s} (calls method params) a h = rw h refl
  Step-app {s} (drain_fails n x c) a h = refl
  Step-app {s} (times_out n c) a h = ground arith
  Step-app {s} (wakes n t c d) a h = ground arith
  Step-app {s} (receives m) a h = absurd (cc)
  Step-app {s} (answers body) a h = absurd (cc)
  Step-app {s} (ends e) a h = absurd (cc)
  Step-app {s} (stops b) a h = absurd (cc)

  abbrev pub FineTasks : Tasks S P → StopPhase → Type 0
  FineTasks s phase = Fine s.stopping s.read_task s.inflight s.session.peer.closed phase

  -- Each call of `stop` is where it may be.
  abbrev pub Inv : Tasks S P → Type 0
  Inv s = (k : ℕ) → FineTasks s (s.stop_phases k)

  -- A step that no call of `stop` takes.
  Settles-Inv :
      (s t : Tasks S P)
      → t.stop_phases ≡ s.stop_phases
      → (s.stopping ≡ true → t.stopping ≡ true)
      → (is_done s.read_task ≡ true
          → Settles s.read_task t.read_task s.inflight t.inflight s.session.peer.closed
              t.session.peer.closed)
      → Inv s
      → Inv t
  Settles-Inv s t same b h v k =
      let f =
        Settles-Fine s.stopping t.stopping s.read_task t.read_task s.inflight t.inflight
          s.session.peer.closed t.session.peer.closed (s.stop_phases k) b h (v k) in
      subst (λ (phases : ℕ → StopPhase). FineTasks t (phases k)) (sym same) f

  -- A step of call `k`.
  phase-Inv :
      (s t : Tasks S P) (k : ℕ) (phase : StopPhase)
      → t.stop_phases ≡ set_phase k phase s.stop_phases
      → (s.stopping ≡ true → t.stopping ≡ true)
      → (is_done s.read_task ≡ true
          → Settles s.read_task t.read_task s.inflight t.inflight s.session.peer.closed
              t.session.peer.closed)
      → FineTasks t phase
      → Inv s
      → Inv t
  phase-Inv s t k phase same b h f v j =
      subst (λ (phases : ℕ → StopPhase). FineTasks t (phases j)) (sym same)
        (elim (Bool-cases (k == j)) [
          | inl e ↦ rw e f
          | inr e ↦ rw e (
              Settles-Fine s.stopping t.stopping s.read_task t.read_task s.inflight t.inflight
                s.session.peer.closed t.session.peer.closed (s.stop_phases j) b h (v j))
        ])

  pub ensure_finished-closed : (p : Peer S P) → (ensure_finished p).closed ≡ true
  unfolding ensure_finished finish mark_closed
  ensure_finished-closed p = ground arith

  pub Step-Inv : {s t : Tasks S P} → Step env s t → Inv s → Inv t
  unfolding start_loop start_task finish_loop begin_stop cancel_inflight end_stop
  Step-Inv {s} (acts {t} step a) v =
      Settles-Inv s (record s { session = t }) refl (λ b. b)
        (Settles-same s.read_task s.inflight s.session.peer.closed _ (Step-closed step)) v
  Step-Inv {s} (starts n b) v = λ k. rw b (
      Fine-not_stopping s.read_task created s.inflight s.inflight s.session.peer.closed
        s.session.peer.closed (s.stop_phases k) (rw b at (v k)))
  Step-Inv {s} (loop_runs c n) v =
      Settles-Inv s (record s { read_task = reading }) refl (λ b. b) (λ d. absurd (cc)) v
  Step-Inv {s} (loop_never_runs c n) v =
      Settles-Inv s (record s { read_task = over }) refl (λ b. b) (λ d. absurd (cc)) v
  Step-Inv {s} (reads r n) v = Settles-Inv s (start_task s) refl (λ b. b) (λ d. absurd (cc)) v
  Step-Inv {s} (loop_ends e r m) v =
      Settles-Inv s (finish_loop e s) refl (λ b. b) (λ d. absurd (cc)) v
  Step-Inv {s} (loop_over f) v =
      Settles-Inv s (record s { read_task = over }) refl (λ b. b) (λ d. absurd (cc)) v
  Step-Inv {s} (task_ends n) v =
      Settles-Inv s (record s { inflight = discard n s.inflight }) refl (λ b. b)
        (λ d. record {
          stays = d;
          fewer = λ m h. among-discard m n s.inflight h;
          none_new = λ e. rw e refl;
          closes = λ h. h;
        })
        v
  Step-Inv {s} (stop_begins k n) v = elim (Bool-cases (is_done s.read_task)) [
    | inl d ↦ rw d (
        phase-Inv s (await_loop true k (not_running s)) k (awaits_tasks s.inflight) refl (λ b. refl)
          (Settles-same s.read_task s.inflight s.session.peer.closed _ (λ h. h)) (refl, d, λ m h. h)
          v)
    | inr d ↦ rw d (
        phase-Inv s (await_loop false k (not_running s)) k awaits_loop refl (λ b. refl)
          (λ e. absurd (cc)) refl v)
  ]
  Step-Inv {s} (stop_goes_on k w o) v =
      phase-Inv s (cancel_inflight k s) k (awaits_tasks s.inflight) refl (λ b. b)
        (Settles-same s.read_task s.inflight s.session.peer.closed _ (λ h. h))
        (rw w at (v k), rw o refl, λ m h. h) v
  Step-Inv {s} (stop_returns k tasks w l) v =
      let (b, d, i) = rw w at (v k) in
      phase-Inv s (end_stop k s) k returned refl (λ b. b)
        (Settles-same s.read_task s.inflight s.session.peer.closed _
          (λ h. ensure_finished-closed s.session.peer))
        (b, d, none_left-nil tasks s.inflight l i, ensure_finished-closed s.session.peer) v

  pub Reach-Inv :
      (config : Config) (app : S) {s : Tasks S P} → Reach env (fresh config app) s → Inv s
  Reach-Inv config app here = λ k. tt
  Reach-Inv config app (next r step) = Step-Inv step (Reach-Inv config app r)

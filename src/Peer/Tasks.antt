-- ===== src/Peer/Tasks.antt =====
-- The tasks of a peer: the read loop's, those that handle messages, and the calls of `stop`, as a step
-- relation. `start`, `stop`, `_cancel_inflight`, `_start_task` of packages/jsonrpcpeer/src/jsonrpcpeer/peer.py.
pub mod Phases
pub mod Stopped
use robotframework_jsonrpcre.Base.{
  ℕ, Bool, true, false, not, List, [], ◌∷◌, ◌+◌, ◌≡◌, ◌==◌, ◌||◌, ◌&&◌, if◌then◌else◌,
}
use robotframework_jsonrpcre.Peer.State.{Peer, Runtime, Config}
use robotframework_jsonrpcre.Peer.Lifecycle.{
  LoopEnd, task_cancelled, end_loop, ensure_finished, start,
}
use robotframework_jsonrpcre.Peer.Session as Session
use robotframework_jsonrpcre.Peer.Session.{
  calls, drain_fails, times_out, wakes, receives, answers, ends, stops, idle,
}

-- The task of `io_loop`: there is none, it has not run yet, it reads, it runs `_finish`, it is done.
pub data ReadTask : Type 0 where
  not_started created reading finishing over : ReadTask

abbrev pub is_done : ReadTask → Bool
is_done not_started = true
is_done over = true
is_done _ = false

-- A call of `stop`: it waits for the read task, then for the tasks that it has cancelled.
pub data StopPhase : Type 0 where
  not_stopping : StopPhase
  awaits_loop : StopPhase
  awaits_tasks : List ℕ → StopPhase
  returned : StopPhase

-- `cancelled`: the read task was cancelled; `stopping`: some `stop` was called.
pub record Tasks (S P : Type 0) : Type 0 where
  pub session : Session.Session S P
  pub read_task : ReadTask
  pub cancelled : Bool
  pub inflight : List ℕ
  pub next_task : ℕ
  pub stopping : Bool
  pub stop_phases : ℕ → StopPhase

abbrev pub among : ℕ → List ℕ → Bool
among n [] = false
among n (m ∷ ms) = m == n || among n ms

-- self._inflight.discard(task)
abbrev pub discard : ℕ → List ℕ → List ℕ
discard n [] = []
discard n (m ∷ ms) = let rest = discard n ms in if m == n then rest else m ∷ rest

-- The tasks are all done, as `asyncio.gather` wants.
abbrev pub none_left : List ℕ → List ℕ → Bool
none_left [] inflight = true
none_left (t ∷ tasks) inflight = not (among t inflight) && none_left tasks inflight

abbrev pub set_phase : ℕ → StopPhase → (ℕ → StopPhase) → ℕ → StopPhase
set_phase k phase phases j = if k == j then phase else phases j

module _ {S P : Type 0} where
  abbrev with_peer : (Peer S P → Peer S P) → Session.Session S P → Session.Session S P
  with_peer f s = record s { peer = f s.peer }

  -- `start`: the read task is created, and runs later.
  unfoldable pub start_loop : Tasks S P → Tasks S P
  unfolding start
  start_loop s = record s { session = with_peer start s.session; read_task = created }

  -- `_start_task`
  unfoldable pub start_task : Tasks S P → Tasks S P
  start_task s = record s { inflight = s.next_task ∷ s.inflight; next_task = s.next_task + 1 }

  -- `_cancel_inflight`, up to its wait for all that is in flight.
  unfoldable pub cancel_inflight : ℕ → Tasks S P → Tasks S P
  cancel_inflight k s = record s {
    stop_phases = set_phase k (awaits_tasks s.inflight) s.stop_phases;
  }

  abbrev pub not_running : Tasks S P → Tasks S P
  not_running s = record s {
    session = with_peer (λ p. record p { running = false }) s.session;
    stopping = true;
  }

  abbrev pub await_loop : Bool → ℕ → Tasks S P → Tasks S P
  await_loop true k s = cancel_inflight k s
  await_loop false k s = record s {
    cancelled = true;
    stop_phases = set_phase k awaits_loop s.stop_phases;
  }

  -- `stop`, up to its first wait.
  unfoldable pub begin_stop : ℕ → Tasks S P → Tasks S P
  unfolding cancel_inflight
  begin_stop k s = await_loop (is_done s.read_task) k (not_running s)

  -- The end of `stop`: the completion that it awaits is done by then.
  unfoldable pub end_stop : ℕ → Tasks S P → Tasks S P
  unfolding ensure_finished
  end_stop k s = record s {
    session = with_peer ensure_finished s.session;
    stop_phases = set_phase k returned s.stop_phases;
  }

  unfoldable pub finish_loop : LoopEnd → Tasks S P → Tasks S P
  unfolding end_loop
  finish_loop e s = record s { session = with_peer (end_loop e) s.session; read_task = finishing }

-- A cancelled task ends by that.
abbrev pub may_end : Bool → LoopEnd → Bool
may_end true task_cancelled = true
may_end true e = false
may_end false e = true

abbrev is_empty : List ℕ → Bool
is_empty [] = true
is_empty (n ∷ ns) = false

module _ {S P : Type 0} (env : Runtime P) where
  -- What happens to a session beside the end of its loop and `stop`. A message is handled, and its answer
  -- written, by a task in flight.
  abbrev pub may_act : {s t : Session.Session S P} → Session.Step env s t → List ℕ → Bool
  may_act (receives v) inflight = not (is_empty inflight)
  may_act (answers body) inflight = not (is_empty inflight)
  may_act (ends e) inflight = false
  may_act (stops loop_runs) inflight = false
  may_act _ inflight = true

  pub data Step (s : Tasks S P) : Tasks S P → Type 0 where
    acts :
        {t : Session.Session S P} (step : Session.Step env s.session t)
        → may_act step s.inflight ≡ true
        → Step s (record s { session = t })
    -- The application starts the peer once, and before it stops it.
    starts : s.read_task ≡ not_started → s.stopping ≡ false → Step s (start_loop s)
    loop_runs :
        s.read_task ≡ created → s.cancelled ≡ false → Step s (record s { read_task = reading })
    -- A task that is cancelled before its first step never runs.
    loop_never_runs :
        s.read_task ≡ created → s.cancelled ≡ true → Step s (record s { read_task = over })
    -- The loop has read a message and goes on.
    reads : s.read_task ≡ reading → s.cancelled ≡ false → Step s (start_task s)
    loop_ends :
        (e : LoopEnd)
        → s.read_task ≡ reading
        → may_end s.cancelled e ≡ true
        → Step s (finish_loop e s)
    loop_over : s.read_task ≡ finishing → Step s (record s { read_task = over })
    task_ends : (n : ℕ) → Step s (record s { inflight = discard n s.inflight })
    stop_begins : (k : ℕ) → s.stop_phases k ≡ not_stopping → Step s (begin_stop k s)
    stop_goes_on :
        (k : ℕ) → s.stop_phases k ≡ awaits_loop → s.read_task ≡ over → Step s (cancel_inflight k s)
    stop_returns :
        (k : ℕ) (tasks : List ℕ)
        → s.stop_phases k ≡ awaits_tasks tasks
        → none_left tasks s.inflight ≡ true
        → Step s (end_stop k s)

  pub data Reach (s : Tasks S P) : Tasks S P → Type 0 where
    here : Reach s s
    next : {t u : Tasks S P} → Reach s t → Step t u → Reach s u

-- A peer that was just made.
abbrev pub fresh : {S P : Type 0} → Config → S → Tasks S P
fresh config app = record {
  session = idle config app;
  read_task = not_started;
  cancelled = false;
  inflight = [];
  next_task = 0;
  stopping = false;
  stop_phases = λ k. not_stopping;
}

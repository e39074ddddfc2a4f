-- ===== src/Client/Session/Steps.antt =====
-- The steps of a session, in any interleaving: those of the worker, in its order, those of the threads that
-- submit calls, and those of `stop`.
use robotframework_jsonrpcre.Base.{ℕ, Bool, true, false, Option, List, ◌∷◌, ◌≡◌, ◌<◌, ◌⊎◌}
use robotframework_jsonrpcre.Base.Result.{Result, Exception}
use robotframework_jsonrpcre.Protocol.{InitializeResult, ImportLibraryResult}
use robotframework_jsonrpcre.Client.Session.{
  idle, starting, connecting, initializing, serving, failing, closing, closed, released, shut,
  peer_runs, peer_stopped, Outcome, Exits, finalize_session, Session, new_session, is_shut, ended,
  has_result, begin_submit, schedule, finish_call, call_done, end_session, fail_stranded,
  start_peer, initialize_server, complete, close_connection, release,
}

-- asyncio cancels the worker only while its peer is being stopped, which only `stop` does.
pub data Step (s : Session) : Session → Type 0 where
  -- `start`, and the worker, which sets its loop first.
  starts : s.phase ≡ idle → Step s (record s { phase = starting })
  opens_loop : s.phase ≡ starting → Step s (record s { phase = connecting; loop = true })
  connects :
      (spawned : Bool) (r : Option Exception)
      → s.phase ≡ connecting
      → Step s (start_peer spawned r s)
  initializes :
      (i : Result Exception InitializeResult) (n : Option Exception)
      (r : Result Exception ImportLibraryResult)
      → s.phase ≡ initializing
      → Step s (initialize_server i n r s)
  -- The read loop of the peer ends.
  disconnects : s.peer ≡ peer_runs → Step s (record s { peer = peer_stopped })
  completes : (e : Option Exception) → s.phase ≡ serving → Step s (complete e s)
  is_cancelled :
      s.closed_by_client ≡ true
      → (s.phase ≡ connecting) ⊎ (s.phase ≡ initializing)
      → Step s (record s { phase = closed; initialized = true })
  closes :
      (exits : Exits)
      → (s.phase ≡ failing) ⊎ (s.phase ≡ closing)
      → Step s (close_connection exits s)
  releases : s.phase ≡ closed → Step s (release (record s { phase = released }))
  shuts : s.phase ≡ released → Step s (record s { phase = shut })
  ends : s.phase ≡ shut → s.submitting ≡ false → Step s (end_session s)
  fails :
      (n : ℕ) (rest : List ℕ)
      → ended s ≡ true
      → s.stranded ≡ n ∷ rest
      → Step s (fail_stranded n rest s)
  -- A thread takes the lock in `submit`, and gives it back.
  begins : s.submitting ≡ false → Step s ((begin_submit s).1)
  schedules : s.submitting ≡ true → Step s ((schedule s).1)
  -- The loop runs a call to its end; `_call_done` after any end of it.
  answers :
      (n : ℕ) (o : Outcome) → is_shut s.phase ≡ false → n < s.next_call → Step s (finish_call n o s)
  discards : (n : ℕ) → has_result n s.results ≡ true → s.submitting ≡ false → Step s (call_done n s)
  -- `stop`: first the mark, then the peer stops, and at last `_finalize_session` drops what it holds.
  stops : Step s (record s { closed_by_client = true })
  drops : (still_runs : Bool) → s.closed_by_client ≡ true → Step s (finalize_session still_runs s)

pub data Reachable : Session → Type 0 where
  at_first : Reachable new_session
  then_step : {s t : Session} → Reachable s → Step s t → Reachable t

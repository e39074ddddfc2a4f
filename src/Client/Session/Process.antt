-- ===== src/Client/Session/Process.antt =====
-- The server process that a session has spawned is released with the session.
use robotframework_jsonrpcre.Base.{
  Bool, true, false, not, Option, none, some, ◌≡◌, refl, arith, ◌&&◌,
}
use robotframework_jsonrpcre.Base.Result.{Result, ok, err, Exception}
use robotframework_jsonrpcre.Protocol.{InitializeResult, ImportLibraryResult}
use robotframework_jsonrpcre.Client.Session.{
  Phase, closed, released, shut, over, Session, finalize_session, begin_submit, schedule,
  start_peer, initialize_server, complete, close_connection, release, end_session, fail_stranded,
}
use robotframework_jsonrpcre.Client.Session.Steps.{
  Step, starts, opens_loop, connects, initializes, disconnects, completes, is_cancelled, closes,
  releases, shuts, ends, fails, begins, schedules, answers, discards, stops, drops, Reachable,
  at_first, then_step,
}

-- The worker is past `close_connection`.
abbrev pub after : Phase → Bool
after closed = true
after released = true
after shut = true
after over = true
after p = false

abbrev NoProcess : Session → Type 0
NoProcess s = (after s.phase && not s.closed_by_client && s.process) ≡ false

initialize_server-NoProcess :
    (a : Result Exception InitializeResult) (n : Option Exception)
    (r : Result Exception ImportLibraryResult) (s : Session)
    → NoProcess (initialize_server a n r s)
unfolding initialize_server
initialize_server-NoProcess (err e) n r s = refl
initialize_server-NoProcess (ok i) (some e) r s = refl
initialize_server-NoProcess (ok i) none (err e) s = refl
initialize_server-NoProcess (ok i) none (ok r) s = refl

step-NoProcess : (s t : Session) → Step s t → NoProcess s → NoProcess t
unfolding complete close_connection release finalize_session end_session start_peer begin_submit
    schedule fail_stranded
step-NoProcess s _ (starts h) i = refl
step-NoProcess s _ (opens_loop h) i = refl
step-NoProcess s _ (connects b none h) i = refl
step-NoProcess s _ (connects b (some e) h) i = refl
step-NoProcess s _ (initializes a n r h) i = initialize_server-NoProcess a n r s
step-NoProcess s _ (disconnects h) i = i
step-NoProcess s _ (completes e h) i = refl
step-NoProcess s _ (is_cancelled c h) i = rw c refl
step-NoProcess s _ (closes e h) i = ground arith
step-NoProcess s _ (releases h) i = rw h at i
step-NoProcess s _ (shuts h) i = rw h at i
step-NoProcess s _ (ends h b) i = rw h at i
step-NoProcess s _ (fails n rest e h) i = i
step-NoProcess s _ (begins h) i = ground arith
step-NoProcess s _ (schedules h) i = ground arith
step-NoProcess s _ (answers n o h less) i = i
step-NoProcess s _ (discards n h b) i = i
step-NoProcess s _ stops i = ground arith
step-NoProcess s _ (drops b h) i = ground arith

Reachable-NoProcess : (s : Session) → Reachable s → NoProcess s
Reachable-NoProcess _ at_first = refl
Reachable-NoProcess t (then_step {s} r step) = step-NoProcess s t step (Reachable-NoProcess s r)

-- A session whose worker is past `close_connection`, after a failed start too, holds no spawned server
-- process, in any interleaving, unless the client is closing the session itself; and when it has dropped
-- what it holds, the session holds none in that case either.
pub close_connection-process :
    (s : Session) (still_runs : Bool)
    → Reachable s
    → (s.closed_by_client ≡ false → after s.phase ≡ true → s.process ≡ false)
      × ((finalize_session still_runs s).process ≡ false)
unfolding finalize_session
close_connection-process s still_runs r = ((λ c a. rw (a, c) at (Reachable-NoProcess s r)), refl)

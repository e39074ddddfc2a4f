-- ===== src/Peer/Session.antt =====
-- A peer and the calls of `send_request` that wait on it, as a step relation: the interleavings of
-- the tasks of packages/jsonrpcpeer/src/jsonrpcpeer/peer.py at their waits.
pub mod Advance
pub mod Respond
pub mod Invariant
pub mod RemoteCall
pub mod WrittenCall
use robotframework_jsonrpcre.Base.{ℕ, String, Bool, true, false, Option, ◌≡◌, ◌==◌, if◌then◌else◌}
use robotframework_jsonrpcre.Base.Result.{Exception}
use robotframework_jsonrpcre.Value.{Value}
use robotframework_jsonrpcre.Peer.State.{Peer, Runtime, Config, Bytes, done, init}
use robotframework_jsonrpcre.Peer.Dispatch.{process_single_message}
use robotframework_jsonrpcre.Peer.Send.{write_answer}
use robotframework_jsonrpcre.Peer.Requests.{
  Call, pending, begin_request, write_failed, time_out, finish_request,
}
use robotframework_jsonrpcre.Peer.Lifecycle.{LoopEnd, end_loop, stop}

-- `callers n`: a call waits for request `n`, in drain() or for its future.
pub record Session (S P : Type 0) : Type 0 where
  pub peer : Peer S P
  pub callers : ℕ → Bool

abbrev pub set_caller : ℕ → Bool → (ℕ → Bool) → ℕ → Bool
set_caller n b callers m = if n == m then b else callers m

-- A call that has written its frame waits; one that was refused or failed does not.
abbrev waits : Call → (ℕ → Bool) → ℕ → Bool
waits (pending n) callers = set_caller n true callers
waits _ callers = callers

module _ {S P : Type 0} (env : Runtime P) where
  pub data Step (s : Session S P) : Session S P → Type 0 where
    -- A call of `send_request`.
    calls :
        (method : String) (params : Value)
        → Step s (record {
          peer = (begin_request env method params s.peer).1;
          callers = waits (begin_request env method params s.peer).0 s.callers;
        })
    -- drain() raises in a call that waits for it.
    drain_fails :
        (n : ℕ) (x : Exception)
        → s.callers n ≡ true
        → Step s
            (record { peer = (write_failed n x s.peer).1; callers = set_caller n false s.callers })
    -- The time of a request is up.
    times_out : (n : ℕ) → s.callers n ≡ true → Step s (record s { peer = time_out n s.peer })
    -- A call goes on after its future is done.
    wakes :
        (n : ℕ) (response_type : Option P)
        → s.callers n ≡ true
        → done (s.peer.futures n) ≡ true
        → Step s (record {
          peer = (finish_request env response_type n s.peer).1;
          callers = set_caller n false s.callers;
        })
    -- A message from the other side is handled.
    receives : (v : Value) → Step s (record s { peer = (process_single_message env v s.peer).1 })
    -- The answer to a message is written.
    answers : (body : Bytes) → Step s (record s { peer = write_answer body s.peer })
    -- The read loop ends.
    ends : (e : LoopEnd) → Step s (record s { peer = end_loop e s.peer })
    -- The application stops the peer.
    stops : (loop_runs : Bool) → Step s (record s { peer = stop loop_runs s.peer })

  pub data Reach (s : Session S P) : Session S P → Type 0 where
    here : Reach s s
    next : {t u : Session S P} → Reach s t → Step t u → Reach s u

abbrev pub idle : {S P : Type 0} → Config → S → Session S P
idle config app = record { peer = init config app; callers = λ _. false }

-- ===== src/Peer/Lifecycle.antt =====
-- The end of a peer: `io_loop`, `_finish`, `_mark_closed`, `start` and `stop` of
-- packages/jsonrpcpeer/src/jsonrpcpeer/peer.py.
use robotframework_jsonrpcre.Base.{
  ℕ, Bool, true, false, Option, none, some, [], ◌∷◌, ◌||◌, not, if◌then◌else◌,
}
use robotframework_jsonrpcre.Base.Dict.{Dict}
use robotframework_jsonrpcre.Base.Result.{Exception}
use robotframework_jsonrpcre.Peer.State.{
  Peer, Future, failed, connection_closed, done, Completion, open_yet, completed, broken,
  set_future,
}

-- How the read loop ends: `running` is false, asyncio.IncompleteReadError, its task is cancelled, or
-- another exception. An incomplete read says whether bytes were left and whether the reader is at EOF.
pub data LoopEnd : Type 0 where
  stopped : LoopEnd
  incomplete : (partial at_eof : Bool) → Exception → LoopEnd
  task_cancelled : LoopEnd
  crashed : Exception → LoopEnd

abbrev pub fail_one : Option Exception → ℕ → (ℕ → Future) → ℕ → Future
fail_one cause n futures =
    if done (futures n) then futures else set_future n (failed (connection_closed cause)) futures

-- Each pending future that is not done fails with JsonRpcConnectionClosedError.
unfoldable pub fail_all : Option Exception → Dict ℕ → (ℕ → Future) → ℕ → Future
fail_all cause [] futures = futures
fail_all cause ((k, n) ∷ pending) futures = fail_all cause pending (fail_one cause n futures)

-- `if not self._completion().done()`
abbrev settle : Completion → Completion → Completion
settle open_yet c = c
settle c _ = c

module _ {S P : Type 0} where
  unfoldable pub mark_closed : Option Exception → Peer S P → Peer S P
  mark_closed cause p = record p {
    closed = true;
    pending_requests = [];
    futures = fail_all cause p.pending_requests p.futures;
  }

  unfoldable pub finish : Option Exception → Peer S P → Peer S P
  unfolding mark_closed
  finish close_error p =
      let q = mark_closed close_error (record p { running = false }) in
      record q {
        completion = settle p.completion completed;
        writer_closing = p.writer_closing || p.config.auto_close;
      }

  -- The error becomes that of the completion, before `_finish`.
  unfoldable pub end_with : Exception → Peer S P → Peer S P
  unfolding finish
  end_with x p = finish (some x) (record p { completion = settle p.completion (broken x) })

  unfoldable pub end_loop : LoopEnd → Peer S P → Peer S P
  unfolding end_with
  end_loop stopped p = finish none p
  end_loop (incomplete partial at_eof x) p =
      if partial || not at_eof then end_with x p else finish none p
  end_loop task_cancelled p = finish none p
  end_loop (crashed x) p = end_with x p

  unfoldable pub start : Peer S P → Peer S P
  start p = record p { running = true }

  -- The end of `stop`: `_finish`, if the read loop has never run it.
  unfoldable pub ensure_finished : Peer S P → Peer S P
  ensure_finished p = if p.closed then p else finish none p

  -- `stop`, on whether the read loop has been running: its task is cancelled and runs its end first.
  unfoldable pub stop : Bool → Peer S P → Peer S P
  stop true p = ensure_finished (end_loop task_cancelled (record p { running = false }))
  stop false p = ensure_finished (record p { running = false })

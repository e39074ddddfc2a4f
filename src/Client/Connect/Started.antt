-- ===== src/Client/Connect/Started.antt =====
-- What `_connect` gives is a session that has started.
use robotframework_jsonrpcre.Base.{
  Bool, true, false, not, Option, none, some, ◌≡◌, refl, arith, is_some,
}
use robotframework_jsonrpcre.Base.Result.{Result, ok, err, Exception}
use robotframework_jsonrpcre.Client.Session.{Session}
use robotframework_jsonrpcre.Client.Session.Steps.{Reachable}
use robotframework_jsonrpcre.Client.Session.Loss.{initialized-started}
use robotframework_jsonrpcre.Client.Connect.{
  ConnectError, timed_out, start_failed, start_result, after_wait, connect_result,
}

-- A result of `_connect` for the session `s`, with the session after it.
abbrev pub IsOutcome : Session → Result ConnectError Session → Session → Type 0
IsOutcome s (ok session) after =
    (session ≡ s)
    × (after ≡ s)
    × (s.start_error ≡ none)
    × (is_some s.library_token ≡ true)
    × (is_some s.library_definition ≡ true)
IsOutcome s (err (start_failed e)) after =
    (after ≡ s) × (s.start_error ≡ some e) × (is_some s.library_token ≡ false)
IsOutcome s (err (timed_out cause)) after =
    (s.initialized ≡ false) × (after.closed_by_client ≡ true) × (cause ≡ s.start_error)

started-IsOutcome :
    (s : Session) (e : Option Exception)
    → s.start_error ≡ e
    → (is_some s.start_error ≡ not (is_some s.library_token))
      × (is_some s.library_token ≡ true → is_some s.library_definition ≡ true)
    → IsOutcome s (start_result e s) s
started-IsOutcome s none h (one, defined) =
    let token : is_some s.library_token ≡ true = ground arith in
    (refl, refl, h, token, defined token)
started-IsOutcome s (some e) h (one, defined) = (refl, h, ground arith)

after_wait-IsOutcome :
    (s : Session) (is_set : Bool)
    → s.initialized ≡ is_set
    → Reachable s
    → s.closed_by_client ≡ false
    → IsOutcome s (after_wait is_set s).0 (after_wait is_set s).1
after_wait-IsOutcome s true i r c =
    started-IsOutcome s s.start_error refl (initialized-started s r c i)
after_wait-IsOutcome s false i r c = (i, refl, refl)

-- Whatever the worker, the server and other threads did before, when the wait of `_connect` ends on
-- a session that nobody has stopped, `_connect` returns that session only if it has no start error but a library
-- token and a definition, raises its start error only if it has no token, and otherwise raises a
-- TimeoutError, with the start error as its cause, and stops the session.
pub connect_result-IsOutcome :
    (s : Session)
    → Reachable s
    → s.closed_by_client ≡ false
    → IsOutcome s (connect_result s).0 (connect_result s).1
unfolding connect_result
connect_result-IsOutcome s r c = after_wait-IsOutcome s s.initialized refl r c

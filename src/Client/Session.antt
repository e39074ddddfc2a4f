-- ===== src/Client/Session.antt =====
-- The session of the client: `_Session` of src/JsonRpcRemote/__init__.py with its worker thread, the
-- threads that hand it calls, and the end of it, whose steps are in Session/Steps. Answers of the
-- server and of the process are the environment's.
pub mod Steps
pub mod Calls
pub mod Loss
pub mod Process
use robotframework_jsonrpcre.Base.{
  ℕ, suc, Bool, true, false, not, Option, none, some, List, [], ◌∷◌, String, ◌&&◌, ◌||◌, ◌==◌,
  if◌then◌else◌, is_some,
}
use robotframework_jsonrpcre.Base.Int.{ℤ}
use robotframework_jsonrpcre.Base.Result.{Result, ok, err, Exception}
use robotframework_jsonrpcre.Protocol.{
  LibraryDefinition, ServerCapabilities, InitializeResult, ImportLibraryResult,
}

-- Where `_run` stands: each wait of the worker, and its end. `shut` is after asyncio.run has closed the
-- loop, `over` after `_end` has set `ended`.
pub data Phase : Type 0 where
  idle starting connecting initializing serving failing closing closed released shut over : Phase

-- _res.peer, and whether it runs.
pub data PeerState : Type 0 where
  no_peer : PeerState
  peer_runs : PeerState
  peer_stopped : PeerState

-- How a call that was handed over is done.
pub data Outcome : Type 0 where
  answered : Outcome
  closed_error : Outcome

-- What the session does to a spawned server that does not end by itself.
pub data Signal : Type 0 where
  terminate : Signal
  kill : Signal

-- Whether, and how, the process has ended within each of the three waits of `close_connection`.
pub record Exits : Type 0 where
  pub after_eof : Option ℤ
  pub after_terminate : Option ℤ
  pub after_kill : Option ℤ

-- `process`: _res.process is set. `signals` are those that were sent to it, the last one first.
-- `submitting`: a thread in `submit` has the lock and has seen the loop. `calls` are those not done yet,
-- by the order of their submission; `stranded` those that `_end` has still to fail.
pub record Session : Type 0 where
  pub phase : Phase
  pub loop : Bool
  pub peer : PeerState
  pub initialized : Bool
  pub submitting : Bool
  pub next_call : ℕ
  pub calls : List ℕ
  pub results : List (ℕ × Outcome)
  pub stranded : List ℕ
  pub server_capabilities : Option ServerCapabilities
  pub library_definition : Option LibraryDefinition
  pub library_token : Option String
  pub start_error : Option Exception
  pub connection_error : Option Exception
  pub process : Bool
  pub signals : List Signal
  pub process_returncode : Option ℤ
  pub closed_by_client : Bool

-- `__init__`
abbrev pub new_session : Session
new_session = record {
  phase = idle;
  loop = false;
  peer = no_peer;
  initialized = false;
  submitting = false;
  next_call = 0;
  calls = [];
  results = [];
  stranded = [];
  server_capabilities = none;
  library_definition = none;
  library_token = none;
  start_error = none;
  connection_error = none;
  process = false;
  signals = [];
  process_returncode = none;
  closed_by_client = false;
}

abbrev pub is_over : Phase → Bool
is_over over = true
is_over p = false

abbrev pub is_shut : Phase → Bool
is_shut shut = true
is_shut over = true
is_shut p = false

-- `ended` is set.
abbrev pub ended : Session → Bool
ended s = is_over s.phase

abbrev pub contains : ℕ → List ℕ → Bool
contains n [] = false
contains n (m ∷ ms) = m == n || contains n ms

abbrev pub discard : ℕ → List ℕ → List ℕ
discard n [] = []
discard n (m ∷ ms) = let rest = discard n ms in if m == n then rest else m ∷ rest

-- call.done()
abbrev pub has_result : ℕ → List (ℕ × Outcome) → Bool
has_result n [] = false
has_result n ((m, o) ∷ rs) = m == n || has_result n rs

abbrev pub not_done : List (ℕ × Outcome) → List ℕ → List ℕ
not_done rs [] = []
not_done rs (n ∷ ns) = let rest = not_done rs ns in if has_result n rs then rest else n ∷ rest

-- What `submit` comes to when it gives its lock back: the call, or the ConnectionError of
-- `_closed_error`.
pub data Submitted : Type 0 where
  submitted : ℕ → Submitted
  rejected : Submitted

-- `submit`, its first part: under the lock, with the loop and `ended` read.
unfoldable pub begin_submit : Session → Option Submitted × Session
begin_submit s =
    if s.loop && not (ended s) then (none, record s { submitting = true }) else (some rejected, s)

-- `submit`, its second part: a closed loop refuses the call.
unfoldable pub schedule : Session → Submitted × Session
schedule s = if is_shut s.phase then (rejected, record s { submitting = false }) else (
  submitted s.next_call,
  record s { submitting = false; next_call = suc s.next_call; calls = s.next_call ∷ s.calls },
)

-- A call is done on the loop, its future with it; a future that is done keeps its result.
abbrev pub add_result : ℕ → Outcome → List (ℕ × Outcome) → List (ℕ × Outcome)
add_result n o rs = if has_result n rs then rs else (n, o) ∷ rs

abbrev pub finish_call : ℕ → Outcome → Session → Session
finish_call n o s = record s { results = add_result n o s.results }

-- `_call_done`
abbrev pub call_done : ℕ → Session → Session
call_done n s = record s { calls = discard n s.calls }

-- `_end` under the lock, and one turn of its loop.
unfoldable pub end_session : Session → Session
end_session s = record s { phase = over; stranded = not_done s.results s.calls }

unfoldable pub fail_stranded : ℕ → List ℕ → Session → Session
fail_stranded n rest s = finish_call n closed_error (record s { stranded = rest })

-- The whole loop of `_end`.
unfoldable pub fail_all : List ℕ → Session → Session
unfolding fail_stranded
fail_all [] s = s
fail_all (n ∷ rest) s = fail_all rest (fail_stranded n rest s)

-- `_start_peer` with `create_connection`, which may spawn the server, and `_run_client` on its failure.
unfoldable pub start_peer : (spawned : Bool) → Option Exception → Session → Session
start_peer spawned none s = record s { phase = initializing; peer = peer_runs; process = spawned }
start_peer spawned (some e) s = record s {
  phase = failing;
  start_error = some e;
  process = spawned;
}

abbrev pub fail_start : Exception → Session → Session
fail_start e s = record s { phase = failing; start_error = some e }

abbrev pub imported : Result Exception ImportLibraryResult → Session → Session
imported (err e) s = fail_start e s
imported (ok r) s = record s {
  phase = serving;
  initialized = true;
  library_definition = some r.definition;
  library_token = some r.import_token;
}

abbrev pub notified : Option Exception → Result Exception ImportLibraryResult → Session → Session
notified (some e) r s = fail_start e s
notified none r s = imported r s

-- `_initialize_server`, on the answers to its three messages, and `_run_client` after it.
unfoldable pub initialize_server :
    Result Exception InitializeResult
    → Option Exception
    → Result Exception ImportLibraryResult
    → Session
    → Session
initialize_server (err e) n r s = fail_start e s
initialize_server (ok i) n r s =
    notified n r (record s { server_capabilities = i.server_capabilities })

-- The wait for the completion of the peer ends.
unfoldable pub complete : Option Exception → Session → Session
complete e s = record s { phase = closing; connection_error = e }

-- `close_connection` has closed the writer, which ends the peer, and released the process.
abbrev pub stopped_peer : PeerState → PeerState
stopped_peer no_peer = no_peer
stopped_peer p = peer_stopped

-- The end of the process: its exit code, and the signals that were sent.
unfoldable pub release_process : Exits → Option ℤ × List Signal
release_process x = elim x.after_eof [
  | some r ↦ (some r, [])
  | none ↦ elim x.after_terminate [
    | some r ↦ (some r, terminate ∷ [])
    | none ↦ (x.after_kill, kill ∷ terminate ∷ [])
  ]
]

unfoldable pub close_connection : Exits → Session → Session
unfolding release_process
close_connection x s = record s {
  phase = closed;
  initialized = true;
  peer = stopped_peer s.peer;
  process = false;
  signals = if s.process then (release_process x).1 else s.signals;
  process_returncode = if s.process then (release_process x).0 else s.process_returncode;
}

-- The last `finally` of `_run_client`.
unfoldable pub release : Session → Session
release s = record s { loop = false; peer = no_peer }

-- The last part of `_finalize_session`, which kills a process that still runs.
unfoldable pub finalize_session : (still_runs : Bool) → Session → Session
finalize_session still_runs s = record s {
  loop = false;
  peer = no_peer;
  process = false;
  signals = if s.process && still_runs then kill ∷ s.signals else s.signals;
}

abbrev pub runs : PeerState → Bool
runs peer_runs = true
runs p = false

-- `lost`
unfoldable pub lost : Session → Bool
lost s = is_some s.library_token && not s.closed_by_client && (ended s || not (runs s.peer))

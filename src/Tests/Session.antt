-- ===== src/Tests/Session.antt =====
-- The theorems on the session of the client and its calls at concrete runs.
use robotframework_jsonrpcre.Base.{
  true, false, Bool, none, some, Option, [], ◌∷◌, String, ◌≡◌, refl, ◌↔◌, inl, arith, ◌=ₛ◌,
}
use robotframework_jsonrpcre.Base.Int.{pos}
use robotframework_jsonrpcre.Base.Result.{Result, ok, Exception}
use robotframework_jsonrpcre.Protocol.{
  KeywordDefinition, LibraryDefinition, InitializeResult, ImportLibraryResult,
}
use robotframework_jsonrpcre.Client.Connect.{connect_result}
use robotframework_jsonrpcre.Client.Connect.Started.{IsOutcome, connect_result-IsOutcome}
use robotframework_jsonrpcre.Client.Session.{
  Exits, Session, new_session, start_peer, initialize_server, schedule, begin_submit,
  close_connection, release, end_session, fail_all, finalize_session, has_result, lost, shut,
  released, connecting, peer_stopped,
}
use robotframework_jsonrpcre.Client.Session.Steps.{
  starts, opens_loop, connects, initializes, disconnects, closes, releases, shuts, ends, begins,
  schedules, Reachable, at_first, then_step,
}
use robotframework_jsonrpcre.Client.Session.Calls.{ended-done}
use robotframework_jsonrpcre.Client.Session.Loss.{lost-stays}
use robotframework_jsonrpcre.Client.Session.Process.{after, close_connection-process}
use robotframework_jsonrpcre.Client.Changes.{definition_changes}
use robotframework_jsonrpcre.Client.Changes.Itself.{definition_changes_iff}
use robotframework_jsonrpcre.Client.Call.{Endpoint}
use robotframework_jsonrpcre.Server.Endpoint.{init}
use robotframework_jsonrpcre.Client.Call.Level.{
  KeywordCall, Served, serve_all, run_all, run_all-log_level,
}

abbrev refused : Exception
refused = record { type_name = "ConnectionRefusedError"; message = ""; trace = "" }

abbrev exits_late : Exits
exits_late = record { after_eof = none; after_terminate = some (pos 1); after_kill = none }

-- A call is submitted while the session connects; the connection is refused, and the session ends.
abbrev opened : Session
opened = record new_session { phase = connecting; loop = true }

opened-Reachable : Reachable opened
opened-Reachable = then_step (then_step at_first (starts refl)) (opens_loop refl)

abbrev waiting : Session
waiting = (schedule ((begin_submit opened).1)).1

waiting-Reachable : Reachable waiting
unfolding begin_submit schedule
waiting-Reachable = then_step (then_step opened-Reachable (begins refl)) (schedules refl)

abbrev failed_start : Session
failed_start = close_connection exits_late (start_peer true (some refused) waiting)

failed_start-Reachable : Reachable failed_start
unfolding begin_submit schedule start_peer close_connection
failed_start-Reachable =
    then_step (then_step waiting-Reachable (connects true (some refused) refl))
      (closes exits_late (inl refl))

abbrev at_end : Session
at_end = end_session (record (release (record failed_start { phase = released })) { phase = shut })

at_end-Reachable : Reachable at_end
unfolding begin_submit schedule start_peer close_connection release end_session
at_end-Reachable =
    then_step (then_step (then_step failed_start-Reachable (releases refl)) (shuts refl))
      (ends refl refl)

ended-done_example :
    Reachable (fail_all at_end.stranded at_end)
    × (has_result 0 (fail_all at_end.stranded at_end).results ≡ true)
    × ((fail_all at_end.stranded at_end).submitting ≡ false)
unfolding begin_submit schedule start_peer close_connection release end_session
ended-done_example = ended-done at_end 0 at_end-Reachable refl (omega arith)

close_connection-process_example :
    (failed_start.closed_by_client ≡ false
      → after failed_start.phase ≡ true
      → failed_start.process ≡ false)
    × ((finalize_session true failed_start).process ≡ false)
close_connection-process_example = close_connection-process failed_start true failed_start-Reachable

abbrev keyword : KeywordDefinition
keyword = record {
  keyword_name = "K";
  keyword_args = [];
  keyword_doc = none;
  tags = none;
  keyword_source = none;
  keyword_lineno = none;
}

abbrev library : LibraryDefinition
library = record {
  library_name = "L";
  keywords = keyword ∷ [];
  doc = none;
  doc_format = none;
  scope = none;
  version = none;
  source = none;
  lineno = none;
}

abbrev initialized : Result Exception InitializeResult
initialized = ok (record { server_capabilities = none; server_info = none })

abbrev imported : Result Exception ImportLibraryResult
imported = ok (record { import_token = "t"; definition = library })

abbrev dropped : Session
dropped = record (initialize_server initialized none imported (start_peer false none opened)) {
  peer = peer_stopped;
}

dropped-Reachable : Reachable dropped
unfolding start_peer initialize_server
dropped-Reachable =
    then_step
      (then_step (then_step opened-Reachable (connects false none refl))
        (initializes initialized none imported refl))
      (disconnects refl)

lost-stays_example : lost ((begin_submit dropped).1) ≡ true
unfolding start_peer initialize_server lost begin_submit
lost-stays_example =
    lost-stays dropped ((begin_submit dropped).1) dropped-Reachable (begins refl) refl refl

abbrev same_name : KeywordDefinition → KeywordDefinition → Bool
same_name a b = a.keyword_name =ₛ b.keyword_name

abbrev newer : LibraryDefinition
newer = record library { version = some "2" }

definition_changes_iff_example :
    definition_changes same_name (some library) (some newer) ≡ "" ↔ some library ≡ some newer
definition_changes_iff_example =
    definition_changes_iff same_name (some library) (some newer)
      ((((λ _. refl), (λ _. refl)), tt), tt)

abbrev endpoint : Endpoint
endpoint = record {
  log_level = some "INFO";
  library_token = some "t";
  server_capabilities = none;
  sent = [];
}

abbrev call_at : Option String → KeywordCall
call_at level = record { name = "K"; args = []; named = []; level = level }

abbrev serving : Served
serving = record { served = init [] "1"; ran_at = [] }

run_all-log_level_example :
    (serve_all (run_all (call_at (some "DEBUG") ∷ call_at none ∷ []) endpoint).sent serving).ran_at
    ≡ "DEBUG" ∷ "DEBUG" ∷ []
run_all-log_level_example =
    run_all-log_level (call_at (some "DEBUG") ∷ call_at none ∷ []) "t" "INFO" endpoint serving refl
      refl refl refl refl

-- A session whose start has failed.
connect_result-IsOutcome_example :
    IsOutcome failed_start (connect_result failed_start).0 (connect_result failed_start).1
unfolding close_connection start_peer schedule begin_submit
connect_result-IsOutcome_example = connect_result-IsOutcome failed_start failed_start-Reachable refl

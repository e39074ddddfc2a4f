-- ===== src/Client/Retry.antt =====
-- The session of a client library, connect retry and the end of a session's scope: JsonRpcRemote of
-- src/JsonRpcRemote/__init__.py. The clock and the connection attempts are the environment's: what
-- each attempt gives, and whether the window is still open after it, is a list, in their order.
pub mod Attempts
pub mod Definition
use robotframework_jsonrpcre.Base.{
  ℕ, zero, suc, Bool, true, false, not, Option, none, some, List, [], ◌∷◌, ◌++◌, String, ◌&&◌, ◌=ₛ◌,
  if◌then◌else◌,
}
use robotframework_jsonrpcre.Base.Result.{Result, ok, err, Exception}
use robotframework_jsonrpcre.Protocol.{LibraryDefinition}

pub record Session : Type 0 where
  pub session_id : ℕ
  pub library_definition : Option LibraryDefinition
  pub loss : Option String

-- _Outage, without the clock.
pub record Outage : Type 0 where
  pub outage_loss : Option String
  pub failed_attempts : ℕ
  pub window_spent : Bool

-- What the library writes to the log of Robot Framework.
pub data Report : Type 0 where
  reconnected : (loss : String) → (attempts : ℕ) → Report
  connected_late : (attempts : ℕ) → Report

-- JsonRpcRemote, and the sessions it has stopped and the reports it has made, the last one first.
pub record Client : Type 0 where
  pub session : Option Session
  pub outage : Option Outage
  pub incompatible : Option String
  pub registered_definition : Option LibraryDefinition
  pub with_retry : Bool
  pub stopped_sessions : List ℕ
  pub reports : List Report

-- One attempt: what `_connect` gives, and whether time remains when it has failed.
pub record Attempt : Type 0 where
  pub outcome : Result Exception Session
  pub remains : Bool

-- `waits` is the state in which the next attempt has still to end.
pub data Connected : Type 0 where
  connected : Session → Client → Connected
  failed : Exception → Client → Connected
  waits : Client → Connected

abbrev fresh_outage : Outage
fresh_outage = record { outage_loss = none; failed_attempts = 0; window_spent = false }

abbrev pub outage_of : Option Outage → Outage
outage_of none = fresh_outage
outage_of (some o) = o

abbrev pub count_failure : Client → Client
count_failure c =
    let o = outage_of c.outage in
    record c { outage = some (record o { failed_attempts = suc o.failed_attempts }) }

abbrev pub spend : Client → Client
spend c = record c { outage = some (record (outage_of c.outage) { window_spent = true }) }

-- The loop of `_connect_with_retry`: `retry` is decided before it. The message of the
-- ConnectionError, made of the last error, is the parameter's.
unfoldable pub attempts_from :
    (Exception → ℕ → Exception) → Bool → ℕ → List Attempt → Client → Connected
attempts_from spent_error retry n [] c = waits c
attempts_from spent_error retry n (a ∷ more) c =
    let again = attempts_from spent_error retry (suc n) more (count_failure c) in
    elim a.outcome [
      | ok session ↦ connected session c
      | err error ↦
          if not retry
          then failed error (count_failure c)
          else if a.remains
          then again
          else failed (spent_error error (suc n)) (spend (count_failure c))
    ]

abbrev pub is_spent : Option Outage → Bool
is_spent none = false
is_spent (some o) = o.window_spent

abbrev pub may_retry : Client → Bool
may_retry c = c.with_retry && not (is_spent c.outage)

unfoldable pub connect_with_retry : (Exception → ℕ → Exception) → List Attempt → Client → Connected
unfolding attempts_from
connect_with_retry spent_error attempts c = attempts_from spent_error (may_retry c) 0 attempts c

-- `_check_definition`, with `_definition_changes` as the parameter: an empty text is no change.
abbrev pub check_definition :
    (Option LibraryDefinition → Option LibraryDefinition → String)
    → (String → Exception)
    → (String → String)
    → Session
    → Client
    → Option Exception × Client
check_definition changes connection_error describe session c =
    let text = changes c.registered_definition session.library_definition in
    if text =ₛ "" then (none, c) else (
      some (connection_error (describe text)),
      record c {
        stopped_sessions = session.session_id ∷ c.stopped_sessions;
        incompatible = some (describe text);
      },
    )

-- What `_ensure_session` uses of the rest: texts and `_definition_changes`.
pub record Texts : Type 0 where
  pub definition_changes : Option LibraryDefinition → Option LibraryDefinition → String
  pub connection_error : String → Exception
  pub describe_changes : String → String
  pub spent_error : Exception → ℕ → Exception
  pub lost_error : Session → Exception

abbrev report : Report → Client → Client
report r c = record c { reports = r ∷ c.reports }

abbrev keep : Session → Client → Client
keep session c = record c { session = some session }

abbrev pub after_check : Session → Report → Option Exception × Client → Connected
after_check s r (some e, c) = failed e c
after_check s r (none, c) = connected s (keep s (report r c))

-- After a connection, with the outage that it ends.
unfoldable pub take_session : Texts → Option Outage → Session → Client → Connected
take_session t none s c = connected s (keep s c)
take_session t (some o) s c = elim o.outage_loss [
  | some loss ↦
      after_check s (reconnected loss (suc o.failed_attempts))
        (check_definition t.definition_changes t.connection_error t.describe_changes s c)
  | none ↦
      if c.with_retry
      then connected s (keep s (report (connected_late (suc o.failed_attempts)) c))
      else connected s (keep s c)
]

unfoldable pub take_connected : Texts → Connected → Connected
unfolding take_session
take_connected t (connected s c) = take_session t c.outage s (record c { outage = none })
take_connected t (failed e c) = failed e c
take_connected t (waits c) = waits c

unfoldable pub new_session : Texts → List Attempt → Client → Connected
unfolding take_connected connect_with_retry
new_session t attempts c = take_connected t (connect_with_retry t.spent_error attempts c)

-- The session is lost: with retry it is replaced right away, and its loss is kept.
abbrev pub drop_lost : Session → String → Client → Client
drop_lost s loss c = record c {
  session = none;
  outage = some (record { outage_loss = some loss; failed_attempts = 0; window_spent = false });
  stopped_sessions = s.session_id ∷ c.stopped_sessions;
}

unfoldable pub with_session : Texts → List Attempt → Option Session → Client → Connected
unfolding new_session
with_session t attempts none c = new_session t attempts c
with_session t attempts (some s) c = elim s.loss [
  | none ↦ connected s c
  | some loss ↦
      if c.with_retry
      then new_session t attempts (drop_lost s loss c)
      else failed (t.lost_error s) c
]

unfoldable pub unless_incompatible : Texts → List Attempt → Option String → Client → Connected
unfolding with_session
unless_incompatible t attempts (some text) c = failed (t.connection_error text) c
unless_incompatible t attempts none c = with_session t attempts c.session c

unfoldable pub ensure_session : Texts → List Attempt → Client → Connected
unfolding unless_incompatible
ensure_session t attempts c = unless_incompatible t attempts c.incompatible c

-- `_stop_session`, without the drain of the log sink.
abbrev forget_loss : Option Outage → Option Outage
forget_loss none = none
forget_loss (some o) = some (record o { outage_loss = none })

abbrev stop_stored : Option Session → Client → Client
stop_stored none c = c
stop_stored (some s) c = record c {
  session = none;
  stopped_sessions = s.session_id ∷ c.stopped_sessions;
}

abbrev pub stop_session : Client → Client
stop_session c =
    stop_stored c.session (record c { incompatible = none; outage = forget_loss c.outage })

pub data SessionScope : Type 0 where
  test : SessionScope
  suite : SessionScope
  global : SessionScope

abbrev pub end_test : SessionScope → Client → Client
end_test test c = stop_session c
end_test _ c = c

abbrev pub end_suite : SessionScope → Client → Client
end_suite suite c = stop_session c
end_suite _ c = c

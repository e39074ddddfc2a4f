-- ===== src/Client/Call/Level.antt =====
-- The log level at which the server runs the keywords of a client: `report_log_level` of
-- src/JsonRpcRemote/__init__.py, `set_log_level` of _endpoint.py and the round of _runner.py, of
-- packages/server/src/robot_jsonrpcremote_server.
use mathlib.Core.List.{append_assoc, append-nil}
use robotframework_jsonrpcre.Base.{
  true, Option, none, some, List, [], ◌∷◌, ◌++◌, String, ◌≡◌, refl, sym, ap, ◌∙◌, inl, inr, eq_iff,
  arith, Bool-cases,
}
use robotframework_jsonrpcre.Base.Result.{Result, ok, Exception}
use robotframework_jsonrpcre.Value.{Value}
use robotframework_jsonrpcre.Client.Call.{
  Sent, set_log_level, run_keyword_sent, Endpoint, send, is_level, report_log_level, Done,
  with_token, and_then, begin_run,
}
use robotframework_jsonrpcre.Server.Endpoint as Server
use robotframework_jsonrpcre.Server.Runner.{
  Queued, Context, returned, init, next_round, run_command, end_round, succeed, log_messages,
  set_future,
}

pub record KeywordCall : Type 0 where
  pub name : String
  pub args : List Value
  pub named : List (String × Value)
  pub level : Option String

-- Calls one after the other, on a connection that sends every message.
unfoldable pub run_all : List KeywordCall → Endpoint → Endpoint
unfolding begin_run
run_all [] e = e
run_all (c ∷ cs) e = run_all cs ((begin_run none c.name c.args c.named c.level e).1)

-- The server's side of the connection: its endpoint, and the levels that its runner has given to Robot
-- Framework, one for each run of a keyword.
pub record Served : Type 0 where
  pub served : Server.Endpoint
  pub ran_at : List String

-- A keyword, as far as the level goes.
abbrev a_run : Queued (Unit {0}) (List String)
a_run = record {
  command = λ levels. record { messages = []; ending = returned tt; robot_after = levels };
  future = 0;
  subscriber = some 0;
}

abbrev give_level : String → List String → Result Exception (List String)
give_level level levels = ok (levels ++ (level ∷ []))

-- A round of the runner, for a keyword of this endpoint.
abbrev run_round : Served → Context (Unit {0}) (List String)
run_round s = next_round give_level (a_run ∷ []) (init (λ i. s.served.client_log_level) s.ran_at)

-- The server handles a message of the client, and then the next ones.
abbrev pub serve : Sent → Served → Served
serve (set_log_level k) s = record s {
  served = Server.set_log_level (record { log_level = k }) s.served;
}
serve (run_keyword_sent t n a k) s = record s { ran_at = (run_round s).robot }
serve m s = s

abbrev pub serve_all : List Sent → Served → Served
serve_all [] s = s
serve_all (m ∷ ms) s = serve_all ms (serve m s)

run_round-level : (s : Served) → (run_round s).robot ≡ s.ran_at ++ (s.served.client_log_level ∷ [])
unfolding next_round run_command end_round succeed log_messages set_future
run_round-level s = refl

-- Robot Framework's level at each call; without one, that of the call before.
abbrev pub or_before : Option String → String → String
or_before none l = l
or_before (some k) l = k

abbrev pub robot_levels : String → List KeywordCall → List String
robot_levels l [] = []
robot_levels l (c ∷ cs) = or_before c.level l ∷ robot_levels (or_before c.level l) cs

serve_all-append :
    (xs ys : List Sent) (s : Served) → serve_all (xs ++ ys) s ≡ serve_all ys (serve_all xs s)
serve_all-append [] ys s = refl
serve_all-append (m ∷ xs) ys s = serve_all-append xs ys (serve m s)

is_level-≡ : (k : String) (l : Option String) → is_level k l ≡ true → l ≡ some k
is_level-≡ k none h = absurd (cc)
is_level-≡ k (some j) h = ap some (sym ((eq_iff k j).0 h))

report-sends :
    (level : Option String) (e : Endpoint)
    → report_log_level none level e ≡ (none, (report_log_level none level e).1)
unfolding report_log_level
report-sends none e = refl
report-sends (some k) e = ground arith

with_token-some :
    (o : Option String) (token : String) (e : Endpoint) (go : String → Done)
    → o ≡ some token
    → with_token o e go ≡ go token
with_token-some none token e go h = absurd (cc)
with_token-some (some t) token e go h = let i : t ≡ token = cc in ap go i

begin_run-sends :
    (c : KeywordCall) (token : String) (e : Endpoint)
    → e.library_token ≡ some token
    → begin_run none c.name c.args c.named c.level e ≡ (
      none,
      send (run_keyword_sent token c.name c.args c.named) (report_log_level none c.level e).1,
    )
unfolding begin_run
begin_run-sends c token e t =
    with_token-some e.library_token token e _ t
    ∙ ap
        (λ (d : Done).
          and_then d (λ f. (none, send (run_keyword_sent token c.name c.args c.named) f)))
        (report-sends c.level e)

-- The endpoint has told the server its level.
abbrev Told : Served → String → Endpoint → Type 0
Told s l e = (e.log_level ≡ some l) × ((serve_all e.sent s).served.client_log_level ≡ l)

same_text : (k l : String) → some k ≡ some l → k ≡ l
same_text k l h = cc

report-Told :
    (s : Served) (l : String) (level : Option String) (e : Endpoint)
    → Told s l e
    → let f = (report_log_level none level e).1 in
      Told s (or_before level l) f
      × ((serve_all f.sent s).ran_at ≡ (serve_all e.sent s).ran_at)
      × (f.library_token ≡ e.library_token)
unfolding report_log_level
report-Told s l none e h = (h, refl, refl)
report-Told s l (some k) e (h, t) = elim (Bool-cases (is_level k e.log_level)) [
  | inl y ↦
      let i = is_level-≡ k e.log_level y in rw y ((i, t ∙ same_text l k (sym h ∙ i)), refl, refl)
  | inr n ↦ rw n (rw (serve_all-append e.sent (set_log_level k ∷ []) s) ((refl, refl), refl, refl))
]

begin_run-Told :
    (s : Served) (l : String) (c : KeywordCall) (token : String) (e : Endpoint)
    → e.library_token ≡ some token
    → Told s l e
    → let f = (begin_run none c.name c.args c.named c.level e).1 in
      Told s (or_before c.level l) f
      × ((serve_all f.sent s).ran_at ≡ (serve_all e.sent s).ran_at ++ (or_before c.level l ∷ []))
      × (f.library_token ≡ some token)
begin_run-Told s l c token e t h =
    let f = (report_log_level none c.level e).1 in
    let ((level, agree), same, kept) = report-Told s l c.level e h in
    let m = run_keyword_sent token c.name c.args c.named in
    let ran = run_round-level (serve_all f.sent s) in
    rw (begin_run-sends c token e t) (
      rw (serve_all-append f.sent (m ∷ []) s)
        ((level, agree), ran ∙ rw (same, agree) refl, kept ∙ t))

run_all-levels :
    (s : Served) (l : String) (cs : List KeywordCall) (token : String) (e : Endpoint)
    → e.library_token ≡ some token
    → Told s l e
    → (serve_all (run_all cs e).sent s).ran_at ≡ (serve_all e.sent s).ran_at ++ robot_levels l cs
unfolding run_all
run_all-levels s l [] token e t h = sym (append-nil _)
run_all-levels s l (c ∷ cs) token e t h =
    let f = (begin_run none c.name c.args c.named c.level e).1 in
    let (told, ran, kept) = begin_run-Told s l c token e t h in
    run_all-levels s (or_before c.level l) cs token f kept told
    ∙ rw ran (append_assoc (serve_all e.sent s).ran_at _ _)

-- In a session that sends every message to a server that handles each before the next: the runner gives
-- Robot Framework, for each keyword, the log level that Robot Framework has here at the call, or that of the call before
-- where it has none, although the level is sent only when it changes. At first both sides have the
-- level of the handshake.
pub run_all-log_level :
    (cs : List KeywordCall) (token l : String) (e : Endpoint) (s : Served)
    → e.library_token ≡ some token
    → e.sent ≡ []
    → e.log_level ≡ some l
    → s.served.client_log_level ≡ l
    → s.ran_at ≡ []
    → (serve_all (run_all cs e).sent s).ran_at ≡ robot_levels l cs
run_all-log_level cs token l e s t h i k r =
    run_all-levels s l cs token e t (i, rw h k) ∙ rw (h, r) refl

-- ===== src/Client/Session/Loss.antt =====
-- What the client reads of a session: that it has started, with `initialized`, `start_error` and the
-- library token, and that it is lost.
use robotframework_jsonrpcre.Base.{
  ℕ, Bool, List, true, false, not, Option, none, some, ◌≡◌, refl, ◌⊎◌, inl, inr, arith, ◌&&◌, ◌||◌,
  if◌then◌else◌, is_some,
}
use robotframework_jsonrpcre.Base.Result.{Result, ok, err, Exception}
use robotframework_jsonrpcre.Protocol.{InitializeResult, ImportLibraryResult}
use robotframework_jsonrpcre.Client.Session.{
  Phase, idle, starting, connecting, initializing, serving, failing, closing, closed, released,
  shut, PeerState, peer_runs, peer_stopped, no_peer, Session, finalize_session, is_over,
  begin_submit, schedule, start_peer, initialize_server, complete, close_connection, release,
  end_session, fail_stranded, runs, stopped_peer, lost,
}
use robotframework_jsonrpcre.Client.Session.Steps.{
  Step, starts, opens_loop, connects, initializes, disconnects, completes, is_cancelled, closes,
  releases, shuts, ends, fails, begins, schedules, answers, discards, stops, drops, Reachable,
  at_first, then_step,
}

-- The handshake goes on.
abbrev before : Phase → Bool
before idle = true
before starting = true
before connecting = true
before initializing = true
before p = false

abbrev is_failing : Phase → Bool
is_failing failing = true
is_failing p = false

abbrev consistent : Phase → (token definition error initialized by_client : Bool) → Bool
consistent p token definition error initialized by_client =
    if before p
    then not token && not error && not initialized
    else if is_failing p
    then not token && error && not initialized
    else (error || (token && definition) || by_client) && not (token && error)

abbrev Consistent : Session → Type 0
Consistent s =
    consistent s.phase (is_some s.library_token) (is_some s.library_definition)
      (is_some s.start_error) s.initialized s.closed_by_client
    ≡ true

consistent-stops :
    (p : Phase) (t d e i c : Bool)
    → consistent p t d e i c ≡ true
    → consistent p t d e i true ≡ true
consistent-stops p t d e i c h = ground arith

consistent-failing :
    (t d e i c : Bool) → consistent failing t d e i c ≡ true → consistent closed t d e true c ≡ true
consistent-failing t d e i c h = ground arith

start_peer-Consistent :
    (b : Bool) (r : Option Exception) (s : Session)
    → s.phase ≡ connecting
    → Consistent s
    → Consistent (start_peer b r s)
unfolding start_peer
start_peer-Consistent b none s h i = rw h at i
start_peer-Consistent b (some e) s h i =
    let j : consistent connecting (is_some s.library_token) (is_some s.library_definition)
          (is_some s.start_error) s.initialized s.closed_by_client
        ≡ true =
      rw h at i in
    ground arith

fails_before :
    (t d e i c : Bool)
    → consistent initializing t d e i c ≡ true
    → consistent failing t d true i c ≡ true
fails_before t d e i c h = ground arith

serves_after :
    (t d e i c : Bool)
    → consistent initializing t d e i c ≡ true
    → consistent serving true true e true c ≡ true
serves_after t d e i c h = ground arith

initialize_server-Consistent :
    (i : Result Exception InitializeResult) (n : Option Exception)
    (r : Result Exception ImportLibraryResult) (s : Session)
    → s.phase ≡ initializing
    → Consistent s
    → Consistent (initialize_server i n r s)
unfolding initialize_server
initialize_server-Consistent (err e) n r s h c =
    fails_before (is_some s.library_token) (is_some s.library_definition) (is_some s.start_error)
      s.initialized s.closed_by_client (rw h at c)
initialize_server-Consistent (ok i) (some e) r s h c =
    fails_before (is_some s.library_token) (is_some s.library_definition) (is_some s.start_error)
      s.initialized s.closed_by_client (rw h at c)
initialize_server-Consistent (ok i) none (err e) s h c =
    fails_before (is_some s.library_token) (is_some s.library_definition) (is_some s.start_error)
      s.initialized s.closed_by_client (rw h at c)
initialize_server-Consistent (ok i) none (ok r) s h c =
    serves_after (is_some s.library_token) (is_some s.library_definition) (is_some s.start_error)
      s.initialized s.closed_by_client (rw h at c)

is_cancelled-Consistent :
    (p : Phase) (t d e i : Bool)
    → before p ≡ true
    → consistent p t d e i true ≡ true
    → consistent closed t d e true true ≡ true
is_cancelled-Consistent p t d e i b h = ground arith

-- What the invariant and `lost` are about, in two states.
abbrev Same : Session → Session → Type 0
Same s t =
    (t.phase ≡ s.phase)
    × (t.library_token ≡ s.library_token)
    × (t.library_definition ≡ s.library_definition)
    × (t.start_error ≡ s.start_error)
    × (t.initialized ≡ s.initialized)
    × (t.closed_by_client ≡ s.closed_by_client)
    × (t.peer ≡ s.peer)

Same-Consistent : (s t : Session) → Same s t → Consistent s → Consistent t
Same-Consistent s t (p, k, d, e, i, c, r) h = rw (p, k, d, e, i, c) h

Same-lost : (s t : Session) → Same s t → lost s ≡ true → lost t ≡ true
unfolding lost
Same-lost s t (p, k, d, e, i, c, r) h = rw (p, k, c, r) h

begin_submit-Same : (s : Session) → Same s ((begin_submit s).1)
unfolding begin_submit
begin_submit-Same s = ground arith

schedule-Same : (s : Session) → Same s ((schedule s).1)
unfolding schedule
schedule-Same s = ground arith

fail_stranded-Same : (n : ℕ) (rest : List ℕ) (s : Session) → Same s (fail_stranded n rest s)
unfolding fail_stranded
fail_stranded-Same n rest s = (refl, refl, refl, refl, refl, refl, refl)

closed-Consistent :
    (p : Phase) (s : Session)
    → (p ≡ failing) ⊎ (p ≡ closing)
    → consistent p
        (is_some s.library_token)
        (is_some s.library_definition)
        (is_some s.start_error)
        s.initialized
        s.closed_by_client
      ≡ true
    → consistent closed
        (is_some s.library_token)
        (is_some s.library_definition)
        (is_some s.start_error)
        true
        s.closed_by_client
      ≡ true
closed-Consistent failing s q h = ground arith
closed-Consistent closing s q h = h
closed-Consistent p s (inl q) h = absurd (cc)
closed-Consistent p s (inr q) h = absurd (cc)

step-Consistent : (s t : Session) → Step s t → Consistent s → Consistent t
unfolding complete close_connection release finalize_session end_session
step-Consistent s _ (starts h) i = rw h at i
step-Consistent s _ (opens_loop h) i = rw h at i
step-Consistent s _ (connects b r h) i = start_peer-Consistent b r s h i
step-Consistent s _ (initializes a n r h) i = initialize_server-Consistent a n r s h i
step-Consistent s _ (disconnects h) i = i
step-Consistent s _ (completes e h) i = rw h at i
step-Consistent s _ (is_cancelled c (inl h)) i = rw c (
    is_cancelled-Consistent connecting (is_some s.library_token) (is_some s.library_definition)
      (is_some s.start_error) s.initialized refl (rw h at i))
step-Consistent s _ (is_cancelled c (inr h)) i = rw c (
    is_cancelled-Consistent initializing (is_some s.library_token) (is_some s.library_definition)
      (is_some s.start_error) s.initialized refl (rw h at i))
step-Consistent s _ (closes e h) i = closed-Consistent s.phase s h i
step-Consistent s _ (releases h) i = rw h at i
step-Consistent s _ (shuts h) i = rw h at i
step-Consistent s _ (ends h b) i = rw h at i
step-Consistent s _ (fails n rest e h) i =
    Same-Consistent s (fail_stranded n rest s) (fail_stranded-Same n rest s) i
step-Consistent s _ (begins h) i = Same-Consistent s ((begin_submit s).1) (begin_submit-Same s) i
step-Consistent s _ (schedules h) i = Same-Consistent s ((schedule s).1) (schedule-Same s) i
step-Consistent s _ (answers n o h less) i = i
step-Consistent s _ (discards n h b) i = i
step-Consistent s _ stops i =
    consistent-stops s.phase (is_some s.library_token) (is_some s.library_definition)
      (is_some s.start_error) s.initialized s.closed_by_client i
step-Consistent s _ (drops b h) i = i

Reachable-Consistent : (s : Session) → Reachable s → Consistent s
Reachable-Consistent _ at_first = refl
Reachable-Consistent t (then_step {s} r step) = step-Consistent s t step (Reachable-Consistent s r)

started_of :
    (p : Phase) (t d e : Bool)
    → consistent p t d e true false ≡ true
    → (e ≡ not t) × (t ≡ true → d ≡ true)
started_of p t d e h = ground arith

-- When `initialized` is set and the client has not closed the session, the session has a start error
-- or a library token, and not both; with the token it has a library definition.
pub initialized-started :
    (s : Session)
    → Reachable s
    → s.closed_by_client ≡ false
    → s.initialized ≡ true
    → (is_some s.start_error ≡ not (is_some s.library_token))
      × (is_some s.library_token ≡ true → is_some s.library_definition ≡ true)
initialized-started s r c i =
    started_of s.phase (is_some s.library_token) (is_some s.library_definition)
      (is_some s.start_error) (rw (i, c) at (Reachable-Consistent s r))

without_token :
    (p : Phase) (t d e i c : Bool) → before p ≡ true → consistent p t d e i c ≡ true → t ≡ false
without_token p t d e i c b h = ground arith

-- A session in its handshake is not lost.
not_lost : (s : Session) → before s.phase ≡ true → Consistent s → lost s ≡ false
unfolding lost
not_lost s b h =
    rw
      (without_token s.phase (is_some s.library_token) (is_some s.library_definition)
        (is_some s.start_error) s.initialized s.closed_by_client b h)
      refl

stays_true :
    (k c o r o' r' : Bool)
    → (k && not c && (o || not r)) ≡ true
    → (o ≡ true → o' ≡ true)
    → (r ≡ false → r' ≡ false)
    → (k && not false && (o' || not r')) ≡ true
stays_true k c o r o' r' l p q = ground (arith, p, q)

-- Apart from a session that goes on, loses its peer or ends.
lost-later :
    (s t : Session)
    → (t.library_token ≡ s.library_token)
    → (is_over s.phase ≡ true → is_over t.phase ≡ true)
    → (runs s.peer ≡ false → runs t.peer ≡ false)
    → lost s ≡ true
    → t.closed_by_client ≡ false
    → lost t ≡ true
unfolding lost
lost-later s t k o r l c =
    rw (k, c)
      (stays_true (is_some s.library_token) s.closed_by_client (is_over s.phase) (runs s.peer)
        (is_over t.phase) (runs t.peer) l o r)

stopped-not_running : (p : PeerState) → runs (stopped_peer p) ≡ false
stopped-not_running no_peer = refl
stopped-not_running peer_runs = refl
stopped-not_running peer_stopped = refl

closes-not_over : (p : Phase) → (p ≡ failing) ⊎ (p ≡ closing) → is_over p ≡ true → false ≡ true
closes-not_over p (inl h) o = absurd (cc (rw h at o))
closes-not_over p (inr h) o = absurd (cc (rw h at o))

-- A lost session stays lost, whatever happens to it, until the client closes it.
pub lost-stays :
    (s t : Session)
    → Reachable s
    → Step s t
    → lost s ≡ true
    → t.closed_by_client ≡ false
    → lost t ≡ true
lost-stays s _ r (starts h) l c =
    lost-later s (record s { phase = starting }) refl (λ o. absurd (cc (rw h at o))) (λ x. x) l c
lost-stays s _ r (opens_loop h) l c =
    lost-later s (record s { phase = connecting; loop = true }) refl (λ o. absurd (cc (rw h at o)))
      (λ x. x) l c
lost-stays s _ r (connects b e h) l c =
    absurd (cc (not_lost s (rw h refl) (Reachable-Consistent s r), l))
lost-stays s _ r (initializes a n i h) l c =
    absurd (cc (not_lost s (rw h refl) (Reachable-Consistent s r), l))
lost-stays s _ r (disconnects h) l c =
    lost-later s (record s { peer = peer_stopped }) refl (λ o. o) (λ x. refl) l c
lost-stays s _ r (completes e h) l c =
    unfold complete in lost-later s (complete e s) refl (λ o. absurd (cc (rw h at o))) (λ x. x) l c
lost-stays s _ r (is_cancelled b q) l c = absurd (cc)
lost-stays s _ r (closes e h) l c =
    unfold close_connection in
    lost-later s (close_connection e s) refl (closes-not_over s.phase h)
      (λ x. stopped-not_running s.peer) l c
lost-stays s _ r (releases h) l c =
    unfold release in
    lost-later s (release (record s { phase = released })) refl (λ o. absurd (cc (rw h at o)))
      (λ x. refl) l c
lost-stays s _ r (shuts h) l c =
    lost-later s (record s { phase = shut }) refl (λ o. absurd (cc (rw h at o))) (λ x. x) l c
lost-stays s _ r (ends h b) l c =
    unfold end_session in lost-later s (end_session s) refl (λ o. refl) (λ x. x) l c
lost-stays s _ r (fails n rest e h) l c =
    Same-lost s (fail_stranded n rest s) (fail_stranded-Same n rest s) l
lost-stays s _ r (begins h) l c = Same-lost s ((begin_submit s).1) (begin_submit-Same s) l
lost-stays s _ r (schedules h) l c = Same-lost s ((schedule s).1) (schedule-Same s) l
lost-stays s _ r (answers n o h less) l c = unfold lost in l
lost-stays s _ r (discards n h b) l c = unfold lost in l
lost-stays s _ r stops l c = absurd (cc)
lost-stays s _ r (drops b h) l c = unfold finalize_session in absurd (cc)

-- ===== src/Client/Session/Calls.antt =====
-- A session leaves no call waiting: each one it accepted is done once the session has ended.
use robotframework_jsonrpcre.Base.{
  ℕ, Bool, true, false, not, Option, none, some, List, [], ◌∷◌, ◌≡◌, refl, sym, ◌<◌, ◌⊎◌, inl, inr,
  arith, ◌&&◌, ◌||◌, ◌==◌, ==_iff, if◌then◌else◌, Bool-cases,
}
use robotframework_jsonrpcre.Base.Result.{Result, ok, err, Exception}
use robotframework_jsonrpcre.Protocol.{InitializeResult, ImportLibraryResult}
use robotframework_jsonrpcre.Client.Session.{
  starting, connecting, closed, released, shut, Outcome, Exits, finalize_session, closed_error,
  Session, is_shut, ended, contains, discard, has_result, not_done, begin_submit, schedule,
  finish_call, call_done, end_session, fail_stranded, fail_all, add_result, start_peer,
  initialize_server, complete, close_connection, release,
}
use robotframework_jsonrpcre.Client.Session.Steps.{
  Step, starts, opens_loop, connects, initializes, disconnects, completes, is_cancelled, closes,
  releases, shuts, ends, fails, begins, schedules, answers, discards, stops, drops, Reachable,
  at_first, then_step,
}

-- A call is done, or somebody knows that it is not: the session, or `_end` after it.
abbrev Known : Session → ℕ → Type 0
Known s n =
    (has_result n s.results ≡ true)
    ⊎ (if ended s then contains n s.stranded ≡ true else contains n s.calls ≡ true)

-- No call is handed over after the end.
abbrev Inv : Session → Type 0
Inv s = ((n : ℕ) → n < s.next_call → Known s n) × (s.submitting ≡ true → ended s ≡ false)

contains-discard :
    (n m : ℕ) (ns : List ℕ) → contains n (discard m ns) ≡ (if m == n then false else contains n ns)
contains-discard n m [] = ground arith
contains-discard n m (k ∷ ns) = grind (arith, contains-discard n m ns)

contains-not_done :
    (n : ℕ) (rs : List (ℕ × Outcome)) (ns : List ℕ)
    → has_result n rs ≡ false
    → contains n (not_done rs ns) ≡ contains n ns
contains-not_done n rs [] h = refl
contains-not_done n rs (k ∷ ns) h = elim (Bool-cases (k == n)) [
  | inl y ↦ (let i = (==_iff k n).0 y in rw (i, h, contains-not_done n rs ns h))
  | inr f ↦ elim (Bool-cases (has_result k rs)) [
    | inl y ↦ rw (y, f, contains-not_done n rs ns h)
    | inr g ↦ rw (g, f, contains-not_done n rs ns h)
  ]
]

-- What the invariant is about, in two states.
abbrev Same : Session → Session → Type 0
Same s t =
    (t.results ≡ s.results)
    × (t.calls ≡ s.calls)
    × (t.stranded ≡ s.stranded)
    × (t.next_call ≡ s.next_call)
    × (t.submitting ≡ s.submitting)
    × (ended t ≡ ended s)

Same-Inv : (s t : Session) → Same s t → Inv s → Inv t
Same-Inv s t (r, c, d, n, b, e) (known, lock) =
    ((λ m h. rw (r, c, d, e) (known m (rw n at h))), (λ h. rw e (lock (rw b at h))))

initialize_server-Same :
    (i : Result Exception InitializeResult) (n : Option Exception)
    (r : Result Exception ImportLibraryResult) (s : Session)
    → ended s ≡ false
    → Same s (initialize_server i n r s)
unfolding initialize_server
initialize_server-Same (err e) n r s h = (refl, refl, refl, refl, refl, sym h)
initialize_server-Same (ok i) (some e) r s h = (refl, refl, refl, refl, refl, sym h)
initialize_server-Same (ok i) none (err e) s h = (refl, refl, refl, refl, refl, sym h)
initialize_server-Same (ok i) none (ok r) s h = (refl, refl, refl, refl, refl, sym h)

start_peer-Same :
    (b : Bool) (r : Option Exception) (s : Session) → ended s ≡ false → Same s (start_peer b r s)
unfolding start_peer
start_peer-Same b none s h = (refl, refl, refl, refl, refl, sym h)
start_peer-Same b (some e) s h = (refl, refl, refl, refl, refl, sym h)

complete-Same : (e : Option Exception) (s : Session) → ended s ≡ false → Same s (complete e s)
unfolding complete
complete-Same e s h = (refl, refl, refl, refl, refl, sym h)

close_connection-Same : (r : Exits) (s : Session) → ended s ≡ false → Same s (close_connection r s)
unfolding close_connection
close_connection-Same r s h = (refl, refl, refl, refl, refl, sym h)

release-Same : (s : Session) → Same s (release s)
unfolding release
release-Same s = (refl, refl, refl, refl, refl, refl)

finalize_session-Same : (b : Bool) (s : Session) → Same s (finalize_session b s)
unfolding finalize_session
finalize_session-Same b s = (refl, refl, refl, refl, refl, refl)

has_result-add :
    (n m : ℕ) (o : Outcome) (rs : List (ℕ × Outcome))
    → has_result n (add_result m o rs) ≡ (m == n || has_result n rs)
has_result-add n m o rs = elim (Bool-cases (has_result m rs)) [
  | inl y ↦ elim (Bool-cases (m == n)) [
    | inl z ↦ (let i = (==_iff m n).0 z in rw (y, z, ← i, y))
    | inr z ↦ rw (y, z)
  ]
  | inr y ↦ rw y
]

begin_submit-Inv : (s : Session) → Inv s → Inv ((begin_submit s).1)
unfolding begin_submit
begin_submit-Inv s (known, lock) = elim (Bool-cases (s.loop && not (ended s))) [
  | inl y ↦ rw y (known, (λ _. ground arith))
  | inr n ↦ rw n (known, lock)
]

schedule-Inv : (s : Session) → ended s ≡ false → Inv s → Inv ((schedule s).1)
unfolding schedule
schedule-Inv s e (known, lock) = elim (Bool-cases (is_shut s.phase)) [
  | inl y ↦ rw y (known, (λ _. e))
  | inr n ↦ rw n (
    (λ m h. elim (Bool-cases (s.next_call == m)) [
      | inl z ↦ inr (rw (e, z) refl)
      | inr z ↦
          let less : m < s.next_call = ground (arith, h, ==_iff s.next_call m, z) in
          elim (known m less) [
            | inl d ↦ inl d
            | inr c ↦ (let i : contains m s.calls ≡ true = rw e at c in inr (rw (e, z, i) refl))
          ]
    ]),
    (λ _. e),
  )
]

finish_call-Inv : (n : ℕ) (o : Outcome) (s : Session) → Inv s → Inv (finish_call n o s)
finish_call-Inv n o s (known, lock) = (
  (λ m h. elim (known m h) [
    | inl y ↦ inl (rw (has_result-add m n o s.results, y) (ground arith))
    | inr y ↦ inr y
  ]),
  lock,
)

call_done-Inv : (n : ℕ) (s : Session) → has_result n s.results ≡ true → Inv s → Inv (call_done n s)
call_done-Inv n s y (known, lock) =
    ((λ m h. grind (arith, known m h, contains-discard m n s.calls, ==_iff n m)), lock)

end_session-Inv :
    (s : Session) → ended s ≡ false → s.submitting ≡ false → Inv s → Inv (end_session s)
unfolding end_session
end_session-Inv s h b (known, lock) = (
  (λ m less. elim (Bool-cases (has_result m s.results)) [
    | inl y ↦ inl y
    | inr n ↦ inr (
        rw (contains-not_done m s.results s.calls n)
          let i : contains m s.calls ≡ true = elim (known m less) [
            | inl d ↦ absurd (cc)
            | inr c ↦ rw h at c
          ] in
            i)
  ]),
  (λ c. absurd (cc)),
)

fail_stranded-Inv :
    (n : ℕ) (rest : List ℕ) (s : Session)
    → ended s ≡ true
    → s.stranded ≡ n ∷ rest
    → Inv s
    → Inv (fail_stranded n rest s)
unfolding fail_stranded
fail_stranded-Inv n rest s e h (known, lock) = (
  (λ m less. elim (known m less) [
    | inl d ↦ inl (rw (has_result-add m n closed_error s.results, d) (ground arith))
    | inr c ↦
        (let i : contains m (n ∷ rest) ≡ true = rw (e, h) at c in
          elim (Bool-cases (n == m)) [
            | inl z ↦ inl (rw (has_result-add m n closed_error s.results, z) refl)
            | inr z ↦ inr (rw e (rw z at i))
          ])
  ]),
  lock,
)

step-Inv : (s t : Session) → Step s t → Inv s → Inv t
step-Inv s _ (starts h) i =
    Same-Inv s (record s { phase = starting }) (refl, refl, refl, refl, refl, rw h refl) i
step-Inv s _ (opens_loop h) i =
    Same-Inv s (record s { phase = connecting; loop = true })
      (refl, refl, refl, refl, refl, rw h refl) i
step-Inv s _ (connects b r h) i =
    Same-Inv s (start_peer b r s) (start_peer-Same b r s (rw h refl)) i
step-Inv s _ (initializes a n r h) i =
    Same-Inv s (initialize_server a n r s) (initialize_server-Same a n r s (rw h refl)) i
step-Inv s _ (disconnects h) i = i
step-Inv s _ (completes e h) i = Same-Inv s (complete e s) (complete-Same e s (rw h refl)) i
step-Inv s _ (is_cancelled c (inl h)) i =
    Same-Inv s (record s { phase = closed; initialized = true })
      (refl, refl, refl, refl, refl, rw h refl) i
step-Inv s _ (is_cancelled c (inr h)) i =
    Same-Inv s (record s { phase = closed; initialized = true })
      (refl, refl, refl, refl, refl, rw h refl) i
step-Inv s _ (closes e (inl h)) i =
    Same-Inv s (close_connection e s) (close_connection-Same e s (rw h refl)) i
step-Inv s _ (closes e (inr h)) i =
    Same-Inv s (close_connection e s) (close_connection-Same e s (rw h refl)) i
step-Inv s _ (releases h) i =
    let r = record s { phase = released } in
    Same-Inv r (release r) (release-Same r)
      (Same-Inv s r (refl, refl, refl, refl, refl, rw h refl) i)
step-Inv s _ (shuts h) i =
    Same-Inv s (record s { phase = shut }) (refl, refl, refl, refl, refl, rw h refl) i
step-Inv s _ (ends h b) i = end_session-Inv s (rw h refl) b i
step-Inv s _ (fails n rest e h) i = fail_stranded-Inv n rest s e h i
step-Inv s _ (begins h) i = begin_submit-Inv s i
step-Inv s _ (schedules h) i = schedule-Inv s (i.1 h) i
step-Inv s _ (answers n o h less) i = finish_call-Inv n o s i
step-Inv s _ (discards n h b) i = call_done-Inv n s h i
step-Inv s _ stops i = i
step-Inv s _ (drops b h) i = Same-Inv s (finalize_session b s) (finalize_session-Same b s) i

Reachable-Inv : (s : Session) → Reachable s → Inv s
Reachable-Inv _ at_first = ((λ n h. absurd (omega arith)), (λ h. absurd (cc)))
Reachable-Inv t (then_step {s} r step) = step-Inv s t step (Reachable-Inv s r)

drained-done :
    (s : Session) (n : ℕ)
    → Reachable s
    → ended s ≡ true
    → s.stranded ≡ []
    → n < s.next_call
    → (has_result n s.results ≡ true) × (s.submitting ≡ false)
drained-done s n r e z less =
    let (known, lock) = Reachable-Inv s r in
    let free : s.submitting ≡ false = elim (Bool-cases s.submitting) [
      | inl y ↦ absurd (cc (lock y, e))
      | inr f ↦ f
    ] in
    elim (known n less) [ inl d ↦ (d, free) | inr c ↦ absurd (cc (rw (e, z) at c)) ]

fail_all-Reachable :
    (ns : List ℕ) (s : Session)
    → Reachable s
    → ended s ≡ true
    → s.stranded ≡ ns
    → Reachable (fail_all ns s)
      × (ended (fail_all ns s) ≡ true)
      × ((fail_all ns s).stranded ≡ [])
      × ((fail_all ns s).next_call ≡ s.next_call)
unfolding fail_all fail_stranded
fail_all-Reachable [] s r e z = (r, e, z, refl)
fail_all-Reachable (n ∷ ns) s r e z =
    fail_all-Reachable ns (fail_stranded n ns s) (then_step r (fails n ns e z)) e refl

-- In any interleaving of the worker, the threads that submit calls and `stop`: once the session has ended,
-- the loop of `_end` runs to its end, and then every call that was ever handed over to the session is
-- done, and no thread has a call between the check in `submit` and its registration.
pub ended-done :
    (s : Session) (n : ℕ)
    → Reachable s
    → ended s ≡ true
    → n < s.next_call
    → Reachable (fail_all s.stranded s)
      × (has_result n (fail_all s.stranded s).results ≡ true)
      × ((fail_all s.stranded s).submitting ≡ false)
ended-done s n r e less =
    let (reached, over, none_left, same) = fail_all-Reachable s.stranded s r e refl in
    let (d, free) =
      drained-done (fail_all s.stranded s) n reached over none_left (omega (arith, less, same)) in
    (reached, d, free)

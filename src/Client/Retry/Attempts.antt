-- ===== src/Client/Retry/Attempts.antt =====
-- How often the client tries to connect: the loop of `_connect_with_retry`.
use native.Mathlib.Nat.{zero-add}
use robotframework_jsonrpcre.Base.{
  ℕ, zero, suc, ◌+◌, Bool, true, false, not, List, [], ◌∷◌, ◌++◌, ◌≡◌, refl, sym, ap, ◌∙◌, arith,
  ◌&&◌, length, All, Option, none, some, String, Bool-apart, inl, inr,
}
use robotframework_jsonrpcre.Base.Result.{Result, ok, err, Exception, Result-cases}
use robotframework_jsonrpcre.Client.Retry.{
  Session, Outage, Client, Attempt, Connected, connected, failed, outage_of, count_failure, spend,
  attempts_from, is_spent, connect_with_retry,
}

abbrev pub is_failed : Result Exception Session → Bool
is_failed (ok s) = false
is_failed (err e) = true

-- The attempt fails while time remains.
abbrev pub GoesOn : Attempt → Type 0
GoesOn a = (is_failed a.outcome ≡ true) × (a.remains ≡ true)

abbrev pub counted : ℕ → Client → Client
counted zero c = c
counted (suc k) c = counted k (count_failure c)

counted_last : (k : ℕ) (c : Client) → count_failure (counted k c) ≡ counted k (count_failure c)
counted_last zero c = refl
counted_last (suc k) c = counted_last k (count_failure c)

-- An outage's figures; without one, those of a new one.
abbrev pub loss_of : Option Outage → Option String
loss_of none = none
loss_of (some o) = o.outage_loss

abbrev pub failures_of : Option Outage → ℕ
failures_of none = 0
failures_of (some o) = o.failed_attempts

abbrev pub spent_of : Option Outage → Bool
spent_of none = false
spent_of (some o) = o.window_spent

abbrev pub figures : Option String → ℕ → Bool → Outage
figures loss n spent = record { outage_loss = loss; failed_attempts = n; window_spent = spent }

-- The client after `n` more failures: nothing but its outage is changed.
abbrev pub after_failures : ℕ → Bool → Client → Client
after_failures n spent c = record c {
  outage = some (figures (loss_of c.outage) (n + failures_of c.outage) spent);
}

one_failure :
    (o : Option Outage)
    → figures
        (outage_of o).outage_loss
        (suc (outage_of o).failed_attempts)
        (outage_of o).window_spent
      ≡ figures (loss_of o) (1 + failures_of o) (spent_of o)
one_failure none = refl
one_failure (some o) =
    let one : suc o.failed_attempts ≡ 1 + o.failed_attempts = omega arith in
    ap (λ n. record o { failed_attempts = n }) one

more_failures :
    (k : ℕ) (o : Option Outage)
    → figures
        (outage_of o).outage_loss
        (suc k + suc (outage_of o).failed_attempts)
        (outage_of o).window_spent
      ≡ figures (loss_of o) (suc (suc k) + failures_of o) (spent_of o)
more_failures k none =
    let moved : suc k + 1 ≡ suc (suc k) + 0 = omega arith in
    ap (λ n. record (outage_of none) { failed_attempts = n }) moved
more_failures k (some o) =
    let moved : suc k + suc o.failed_attempts ≡ suc (suc k) + o.failed_attempts = omega arith in
    ap (λ n. record o { failed_attempts = n }) moved

counted-after_failures :
    (k : ℕ) (c : Client) → counted (suc k) c ≡ after_failures (suc k) (spent_of c.outage) c
counted-after_failures zero c = λ i. record c { outage = some (one_failure c.outage i) }
counted-after_failures (suc k) c =
    counted-after_failures k (count_failure c)
    ∙ (λ i. record c { outage = some (more_failures k c.outage i) })

abbrev pub decided_ok : Session → ℕ → Client → Connected
decided_ok s zero c = connected s c
decided_ok s (suc k) c = connected s (after_failures (suc k) false c)

connected_after :
    (s : Session) (k : ℕ) (c : Client)
    → spent_of c.outage ≡ false
    → connected s (counted k c) ≡ decided_ok s k c
connected_after s zero c g = refl
connected_after s (suc k) c g = ap (connected s) (counted-after_failures k c ∙ rw g refl)

is_spent-spent_of : (o : Option Outage) → is_spent o ≡ spent_of o
is_spent-spent_of none = refl
is_spent-spent_of (some o) = refl

module _ (spent_error : Exception → ℕ → Exception) where
  going_on :
      (n : ℕ) (failures more : List Attempt) (c : Client)
      → All GoesOn failures
      → attempts_from spent_error true n (failures ++ more) c
        ≡ attempts_from spent_error true (length failures + n) more (counted (length failures) c)
  unfolding attempts_from
  going_on n [] more c h = rw zero-add refl
  going_on n (a ∷ failures) more c ((f, r), h) = elim (Result-cases a.outcome) [
    | inl (s, q) ↦ absurd (Bool-apart (sym f ∙ ap is_failed q))
    | inr (e, q) ↦
        let k : length failures + suc n ≡ suc (length failures) + n = omega arith in
        rw (q, r)
          (going_on (suc n) failures more (count_failure c) h
            ∙ ap
                (λ i.
                  attempts_from spent_error true i more
                    (counted (length failures) (count_failure c)))
                k)
  ]

  -- What the call comes to, by its last attempt, after `k` attempts that have failed.
  abbrev pub decided : Result Exception Session → ℕ → Client → Connected
  decided (ok s) k c = decided_ok s k c
  decided (err e) k c = failed (spent_error e (suc k)) (after_failures (suc k) true c)

  last_attempt :
      (n : ℕ) (last : Attempt) (more : List Attempt) (k : ℕ) (c : Client)
      → n ≡ k
      → spent_of c.outage ≡ false
      → (is_failed last.outcome && last.remains) ≡ false
      → attempts_from spent_error true n (last ∷ more) (counted k c) ≡ decided last.outcome k c
  unfolding attempts_from
  last_attempt n last more k c i g h = elim (Result-cases last.outcome) [
    | inl (s, q) ↦ rw q (connected_after s k c g)
    | inr (e, q) ↦
        let r : last.remains ≡ false = rw q at h in
        rw (q, r, i)
          (ap (λ d. failed (spent_error e (suc k)) (spend d))
            (counted_last k c ∙ counted-after_failures k c))
  ]

  -- With connect retry, while the outage's window has not been spent: after any attempts that fail
  -- while time remains, one that connects or is the last in the window decides. If it connects, the
  -- client has its session; if it fails, the call fails with the number of its attempts. Every failure
  -- is counted on top of those of the outage, whose loss is kept, and the window is marked as spent
  -- only by a last attempt that fails.
  pub connect_with_retry-window :
      (failures : List Attempt) (last : Attempt) (more : List Attempt) (c : Client)
      → c.with_retry ≡ true
      → spent_of c.outage ≡ false
      → All GoesOn failures
      → (is_failed last.outcome && last.remains) ≡ false
      → connect_with_retry spent_error (failures ++ (last ∷ more)) c
        ≡ decided last.outcome (length failures) c
  unfolding connect_with_retry
  connect_with_retry-window failures last more c t g h r =
      let m : (c.with_retry && not (is_spent c.outage)) ≡ true =
        rw (t, is_spent-spent_of c.outage, g) refl in
      rw m (
        going_on 0 failures (last ∷ more) c h
        ∙ last_attempt (length failures + 0) last more (length failures) c (omega arith) g r)

  -- The call after one that has failed, on the client that this one leaves.
  abbrev pub then_call : Connected → List Attempt → Connected
  then_call (failed e c) attempts = connect_with_retry spent_error attempts c
  then_call r attempts = r

  -- What one attempt comes to, after a spent window of `k` failures.
  abbrev pub once : Result Exception Session → ℕ → Client → Connected
  once (ok s) k c = connected s (after_failures k true c)
  once (err e) k c = failed e (after_failures (suc k) true c)

  one_attempt :
      (a : Attempt) (more : List Attempt) (k : ℕ) (c : Client)
      → connect_with_retry spent_error (a ∷ more) (after_failures k true c) ≡ once a.outcome k c
  unfolding connect_with_retry attempts_from
  one_attempt a more k c = elim (Result-cases a.outcome) [
    | inl (s, q) ↦ rw q refl
    | inr (e, q) ↦
        let m : (c.with_retry && false) ≡ false = ground arith in
        let n : suc (k + failures_of c.outage) ≡ suc k + failures_of c.outage = omega arith in
        rw (q, m)
          (ap (λ x. failed e (record c { outage = some (figures (loss_of c.outage) x true) })) n)
  ]

  -- A window that was spent: the next call makes one attempt, whatever else might follow and although
  -- retry is on. It connects, or fails with the error of this attempt, which is counted.
  pub connect_with_retry-spent :
      (failures : List Attempt) (last : Attempt) (more : List Attempt) (e : Exception)
      (next : Attempt) (rest : List Attempt) (c : Client)
      → c.with_retry ≡ true
      → spent_of c.outage ≡ false
      → All GoesOn failures
      → last.outcome ≡ err e
      → last.remains ≡ false
      → then_call (connect_with_retry spent_error (failures ++ (last ∷ more)) c) (next ∷ rest)
        ≡ once next.outcome (suc (length failures)) c
  connect_with_retry-spent failures last more e next rest c t g h f r =
      rw (connect_with_retry-window failures last more c t g h (rw (f, r) refl), f)
        (one_attempt next rest (suc (length failures)) c)

-- ===== src/Peer/Session/Advance.antt =====
-- What the steps of a peer do to its futures and its pending requests.
use robotframework_jsonrpcre.Base.{
  ℕ, String, Bool, true, false, Option, none, some, [], ◌∷◌, ◌≡◌, ◌⊎◌, refl, sym, ◌∙◌, inl, inr,
  arith, ◌=ₛ◌, ap, Bool-cases,
}
use mathlib.Core.Path.{subst}
use robotframework_jsonrpcre.Base.Dict.{Dict, lookup}
use robotframework_jsonrpcre.Base.Result.{Exception}
use robotframework_jsonrpcre.Peer.State.{Peer, Bytes, Future, done, report_problem}
use robotframework_jsonrpcre.Peer.Dispatch.Preserves.{Preserving}
use robotframework_jsonrpcre.Peer.Send.{write_answer, write_frame}
use robotframework_jsonrpcre.Peer.Requests.{time_out}
use robotframework_jsonrpcre.Peer.Lifecycle.{
  fail_one, fail_all, finish, end_with, LoopEnd, stopped, incomplete, task_cancelled, crashed,
  end_loop, ensure_finished, stop,
}

-- A future that is done keeps its value; a request leaves the pending ones only with its future done.
pub record Advances {S P : Type 0} (p q : Peer S P) : Type 0 where
  pub settled : (n : ℕ) → done (p.futures n) ≡ true → q.futures n ≡ p.futures n
  pub registered :
      (k : String) (n : ℕ)
      → lookup k q.pending_requests ≡ some n
      → lookup k p.pending_requests ≡ some n
  pub answered :
      (k : String) (n : ℕ)
      → lookup k p.pending_requests ≡ some n
      → (lookup k q.pending_requests ≡ some n) ⊎ (done (q.futures n) ≡ true)
  pub counter : q.id_counter ≡ p.id_counter
  pub closes : p.closed ≡ true → q.closed ≡ true
  pub empties :
      (p.closed ≡ true → p.pending_requests ≡ []) → q.closed ≡ true → q.pending_requests ≡ []

module _ {S P : Type 0} where
  pub Advances-refl : (p : Peer S P) → Advances p p
  Advances-refl p = record {
    settled = λ n h. refl;
    registered = λ k n h. h;
    answered = λ k n h. inl h;
    counter = refl;
    closes = λ h. h;
    empties = λ e. e;
  }

  -- A change of other fields only.
  pub Advances-by :
      (p q : Peer S P)
      → q.futures ≡ p.futures
      → q.pending_requests ≡ p.pending_requests
      → q.id_counter ≡ p.id_counter
      → q.closed ≡ p.closed
      → Advances p q
  Advances-by p q f r c d = record {
    settled = λ n h. rw f refl;
    registered = λ k n h. rw (← r) h;
    answered = λ k n h. inl (rw r h);
    counter = c;
    closes = λ h. d ∙ h;
    empties = λ e h. r ∙ e (sym d ∙ h);
  }

  still-done :
      (p q : Peer S P) (n : ℕ)
      → Advances p q
      → done (p.futures n) ≡ true
      → done (q.futures n) ≡ true
  still-done p q n a h = rw (a.settled n h) h

  pub Advances-trans : (p q r : Peer S P) → Advances p q → Advances q r → Advances p r
  Advances-trans p q r a b = record {
    settled = λ n h. b.settled n (still-done p q n a h) ∙ a.settled n h;
    registered = λ k n h. a.registered k n (b.registered k n h);
    answered = λ k n h. elim (a.answered k n h) [
      | inl still ↦ b.answered k n still
      | inr over ↦ inr (still-done q r n b over)
    ];
    counter = b.counter ∙ a.counter;
    closes = λ h. b.closes (a.closes h);
    empties = λ e. b.empties (a.empties e);
  }

  pub Advances-Preserving : Preserving {S = S} {P = P} Advances
  unfolding report_problem
  Advances-Preserving = record {
    same = Advances-refl;
    then = Advances-trans;
    reports = λ problem p. Advances-by p _ refl refl refl refl;
    runs = λ app p. Advances-by p _ refl refl refl refl;
  }

  pub time_out-Advances : (n : ℕ) (p : Peer S P) → Advances p (time_out n p)
  unfolding time_out
  time_out-Advances n p = record {
    settled = λ m h. ground arith;
    registered = λ k m h. ground arith;
    answered = λ k m h. ground arith;
    counter = ground arith;
    closes = λ h. ground arith;
    empties = λ e h. ground (arith, e (ground arith));
  }

  pub write_answer-Advances : (body : Bytes) (p : Peer S P) → Advances p (write_answer body p)
  unfolding write_answer write_frame
  write_answer-Advances body p =
      Advances-by p _ (ground arith) (ground arith) (ground arith) (ground arith)

fail_one-settled :
    (cause : Option Exception) (m : ℕ) (futures : ℕ → Future) (n : ℕ)
    → done (futures n) ≡ true
    → fail_one cause m futures n ≡ futures n
fail_one-settled cause m futures n h = elim (Bool-cases (done (futures m))) [
  | inl e ↦ rw e refl
  | inr e ↦ rw e (ground (arith, λ (e : m ≡ n). ap futures e))
]

fail_one-done :
    (cause : Option Exception) (n : ℕ) (futures : ℕ → Future)
    → done (fail_one cause n futures n) ≡ true
fail_one-done cause n futures = elim (Bool-cases (done (futures n))) [
  | inl e ↦ rw e e
  | inr e ↦ rw e (ground arith)
]

fail_all-settled :
    (cause : Option Exception) (d : Dict ℕ) (futures : ℕ → Future) (n : ℕ)
    → done (futures n) ≡ true
    → fail_all cause d futures n ≡ futures n
unfolding fail_all
fail_all-settled cause [] futures n h = refl
fail_all-settled cause ((k, m) ∷ d) futures n h =
    let one = fail_one-settled cause m futures n h in
    fail_all-settled cause d (fail_one cause m futures) n (rw one h) ∙ one

fail_all-done :
    (cause : Option Exception) (k : String) (d : Dict ℕ) (futures : ℕ → Future) (n : ℕ)
    → lookup k d ≡ some n
    → done (fail_all cause d futures n) ≡ true
unfolding fail_all lookup
fail_all-done cause k [] futures n h = cc
fail_all-done cause k ((j, m) ∷ d) futures n h = elim (Bool-cases (j =ₛ k)) [
  | inl e ↦
      let same : m ≡ n = ground arith in
      let now : done (fail_one cause m futures n) ≡ true =
        subst (λ i. done (fail_one cause m futures i) ≡ true) same
          (fail_one-done cause m futures) in
      rw (fail_all-settled cause d (fail_one cause m futures) n now) now
  | inr e ↦ fail_all-done cause k d (fail_one cause m futures) n (ground arith)
]

module _ {S P : Type 0} where
  -- Closing fails every pending request that is not done, and leaves none pending.
  finish-Advances : (cause : Option Exception) (p : Peer S P) → Advances p (finish cause p)
  unfolding finish
  finish-Advances cause p = record {
    settled = λ n h. fail_all-settled cause p.pending_requests p.futures n h;
    registered = λ k n h. absurd (unfold lookup in (cc));
    answered = λ k n h. inr (fail_all-done cause k p.pending_requests p.futures n h);
    counter = refl;
    closes = λ h. refl;
    empties = λ e h. refl;
  }

  end_with-Advances : (x : Exception) (p : Peer S P) → Advances p (end_with x p)
  unfolding end_with
  end_with-Advances x p =
      Advances-trans p _ _ (Advances-by p (record p { completion = _ }) refl refl refl refl)
        (finish-Advances (some x) _)

  pub end_loop-Advances : (e : LoopEnd) (p : Peer S P) → Advances p (end_loop e p)
  unfolding end_loop
  end_loop-Advances stopped p = finish-Advances none p
  end_loop-Advances (incomplete partial at_eof x) p =
      ground (arith, end_with-Advances x p, finish-Advances none p)
  end_loop-Advances task_cancelled p = finish-Advances none p
  end_loop-Advances (crashed x) p = end_with-Advances x p

  pub ensure_finished-Advances : (p : Peer S P) → Advances p (ensure_finished p)
  unfolding ensure_finished
  ensure_finished-Advances p = ground (arith, Advances-refl p, finish-Advances none p)

  pub stop-Advances : (loop_runs : Bool) (p : Peer S P) → Advances p (stop loop_runs p)
  unfolding stop
  stop-Advances true p =
      Advances-trans p _ _ (Advances-by p (record p { running = false }) refl refl refl refl) (
        Advances-trans _ _ _ (end_loop-Advances task_cancelled (record p { running = false }))
          (ensure_finished-Advances _))
  stop-Advances false p =
      Advances-trans p _ _ (Advances-by p (record p { running = false }) refl refl refl refl)
        (ensure_finished-Advances _)

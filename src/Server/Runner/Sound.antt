-- ===== src/Server/Runner/Sound.antt =====
-- A command that was accepted is never forgotten: the queue and the futures of RobotRemoteContext.
use robotframework_jsonrpcre.Base.{
  All, All-append, ℕ, Bool, true, false, Option, none, some, List, [], ◌∷◌, ◌++◌, String, ◌≡◌, refl,
  sym, ◌∙◌, inl, inr, arith, ◌||◌, ◌==◌, if◌then◌else◌, Bool-cases, Bool-apart,
}
use robotframework_jsonrpcre.Base.Result.{Result, ok, err, Exception}
use robotframework_jsonrpcre.Server.Runner.{
  LogMessage, Ending, returned, raised, exited, Ran, FutureState, pending, result, failed,
  cancelled, Queued, Context, give, is_failure, is_pending, with_future, set_quietly, settled,
  shutting_down, set_future, cancel, fail_queued, close, submit, enqueue, next_round, log_message,
  log_messages, fail, succeed, end_round, run_command, round, hook_loop,
}

abbrev pub exits : {V : Type 0} → Ending V → Bool
exits exited = true
exits _ = false

either :
    {V : Type 0} (n j : ℕ) (f : FutureState V) (b : Bool)
    → (is_pending f ≡ true → b ≡ true)
    → is_pending (if n == j then pending else f) ≡ true
    → (b || (n == j || false)) ≡ true
either n j f b w p = ground arith

or_else : (a b : Bool) → (a || b) ≡ true → a ≡ false → b ≡ true
or_else true b h e = absurd (cc)
or_else false b h e = h

or_none : (a b : Bool) → (a || b) ≡ false → a ≡ false
or_none true b h = h
or_none false b h = refl

module _ {V R : Type 0} where
  -- The future `i` belongs to a command of the queue.
  abbrev pub in_queue : ℕ → List (Queued V R) → Bool
  in_queue i [] = false
  in_queue i (q ∷ queue) = q.future == i || in_queue i queue

  abbrev pub Waits : List (Queued V R) → Context V R → Type 0
  Waits queue c = (i : ℕ) → is_pending (c.futures i) ≡ true → in_queue i queue ≡ true

  -- No run of the command ends with a BaseException that is no Exception.
  abbrev pub Ordinary : (R → Ran V R) → Type 0
  Ordinary command = (robot : R) → exits (command robot).ending ≡ false

  abbrev pub OrdinaryOf : Queued V R → Type 0
  OrdinaryOf q = Ordinary q.command

  -- What a future and the queue have in common at every step.
  pub record Sound (c : Context V R) : Type 0 where
    pub waits : Waits c.command_queue c
    pub drained : c.closed ≡ true → c.command_queue ≡ []
    pub ordinary : All OrdinaryOf c.command_queue

  -- The queue is kept, and no future becomes pending; the future `i` is done.
  abbrev pub Settles : ℕ → Context V R → Context V R → Type 0
  Settles i c d =
      (d.command_queue ≡ c.command_queue)
      × (d.closed ≡ c.closed)
      × ((j : ℕ)
          → is_pending (d.futures j) ≡ true
          → (is_pending (c.futures j) ≡ true) × ((i == j) ≡ false))

  with_future-Settles :
      (i : ℕ) (state : FutureState V) (c : Context V R)
      → is_pending state ≡ false
      → Settles i c (with_future i state c)
  with_future-Settles i state c h = (refl, refl, λ j p. ground arith)

  set_quietly-Settles :
      (i : ℕ) (state : FutureState V) (c : Context V R)
      → is_pending state ≡ false
      → Settles i c (set_quietly (set_future i state c) c)
  unfolding set_future
  set_quietly-Settles i state c h = elim (Bool-cases (is_pending (c.futures i))) [
    | inl t ↦ rw t (with_future-Settles i state c h)
    | inr f ↦ rw f (refl, refl, λ j p. ground arith)
  ]

  pub fail_queued-nothing :
      (queue : List (Queued V R)) (c : Context V R)
      → Waits queue c
      → ((fail_queued queue c).command_queue ≡ c.command_queue)
        × ((fail_queued queue c).closed ≡ c.closed)
        × ((i : ℕ) → is_pending ((fail_queued queue c).futures i) ≡ false)
  unfolding fail_queued
  fail_queued-nothing [] c w = (refl, refl, λ i. ground (arith, w i))
  fail_queued-nothing (q ∷ queue) c w =
      let (e, f, s) = set_quietly-Settles q.future (failed shutting_down) c refl in
      let (e', f', s') =
        fail_queued-nothing queue _
          (λ (j : ℕ)
              (p : is_pending
                  ((set_quietly (set_future q.future (failed shutting_down) c) c).futures j)
                ≡ true).
            ground (arith, s j p, w j)) in
      (e' ∙ e, f' ∙ f, s')

  pub close-Sound : (c : Context V R) → Waits c.command_queue c → Sound (close c)
  unfolding close
  close-Sound c w =
      let (e, f, s) =
        fail_queued-nothing c.command_queue (record c { closed = true; command_queue = [] }) w in
      record { waits = λ j p. absurd (cc (s j, p)); drained = λ h. e; ordinary = rw e tt }

  -- In a round: the future `i` is the only one that may wait outside the queue.
  record During (i : ℕ) (c : Context V R) : Type 0 where
    but :
        (j : ℕ)
        → is_pending (c.futures j) ≡ true
        → (i == j) ≡ false
        → in_queue j c.command_queue ≡ true
    open_still : c.closed ≡ false
    rest_ordinary : All OrdinaryOf c.command_queue

  give-During :
      (i : ℕ) (subscriber : Option ℕ) (m : LogMessage) (c : Context V R)
      → During i c
      → During i (give subscriber m c)
  give-During i none m c h = h
  give-During i (some subscriber) m c h = record {
    but = h.but;
    open_still = h.open_still;
    rest_ordinary = h.rest_ordinary;
  }

  if-During :
      (i : ℕ) (b : Bool) (c d : Context V R)
      → During i c
      → During i d
      → During i (if b then c else d)
  if-During i true c d h k = h
  if-During i false c d h k = k

  log_message-During :
      (i : ℕ) (m : LogMessage) (c : Context V R) → During i c → During i (log_message m c)
  unfolding log_message
  log_message-During i m c h =
      let d = record c { failure_logged = is_failure m.level } in
      let hd : During i d = record {
        but = h.but;
        open_still = h.open_still;
        rest_ordinary = h.rest_ordinary;
      } in
      if-During i _ d _ hd (give-During i d.active_subscriber m d hd)

  log_messages-During :
      (i : ℕ) (ms : List LogMessage) (c : Context V R) → During i c → During i (log_messages ms c)
  unfolding log_messages
  log_messages-During i [] c h = h
  log_messages-During i (m ∷ ms) c h =
      log_messages-During i ms (log_message m c) (log_message-During i m c h)

  done-Sound :
      (i : ℕ) (state : FutureState V) (c : Context V R)
      → is_pending state ≡ false
      → During i c
      → Sound (record (with_future i state c) { active_subscriber = none })
  done-Sound i state c e h = record {
    waits = λ j p. (let (q, n) = (with_future-Settles i state c e).2 j p in h.but j q n);
    drained = λ x. absurd (Bool-apart (sym x ∙ h.open_still));
    ordinary = h.rest_ordinary;
  }

  settled-Sound :
      (i : ℕ) (state : FutureState V) (c : Context V R)
      → is_pending state ≡ false
      → During i c
      → Sound (settled (set_future i state c) c)
  unfolding set_future settled
  settled-Sound i state c e h = elim (Bool-cases (is_pending (c.futures i))) [
    | inl t ↦ rw t (done-Sound i state c e h)
    | inr f ↦
        rw f (close-Sound (record c { active_subscriber = none }) (λ j p. h.but j p (ground arith)))
  ]

  fail-Sound : (i : ℕ) (e : Exception) (c : Context V R) → During i c → Sound (fail i e c)
  unfolding fail
  fail-Sound i e c h = settled-Sound i (failed e) c refl h

  succeed-Sound : (i : ℕ) (v : V) (c : Context V R) → During i c → Sound (succeed i v c)
  unfolding succeed fail settled set_future
  succeed-Sound i v c h = elim (Bool-cases (is_pending (c.futures i))) [
    | inl t ↦ rw t (done-Sound i (result v) c refl h)
    | inr f ↦
        rw f (close-Sound (record c { active_subscriber = none }) (λ j p. h.but j p (ground arith)))
  ]

  end_round-Sound :
      (i : ℕ) (e : Ending V) (c : Context V R)
      → exits e ≡ false
      → During i c
      → Sound (end_round i e c)
  unfolding end_round
  end_round-Sound i (returned v) c x h = succeed-Sound i v c h
  end_round-Sound i (raised e) c x h = fail-Sound i e c h
  end_round-Sound i exited c x h = absurd (cc)

  run_command-Sound :
      (q : Queued V R) (r : Result Exception R) (c : Context V R)
      → Ordinary q.command
      → During q.future c
      → Sound (run_command q r c)
  unfolding run_command
  run_command-Sound q (err e) c o h = fail-Sound q.future e c h
  run_command-Sound q (ok robot) c o h = end_round-Sound q.future _ _ (o robot) (
      log_messages-During q.future (q.command robot).messages _
        (record { but = h.but; open_still = h.open_still; rest_ordinary = h.rest_ordinary }))

  in_queue-append :
      (i : ℕ) (xs ys : List (Queued V R)) → in_queue i (xs ++ ys) ≡ (in_queue i xs || in_queue i ys)
  in_queue-append i [] ys = refl
  in_queue-append i (q ∷ xs) ys = ground (arith, in_queue-append i xs ys)

  enqueue-Waits :
      (command : R → Ran V R) (subscriber : Option ℕ) (c : Context V R)
      → Waits c.command_queue c
      → Waits (enqueue command subscriber c).command_queue (enqueue command subscriber c)
  enqueue-Waits command subscriber c w j p =
      let q : Queued V R = record {
        command = command;
        future = c.next_future;
        subscriber = subscriber;
      } in
      rw (in_queue-append j c.command_queue (q ∷ []))
        (either c.next_future j (c.futures j) _ (w j) p)

  enqueue-Sound :
      (command : R → Ran V R) (subscriber : Option ℕ) (c : Context V R)
      → c.closed ≡ false
      → Ordinary command
      → Sound c
      → Sound (enqueue command subscriber c)
  enqueue-Sound command subscriber c f o h = record {
    waits = enqueue-Waits command subscriber c h.waits;
    drained = λ x. absurd (Bool-apart (sym x ∙ f));
    ordinary = All-append OrdinaryOf c.command_queue _ h.ordinary (o, tt);
  }

  pub submit-Sound :
      (command : R → Ran V R) (subscriber : Option ℕ) (c : Context V R) (r : ℕ × Context V R)
      → submit command subscriber c ≡ ok r
      → Ordinary command
      → Sound c
      → Sound r.1
  unfolding submit
  submit-Sound command subscriber c r e o h = elim (Bool-cases (c.closed || c.stopped)) [
    | inl t ↦ absurd (ground arith)
    | inr f ↦
        let k : (c.next_future, enqueue command subscriber c) ≡ r = cc (rw f at e) in
        rw (← k) (enqueue-Sound command subscriber c (or_none c.closed c.stopped f) o h)
  ]

  pub cancel-Sound : (i : ℕ) (c : Context V R) → Sound c → Sound (cancel i c)
  unfolding cancel
  cancel-Sound i c h = elim (Bool-cases (is_pending (c.futures i))) [
    | inl t ↦ rw t (record {
      waits = λ j p. h.waits j ((with_future-Settles i cancelled c refl).2 j p).0;
      drained = h.drained;
      ordinary = h.ordinary;
    })
    | inr f ↦ rw f h
  ]

  next_round-Sound :
      (set_log_level : String → R → Result Exception R) (queue : List (Queued V R))
      (c : Context V R)
      → c.closed ≡ false
      → Waits queue c
      → All OrdinaryOf queue
      → Sound c
      → Sound (next_round set_log_level queue c)
  unfolding next_round
  next_round-Sound set_log_level [] c f w o h = h
  next_round-Sound set_log_level (q ∷ rest) c f w (o, os) h = run_command-Sound q _ _ o (record {
    but = λ j p n. or_else (q.future == j) (in_queue j rest) (w j p) n;
    open_still = f;
    rest_ordinary = os;
  })

  if-Sound : (b : Bool) (c d : Context V R) → Sound c → Sound d → Sound (if b then c else d)
  if-Sound true c d h k = h
  if-Sound false c d h k = k

  pub hook_loop-Sound :
      (set_log_level : String → R → Result Exception R) (c : Context V R)
      → c.closed ≡ false
      → Sound c
      → Sound (hook_loop set_log_level c)
  unfolding hook_loop round
  hook_loop-Sound set_log_level c f h =
      if-Sound c.stopped _ _ (close-Sound c h.waits)
        (next_round-Sound set_log_level c.command_queue c f h.waits h.ordinary h)

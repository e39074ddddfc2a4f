-- ===== src/Server/Runner/Routing.antt =====
-- To whom the log messages of a command go: `_log_message` and the hook loop.
use mathlib.Core.List.{append_assoc, append-nil}
use robotframework_jsonrpcre.Base.{
  ℕ, Bool, true, false, Option, none, some, List, [], ◌∷◌, ◌++◌, map, String, ◌≡◌, refl, sym, ap,
  ◌∙◌, inl, inr, ◌&&◌, ◌=ₛ◌, if◌then◌else◌, Bool-cases,
}
use robotframework_jsonrpcre.Base.Result.{Result, ok, err, Exception}
use robotframework_jsonrpcre.Server.Runner.{
  LogMessage, Ending, returned, raised, exited, FutureState, failed, Queued, Context, is_pending,
  is_failure, give, set_future, set_quietly, settled, shutting_down, fail_queued, close,
  log_message, log_messages, fail, succeed, end_round, level_of, run_command, next_round,
}

-- The messages of a command that are passed on: all but a DEBUG message right behind a FAIL or SKIP
-- one, which carries the traceback of the failure.
abbrev pub shown : Bool → List LogMessage → List LogMessage
shown follows_failure [] = []
shown follows_failure (m ∷ messages) =
    let rest = shown (is_failure m.level) messages in
    if follows_failure && m.level =ₛ "DEBUG" then rest else m ∷ rest

abbrev pub given_to : Option ℕ → List LogMessage → List (ℕ × LogMessage)
given_to none messages = []
given_to (some subscriber) messages = map (λ m. (subscriber, m)) messages

module _ {V R : Type 0} where
  -- What a round gives to subscribers, by what setting the log level gives.
  abbrev pub told : Queued V R → Result Exception R → List (ℕ × LogMessage)
  told q (err e) = []
  told q (ok robot) = given_to q.subscriber (shown false (q.command robot).messages)

  give_lem :
      (a : Option ℕ) (m : LogMessage) (ms : List LogMessage) (c : Context V R)
      → (give a m c).given ++ given_to a ms ≡ c.given ++ given_to a (m ∷ ms)
  give_lem none m ms c = refl
  give_lem (some s) m ms c = append_assoc c.given _ _

  give-kept :
      (a : Option ℕ) (m : LogMessage) (c : Context V R)
      → ((give a m c).active_subscriber ≡ c.active_subscriber)
        × ((give a m c).failure_logged ≡ c.failure_logged)
  give-kept none m c = (refl, refl)
  give-kept (some s) m c = (refl, refl)

  nothing : (a : Option ℕ) (c : Context V R) → c.given ≡ c.given ++ given_to a []
  nothing none c = sym (append-nil c.given)
  nothing (some s) c = sym (append-nil c.given)

  noted : LogMessage → Context V R → Context V R
  noted m c = record c { failure_logged = is_failure m.level }

  log_message-dropped :
      (m : LogMessage) (c : Context V R)
      → (c.failure_logged && m.level =ₛ "DEBUG") ≡ true
      → log_message m c ≡ noted m c
  unfolding log_message noted
  log_message-dropped m c t = rw t refl

  log_message-passed :
      (m : LogMessage) (c : Context V R)
      → (c.failure_logged && m.level =ₛ "DEBUG") ≡ false
      → log_message m c ≡ give c.active_subscriber m (noted m c)
  unfolding log_message noted
  log_message-passed m c f = rw f refl

  given_on : (b : Bool) → LogMessage → List LogMessage → Context V R → List (ℕ × LogMessage)
  given_on b m ms c =
      c.given
      ++ given_to c.active_subscriber
          (if b then shown (is_failure m.level) ms else m ∷ shown (is_failure m.level) ms)

  log_messages-given :
      (ms : List LogMessage) (c : Context V R)
      → (log_messages ms c).given
        ≡ c.given ++ given_to c.active_subscriber (shown c.failure_logged ms)
  unfolding log_messages noted given_on
  log_messages-given [] c = nothing c.active_subscriber c
  log_messages-given (m ∷ ms) c = elim (Bool-cases (c.failure_logged && m.level =ₛ "DEBUG")) [
    | inl t ↦
        ap (λ (x : Context V R). (log_messages ms x).given) (log_message-dropped m c t)
        ∙ log_messages-given ms (noted m c)
        ∙ ap (λ b. given_on b m ms c) (sym t)
    | inr f ↦
        let (a, b) = give-kept c.active_subscriber m (noted m c) in
        ap (λ (x : Context V R). (log_messages ms x).given) (log_message-passed m c f)
        ∙ log_messages-given ms (give c.active_subscriber m (noted m c))
        ∙ rw (a, b) (give_lem c.active_subscriber m (shown (is_failure m.level) ms) (noted m c))
        ∙ ap (λ b. given_on b m ms c) (sym f)
  ]

  set_future-given :
      (i : ℕ) (state : FutureState V) (c : Context V R)
      → (set_quietly (set_future i state c) c).given ≡ c.given
  unfolding set_future
  set_future-given i state c = elim (Bool-cases (is_pending (c.futures i))) [
    | inl t ↦ rw t refl
    | inr f ↦ rw f refl
  ]

  fail_queued-given :
      (queue : List (Queued V R)) (c : Context V R) → (fail_queued queue c).given ≡ c.given
  unfolding fail_queued
  fail_queued-given [] c = refl
  fail_queued-given (q ∷ queue) c =
      fail_queued-given queue _ ∙ set_future-given q.future (failed shutting_down) c

  close-given : (c : Context V R) → (close c).given ≡ c.given
  unfolding close
  close-given c = fail_queued-given c.command_queue _

  settled-given :
      (i : ℕ) (state : FutureState V) (c : Context V R)
      → (settled (set_future i state c) c).given ≡ c.given
  unfolding set_future settled
  settled-given i state c = elim (Bool-cases (is_pending (c.futures i))) [
    | inl t ↦ rw t refl
    | inr f ↦ rw f (close-given (record c { active_subscriber = none }))
  ]

  end_round-given : (i : ℕ) (e : Ending V) (c : Context V R) → (end_round i e c).given ≡ c.given
  unfolding end_round succeed fail set_future settled
  end_round-given i (returned v) c = elim (Bool-cases (is_pending (c.futures i))) [
    | inl t ↦ rw t refl
    | inr f ↦ rw f (close-given (record c { active_subscriber = none }))
  ]
  end_round-given i (raised e) c = settled-given i (failed e) c
  end_round-given i exited c = close-given (record c { active_subscriber = none })

  run_command-given :
      (q : Queued V R) (r : Result Exception R) (c : Context V R)
      → c.active_subscriber ≡ q.subscriber
      → c.failure_logged ≡ false
      → (run_command q r c).given ≡ c.given ++ told q r
  unfolding run_command fail
  run_command-given q (err e) c a f = settled-given q.future (failed e) c ∙ nothing none c
  run_command-given q (ok robot) c a f =
      let ran = q.command robot in
      let d = record c { robot = ran.robot_after } in
      let e : given_to d.active_subscriber (shown d.failure_logged ran.messages)
          ≡ given_to q.subscriber (shown false ran.messages) =
        rw (a, f) refl in
      end_round-given q.future ran.ending (log_messages ran.messages d)
      ∙ log_messages-given ran.messages d
      ∙ ap (λ xs. c.given ++ xs) e

  -- A round of the hook loop gives the log messages of its command to the subscriber of that command
  -- and to nobody else, in their order, also if the command fails: all but a DEBUG message right
  -- behind a FAIL or SKIP one. If the log level cannot be set, the command does not run.
  pub next_round-given :
      (set_log_level : String → R → Result Exception R) (q : Queued V R) (rest : List (Queued V R))
      (c : Context V R)
      → (next_round set_log_level (q ∷ rest) c).given
        ≡ c.given ++ told q (set_log_level (level_of q.subscriber c) c.robot)
  unfolding next_round
  next_round-given set_log_level q rest c =
      run_command-given q (set_log_level (level_of q.subscriber c) c.robot) _ refl refl

-- ===== src/Server/Runner/Steps.antt =====
-- A command that was accepted is never forgotten: the steps of RobotRemoteContext.
use robotframework_jsonrpcre.Base.{
  ℕ, true, false, Option, [], String, ◌≡◌, refl, sym, inl, inr, Bool-cases, Bool-apart,
}
use robotframework_jsonrpcre.Base.Result.{Result, ok, Exception}
use robotframework_jsonrpcre.Server.Runner.{
  Ran, is_pending, Context, init, cancel, hook_loop, stop, request,
}
use robotframework_jsonrpcre.Server.Runner.Sound.{
  Ordinary, Sound, in_queue, submit-Sound, cancel-Sound, hook_loop-Sound,
}

-- What changes a context: a client's coroutine submits a command, or is cancelled while it waits for
-- the future; the thread of Robot Framework goes through its loop; `stop` is called. The loop has
-- ended once the context is closed.
pub data Step {V R : Type 0} (set_log_level : String → R → Result Exception R)
    : Context V R → Context V R → Type 0 where
  submitted :
      {c : Context V R} (name : String) (command : R → Ran V R) (subscriber : Option ℕ)
      (r : ℕ × Context V R)
      → Ordinary command
      → request false name command subscriber c ≡ ok r
      → Step set_log_level c r.1
  gave_up : {c : Context V R} (i : ℕ) → Step set_log_level c (cancel i c)
  looped : {c : Context V R} → c.closed ≡ false → Step set_log_level c (hook_loop set_log_level c)
  told_to_stop : {c : Context V R} → Step set_log_level c (stop c)

pub data Reach {V R : Type 0} (set_log_level : String → R → Result Exception R)
    : Context V R → Context V R → Type 0 where
  here : {c : Context V R} → Reach set_log_level c c
  step :
      {c d e : Context V R}
      → Reach set_log_level c d
      → Step set_log_level d e
      → Reach set_log_level c e

still_open :
    {V R : Type 0} (c : Context V R)
    → Sound c
    → (i : ℕ) → is_pending (c.futures i) ≡ true
    → c.closed ≡ false
still_open {V} {R} c s i p = elim (Bool-cases c.closed) [
  | inl t ↦
      let e : in_queue {V = V} {R = R} i [] ≡ true = rw (s.drained t) at (s.waits i p) in
      absurd (Bool-apart (sym e))
  | inr f ↦ f
]

module _ {V R : Type 0} (set_log_level : String → R → Result Exception R) where
  Step-Sound : {c d : Context V R} → Step set_log_level c d → Sound c → Sound d
  unfolding request
  Step-Sound (submitted name command subscriber r o e) h = submit-Sound command subscriber _ r e o h
  Step-Sound {c} (gave_up i) h = cancel-Sound i c h
  Step-Sound {c} (looped f) h = hook_loop-Sound set_log_level c f h
  Step-Sound {c} told_to_stop h = record {
    waits = h.waits;
    drained = h.drained;
    ordinary = h.ordinary;
  }

  Reach-Sound : {c d : Context V R} → Reach set_log_level c d → Sound c → Sound d
  Reach-Sound here h = h
  Reach-Sound (step r s) h = Step-Sound s (Reach-Sound r h)

  init-Sound : (levels : ℕ → String) (robot : R) → Sound (init {V = V} levels robot)
  init-Sound levels robot = record {
    waits = λ j p. absurd (Bool-apart (sym p));
    drained = λ x. refl;
    ordinary = tt;
  }

  -- Whatever the clients submit and give up on, as long as no command exits with a BaseException
  -- that is no Exception: at any time, a future that is pending is the future of a command that is
  -- still in the queue, and once the hook loop has closed the context, no future is pending.
  pub no_command_forgotten :
      (levels : ℕ → String) (robot : R) (c : Context V R)
      → Reach set_log_level (init levels robot) c
      → (i : ℕ) → is_pending (c.futures i) ≡ true
      → (in_queue i c.command_queue ≡ true) × (c.closed ≡ false)
  no_command_forgotten levels robot c r i p =
      let s = Reach-Sound r (init-Sound levels robot) in (s.waits i p, still_open c s i p)

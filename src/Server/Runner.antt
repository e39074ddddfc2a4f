-- ===== src/Server/Runner.antt =====
-- RobotRemoteContext: the commands of the clients run one after another in the hook loop, on the thread
-- of Robot Framework. packages/server/src/robot_jsonrpcremote_server/_runner.py.
pub mod Sound
pub mod Steps
pub mod Routing
use robotframework_jsonrpcre.Base.{
  format, ℕ, suc, Bool, true, false, Option, none, some, List, [], ◌∷◌, ◌++◌, String, ◌&&◌, ◌||◌,
  ◌==◌, ◌=ₛ◌, if◌then◌else◌,
}
use robotframework_jsonrpcre.Base.Result.{Result, ok, err, Exception}

-- result.Message of Robot Framework.
pub record LogMessage : Type 0 where
  pub text : String
  pub level : String
  pub html : Bool
  pub timestamp : String

-- How a command ends: a result, an Exception, or a BaseException that is no Exception.
pub data Ending (V : Type 0) : Type 0 where
  returned : V → Ending V
  raised : Exception → Ending V
  exited : Ending V

-- A run of a command: the messages that Robot logs meanwhile, its end, and what it makes of Robot.
pub record Ran (V R : Type 0) : Type 0 where
  pub messages : List LogMessage
  pub ending : Ending V
  pub robot_after : R

-- concurrent.futures.Future; `absent` is one that has not been made yet.
pub data FutureState (V : Type 0) : Type 0 where
  absent : FutureState V
  pending : FutureState V
  result : V → FutureState V
  failed : Exception → FutureState V
  cancelled : FutureState V

-- A subscriber is named by a number; its log level is in `log_levels`.
pub record Queued (V R : Type 0) : Type 0 where
  pub command : R → Ran V R
  pub future : ℕ
  pub subscriber : Option ℕ

-- RobotRemoteContext, the futures it has made, the log level of each subscriber, the messages given to
-- subscribers, and Robot Framework.
pub record Context (V R : Type 0) : Type 0 where
  pub stopped : Bool
  pub closed : Bool
  pub command_queue : List (Queued V R)
  pub active_subscriber : Option ℕ
  pub failure_logged : Bool
  pub futures : ℕ → FutureState V
  pub next_future : ℕ
  pub log_levels : ℕ → String
  pub given : List (ℕ × LogMessage)
  pub robot : R

abbrev pub raise : String → String → Exception
raise type_name message = record { type_name = type_name; message = message; trace = "" }

-- `_shutting_down()`
abbrev pub shutting_down : Exception
shutting_down = raise "JsonRpcResponseError" "server is shutting down"

abbrev pub invalid_state : Exception
invalid_state = raise "InvalidStateError" "invalid state"

abbrev pub is_failure : String → Bool
is_failure level = level =ₛ "FAIL" || level =ₛ "SKIP"

abbrev pub is_pending : {V : Type 0} → FutureState V → Bool
is_pending pending = true
is_pending _ = false

module _ {V R : Type 0} where
  -- RobotRemoteContext.__init__
  abbrev pub init : (ℕ → String) → R → Context V R
  init log_levels robot = record {
    stopped = false;
    closed = false;
    command_queue = [];
    active_subscriber = none;
    failure_logged = false;
    futures = λ i. absent;
    next_future = 0;
    log_levels = log_levels;
    given = [];
    robot = robot;
  }

  abbrev pub with_future : ℕ → FutureState V → Context V R → Context V R
  with_future i state c = record c { futures = λ j. if i == j then state else c.futures j }

  -- future.set_result and future.set_exception: `none` is an InvalidStateError.
  unfoldable pub set_future : ℕ → FutureState V → Context V R → Option (Context V R)
  set_future i state c = if is_pending (c.futures i) then some (with_future i state c) else none

  -- future.cancel(), which a waiter does when its own task is cancelled.
  unfoldable pub cancel : ℕ → Context V R → Context V R
  cancel i c = if is_pending (c.futures i) then with_future i cancelled c else c

  -- set_exception with the InvalidStateError of a future that is done suppressed.
  abbrev pub set_quietly : Option (Context V R) → Context V R → Context V R
  set_quietly none c = c
  set_quietly (some d) c = d

  unfoldable pub fail_queued : List (Queued V R) → Context V R → Context V R
  unfolding set_future
  fail_queued [] c = c
  fail_queued (q ∷ queued) c =
      fail_queued queued (set_quietly (set_future q.future (failed shutting_down) c) c)

  unfoldable pub close : Context V R → Context V R
  unfolding fail_queued
  close c = fail_queued c.command_queue (record c { closed = true; command_queue = [] })

  abbrev pub enqueue : (R → Ran V R) → Option ℕ → Context V R → Context V R
  enqueue command subscriber c = record c {
    command_queue =
        c.command_queue
        ++ (record { command = command; future = c.next_future; subscriber = subscriber } ∷ []);
    futures = λ j. if c.next_future == j then pending else c.futures j;
    next_future = suc c.next_future;
  }

  unfoldable pub submit :
      (R → Ran V R) → Option ℕ → Context V R → Result Exception (ℕ × Context V R)
  submit command subscriber c =
      if c.closed || c.stopped
      then err shutting_down
      else ok (c.next_future, enqueue command subscriber c)

  abbrev pub give : Option ℕ → LogMessage → Context V R → Context V R
  give none message c = c
  give (some subscriber) message c = record c { given = c.given ++ ((subscriber, message) ∷ []) }

  unfoldable pub log_message : LogMessage → Context V R → Context V R
  log_message message c =
      let follows_failure = c.failure_logged in
      let d = record c { failure_logged = is_failure message.level } in
      if follows_failure && message.level =ₛ "DEBUG" then d else give d.active_subscriber message d

  unfoldable pub log_messages : List LogMessage → Context V R → Context V R
  unfolding log_message
  log_messages [] c = c
  log_messages (m ∷ messages) c = log_messages messages (log_message m c)

  -- The end of a round: `_active_subscriber` is reset, and an exception that is not caught ends the loop.
  unfoldable pub settled : Option (Context V R) → Context V R → Context V R
  unfolding close
  settled (some d) c = record d { active_subscriber = none }
  settled none c = close (record c { active_subscriber = none })

  -- `except Exception as e: future.set_exception(e)`
  unfoldable pub fail : ℕ → Exception → Context V R → Context V R
  unfolding set_future settled
  fail i e c = settled (set_future i (failed e) c) c

  abbrev pub succeed_or : Option (Context V R) → Context V R → Context V R
  succeed_or (some d) else_c = record d { active_subscriber = none }
  succeed_or none else_c = else_c

  unfoldable pub succeed : ℕ → V → Context V R → Context V R
  unfolding set_future fail
  succeed i v c = succeed_or (set_future i (result v) c) (fail i invalid_state c)

  unfoldable pub end_round : ℕ → Ending V → Context V R → Context V R
  unfolding succeed fail close
  end_round i (returned v) c = succeed i v c
  end_round i (raised e) c = fail i e c
  end_round i exited c = close (record c { active_subscriber = none })

  abbrev pub level_of : Option ℕ → Context V R → String
  level_of none c = "INFO"
  level_of (some subscriber) c = c.log_levels subscriber

  -- After the log level is set, with what that gives.
  unfoldable pub run_command : Queued V R → Result Exception R → Context V R → Context V R
  unfolding end_round log_messages fail
  run_command q (err e) c = fail q.future e c
  run_command q (ok robot) c =
      let ran = q.command robot in
      end_round q.future ran.ending
        (log_messages ran.messages (record c { robot = ran.robot_after }))

  -- A round of the loop, while it is not stopped; `set_log_level` is the output's, of Robot Framework.
  unfoldable pub next_round :
      (String → R → Result Exception R) → List (Queued V R) → Context V R → Context V R
  unfolding run_command
  next_round set_log_level [] c = c
  next_round set_log_level (q ∷ rest) c =
      run_command q (set_log_level (level_of q.subscriber c) c.robot) (record c {
        command_queue = rest;
        active_subscriber = q.subscriber;
        failure_logged = false;
      })

  unfoldable pub round : (String → R → Result Exception R) → Context V R → Context V R
  unfolding next_round
  round set_log_level c = next_round set_log_level c.command_queue c

  -- The loop sees the event and ends.
  unfoldable pub hook_loop : (String → R → Result Exception R) → Context V R → Context V R
  unfolding round close
  hook_loop set_log_level c = if c.stopped then close c else round set_log_level c

  abbrev pub stop : Context V R → Context V R
  stop c = record c { stopped = true }

  -- `import_library`, `run_keyword` and `finalize_library`, up to the wait for the future.
  unfoldable pub request :
      Bool → String → (R → Ran V R) → Option ℕ → Context V R → Result Exception (ℕ × Context V R)
  unfolding submit
  request on_runner_thread name command subscriber c =
      if on_runner_thread
      then err
          (raise "RuntimeError" (format (name ∷ " cannot be called from the runner thread." ∷ [])))
      else submit command subscriber c

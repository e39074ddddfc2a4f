-- ===== src/Client/LogSink.antt =====
-- _LogSink: log messages of the server wait until a thread that Robot Framework listens to writes them.
-- src/JsonRpcRemote/__init__.py. The lock makes each operation one step.
pub mod Order
use robotframework_jsonrpcre.Base.{
  Bool, Option, none, some, List, [], ◌∷◌, ◌++◌, String, ◌≡◌, refl, sym, ◌∙◌,
}

pub record LogMessage : Type 0 where
  pub text : String
  pub level : String
  pub html : Bool
  pub console : Option Bool

-- The event loop of a keyword call; a closed one refuses `call_soon_threadsafe`.
pub data Loop : Type 0 where
  running : Loop
  closed : Loop

-- `call_soon_threadsafe` only queues a call of `_write_log`, which the loop makes at a turn of its own: such messages
-- stand in `queued`, the first one first, and a loop that is closed drops them. What was handed to Robot
-- Framework, by a drain or by a turn of the loop, stands in `written`, in this order. A failure of
-- `_write_log` in a drain is suppressed.
pub record LogSink : Type 0 where
  pub loop : Option Loop
  pub queued : List LogMessage
  pub waiting : List LogMessage
  pub written : List LogMessage
  pub dropped : List LogMessage

abbrev pub new : LogSink
new = record { loop = none; queued = []; waiting = []; written = []; dropped = [] }

abbrev pub submit_on : Option Loop → LogMessage → LogSink → LogSink
submit_on (some running) m s = record s { queued = s.queued ++ (m ∷ []) }
submit_on _ m s = record s { waiting = s.waiting ++ (m ∷ []) }

abbrev pub submit : LogMessage → LogSink → LogSink
submit m s = submit_on s.loop m s

abbrev pub drain : LogSink → LogSink
drain s = record s { waiting = []; written = s.written ++ s.waiting }

-- The loop that is attached is running.
abbrev pub attach : LogSink → LogSink
attach s = record (drain s) { loop = some running }

abbrev pub detach : LogSink → LogSink
detach s = record s { loop = none }

-- A turn of the loop makes the call that was queued first.
abbrev pub turn_with : List LogMessage → LogSink → LogSink
turn_with [] s = s
turn_with (m ∷ ms) s = record s { queued = ms; written = s.written ++ (m ∷ []) }

abbrev pub turn : LogSink → LogSink
turn s = turn_with s.queued s

-- The loop is closed: it makes no call any more, and an attached one refuses new ones.
abbrev closed_loop : Option Loop → Option Loop
closed_loop none = none
closed_loop (some l) = some closed

abbrev pub end_loop : LogSink → LogSink
end_loop s = record s { loop = closed_loop s.loop; queued = []; dropped = s.dropped ++ s.queued }

-- What happens to a sink: its operations, the turns of the loop, and its end.
pub data Event : Type 0 where
  submitted : LogMessage → Event
  attached : Event
  detached : Event
  drained : Event
  turned : Event
  loop_closed : Event

abbrev pub apply : Event → LogSink → LogSink
apply (submitted m) s = submit m s
apply attached s = attach s
apply detached s = detach s
apply drained s = drain s
apply turned s = turn s
apply loop_closed s = end_loop s

unfoldable pub run : List Event → LogSink → LogSink
run [] s = s
run (e ∷ events) s = run events (apply e s)

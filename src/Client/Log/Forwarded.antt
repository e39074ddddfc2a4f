-- ===== src/Client/Log/Forwarded.antt =====
-- A log message on its way from the runner of the server to the log sink of the client.
use mathlib.Core.Option as Option
use robotframework_jsonrpcre.Base.{
  Bool, none, some, [], ◌∷◌, String, ◌||◌, ◌&&◌, ◌=ₛ◌, ◌≡◌, refl, inl, inr, arith, eq_iff, ap, ◌∙◌,
  Bool-cases, format, not, if◌then◌else◌,
}
use robotframework_jsonrpcre.Server.Endpoint as Server
use robotframework_jsonrpcre.Server.Endpoint.{protocol_level}
use robotframework_jsonrpcre.Client.LogSink.{LogMessage}
use robotframework_jsonrpcre.Client.Log.{level_value, remote_mark, received_message}

-- The levels that the protocol has.
abbrev pub is_protocol_level : String → Bool
is_protocol_level level =
    level =ₛ "TRACE"
    || level =ₛ "DEBUG"
    || level =ₛ "INFO"
    || level =ₛ "WARN"
    || level =ₛ "ERROR"
    || level =ₛ "CONSOLE"
    || level =ₛ "HTML"

-- A message that the client writes for one that was logged on the server.
abbrev pub forwarded : (message level : String) (is_html : Bool) → LogMessage
forwarded message level is_html = record {
  text =
      if level =ₛ "DEBUG" || level =ₛ "TRACE" then format (remote_mark ∷ message ∷ []) else message;
  level = if is_protocol_level level then level else "INFO";
  html = is_html;
  console = none;
}

abbrev pub is_sent : String → Server.Endpoint → Bool
is_sent level e = not (level =ₛ "FAIL" || level =ₛ "SKIP") && (e.registered && e.has_peer)

level_value-protocol_level :
    (level : String)
    → level_value (protocol_level level) ≡ (if is_protocol_level level then level else "INFO")
unfolding protocol_level
level_value-protocol_level level = ground (
  arith,
  eq_iff level "TRACE",
  eq_iff level "DEBUG",
  eq_iff level "INFO",
  eq_iff level "WARN",
  eq_iff level "ERROR",
  eq_iff level "CONSOLE",
  eq_iff level "HTML",
)

-- INFO instead of another level makes no difference to the mark.
is_marked : String → Bool
is_marked level = level =ₛ "DEBUG" || level =ₛ "TRACE"

is_marked-protocol_level :
    (level : String)
    → is_marked (if is_protocol_level level then level else "INFO") ≡ is_marked level
unfolding is_marked
is_marked-protocol_level level = elim (Bool-cases (is_protocol_level level)) [
  | inl e ↦ rw e refl
  | inr e ↦ rw e (ground arith)
]

received_message-forwarded :
    (message level : String) (is_html : Bool)
    → received_message (record {
      log_text = message;
      level = some (protocol_level level);
      is_html = some is_html;
      is_console = none;
      timestamp = none;
    })
      ≡ forwarded message level is_html
unfolding received_message is_marked
received_message-forwarded message level is_html =
    let name = level_value-protocol_level level in
    let mark = ap (λ (l : String). is_marked l) name ∙ is_marked-protocol_level level in
    λ i. record {
      text = if mark i then format (remote_mark ∷ message ∷ []) else message;
      level = name i;
      html = is_html;
      console = none;
    }

-- A message that is logged on the server, at a level in capitals, reaches the log sink of a client that is
-- still connected with its text, behind the mark at DEBUG and TRACE, its level, or INFO if the protocol
-- does not have it, and its HTML flag; one at the level FAIL or SKIP, and any other, reaches none.
pub received_message-log_message :
    (upper : String → String) (message level : String) (is_html : Bool) (e : Server.Endpoint)
    → upper level ≡ level
    → Option.map received_message (Server.log_message upper message level is_html e)
      ≡ (if is_sent level e then some (forwarded message level is_html) else none)
unfolding Server.log_message
received_message-log_message upper message level is_html e u =
    rw u (ground (arith, received_message-forwarded message level is_html))

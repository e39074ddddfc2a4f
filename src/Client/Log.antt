-- ===== src/Client/Log.antt =====
-- What the client makes of the log messages of the server, and of what its peer reports:
-- `_ClientEndpoint.log` and `_report_peer_problem` of src/JsonRpcRemote/__init__.py.
pub mod Forwarded
use robotframework_jsonrpcre.Base.{
  Bool, true, false, Option, none, some, [], ◌∷◌, String, ◌||◌, ◌=ₛ◌, format, if◌then◌else◌,
}
use robotframework_jsonrpcre.Protocol.{
  LogLevel, trace, debug, info, warn, error, console, html, LogParams,
}
use robotframework_jsonrpcre.Client.LogSink.{LogMessage}

-- level.value
abbrev pub level_value : LogLevel → String
level_value trace = "TRACE"
level_value debug = "DEBUG"
level_value info = "INFO"
level_value warn = "WARN"
level_value error = "ERROR"
level_value console = "CONSOLE"
level_value html = "HTML"

abbrev pub remote_mark : String
remote_mark = "[remote] "

abbrev level_or_info : Option LogLevel → String
level_or_info none = "INFO"
level_or_info (some level) = level_value level

abbrev or_false : Option Bool → Bool
or_false none = false
or_false (some b) = b

-- `log`: what it hands to the sink.
unfoldable pub received_message : LogParams → LogMessage
received_message params =
    let level = level_or_info params.level in
    record {
      text =
          if level =ₛ "DEBUG" || level =ₛ "TRACE"
          then format (remote_mark ∷ params.log_text ∷ [])
          else params.log_text;
      level = level;
      html = or_false params.is_html;
      console = params.is_console;
    }

-- `_report_peer_problem`: what it hands to the sink.
unfoldable pub problem_message : (uri problem : String) → LogMessage
problem_message uri problem = record {
  text = format ("Problem with a message from '" ∷ uri ∷ "': " ∷ problem ∷ []);
  level = "ERROR";
  html = false;
  console = none;
}

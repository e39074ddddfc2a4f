-- ===== src/Tests/Connect.antt =====
-- Runs of the client's way to a session, and a log message on its way to it.
use mathlib.Core.Option as Option
use robotframework_jsonrpcre.Base.{
  false, none, some, [], ◌∷◌, String, ◌≡◌, refl, ◌=ₛ◌, if◌then◌else◌,
}
use robotframework_jsonrpcre.Base.Result.{ok, Exception}
use robotframework_jsonrpcre.Server.Endpoint as Server
use robotframework_jsonrpcre.Client.Log.{received_message}
use robotframework_jsonrpcre.Client.Log.Forwarded.{is_sent, forwarded, received_message-log_message}
use robotframework_jsonrpcre.Client.Connect.{Uris, tcp, stdio, stdio_command, transport_of}
use robotframework_jsonrpcre.Tests.Server.{ready}

abbrev some_error : String → Exception
some_error message = record { type_name = "ValueError"; message = message; trace = "" }

abbrev scheme_of : String → String
scheme_of uri = if uri =ₛ "tcp://localhost" then "tcp" else "stdio"

abbrev uris : Uris
uris = record {
  urlparse = λ uri. record { scheme = scheme_of uri; hostname = some "localhost"; port = ok none };
  shlex_split = λ rest. ok (rest ∷ []);
  value_error = some_error;
}

tcp_test : transport_of uris "tcp://localhost" ≡ ok (tcp (some "localhost") 8271)
unfolding transport_of
tcp_test = refl

stdio_test : transport_of uris "stdio://server" ≡ ok (stdio "server" [])
unfolding transport_of stdio_command
stdio_test = refl

received_message-log_message_example :
    Option.map received_message (Server.log_message (λ s. s) "hello" "DEBUG" false ready)
    ≡ (if is_sent "DEBUG" ready then some (forwarded "hello" "DEBUG" false) else none)
received_message-log_message_example =
    received_message-log_message (λ s. s) "hello" "DEBUG" false ready refl

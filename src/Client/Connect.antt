-- ===== src/Client/Connect.antt =====
-- How the client library comes to a session: its options, the transport of its URI, and what `_connect` makes
-- of a session that has started or not. `_time_option`, `JsonRpcRemote.__init__`, `_connect`,
-- `_Session.create_connection` and `_run_on_loop` of src/JsonRpcRemote/__init__.py.
pub mod Started
use Prim.Native.Char.{code}
use robotframework_jsonrpcre.Base.{
  ℕ, zero, suc, Bool, true, false, not, Option, none, some, List, [], ◌∷◌, String, ◌&&◌, ◌||◌, ◌==◌,
  ◌=ₛ◌, format, if◌then◌else◌,
}
use robotframework_jsonrpcre.Base.Result.{Result, ok, err, ◌>>=◌, Exception}
use robotframework_jsonrpcre.Client.Session.{Session}

-- urlparse(uri): `port` raises for a port that is no number.
pub record ParsedUri : Type 0 where
  pub scheme : String
  pub hostname : Option String
  pub port : Result Exception (Option ℕ)

-- urlparse, shlex.split, and a ValueError with its message.
pub record Uris : Type 0 where
  pub urlparse : String → ParsedUri
  pub shlex_split : String → Result Exception (List String)
  pub value_error : String → Exception

-- Where a session connects to: a host and a port, or the server process that it spawns.
pub data Transport : Type 0 where
  tcp : Option String → ℕ → Transport
  stdio : (command : String) (arguments : List String) → Transport

abbrev default_port : ℕ
default_port = 8271

abbrev port_or_default : Option ℕ → ℕ
port_or_default none = default_port
port_or_default (some port) = port

-- s[n:]
abbrev pub drop_text : ℕ → String → String
drop_text zero s = s
drop_text (suc n) String.[] = String.[]
drop_text (suc n) (String.◌∷◌ c s) = drop_text n s

-- rest[2:] if it starts with "//".
abbrev pub without_slashes : String → String
without_slashes (String.◌∷◌ c (String.◌∷◌ d s)) =
    if code c == b'/' && code d == b'/' then s else String.◌∷◌ c (String.◌∷◌ d s)
without_slashes s = s

abbrev command_of : (String → Exception) → List String → Result Exception Transport
command_of value_error [] = err (
    value_error
      "stdio URI must include a server command, e.g. 'stdio:robot-jsonrpcremote-server --stdio Lib'.")
command_of value_error (command ∷ arguments) = ok (stdio command arguments)

module _ (uris : Uris) where
  -- `_create_stdio_connection`, up to the process.
  unfoldable pub stdio_command : String → Result Exception Transport
  stdio_command uri = do
    argv ← uris.shlex_split (without_slashes (drop_text 6 uri))
    command_of uris.value_error argv

  -- `create_connection`, up to the connection itself.
  unfoldable pub transport_of : String → Result Exception Transport
  unfolding stdio_command
  transport_of uri =
      let parsed = uris.urlparse uri in
      if parsed.scheme =ₛ "tcp"
      then (parsed.port >>= λ (port : Option ℕ). ok (tcp parsed.hostname (port_or_default port)))
      else if parsed.scheme =ₛ "stdio"
      then stdio_command uri
      else err (
          uris.value_error (
            format (
              "Unsupported URI scheme '" ∷ parsed.scheme
              ∷ "'; supported schemes are 'tcp' and 'stdio'." ∷ [])))

-- What `_connect` raises: TimeoutError, with its cause, or the error of the start.
pub data ConnectError : Type 0 where
  timed_out : (cause : Option Exception) → ConnectError
  start_failed : Exception → ConnectError

abbrev pub start_result : Option Exception → Session → Result ConnectError Session
start_result (some e) s = err (start_failed e)
start_result none s = ok s

abbrev pub after_wait : (is_set : Bool) → Session → Result ConnectError Session × Session
after_wait true s = (start_result s.start_error s, s)
after_wait false s = (err (timed_out s.start_error), record s { closed_by_client = true })

-- `_connect`, when its wait for `initialized` ends: it is set, or the time is up. A session that has not
-- started is stopped: the mark is set here, the rest of `stop` are steps of the session.
unfoldable pub connect_result : Session → Result ConnectError Session × Session
connect_result s = after_wait s.initialized s

-- timestr_to_secs, which raises a ValueError, tests of the seconds, and the texts of the errors.
pub record Times (T D : Type 0) : Type 0 where
  pub timestr_to_secs : T → Result Exception D
  pub is_negative : D → Bool
  pub is_positive : D → Bool
  pub invalid_value : String → Exception → Exception
  pub negative_value : String → T → Exception
  pub interval_error : Exception

abbrev pub mapped : {E F A : Type 0} → (E → F) → Result E A → Result F A
mapped f (ok a) = ok a
mapped f (err e) = err (f e)

-- The options of the library, as they are given and as they are used.
pub record GivenOptions (T C : Type 0) : Type 0 where
  pub rpc_timeout : T
  pub rpc_scope : C
  pub rpc_connect_retry_timeout : T
  pub rpc_connect_retry_interval : T

pub record Options (D K : Type 0) : Type 0 where
  pub timeout : D
  pub scope : K
  pub retry_timeout : D
  pub retry_interval : D

module _ {T D : Type 0} (times : Times T D) where
  -- `_time_option`
  unfoldable pub time_option : String → T → Result Exception D
  time_option name value =
      mapped (times.invalid_value name) (times.timestr_to_secs value) >>= λ seconds.
      if times.is_negative seconds then err (times.negative_value name value) else ok seconds

  -- The options in `__init__`, in their order.
  unfoldable pub read_options :
      {C K : Type 0} → (C → Result Exception K) → GivenOptions T C → Result Exception (Options D K)
  unfolding time_option
  read_options scope_option given = do
    timeout ← time_option "rpc_timeout" given.rpc_timeout
    scope ← scope_option given.rpc_scope
    retry_timeout ← time_option "rpc_connect_retry_timeout" given.rpc_connect_retry_timeout
    retry_interval ← time_option "rpc_connect_retry_interval" given.rpc_connect_retry_interval
    if times.is_positive retry_timeout && not (times.is_positive retry_interval)
        then err times.interval_error
        else ok (record {
          timeout = timeout;
          scope = scope;
          retry_timeout = retry_timeout;
          retry_interval = retry_interval;
        })

-- One poll of `_run_on_loop`: whether the coroutine is done by then, the worker has ended, or the time is up.
pub record Poll : Type 0 where
  pub is_done : Bool
  pub has_ended : Bool
  pub is_past : Bool

pub data Teardown : Type 0 where
  loop_closed finished gave_up still_waits : Teardown

-- The loop of `_run_on_loop`.
abbrev poll_result : Poll → Teardown → Teardown
poll_result p rest =
    if p.is_done then finished else if p.has_ended || p.is_past then gave_up else rest

unfoldable pub wait_done : List Poll → Teardown
wait_done [] = still_waits
wait_done (p ∷ polls) = poll_result p (wait_done polls)

-- `_run_on_loop`, on whether the loop takes the call. A worker that has left its session makes no
-- coroutine, and `done` is set then.
unfoldable pub run_on_loop : (is_open : Bool) → List Poll → Teardown
unfolding wait_done
run_on_loop false polls = loop_closed
run_on_loop true polls = wait_done polls

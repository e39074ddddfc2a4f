-- ===== src/Peer/State.antt =====
-- The state of a `JsonRpcPeer` (packages/jsonrpcpeer/src/jsonrpcpeer/peer.py), what its handlers are,
-- and what the peer takes from outside: the codecs, the conversion of params, the printing of values.
use robotframework_jsonrpcre.Base.{
  ℕ, String, Bool, true, false, Option, List, [], ◌∷◌, ◌++◌, ◌==◌, if◌then◌else◌,
}
use robotframework_jsonrpcre.Base.Dict.{Dict}
use robotframework_jsonrpcre.Base.Result.{Result, Exception}
use robotframework_jsonrpcre.Value.{Value, null, text}
use robotframework_jsonrpcre.Peer.Message.{JsonRpcError}

abbrev pub Bytes : Type 0
Bytes = List ℕ

-- How a handler ends: it returns, raises JsonRpcResponseError, raises another exception, or its
-- task is cancelled while it runs.
pub data Outcome : Type 0 where
  returned : Value → Outcome
  raised_response : JsonRpcError → Outcome
  raised : Exception → Outcome
  cancelled : Outcome

-- A Python callable: the type hint of each parameter, if it has one, and a call of it, which may
-- change what the application holds. The flag says whether the peer is passed before the params.
pub record Callable (S P : Type 0) : Type 0 where
  pub hints : List (Option P)
  pub call : Bool → Value → S → Outcome × S

pub record HandlerEntry (S P : Type 0) : Type 0 where
  pub handler : Callable S P
  pub param_type : P
  pub pass_peer : Bool

-- What a future holds for `send_request`: the result field of the response, or an error.
pub data Failure : Type 0 where
  connection_closed : Option Exception → Failure
  response_error : JsonRpcError → Failure

pub data Future : Type 0 where
  waiting : Future
  resolved : Value → Future
  failed : Failure → Future
  dropped : Future

abbrev pub done : Future → Bool
done waiting = false
done _ = true

pub data Completion : Type 0 where
  open_yet : Completion
  completed : Completion
  broken : Exception → Completion

-- What the transport does with a write: it takes it, raises at once, or takes it and raises in drain().
pub data Writer : Type 0 where
  works : Writer
  write_fails drain_fails : Exception → Writer

pub record Config : Type 0 where
  pub max_message_size : Option ℕ
  pub auto_close : Bool
  pub send_tracebacks : Bool
  -- The header line for an encoding other than UTF-8, with its line end; empty for UTF-8.
  pub content_type_field : Bytes

-- The state of one peer. `pending` maps the text of a request's number to the number of its future;
-- `sent` holds the frames that were written,
-- `problems` what was reported, and `app` what the application's handlers share.
pub record Peer (S P : Type 0) : Type 0 where
  pub config : Config
  pub request_handlers : Dict (HandlerEntry S P)
  pub notification_handlers : Dict (HandlerEntry S P)
  pub pending_requests : Dict ℕ
  pub futures : ℕ → Future
  pub id_counter : ℕ
  pub running : Bool
  pub closed : Bool
  pub completion : Completion
  pub writer_closing : Bool
  pub writer : Writer
  pub sent : List Bytes
  pub problems : List String
  pub app : S

-- What the peer calls and does not define: the conversion of json_helpers.py, Python's printing of
-- values, json, and the codec of `default_encoding`. `is_peer_type t` is `t is JsonRpcPeer`. `encode_any` writes any text, with escapes for
-- the characters that the encoding lacks.
pub record Runtime (P : Type 0) : Type 0 where
  pub any_type : P
  pub is_peer_type : P → Bool
  pub from_dict : P → Value → Result Exception Value
  pub print : Value → String
  pub repr : Value → String
  pub loads : String → Result Exception Value
  pub dumps : Value → Result Exception String
  pub encode : String → Result Exception Bytes
  pub encode_any : String → Bytes
  pub decode : Bytes → String
  pub rstrip : String → String

abbrev pub set_future : ℕ → Future → (ℕ → Future) → ℕ → Future
set_future n v futures m = if n == m then v else futures m

module _ {S P : Type 0} where
  -- `_report_problem`: what the callback does has no effect on the peer, its exceptions included.
  unfoldable pub report_problem : String → Peer S P → Peer S P
  report_problem problem p = record p { problems = p.problems ++ problem ∷ [] }

  -- `_traceback_data` while an exception is handled.
  unfoldable pub traceback_data : Exception → Peer S P → Value
  traceback_data ex p = if p.config.send_tracebacks then text ex.trace else null

  -- A peer as `__init__` leaves it.
  unfoldable pub init : Config → S → Peer S P
  init config app = record {
    config = config;
    request_handlers = [];
    notification_handlers = [];
    pending_requests = [];
    futures = λ _. waiting;
    id_counter = 1;
    running = false;
    closed = false;
    completion = open_yet;
    writer_closing = false;
    writer = works;
    sent = [];
    problems = [];
    app = app;
  }

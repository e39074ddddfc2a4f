-- ===== src/Peer/Message.antt =====
-- The messages of JSON-RPC 2.0 and their errors (packages/jsonrpcpeer/src/jsonrpcpeer/peer.py), and
-- the objects that `_default` of json_helpers.py turns them into. A handler's exceptions stand here too.
use robotframework_jsonrpcre.Base.{
  String, Bool, true, false, not, ◌&&◌, Option, none, some, [], ◌∷◌, format, ◌=ₛ◌, if◌then◌else◌,
}
use robotframework_jsonrpcre.Base.Dict
use robotframework_jsonrpcre.Base.Dict.{has}
use robotframework_jsonrpcre.Base.Int.{negsuc}
use robotframework_jsonrpcre.Value.{
  Value, null, integer, text, object, Fields, end, field, fields, get, is_none,
}

abbrev pub protocol_version : String
protocol_version = "2.0"

pub data JsonRpcErrorCode : Type 0 where
  parse_error invalid_request method_not_found invalid_params internal_error : JsonRpcErrorCode

-- The members of the IntEnum are numbers.
abbrev pub code_value : JsonRpcErrorCode → Value
code_value parse_error = integer (negsuc 32699)
code_value invalid_request = integer (negsuc 32599)
code_value method_not_found = integer (negsuc 32600)
code_value invalid_params = integer (negsuc 32601)
code_value internal_error = integer (negsuc 32602)

-- The code and the data are what the other side sent, so any value; `null` is None.
pub record JsonRpcError : Type 0 where
  pub code : Value
  pub message : String
  pub error_data : Value

pub record JsonRpcRequest : Type 0 where
  pub method : String
  pub id : Value
  pub params : Value

pub record JsonRpcNotification : Type 0 where
  pub method : String
  pub params : Value

-- JsonRpcResponse and JsonRpcErrorResponse.
pub data Response : Type 0 where
  result : (id : Value) → Value → Response
  failure : (id : Value) → JsonRpcError → Response

abbrev pub response_id : Response → Value
response_id (result id v) = id
response_id (failure id e) = id

pub data Message : Type 0 where
  request : JsonRpcRequest → Message
  notification : JsonRpcNotification → Message
  response : Response → Message

-- A field with a default is left out when it is None.
abbrev pub optional : String → Value → Fields → Fields
optional k null rest = rest
optional k v rest = field k v rest

abbrev pub error_value : JsonRpcError → Value
error_value e =
    object
      (field "code" e.code (field "message" (text e.message) (optional "data" e.error_data end)))

-- The object that a message is written as, its fields in the order of the dataclass.
unfoldable pub message_value : Message → Value
message_value (request r) = object (
    field "jsonrpc" (text protocol_version)
      (field "method" (text r.method) (field "id" r.id (optional "params" r.params end))))
message_value (notification n) = object (
    field "jsonrpc" (text protocol_version)
      (field "method" (text n.method) (optional "params" n.params end)))
message_value (response (result id v)) =
    object (field "jsonrpc" (text protocol_version) (field "id" id (field "result" v end)))
message_value (response (failure id e)) =
    object
      (field "jsonrpc" (text protocol_version) (field "error" (error_value e) (field "id" id end)))

unfoldable pub is_usable_id : Value → Bool
is_usable_id (text s) = true
is_usable_id (integer n) = true
is_usable_id _ = false

-- message.get("jsonrpc") == PROTOCOL_VERSION
abbrev pub is_version : Value → Bool
is_version (text s) = s =ₛ protocol_version
is_version _ = false

-- str(value): a text is itself, and Python prints any other value.
abbrev pub str_of : (Value → String) → Value → String
str_of print (text s) = s
str_of print v = print v

module _ (print : Value → String) where
  -- error_data.get("code", INTERNAL_ERROR): a null that is there is kept.
  abbrev code_or_internal : Option Value → Value
  code_or_internal none = code_value internal_error
  code_or_internal (some c) = c

  abbrev text_or_empty : Option Value → String
  text_or_empty none = ""
  text_or_empty (some m) = str_of print m

  unfoldable pub error_from_dict : Value → JsonRpcError
  error_from_dict (object fs) = record {
    code = code_or_internal (Dict.lookup "code" (fields fs));
    message = text_or_empty (Dict.lookup "message" (fields fs));
    error_data = get "data" fs;
  }
  error_from_dict v = record {
    code = code_value internal_error;
    message = str_of print v;
    error_data = null;
  }

-- The error for a response that is invalid; `none` for a valid one.
unfoldable pub failure_of_response : (repr : Value → String) → Fields → Option JsonRpcError
failure_of_response repr message =
    if not (is_version (get "jsonrpc" message))
    then some (record {
      code = code_value invalid_request;
      message =
          format ("Invalid JSON-RPC version in a response: " ∷ repr (get "jsonrpc" message) ∷ []);
      error_data = null;
    })
    else if is_none (get "error" message) && not (has "result" (fields message))
    then some (record {
      code = code_value internal_error;
      message = "Invalid response format";
      error_data = null;
    })
    else none

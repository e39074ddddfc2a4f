-- ===== src/Peer/Register.antt =====
-- Registration of handlers: `_get_and_check_handler_param_type`, `register_request_handler` and
-- `register_notification_handler` of packages/jsonrpcpeer/src/jsonrpcpeer/peer.py.
pub mod Laws
use Prim.Native.Char.{code}
use robotframework_jsonrpcre.Base.{
  ℕ, String, Bool, true, false, ◌&&◌, ◌||◌, Option, none, some, [], ◌∷◌, leb, ◌==◌, if◌then◌else◌,
}
use robotframework_jsonrpcre.Base.Codes.{is_space}
use robotframework_jsonrpcre.Base.Dict.{has, put}
use robotframework_jsonrpcre.Base.Result.{Result, ok, err, ◌>>=◌}
use robotframework_jsonrpcre.Peer.State.{Callable, HandlerEntry, Peer, Runtime}

-- ValueError and JsonRpcMethodAlreadyRegisteredError.
pub data RegistrationError : Type 0 where
  blank_name already_registered first_not_peer wrong_arity : RegistrationError

all_space : String → Bool
all_space String.[] = true
all_space (String.◌∷◌ c s) = is_space (code c) && all_space s

-- not method_name or method_name.isspace()
unfoldable pub is_blank : String → Bool
unfolding all_space is_space
is_blank s = all_space s

module _ {P : Type 0} (env : Runtime P) where
  abbrev hint_or_any : Option P → P
  hint_or_any none = env.any_type
  hint_or_any (some t) = t

  abbrev is_peer_hint : Option P → Bool
  is_peer_hint none = false
  is_peer_hint (some t) = env.is_peer_type t

module _ {S P : Type 0} (env : Runtime P) where
  -- The type of the params, and whether the peer is passed.
  unfoldable pub handler_param_type : Callable S P → Result RegistrationError (P × Bool)
  handler_param_type handler = elim handler.hints [
    | [] ↦ err wrong_arity
    | one ∷ [] ↦ ok (hint_or_any env one, false)
    | first ∷ second ∷ [] ↦
        if is_peer_hint env first then ok (hint_or_any env second, true) else err first_not_peer
    | first ∷ second ∷ third ∷ more ↦ err wrong_arity
  ]

  abbrev pub entry : Callable S P → P × Bool → HandlerEntry S P
  entry handler (param_type, pass_peer) = record {
    handler = handler;
    param_type = param_type;
    pass_peer = pass_peer;
  }

  unfoldable pub register_request_handler :
      String → Callable S P → Peer S P → Result RegistrationError (Peer S P)
  register_request_handler name handler p =
      if is_blank name
      then err blank_name
      else if has name p.request_handlers
      then err already_registered
      else do
        checked ← handler_param_type handler
        ok (record p { request_handlers = put name (entry handler checked) p.request_handlers })

  unfoldable pub register_notification_handler :
      String → Callable S P → Peer S P → Result RegistrationError (Peer S P)
  register_notification_handler name handler p =
      if is_blank name
      then err blank_name
      else if has name p.notification_handlers
      then err already_registered
      else do
        checked ← handler_param_type handler
        ok (record p {
          notification_handlers = put name (entry handler checked) p.notification_handlers;
        })

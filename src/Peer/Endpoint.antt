-- ===== src/Peer/Endpoint.antt =====
-- Interfaces of RPC methods: `attach_endpoint`, `remote`, `_rpc_members`, `_remote_method` and
-- `_remote_class` of packages/jsonrpcpeer/src/jsonrpcpeer/peer.py. A class is a name `C` for it, and
-- what Python tells of classes stands in `Classes`.
pub mod Members
pub mod Attached
pub mod Remote
pub mod Objects
use robotframework_jsonrpcre.Base.{
  ℕ, String, Bool, true, false, not, ◌&&◌, ◌||◌, Option, none, some, List, [], ◌∷◌, ◌++◌, ◌+◌,
  is_some, if◌then◌else◌,
}
use robotframework_jsonrpcre.Base.Dict.{Dict, has, put}
use robotframework_jsonrpcre.Base.Result.{Result, ok, err, ◌>>=◌}
use robotframework_jsonrpcre.Value.{Value}
use robotframework_jsonrpcre.Peer.State.{Callable, Peer, Runtime}
use robotframework_jsonrpcre.Peer.Register.{
  RegistrationError, register_request_handler, register_notification_handler,
}
use robotframework_jsonrpcre.Peer.Requests.{Call, begin_request, send_notification}

-- What `rpc_request` and `rpc_notification` set on a function.
pub record Marks : Type 0 where
  pub request_method : Option String
  pub notification_method : Option String

-- A member of a class: a function, what holds one in `__func__` (a staticmethod or a classmethod),
-- or anything else.
pub data Member : Type 0 where
  function : Marks → Member
  holder : Marks → Member
  other : Member

-- inspect.signature(method), whether it is a coroutine function, and the hint of its result.
pub record Signature (P : Type 0) : Type 0 where
  pub parameters : List String
  pub is_coroutine : Bool
  pub result_type : Option P

-- dir(c), c.__mro__, vars(c).get(name), issubclass(c, d), `c is d`, and the signature of
-- getattr(c, name).
pub record Classes (C P : Type 0) : Type 0 where
  pub dir : C → List String
  pub mro : C → List C
  pub own : C → String → Option Member
  pub issubclass : C → C → Bool
  pub is_same : C → C → Bool
  pub signature : C → String → Signature P
  -- isinstance(c, type) and issubclass(c, JsonRpcEndpoint)
  pub is_endpoint : C → Bool

-- An endpoint: its class, and what getattr(endpoint, name) is.
pub record Endpoint (C S P : Type 0) : Type 0 where
  pub class : C
  pub attribute : String → Callable S P

-- getattr(member, "__func__", member), then the two marks.
unfoldable pub marks_of : Option Member → Marks
marks_of (some (function m)) = m
marks_of (some (holder m)) = m
marks_of _ = record { request_method = none; notification_method = none }

abbrev pub has_marks : Marks → Bool
has_marks m = is_some m.request_method || is_some m.notification_method

module _ {C P : Type 0} (classes : Classes C P) where
  -- any(issubclass(nearer, cls) for nearer in marked)
  abbrev pub is_overridden : List C → C → Bool
  is_overridden [] cls = false
  is_overridden (nearer ∷ marked) cls = classes.issubclass nearer cls || is_overridden marked cls

  -- A member of a class that counts: it has a mark, and no nearer class that has one overrides it.
  abbrev pub counts : String → List C → C → Bool
  counts name marked cls =
      has_marks (marks_of (classes.own cls name)) && not (is_overridden marked cls)

  -- The loop over the classes of the MRO, for one attribute.
  unfoldable pub members_named : String → List C → List C → List (String × Marks)
  members_named name marked [] = []
  members_named name marked (cls ∷ rest) =
      let after =
        members_named name (if counts name marked cls then marked ++ cls ∷ [] else marked) rest in
      if counts name marked cls then (name, marks_of (classes.own cls name)) ∷ after else after

  abbrev pub members_in : List String → List C → List (String × Marks)
  members_in [] mro = []
  members_in (name ∷ names) mro = members_named name [] mro ++ members_in names mro

  -- `_rpc_members`
  unfoldable pub rpc_members : C → List (String × Marks)
  rpc_members owner = members_in (classes.dir owner) (classes.mro owner)

module _ {C S P : Type 0} (env : Runtime P) (endpoint : Endpoint C S P) where
  -- The registration of one handler, and of the other. An error leaves the peer as it was.
  abbrev pub register_if_request :
      String → Option String → Peer S P → Result RegistrationError (Peer S P)
  register_if_request name none p = ok p
  register_if_request name (some method) p =
      register_request_handler env method (endpoint.attribute name) p

  abbrev pub register_if_notification :
      String → Option String → Peer S P → Result RegistrationError (Peer S P)
  register_if_notification name none p = ok p
  register_if_notification name (some method) p =
      register_notification_handler env method (endpoint.attribute name) p

  abbrev pub after_registration :
      Peer S P
      → (Peer S P → Option RegistrationError × Peer S P)
      → Result RegistrationError (Peer S P)
      → Option RegistrationError × Peer S P
  after_registration p rest (ok q) = rest q
  after_registration p rest (err x) = (some x, p)

  -- The loop of `attach_endpoint`: the error that ends it, and the peer.
  unfoldable pub attach_all : List (String × Marks) → Peer S P → Option RegistrationError × Peer S P
  attach_all [] p = (none, p)
  attach_all ((name, marks) ∷ members) p =
      after_registration p
        (λ q.
          after_registration q (attach_all members)
            (register_if_notification name marks.notification_method q))
        (register_if_request name marks.request_method p)

module _ {C S P : Type 0} (env : Runtime P) (classes : Classes C P)
    (endpoint : Endpoint C S P) where
  -- `attach_endpoint`, on an endpoint whose `rpc_peer` is then this peer.
  unfoldable pub attach_endpoint : Peer S P → Option RegistrationError × Peer S P
  attach_endpoint p = attach_all env endpoint (rpc_members classes endpoint.class) p

-- The TypeErrors of `_remote_method` and `remote`.
pub data RemoteError : Type 0 where
  wrong_parameters not_async not_endpoint : RemoteError

-- A marked method of the object from `remote`: what it closes over.
pub record RemoteMethod (P : Type 0) : Type 0 where
  pub marks : Marks
  pub result_type : Option P
  pub parameter : String

-- A member of the class from `_remote_class`: its `__module__`, or a method that sends.
pub data RemoteMember (P : Type 0) : Type 0 where
  module_name : RemoteMember P
  sends : RemoteMethod P → RemoteMember P

module _ {C P : Type 0} (classes : Classes C P) where
  -- Which parameter carries the params: the one after self.
  abbrev checked_method : Marks → Signature P → List String → Result RemoteError (RemoteMethod P)
  checked_method marks signature (self ∷ parameter ∷ []) =
      if not signature.is_coroutine
      then err not_async
      else ok (record { marks = marks; result_type = signature.result_type; parameter = parameter })
  checked_method marks signature _ = err wrong_parameters

  unfoldable pub remote_method : C → String → Marks → Result RemoteError (RemoteMethod P)
  remote_method definition name marks =
      let signature = classes.signature definition name in
      checked_method marks signature signature.parameters

  -- The loop of `_remote_class`: the nearest mark of a name is the first.
  unfoldable pub remote_members :
      C → Dict (RemoteMember P) → List (String × Marks) → Result RemoteError (Dict (RemoteMember P))
  remote_members definition members [] = ok members
  remote_members definition members ((name, marks) ∷ rest) =
      if has name members
      then remote_members definition members rest
      else (remote_method definition name marks >>= λ method.
          remote_members definition (put name (sends method) members) rest)

  unfoldable pub remote_class : C → Result RemoteError (Dict (RemoteMember P))
  unfolding remote_members
  remote_class definition =
      remote_members definition (("__module__", module_name) ∷ []) (rpc_members classes definition)

-- `send` of `_remote_method`, once the params are bound: the call starts as a request or is a
-- notification.
unfoldable pub send :
    {S P : Type 0} → Runtime P → RemoteMethod P → Value → Peer S P → Option (Call × Peer S P)
send env method params p = elim method.marks.request_method [
  | some name ↦ some (begin_request env name params p)
  | none ↦ elim method.marks.notification_method [
    | some name ↦ some (send_notification env name params p)
    | none ↦ none
  ]
]

-- The objects that `remote` has built for a peer, by definition, and the number of the next one.
pub record Remotes (C : Type 0) : Type 0 where
  pub built : List (C × ℕ)
  pub next : ℕ

module _ {C P : Type 0} (classes : Classes C P) where
  -- self._remotes.get(definition)
  unfoldable pub known : C → List (C × ℕ) → Option ℕ
  known definition [] = none
  known definition ((c, object) ∷ built) =
      if classes.is_same c definition then some object else known definition built

  abbrev build :
      C → Remotes C → Result RemoteError (Dict (RemoteMember P)) → Result RemoteError ℕ × Remotes C
  build definition r (err x) = (err x, r)
  build definition r (ok members) =
      (ok r.next, record { built = (definition, r.next) ∷ r.built; next = r.next + 1 })

  abbrev remote_of : C → Remotes C → Option ℕ → Result RemoteError ℕ × Remotes C
  remote_of definition r (some object) = (ok object, r)
  remote_of definition r none = build definition r (remote_class classes definition)

  -- `JsonRpcPeer.remote`: the object for a definition.
  unfoldable pub remote : C → Remotes C → Result RemoteError ℕ × Remotes C
  remote definition r =
      if classes.is_endpoint definition
      then remote_of definition r (known definition r.built)
      else (err not_endpoint, r)

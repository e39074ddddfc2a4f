-- ===== src/Peer/Register/Laws.antt =====
-- What a registration changes.
use robotframework_jsonrpcre.Base.{
  String, Bool, false, none, some, ◌≡◌, inl, inr, arith, eq_refl, ◌=ₛ◌, if◌then◌else◌,
}
use robotframework_jsonrpcre.Base.Dict.{lookup, lookup-put}
use robotframework_jsonrpcre.Base.Result.{ok, err, Result-cases}
use robotframework_jsonrpcre.Peer.State.{Callable, Peer, Runtime}
use robotframework_jsonrpcre.Peer.Register.{
  is_blank, handler_param_type, entry, register_request_handler, register_notification_handler,
  already_registered,
}

module _ {S P : Type 0} (env : Runtime P) where
  -- A registration that succeeds was of a new name that is not blank: it adds the entry under that
  -- name, and every other name keeps the handler that it had, in both tables.
  pub register_request_handler_adds :
      (name other : String) (handler : Callable S P) (p q : Peer S P)
      → register_request_handler env name handler p ≡ ok q
      → (checked : P × Bool) × (handler_param_type env handler ≡ ok checked)
        × (is_blank name ≡ false)
        × (lookup name p.request_handlers ≡ none)
        × (lookup other q.request_handlers ≡ (
            if name =ₛ other
            then some (entry env handler checked)
            else lookup other p.request_handlers))
        × (q.notification_handlers ≡ p.notification_handlers)
  unfolding register_request_handler
  register_request_handler_adds name other handler p q h =
      elim (Result-cases (handler_param_type env handler)) [
        | inl (checked, e) ↦ (
          checked,
          e,
          ground arith,
          ground arith,
          ground (arith, lookup-put name other (entry env handler checked) p.request_handlers),
          ground arith,
        )
        | inr (x, e) ↦ absurd (ground arith)
      ]

  -- Registering a second handler under a name is refused, whatever the handler.
  pub register_request_handler_twice :
      (name : String) (first second : Callable S P) (p q : Peer S P)
      → register_request_handler env name first p ≡ ok q
      → register_request_handler env name second q ≡ err already_registered
  unfolding register_request_handler
  register_request_handler_twice name first second p q h =
      let (checked, _, fresh, _, found, _) = register_request_handler_adds name name first p q h in
      rw (fresh, found, eq_refl name)

  -- So does a registration for notifications.
  pub register_notification_handler_adds :
      (name other : String) (handler : Callable S P) (p q : Peer S P)
      → register_notification_handler env name handler p ≡ ok q
      → (checked : P × Bool) × (handler_param_type env handler ≡ ok checked)
        × (lookup name p.notification_handlers ≡ none)
        × (lookup other q.notification_handlers ≡ (
            if name =ₛ other
            then some (entry env handler checked)
            else lookup other p.notification_handlers))
        × (q.request_handlers ≡ p.request_handlers)
  unfolding register_notification_handler
  register_notification_handler_adds name other handler p q h =
      elim (Result-cases (handler_param_type env handler)) [
        | inl (checked, e) ↦ (
          checked,
          e,
          ground arith,
          ground (arith, lookup-put name other (entry env handler checked) p.notification_handlers),
          ground arith,
        )
        | inr (x, e) ↦ absurd (ground arith)
      ]

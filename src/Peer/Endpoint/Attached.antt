-- ===== src/Peer/Endpoint/Attached.antt =====
-- What `attach_endpoint` registers.
use mathlib.Core.List.{Memᴰ}
use robotframework_jsonrpcre.Base.{
  String, Bool, Option, none, some, List, [], ◌∷◌, ◌≡◌, inl, inr, refl, arith, sym, subst, ◌∙◌,
  ◌=ₛ◌, eq_refl, eq_iff, Bool-cases, if◌then◌else◌,
}
use robotframework_jsonrpcre.Base.Dict.{Dict, lookup}
use robotframework_jsonrpcre.Base.Result.{ok, Result-cases}
use robotframework_jsonrpcre.Peer.State.{HandlerEntry, Peer, Runtime}
use robotframework_jsonrpcre.Peer.Register.{handler_param_type, entry}
use robotframework_jsonrpcre.Peer.Register.Laws.{
  register_request_handler_adds, register_notification_handler_adds,
}
use robotframework_jsonrpcre.Peer.Endpoint.{
  Marks, Endpoint, register_if_request, register_if_notification, attach_all,
}

module _ {C S P : Type 0} (env : Runtime P) (endpoint : Endpoint C S P) where
  -- The handler of a method is the endpoint's attribute.
  abbrev pub Serves : Option String → String → Dict (HandlerEntry S P) → Type 0
  Serves none name handlers = Unit
  Serves (some method) name handlers =
      (checked : P × Bool) × (handler_param_type env (endpoint.attribute name) ≡ ok checked)
      × (lookup method handlers ≡ some (entry env (endpoint.attribute name) checked))

  -- What `q` has beside the handlers of `p`.
  pub record Keeps (p q : Peer S P) : Type 0 where
    pub requests :
        (method : String) (e : HandlerEntry S P)
        → lookup method p.request_handlers ≡ some e
        → lookup method q.request_handlers ≡ some e
    pub notifications :
        (method : String) (e : HandlerEntry S P)
        → lookup method p.notification_handlers ≡ some e
        → lookup method q.notification_handlers ≡ some e

  Keeps-refl : (p : Peer S P) → Keeps p p
  Keeps-refl p = record { requests = λ m e h. h; notifications = λ m e h. h }

  Keeps-trans : (p q r : Peer S P) → Keeps p q → Keeps q r → Keeps p r
  Keeps-trans p q r f g = record {
    requests = λ m e h. g.requests m e (f.requests m e h);
    notifications = λ m e h. g.notifications m e (f.notifications m e h);
  }

  Serves-Keeps_requests :
      (method : Option String) (name : String) (p q : Peer S P)
      → Keeps p q
      → Serves method name p.request_handlers
      → Serves method name q.request_handlers
  Serves-Keeps_requests none name p q k s = tt
  Serves-Keeps_requests (some m) name p q k (c, e, found) = (c, e, k.requests m _ found)

  Serves-Keeps_notifications :
      (method : Option String) (name : String) (p q : Peer S P)
      → Keeps p q
      → Serves method name p.notification_handlers
      → Serves method name q.notification_handlers
  Serves-Keeps_notifications none name p q k s = tt
  Serves-Keeps_notifications (some m) name p q k (c, e, found) = (c, e, k.notifications m _ found)

  keeps_found :
      (method m : String) (x e : HandlerEntry S P) (before after : Dict (HandlerEntry S P))
      → lookup method before ≡ none
      → lookup m after ≡ (if method =ₛ m then some e else lookup m before)
      → lookup m before ≡ some x
      → lookup m after ≡ some x
  keeps_found method m x e before after fresh adds there = elim (Bool-cases (method =ₛ m)) [
    | inl same ↦
        let path : method ≡ m = ground (arith, eq_iff method m) in
        absurd (let clash = subst (λ k. lookup k before ≡ none) path fresh in cc)
    | inr differs ↦ adds ∙ rw differs there
  ]

  register_if_request-Serves :
      (name : String) (method : Option String) (p q : Peer S P)
      → register_if_request env endpoint name method p ≡ ok q
      → Keeps p q × Serves method name q.request_handlers
  register_if_request-Serves name none p q h = (subst (Keeps p) (cc) (Keeps-refl p), tt)
  register_if_request-Serves name (some method) p q h =
      let attribute = endpoint.attribute name in
      let adds =
        λ (other : String). register_request_handler_adds env method other attribute p q h in
      let (checked, e, _, fresh, found, same) = adds method in
      (
        record {
          requests = λ m x there.
              keeps_found method m x (entry env attribute (adds m).0) p.request_handlers
                q.request_handlers fresh (adds m).4 there;
          notifications = λ m x there. rw same there;
        },
        (checked, e, found ∙ rw (eq_refl method) refl),
      )

  register_if_notification-Serves :
      (name : String) (method : Option String) (p q : Peer S P)
      → register_if_notification env endpoint name method p ≡ ok q
      → Keeps p q × Serves method name q.notification_handlers
  register_if_notification-Serves name none p q h = (subst (Keeps p) (cc) (Keeps-refl p), tt)
  register_if_notification-Serves name (some method) p q h =
      let attribute = endpoint.attribute name in
      let adds =
        λ (other : String). register_notification_handler_adds env method other attribute p q h in
      let (checked, e, fresh, found, same) = adds method in
      (
        record {
          requests = λ m x there. rw same there;
          notifications = λ m x there.
              keeps_found method m x (entry env attribute (adds m).0) p.notification_handlers
                q.notification_handlers fresh (adds m).3 there;
        },
        (checked, e, found ∙ rw (eq_refl method) refl),
      )

  -- Both handlers of a member.
  abbrev pub ServesBoth : Marks → String → Peer S P → Type 0
  ServesBoth marks name q =
      Serves marks.request_method name q.request_handlers
      × Serves marks.notification_method name q.notification_handlers

  -- One round of the loop that registers what the member has marks for.
  one_member :
      (name : String) (marks : Marks) (members : List (String × Marks)) (p q : Peer S P)
      → attach_all env endpoint ((name, marks) ∷ members) p ≡ (none, q)
      → (r : Peer S P) × Keeps p r
        × ServesBoth marks name r
        × (attach_all env endpoint members r ≡ (none, q))
  unfolding attach_all
  one_member name marks members p q h =
      elim (Result-cases (register_if_request env endpoint name marks.request_method p)) [
        | inr (x, e) ↦ absurd (let i = rw e at h in cc)
        | inl (a, e) ↦
            elim (Result-cases
              (register_if_notification env endpoint name marks.notification_method a)) [
                | inr (x, f) ↦ absurd (let i = rw f at (rw e at h) in cc)
                | inl (b, f) ↦
                    let (k, s) = register_if_request-Serves name marks.request_method p a e in
                    let (l, t) =
                      register_if_notification-Serves name marks.notification_method a b f in
                    (
                      b,
                      Keeps-trans p a b k l,
                      (Serves-Keeps_requests marks.request_method name a b l s, t),
                      rw f at (rw e at h),
                    )
              ]
      ]

  attach_all-Keeps :
      (members : List (String × Marks)) (p q : Peer S P)
      → attach_all env endpoint members p ≡ (none, q)
      → Keeps p q
  unfolding attach_all
  attach_all-Keeps [] p q h = subst (Keeps p) (cc) (Keeps-refl p)
  attach_all-Keeps ((name, marks) ∷ members) p q h =
      let (r, k, _, rest) = one_member name marks members p q h in
      Keeps-trans p r q k (attach_all-Keeps members r q rest)

  pub attach_all-Serves :
      (name : String) (marks : Marks) (members : List (String × Marks)) (p q : Peer S P)
      → attach_all env endpoint members p ≡ (none, q)
      → Memᴰ (name, marks) members
      → ServesBoth marks name q
  attach_all-Serves name marks [] p q h k = elim k [ ]
  attach_all-Serves name marks ((n, m) ∷ members) p q h (Memᴰ.head e) =
      let (r, _, (s, t), rest) = one_member n m members p q h in
      let kept = attach_all-Keeps members r q rest in
      subst (λ (pair : String × Marks). ServesBoth pair.1 pair.0 q) (sym e)
        (
          Serves-Keeps_requests m.request_method n r q kept s,
          Serves-Keeps_notifications m.notification_method n r q kept t,
        )
  attach_all-Serves name marks ((n, m) ∷ members) p q h (Memᴰ.tail k) =
      let (r, _, _, rest) = one_member n m members p q h in
      attach_all-Serves name marks members r q rest k

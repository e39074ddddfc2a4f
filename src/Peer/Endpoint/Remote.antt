-- ===== src/Peer/Endpoint/Remote.antt =====
-- What the remote object of a definition sends, and the endpoint that was attached to answer it.
use mathlib.Core.List.{Memᴰ}
use robotframework_jsonrpcre.Base.{
  String, true, false, none, some, List, [], ◌∷◌, ◌≡◌, ◌⊎◌, inl, inr, refl, arith, sym, subst, ◌∙◌,
  ◌=ₛ◌, eq_iff, Bool-cases,
}
use robotframework_jsonrpcre.Base.Dict.{Dict, lookup, has, put, lookup-put}
use robotframework_jsonrpcre.Base.Result.{ok, >>=-succeeds}
use robotframework_jsonrpcre.Peer.State.{Peer, Runtime}
use robotframework_jsonrpcre.Peer.Endpoint.{
  Marks, marks_of, has_marks, Classes, Endpoint, rpc_members, attach_endpoint, RemoteMember,
  RemoteMethod, sends, module_name, remote_method, remote_members, remote_class,
}
use robotframework_jsonrpcre.Peer.Endpoint.Members.{
  NoneNearer, first_marked, rpc_members-Mem, lookup-members_in,
}
use robotframework_jsonrpcre.Peer.Endpoint.Attached.{ServesBoth, attach_all-Serves}

module _ {C P : Type 0} (classes : Classes C P) where
  first_marked-has_marks :
      (name : String) (c : C) (mro : List C)
      → first_marked classes name mro ≡ some c
      → has_marks (marks_of (classes.own c name)) ≡ true
  unfolding first_marked
  first_marked-has_marks name c [] h = absurd (cc)
  first_marked-has_marks name c (cls ∷ rest) h =
      elim (Bool-cases (has_marks (marks_of (classes.own cls name)))) [
        | inl e ↦
            subst (λ x. has_marks (marks_of (classes.own x name)) ≡ true)
              (let i : some cls ≡ some c = rw e at h in cc) e
        | inr e ↦ first_marked-has_marks name c rest (rw e at h)
      ]

  remote_method-marks :
      (definition : C) (name : String) (marks : Marks) (method : RemoteMethod P)
      → remote_method classes definition name marks ≡ ok method
      → method.marks ≡ marks
  unfolding remote_method
  remote_method-marks definition name marks method h = ground arith

  -- One round of the loop of `_remote_class`.
  one_remote :
      (definition : C) (n : String) (marks : Marks) (list : List (String × Marks))
      (members out : Dict (RemoteMember P))
      → remote_members classes definition members ((n, marks) ∷ list) ≡ ok out
      → ((has n members ≡ true) × (remote_members classes definition members list ≡ ok out))
        ⊎ ((has n members ≡ false)
            × ((method : RemoteMethod P) × (method.marks ≡ marks)
                × (remote_members classes definition (put n (sends method) members) list ≡ ok out)))
  unfolding remote_members
  one_remote definition n marks list members out h = elim (Bool-cases (has n members)) [
    | inl e ↦ inl (e, rw e at h)
    | inr e ↦
        let (method, made, rest) =
          >>=-succeeds
            (λ method. remote_members classes definition (put n (sends method) members) list)
            (remote_method classes definition n marks) out (rw e at h) in
        inr (e, (method, remote_method-marks definition n marks method made, rest))
  ]

  remote_members-keeps :
      (definition : C) (name : String) (m : RemoteMember P) (list : List (String × Marks))
      (members out : Dict (RemoteMember P))
      → remote_members classes definition members list ≡ ok out
      → lookup name members ≡ some m
      → lookup name out ≡ some m
  unfolding remote_members
  remote_members-keeps definition name m [] members out h k =
      subst (λ d. lookup name d ≡ some m) (cc) k
  remote_members-keeps definition name m ((n, marks) ∷ list) members out h k =
      elim (one_remote definition n marks list members out h) [
        | inl (e, rest) ↦ remote_members-keeps definition name m list members out rest k
        | inr (e, (method, _, rest)) ↦
            remote_members-keeps definition name m list (put n (sends method) members) out rest
              (lookup-put n name (sends method) members ∙ ground (arith, eq_iff n name))
      ]

  -- A method of the remote class was made from the first member of its name.
  remote_members-sends :
      (definition : C) (name : String) (m : RemoteMethod P) (list : List (String × Marks))
      (members out : Dict (RemoteMember P))
      → remote_members classes definition members list ≡ ok out
      → lookup name members ≡ none
      → lookup name out ≡ some (sends m)
      → lookup name list ≡ some m.marks
  unfolding remote_members lookup
  remote_members-sends definition name m [] members out h k found =
      absurd (let i : members ≡ out = cc in cc)
  remote_members-sends definition name m ((n, marks) ∷ list) members out h k found =
      elim (one_remote definition n marks list members out h) [
        | inl (e, rest) ↦
            let later = remote_members-sends definition name m list members out rest k found in
            ground (arith, eq_iff n name)
        | inr (e, (method, same, rest)) ↦ elim (Bool-cases (n =ₛ name)) [
          | inl is ↦
              let put_here =
                remote_members-keeps definition name (sends method) list
                  (put n (sends method) members) out rest
                  (lookup-put n name (sends method) members ∙ rw is refl) in
              let same_method : sends method ≡ sends m = ground arith in rw is (ground arith)
          | inr differs ↦ rw differs (
              remote_members-sends definition name m list (put n (sends method) members) out rest
                (lookup-put n name (sends method) members ∙ rw differs k) found)
        ]
      ]

module _ {C P : Type 0} (classes : Classes C P) where
  not-module_name :
      (definition : C) (name : String) (m : RemoteMethod P) (members : Dict (RemoteMember P))
      → remote_class classes definition ≡ ok members
      → lookup name members ≡ some (sends m)
      → lookup {V = RemoteMember P} name (("__module__", module_name) ∷ []) ≡ none
  unfolding remote_class lookup
  not-module_name definition name m members h k = elim (Bool-cases ("__module__" =ₛ name)) [
    | inr differs ↦ rw differs refl
    | inl is ↦ absurd (
        let kept =
          remote_members-keeps classes definition name module_name (rpc_members classes definition)
            (("__module__", module_name) ∷ []) members h (rw is refl) in
        let i : some module_name ≡ some (sends m) = cc in cc)
  ]

module _ {C P T Q : Type 0} (env : Runtime Q) (classes : Classes C P) (there : Classes C Q) where
  -- The object that one peer has for a definition, and an endpoint that was attached to the other peer
  -- without an error. `c` is the nearest class of the definition that marks `name`; it is a class of
  -- the endpoint, where `dir` lists the name and no other subclass of `c` marks it, and both peers see the same
  -- member there. Then the methods that the object's `name` sends, a request, a notification or both,
  -- have the endpoint's attribute `name` as their handler on the other peer.
  pub attach_endpoint-Serves :
      (endpoint : Endpoint C T Q) (definition c : C) (name : String) (m : RemoteMethod P)
      (members : Dict (RemoteMember P)) (p q : Peer T Q)
      → remote_class classes definition ≡ ok members
      → lookup name members ≡ some (sends m)
      → attach_endpoint env there endpoint p ≡ (none, q)
      → first_marked classes name (classes.mro definition) ≡ some c
      → there.own c name ≡ classes.own c name
      → there.issubclass c c ≡ true
      → NoneNearer there name c (there.mro endpoint.class)
      → Memᴰ c (there.mro endpoint.class)
      → Memᴰ name (there.dir endpoint.class)
      → ServesBoth env endpoint m.marks name q
  unfolding remote_class rpc_members attach_endpoint
  attach_endpoint-Serves endpoint definition c name m members p q h k attached f own r near at_c
        in_dir =
      let first =
        remote_members-sends classes definition name m (rpc_members classes definition)
          (("__module__", module_name) ∷ []) members h
          (not-module_name classes definition name m members h k) k in
      let same : m.marks ≡ marks_of (classes.own c name) =
        lookup-members_in classes name c m.marks (classes.mro definition) (classes.dir definition) f
          first in
      let marked = first_marked-has_marks classes name c (classes.mro definition) f in
      rw same (
        rw (sym own) (
          attach_all-Serves env endpoint name (marks_of (there.own c name))
            (rpc_members there endpoint.class) p q attached
            (rpc_members-Mem there name c endpoint.class (rw own marked) r near at_c in_dir)))

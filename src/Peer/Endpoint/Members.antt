-- ===== src/Peer/Endpoint/Members.antt =====
-- Which marked methods of a class count, and what an attached endpoint answers for them.
use mathlib.Core.List.{Memᴰ}
use mathlib.Core.List.Memᴰ
use robotframework_jsonrpcre.Base.{
  String, Bool, true, false, ◌||◌, List, [], ◌∷◌, ◌++◌, ◌≡◌, inl, inr, refl, arith, sym, subst, ap,
  ◌∙◌, ◌=ₛ◌, eq_refl, eq_iff, Option, none, some, Bool-cases, if◌then◌else◌,
}
use robotframework_jsonrpcre.Base.Dict.{lookup}
use robotframework_jsonrpcre.Peer.Endpoint.{
  Marks, marks_of, has_marks, Classes, is_overridden, counts, members_named, members_in,
  rpc_members,
}

module _ {C P : Type 0} (classes : Classes C P) where
  is_overridden-append :
      (marked : List C) (cls c : C)
      → is_overridden classes (marked ++ cls ∷ []) c
        ≡ (is_overridden classes marked c || classes.issubclass cls c)
  is_overridden-append [] cls c = ground arith
  is_overridden-append (m ∷ marked) cls c = ground (arith, is_overridden-append marked cls c)

  -- No class of the list that marks the name is a subclass of `c`, but `c` itself.
  abbrev pub NoneNearer : String → C → List C → Type 0
  NoneNearer name c mro =
      (x : C)
      → Memᴰ x mro
      → has_marks (marks_of (classes.own x name)) ≡ true
      → classes.issubclass x c ≡ true
      → x ≡ c

  in_rest :
      (c cls : C) (rest : List C) (b : C → Bool)
      → Memᴰ c (cls ∷ rest)
      → b cls ≡ false
      → b c ≡ true
      → Memᴰ c rest
  in_rest c cls rest b (Memᴰ.head e) no_cls yes_c = absurd (cc)
  in_rest c cls rest b (Memᴰ.tail h) no_cls yes_c = h

  -- A mark that no nearer class overrides counts.
  members_named-Mem :
      (name : String) (c : C) (mro marked : List C)
      → has_marks (marks_of (classes.own c name)) ≡ true
      → classes.issubclass c c ≡ true
      → NoneNearer name c mro
      → is_overridden classes marked c ≡ false
      → Memᴰ c mro
      → Memᴰ (name, marks_of (classes.own c name)) (members_named classes name marked mro)
  unfolding members_named
  members_named-Mem name c [] marked m r near fresh h = elim h [ ]
  members_named-Mem name c (cls ∷ rest) marked m r near fresh h =
      let later : NoneNearer name c rest = λ x k. near x (Memᴰ.tail k) in
      elim (Bool-cases (counts classes name marked cls)) [
        | inl e ↦ elim (Bool-cases (classes.issubclass cls c)) [
          | inl s ↦
              let same : cls ≡ c = near cls (Memᴰ.head refl) (ground arith) s in
              rw e (Memᴰ.head (rw same refl))
          | inr s ↦ rw e (
              Memᴰ.tail (
                members_named-Mem name c rest (marked ++ cls ∷ []) m r later
                  (ground (arith, is_overridden-append marked cls c))
                  (in_rest c cls rest (λ x. classes.issubclass x c) h s r)))
        ]
        | inr e ↦ rw e (
            members_named-Mem name c rest marked m r later fresh
              (in_rest c cls rest (counts classes name marked) h e (ground arith)))
      ]

  members_in-Mem :
      (name : String) (entry : String × Marks) (mro : List C) (names : List String)
      → Memᴰ entry (members_named classes name [] mro)
      → Memᴰ name names
      → Memᴰ entry (members_in classes names mro)
  members_in-Mem name entry mro [] h k = elim k [ ]
  members_in-Mem name entry mro (n ∷ names) h (Memᴰ.head e) =
      Memᴰ.append_left (members_in classes names mro)
        (subst (λ (k : String). Memᴰ entry (members_named classes k [] mro)) e h)
  members_in-Mem name entry mro (n ∷ names) h (Memᴰ.tail k) =
      Memᴰ.append_right (members_named classes n [] mro) (members_in-Mem name entry mro names h k)

  -- A marked method of a class of the MRO is a member, unless a nearer subclass of that class marks the
  -- name again.
  pub rpc_members-Mem :
      (name : String) (c owner : C)
      → has_marks (marks_of (classes.own c name)) ≡ true
      → classes.issubclass c c ≡ true
      → NoneNearer name c (classes.mro owner)
      → Memᴰ c (classes.mro owner)
      → Memᴰ name (classes.dir owner)
      → Memᴰ (name, marks_of (classes.own c name)) (rpc_members classes owner)
  unfolding rpc_members
  rpc_members-Mem name c owner m r near h k =
      members_in-Mem name (name, marks_of (classes.own c name)) (classes.mro owner)
        (classes.dir owner) (members_named-Mem name c (classes.mro owner) [] m r near refl h) k

  -- The nearest class that marks the name.
  unfoldable pub first_marked : String → List C → Option C
  first_marked name [] = none
  first_marked name (cls ∷ rest) =
      if has_marks (marks_of (classes.own cls name)) then some cls else first_marked name rest

  lookup-members_named :
      (name : String) (c : C) (mro : List C)
      → first_marked name mro ≡ some c
      → lookup name (members_named classes name [] mro) ≡ some (marks_of (classes.own c name))
  unfolding first_marked members_named lookup
  lookup-members_named name c [] h = absurd (cc)
  lookup-members_named name c (cls ∷ rest) h =
      elim (Bool-cases (has_marks (marks_of (classes.own cls name)))) [
        | inl e ↦
            let same : cls ≡ c = ground arith in
            rw (e, eq_refl name) (ap (λ x. some (marks_of (classes.own x name))) same)
        | inr e ↦ rw e (lookup-members_named name c rest (ground arith))
      ]

  lookup-members_named_other :
      (name n : String) (mro marked : List C)
      → (n =ₛ name) ≡ false
      → lookup name (members_named classes n marked mro) ≡ none
  unfolding members_named lookup
  lookup-members_named_other name n [] marked h = refl
  lookup-members_named_other name n (cls ∷ rest) marked h = ground (
    arith,
    lookup-members_named_other name n rest marked h,
    lookup-members_named_other name n rest (marked ++ cls ∷ []) h,
  )

  lookup-append_none :
      (name : String) (xs ys : List (String × Marks))
      → lookup name xs ≡ none
      → lookup name (xs ++ ys) ≡ lookup name ys
  unfolding lookup
  lookup-append_none name [] ys h = refl
  lookup-append_none name ((k, v) ∷ xs) ys h = ground (arith, lookup-append_none name xs ys)

  lookup-append_some :
      (name : String) (m : Marks) (xs ys : List (String × Marks))
      → lookup name xs ≡ some m
      → lookup name (xs ++ ys) ≡ some m
  unfolding lookup
  lookup-append_some name m [] ys h = absurd (cc)
  lookup-append_some name m ((k, v) ∷ xs) ys h = ground (arith, lookup-append_some name m xs ys)

  -- The first member of a name has the mark of the nearest class that marks it.
  pub lookup-members_in :
      (name : String) (c : C) (marks : Marks) (mro : List C) (names : List String)
      → first_marked name mro ≡ some c
      → lookup name (members_in classes names mro) ≡ some marks
      → marks ≡ marks_of (classes.own c name)
  unfolding lookup
  lookup-members_in name c marks mro [] f h = absurd (cc)
  lookup-members_in name c marks mro (n ∷ names) f h = elim (Bool-cases (n =ₛ name)) [
    | inl e ↦
        let same : n ≡ name = ground (arith, eq_iff n name) in
        let found =
          lookup-append_some name (marks_of (classes.own c name)) (members_named classes n [] mro)
            (members_in classes names mro) (rw same (lookup-members_named name c mro f)) in
        cc
    | inr e ↦ lookup-members_in name c marks mro names f (
        sym (
          lookup-append_none name (members_named classes n [] mro) (members_in classes names mro)
            (lookup-members_named_other name n mro [] e))
        ∙ h)
  ]

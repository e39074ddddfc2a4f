-- ===== src/Json/AsDict/Trees.antt =====
-- What `as_dict` gives holds no dataclass, enum or tuple any more.
use robotframework_jsonrpcre.Base.{
  Bool, some, List, [], ◌∷◌, String, ◌≡◌, subst, inl, inr, Bool-cases, Option-cases,
}
use robotframework_jsonrpcre.Base.Result.{Result, ok, >>=-succeeds}
use robotframework_jsonrpcre.Value.{
  Value, text, array, object, other, Items, nil, cons, Fields, end, field,
}
use robotframework_jsonrpcre.Json.Types.{
  Obj, as_is, list, tuple, dict, member, instance_of, Objs, no_objs, objs, Pairs, no_pairs, pair,
  Attributes, no_attributes, attribute, ClassField, Failure, Python,
}
use robotframework_jsonrpcre.Json.AsDict.{
  Making, lookup_pair, without_key, same_object, insert_pair, key_of, kept, name_of, value_dict,
  values_dict, members_dict, as_dict_inner, items_dict, pairs_dict, fields_dict, as_dict,
}

abbrev IsScalar : Value → Type 0
IsScalar (array xs) = ⊥
IsScalar (object fs) = ⊥
IsScalar (other n) = ⊥
IsScalar v = Unit

-- Dicts and lists of scalars: None, Booleans, numbers and texts. A key is a plain value, which a Python
-- dict can hold.
mutual
  pub data IsTree : Obj → Type 0 where
    scalar : {v : Value} → IsScalar v → IsTree (as_is v)
    of_list : {os : Objs} → AreTrees os → IsTree (list os)
    of_dict : {ps : Pairs} → HoldsTrees ps → IsTree (dict ps)

  pub data AreTrees : Objs → Type 0 where
    no_trees : AreTrees no_objs
    trees : {o : Obj} {os : Objs} → IsTree o → AreTrees os → AreTrees (objs o os)

  pub data HoldsTrees : Pairs → Type 0 where
    no_members : HoldsTrees no_pairs
    holds :
        {k : Value} {o : Obj} {ps : Pairs}
        → IsScalar k
        → IsTree o
        → HoldsTrees ps
        → HoldsTrees (pair (as_is k) o ps)

module _ (python : Python) where
  lookup_pair-IsTree :
      (k : Value) (ps : Pairs) (o : Obj)
      → HoldsTrees ps
      → lookup_pair python k ps ≡ some o
      → IsTree o
  lookup_pair-IsTree k ps o no_members h = absurd (cc)
  lookup_pair-IsTree k ps o (holds {k = j} {o = first} {ps = rest} s t ts) h =
      elim (Bool-cases (same_object python k (as_is j))) [
        | inl e ↦ subst IsTree (let i : some first ≡ some o = rw e at h in cc) t
        | inr e ↦ lookup_pair-IsTree k rest o ts (rw e at h)
      ]

  without_key-HoldsTrees :
      (k : Value) (ps : Pairs) → HoldsTrees ps → HoldsTrees (without_key python k ps)
  without_key-HoldsTrees k ps no_members = no_members
  without_key-HoldsTrees k ps (holds {k = j} {o} {ps = rest} s t ts) =
      elim (Bool-cases (same_object python k (as_is j))) [
        | inl e ↦ rw e (without_key-HoldsTrees k rest ts)
        | inr e ↦ rw e (holds s t (without_key-HoldsTrees k rest ts))
      ]

  insert_pair-HoldsTrees :
      (k : Value) (o : Obj) (ps : Pairs)
      → IsScalar k
      → IsTree o
      → HoldsTrees ps
      → HoldsTrees (insert_pair python k o ps)
  unfolding insert_pair
  insert_pair-HoldsTrees k o ps s t ts = elim (Option-cases (lookup_pair python k ps)) [
    | inl e ↦ rw e (holds s t ts)
    | inr (last, e) ↦
        rw e (holds s (lookup_pair-IsTree k ps last ts e) (without_key-HoldsTrees k ps ts))
  ]

module _ (python : Python) (making : Making) (remove_defaults encode : Bool) where
  mutual
    unfolding value_dict

    value_dict-IsTree : (v : Value) → IsTree (value_dict python making remove_defaults encode v)
    value_dict-IsTree (array xs) = of_list (values_dict-AreTrees xs)
    value_dict-IsTree (object fs) = of_dict (members_dict-HoldsTrees fs)
    value_dict-IsTree (other n) = scalar tt
    value_dict-IsTree _ = scalar tt

    values_dict-AreTrees :
        (xs : Items) → AreTrees (values_dict python making remove_defaults encode xs)
    values_dict-AreTrees nil = no_trees
    values_dict-AreTrees (cons v vs) = trees (value_dict-IsTree v) (values_dict-AreTrees vs)

    members_dict-HoldsTrees :
        (fs : Fields) → HoldsTrees (members_dict python making remove_defaults encode fs)
    members_dict-HoldsTrees end = no_members
    members_dict-HoldsTrees (field k v fs) =
        insert_pair-HoldsTrees python (text k) _ _ tt (value_dict-IsTree v)
          (members_dict-HoldsTrees fs)

  key_of-IsScalar : (o : Obj) (k : Value) → IsTree o → key_of making o ≡ ok k → IsScalar k
  key_of-IsScalar o k (scalar {v} s) h = subst IsScalar (let i : ok v ≡ ok k = h in cc) s
  key_of-IsScalar o k (of_list t) h = absurd (cc)
  key_of-IsScalar o k (of_dict t) h = absurd (cc)

  abbrev inner : Obj → Result Failure Obj
  inner = as_dict_inner python making remove_defaults encode

  mutual
    unfolding as_dict_inner items_dict pairs_dict fields_dict

    inner-IsTree : (o d : Obj) → inner o ≡ ok d → IsTree d
    inner-IsTree (as_is v) d h =
        subst IsTree
          (let i : ok (value_dict python making remove_defaults encode v) ≡ ok d = h in cc)
          (value_dict-IsTree v)
    inner-IsTree (list os) d h =
        let (made, e, i) =
          >>=-succeeds _ (items_dict python making remove_defaults encode os) d h in
        subst IsTree (cc) (of_list (items_dict-AreTrees os made e))
    inner-IsTree (tuple os) d h =
        let (made, e, i) =
          >>=-succeeds _ (items_dict python making remove_defaults encode os) d h in
        subst IsTree (cc) (of_list (items_dict-AreTrees os made e))
    inner-IsTree (dict ps) d h =
        let (made, e, i) =
          >>=-succeeds _ (pairs_dict python making remove_defaults encode ps) d h in
        subst IsTree (cc) (of_dict (pairs_dict-HoldsTrees ps made e))
    inner-IsTree (member e m) d h = subst IsTree (cc) (value_dict-IsTree (making.value_of e m))
    inner-IsTree (instance_of name self) d h =
        let (made, e, i) =
          >>=-succeeds _
            (fields_dict python making remove_defaults encode name
              (python.class_of name).class_fields self)
            d h in
        subst IsTree (cc)
          (of_dict (fields_dict-HoldsTrees name (python.class_of name).class_fields self made e))

    items_dict-AreTrees :
        (os made : Objs)
        → items_dict python making remove_defaults encode os ≡ ok made
        → AreTrees made
    items_dict-AreTrees no_objs made h = subst AreTrees (cc) no_trees
    items_dict-AreTrees (objs o os) made h =
        let (d, e, rest) = >>=-succeeds _ (inner o) made h in
        let (ds, f, i) =
          >>=-succeeds _ (items_dict python making remove_defaults encode os) made rest in
        subst AreTrees (cc) (trees (inner-IsTree o d e) (items_dict-AreTrees os ds f))

    pairs_dict-HoldsTrees :
        (ps made : Pairs)
        → pairs_dict python making remove_defaults encode ps ≡ ok made
        → HoldsTrees made
    pairs_dict-HoldsTrees no_pairs made h = subst HoldsTrees (cc) no_members
    pairs_dict-HoldsTrees (pair k o ps) made h =
        let (kd, e, h1) = >>=-succeeds _ (inner k) made h in
        let (od, f, h2) = >>=-succeeds _ (inner o) made h1 in
        let (hashed, g, h3) = >>=-succeeds _ (key_of making kd) made h2 in
        let (rest, r, i) =
          >>=-succeeds _ (pairs_dict python making remove_defaults encode ps) made h3 in
        subst HoldsTrees (cc) (
          insert_pair-HoldsTrees python hashed od rest
            (key_of-IsScalar kd hashed (inner-IsTree k kd e) g) (inner-IsTree o od f)
            (pairs_dict-HoldsTrees ps rest r))

    fields_dict-HoldsTrees :
        (name : String) (fs : List ClassField) (self : Attributes) (made : Pairs)
        → fields_dict python making remove_defaults encode name fs self ≡ ok made
        → HoldsTrees made
    fields_dict-HoldsTrees name [] self made h = subst HoldsTrees (cc) no_members
    fields_dict-HoldsTrees name (f ∷ fs) no_attributes made h = subst HoldsTrees (cc) no_members
    fields_dict-HoldsTrees name (f ∷ fs) (attribute n o self) made h =
        elim (Bool-cases (kept python making remove_defaults encode name f o)) [
          | inr e ↦ fields_dict-HoldsTrees name fs self made (rw e at h)
          | inl e ↦
              let (d, g, h1) = >>=-succeeds _ (inner o) made (rw e at h) in
              let (rest, r, i) =
                >>=-succeeds _ (fields_dict python making remove_defaults encode name fs self) made
                  h1 in
              subst HoldsTrees (cc) (
                insert_pair-HoldsTrees python
                  (text (name_of python making remove_defaults encode name f)) d rest tt
                  (inner-IsTree o d g) (fields_dict-HoldsTrees name fs self rest r))
        ]

  -- With or without defaults, and with names encoded or not: what `as_dict` gives is made of dicts, lists
  -- and scalars only, however deep the instances, enum members and tuples stand in the object.
  pub as_dict-IsTree :
      (o d : Obj) → as_dict python making remove_defaults encode o ≡ ok d → IsTree d
  unfolding as_dict
  as_dict-IsTree (instance_of name self) d h = inner-IsTree (instance_of name self) d h
  as_dict-IsTree _ d h = absurd (cc)

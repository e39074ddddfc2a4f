-- ===== src/Json/AsDict.antt =====
-- `as_dict` of packages/jsonrpcpeer/src/jsonrpcpeer/json_helpers.py: a dataclass instance as dicts and lists.
-- A handler is chosen for the type of the value, and kept for it; named tuples and sets are left out.
pub mod Trees
use robotframework_jsonrpcre.Base.{
  ℕ, Bool, true, false, not, Option, none, some, List, [], ◌∷◌, String, ◌||◌, ◌=ₛ◌, if◌then◌else◌,
}
use robotframework_jsonrpcre.Base.Result.{Result, ok, err, ◌>>=◌}
use robotframework_jsonrpcre.Value.{
  Value, text, array, object, other, Items, nil, cons, Fields, end, field,
}
use robotframework_jsonrpcre.Json.Types.{
  Obj, as_is, list, tuple, dict, member, instance_of, Objs, no_objs, objs, Pairs, no_pairs, pair,
  Attributes, no_attributes, attribute, ClassField, Failure, type_error, Python,
}
use robotframework_jsonrpcre.Json.AsJson.{encode_name}

-- What `as_dict` takes from Python besides: the value of an enum member, whether an object equals the default of its field,
-- which a factory may give, repr, and the texts of its errors.
pub record Making : Type 0 where
  pub value_of : (enum_name name : String) → Value
  pub equals_default : (class_name field_name : String) → Obj → Bool
  pub repr : ℕ → String
  pub no_dataclass : String
  pub unhashable : String

-- A dict, with a key that it may have: the key stays where it came first, with the value that came last.
abbrev same_key : Python → Value → Value → Bool
same_key python (text a) (text b) = a =ₛ b
same_key python v w = python.equals v w

abbrev pub same_object : Python → Value → Obj → Bool
same_object python k (as_is v) = same_key python k v
same_object python k o = false

abbrev pub lookup_pair : Python → Value → Pairs → Option Obj
lookup_pair python k no_pairs = none
lookup_pair python k (pair j o ps) =
    let rest = lookup_pair python k ps in if same_object python k j then some o else rest

abbrev pub without_key : Python → Value → Pairs → Pairs
without_key python k no_pairs = no_pairs
without_key python k (pair j o ps) =
    let rest = without_key python k ps in if same_object python k j then rest else pair j o rest

abbrev pub first_pair : Python → Value → Obj → Pairs → Option Obj → Pairs
first_pair python k o ps none = pair (as_is k) o ps
first_pair python k o ps (some last) = pair (as_is k) last (without_key python k ps)

unfoldable pub insert_pair : Python → Value → Obj → Pairs → Pairs
insert_pair python k o ps = first_pair python k o ps (lookup_pair python k ps)

-- A key that is a dict or a list cannot be hashed.
abbrev pub key_of : Making → Obj → Result Failure Value
key_of making (as_is v) = ok v
key_of making o = err (type_error none making.unhashable)

module _ (python : Python) (making : Making) (remove_defaults encode : Bool) where
  -- `_has_default_value`
  unfoldable pub has_default_value : String → ClassField → Obj → Bool
  has_default_value name f o = making.equals_default name f.field_name o

  -- Whether the instance's dict has the field, and under which key.
  unfoldable pub kept : String → ClassField → Obj → Bool
  unfolding has_default_value
  kept name f o = not remove_defaults || not (has_default_value name f o)

  unfoldable pub name_of : String → ClassField → String
  name_of name f = if encode then encode_name (python.class_of name) f else f.field_name

  abbrev pub add_field :
      Bool → String → Result Failure Obj → Result Failure Pairs → Result Failure Pairs
  add_field false key value rest = rest
  add_field true key value rest =
      value >>= λ v. rest >>= λ ps. ok (insert_pair python (text key) v ps)

  abbrev pub add_pair :
      Result Failure Obj → Result Failure Obj → Result Failure Pairs → Result Failure Pairs
  add_pair key value rest = key >>= λ k. value >>= λ v.
      key_of making k >>= λ (hashed : Value). rest >>= λ ps. ok (insert_pair python hashed v ps)

  -- A plain value: lists and dicts are made anew, an unknown object is its repr.
  unfoldable mutual
    unfolding insert_pair

    pub value_dict : Value → Obj
    value_dict (array xs) = list (values_dict xs)
    value_dict (object fs) = dict (members_dict fs)
    value_dict (other n) = as_is (text (making.repr n))
    value_dict v = as_is v

    pub values_dict : Items → Objs
    values_dict nil = no_objs
    values_dict (cons v vs) = objs (value_dict v) (values_dict vs)

    pub members_dict : Fields → Pairs
    members_dict end = no_pairs
    members_dict (field k v fs) = insert_pair python (text k) (value_dict v) (members_dict fs)

  -- `_as_dict_inner`, with its handlers.
  unfoldable mutual
    unfolding value_dict kept name_of insert_pair

    pub as_dict_inner : Obj → Result Failure Obj
    as_dict_inner (as_is v) = ok (value_dict v)
    as_dict_inner (list os) = items_dict os >>= λ made. ok (list made)
    as_dict_inner (tuple os) = items_dict os >>= λ made. ok (list made)
    as_dict_inner (dict ps) = pairs_dict ps >>= λ made. ok (dict made)
    as_dict_inner (member e m) = ok (value_dict (making.value_of e m))
    as_dict_inner (instance_of name self) =
        fields_dict name (python.class_of name).class_fields self >>= λ made. ok (dict made)

    pub items_dict : Objs → Result Failure Objs
    items_dict no_objs = ok no_objs
    items_dict (objs o os) =
        as_dict_inner o >>= λ made. items_dict os >>= λ rest. ok (objs made rest)

    pub pairs_dict : Pairs → Result Failure Pairs
    pairs_dict no_pairs = ok no_pairs
    pairs_dict (pair k o ps) = add_pair (as_dict_inner k) (as_dict_inner o) (pairs_dict ps)

    pub fields_dict : String → List ClassField → Attributes → Result Failure Pairs
    fields_dict name (f ∷ fs) (attribute n o self) =
        add_field (kept name f o) (name_of name f) (as_dict_inner o) (fields_dict name fs self)
    fields_dict name _ _ = ok no_pairs

  -- `as_dict`
  unfoldable pub as_dict : Obj → Result Failure Obj
  unfolding as_dict_inner
  as_dict (instance_of name self) = as_dict_inner (instance_of name self)
  as_dict o = err (type_error none making.no_dataclass)

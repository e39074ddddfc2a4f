-- ===== src/Json/AsJson.antt =====
-- `_default`, `encode_case_for_field_name` and `as_json` of packages/jsonrpcpeer/src/jsonrpcpeer/json_helpers.py:
-- the JSON value that json.dumps writes for an object, with `_default` for what json does not know.
pub mod Rows
pub mod Filled
pub mod Plain
pub mod Restored
pub mod Handled
pub mod RoundTrip
use robotframework_jsonrpcre.Base.{
  Bool, true, false, not, Option, none, some, List, [], ◌∷◌, String, ◌&&◌, ◌||◌, ◌=ₛ◌, is_some,
  if◌then◌else◌,
}
use robotframework_jsonrpcre.Base.Dict.{lookup}
use robotframework_jsonrpcre.Base.Result.{Result, ok, err, ◌>>=◌}
use robotframework_jsonrpcre.Value.{
  Value, null, text, array, object, other, Items, nil, cons, Fields, end, field, fields, is_none,
}
use robotframework_jsonrpcre.Json.Types.{
  Obj, as_is, list, tuple, dict, member, instance_of, Objs, no_objs, objs, Pairs, no_pairs, pair,
  Attributes, no_attributes, attribute, ClassField, Class, Failure, type_error, Python,
}

-- What the writing takes from outside: the value of an enum member, json's text for the key of a dict, whether a field
-- of a class has a default that is no factory, its "nosave", and the text of the error.
pub record Writing : Type 0 where
  pub member_value : (enum_name name : String) → Value
  pub key_text : Obj → Option String
  pub has_default : (class_name field_name : String) → Bool
  pub nosave : (class_name field_name : String) → Bool
  pub no_default_value : Obj → String
  pub bad_key : Obj → String

-- `_encode_case_for_field_name_cached`: an empty alias counts as none.
abbrev encoded : Option (String → String) → String → String
encoded none name = name
encoded (some encode) name = encode name

abbrev aliased : Option String → String → String
aliased none name = name
aliased (some alias) name = if alias =ₛ "" then name else alias

unfoldable pub encode_name : Class → ClassField → String
encode_name c f = aliased f.alias (encoded c.encode_case f.field_name)

-- A key of a dict comprehension before the others: the key stays where it came first, with the value
-- that came last.
abbrev without : String → Fields → Fields
without k end = end
without k (field n v fs) = let rest = without k fs in if n =ₛ k then rest else field n v rest

abbrev first_with : String → Value → Fields → Option Value → Fields
first_with k v fs none = field k v fs
first_with k v fs (some last) = field k last (without k fs)

unfoldable pub before : String → Value → Fields → Fields
before k v fs = first_with k v fs (lookup k (fields fs))

-- A value that json writes: `_default` raises for any other object.
unfoldable mutual
  pub is_json : Value → Bool
  is_json (other n) = false
  is_json (array xs) = all_json xs
  is_json (object fs) = members_json fs
  is_json v = true

  all_json : Items → Bool
  all_json nil = true
  all_json (cons v vs) = is_json v && all_json vs

  members_json : Fields → Bool
  members_json end = true
  members_json (field k v fs) = is_json v && members_json fs

-- value is not None or field.default == dataclasses.MISSING
abbrev is_null : Obj → Bool
is_null (as_is v) = is_none v
is_null o = false

module _ (python : Python) (writing : Writing) where
  abbrev written_key : Obj → Option String → Result Failure String
  written_key k (some s) = ok s
  written_key k none = err (type_error none (writing.bad_key k))

  abbrev json_or_error : Bool → Value → Result Failure Value
  json_or_error true v = ok v
  json_or_error false v = err (type_error none (writing.no_default_value (as_is v)))

  -- Whether `_default` gives a field of a class: every field is a parameter of its class here.
  unfoldable pub is_written : String → ClassField → Obj → Bool
  is_written name f o =
      not (writing.nosave name f.field_name)
      && (not (is_null o) || not (writing.has_default name f.field_name))

  abbrev pub add_written :
      Bool → String → Result Failure Value → Result Failure Fields → Result Failure Fields
  add_written false key value rest = rest
  add_written true key value rest = value >>= λ v. rest >>= λ fs. ok (before key v fs)

  unfoldable mutual
    unfolding is_json before encode_name is_written

    pub as_json : Obj → Result Failure Value
    as_json (as_is v) = json_or_error (is_json v) v
    as_json (list os) = items_json os >>= λ vs. ok (array vs)
    as_json (tuple os) = items_json os >>= λ vs. ok (array vs)
    as_json (dict ps) = pairs_json ps >>= λ fs. ok (object fs)
    as_json (member e m) =
        json_or_error (is_json (writing.member_value e m)) (writing.member_value e m)
    as_json (instance_of name self) =
        attributes_json name (python.class_of name).class_fields self >>= λ fs. ok (object fs)

    pub items_json : Objs → Result Failure Items
    items_json no_objs = ok nil
    items_json (objs o os) = as_json o >>= λ v. items_json os >>= λ vs. ok (cons v vs)

    pub pairs_json : Pairs → Result Failure Fields
    pairs_json no_pairs = ok end
    pairs_json (pair k o ps) = written_key k (writing.key_text k) >>= λ key.
        as_json o >>= λ v. pairs_json ps >>= λ fs. ok (before key v fs)

    pub attributes_json : String → List ClassField → Attributes → Result Failure Fields
    attributes_json name (f ∷ fs) (attribute n o self) =
        add_written (is_written name f o) (encode_name (python.class_of name) f) (as_json o)
          (attributes_json name fs self)
    attributes_json name _ _ = ok end

-- ===== src/Json/Classes.antt =====
-- The end of `from_dict` in packages/jsonrpcpeer/src/jsonrpcpeer/json_helpers.py: an object that no handler took
-- fills the class whose fields fit its keys best.
use robotframework_jsonrpcre.Base.{
  ℕ, suc, Bool, true, false, not, Option, none, some, List, [], ◌∷◌, ◌++◌, String, ◌&&◌, ◌||◌, ◌==◌,
  ◌=ₛ◌, ltb, if◌then◌else◌, is_some,
}
use robotframework_jsonrpcre.Base.Dict.{Dict, lookup, has, put}
use robotframework_jsonrpcre.Base.Result.{Result, ok, err, ◌>>=◌}
use robotframework_jsonrpcre.Json.Types.{
  class_type, Tys, no_types, types, Obj, instance_of, Attributes, no_attributes, attribute,
  ClassField, Class, Failure, type_error, overflow, Python, single,
}
use robotframework_jsonrpcre.Json.Handlers.{
  Conversion, Shape, with_name, Tried, given, broke, open_yet, first_of, is_object,
}

-- The field with this alias.
abbrev aliased : String → List ClassField → Option String
aliased name [] = none
aliased name (f ∷ fs) = elim f.alias [
  | none ↦ aliased name fs
  | some a ↦ if a =ₛ name then some f.field_name else aliased name fs
]

abbrev decoded : Class → String → Option String → String
decoded c name (some field_name) = field_name
decoded c name none = elim c.decode_case [ some decode ↦ decode name | none ↦ name ]

-- `_decode_case_for_member_name`
unfoldable pub decode_name : Class → String → String
decode_name c name = decoded c name (aliased name c.class_fields)

-- The object with the keys that the class knows them by.
unfoldable pub cased : Class → List (String × Conversion) → Dict Conversion → Dict Conversion
unfolding decode_name
cased c [] d = d
cased c ((k, v) ∷ ms) d = cased c ms (put (decode_name c k) v d)

abbrev pub field_of : String → List ClassField → Option ClassField
field_of name [] = none
field_of name (f ∷ fs) = if f.field_name =ₛ name then some f else field_of name fs

abbrev is_known : Class → String → Bool
is_known c name = is_some (field_of name c.class_fields)

abbrev pub all_known : Class → Dict Conversion → Bool
all_known c [] = true
all_known c ((k, v) ∷ d) = is_known c k && all_known c d

-- The parameters without a default are all there.
abbrev pub has_required : List ClassField → Dict Conversion → Bool
has_required [] d = true
has_required (f ∷ fs) d = (is_some f.default || has f.field_name d) && has_required fs d

abbrev pub count_known : Class → Dict Conversion → ℕ
count_known c [] = 0
count_known c ((k, v) ∷ d) = if is_known c k then suc (count_known c d) else count_known c d

-- A class that may be filled. An empty object fills only a class with no required field, which
-- `has_required` says too.
abbrev pub is_candidate : (known_keys_only : Bool) → Class → Dict Conversion → Bool
is_candidate known_keys_only c d =
    not (known_keys_only && not (all_known c d)) && has_required c.class_fields d

-- A match: the class by its name, and the object with its keys.
abbrev pub Match : Type 0
Match = String × Dict Conversion

-- The candidates with the most known keys; `most` is one more than their number, and 0 at first.
abbrev pub best : (candidate : Bool) → (same : ℕ) → Match → ℕ × List Match → ℕ × List Match
best false same m (most, matches) = (most, matches)
best true same m (most, matches) =
    if ltb most (suc same)
    then (suc same, m ∷ [])
    else if suc same == most
    then (most, matches ++ (m ∷ []))
    else (most, matches)

unfoldable pub matches_from :
    Python
    → (known_keys_only : Bool) → List (String × Conversion)
    → Tys
    → ℕ × List Match
    → ℕ × List Match
unfolding cased
matches_from python only members no_types found = found
matches_from python only members (types (class_type name) ts) found =
    let c = python.class_of name in
    let d = cased c members [] in
    matches_from python only members ts
      (best (is_candidate only c d) (count_known c d) (name, d) found)
matches_from python only members (types t ts) found = matches_from python only members ts found

-- The parameters for the constructor: the values of the known keys, in the order of the object.
abbrev pub add_parameter :
    String → Conversion → Option ClassField → Result Failure (Dict Obj) → Result Failure (Dict Obj)
add_parameter k v none others = others
add_parameter k v (some f) others =
    with_name k (v (single f.field_type)) >>= λ o. others >>= λ rest. ok ((k, o) ∷ rest)

unfoldable pub parameters : Class → Dict Conversion → Result Failure (Dict Obj)
parameters c [] = ok []
parameters c ((k, v) ∷ d) = add_parameter k v (field_of k c.class_fields) (parameters c d)

abbrev pub or_default : Option Obj → Option Obj → Option Obj
or_default (some o) default = some o
or_default none default = default

-- t(**params): each field has its parameter or its default.
abbrev pub add_attribute : String → Option Obj → Option Attributes → Option Attributes
add_attribute name (some o) (some rest) = some (attribute name o rest)
add_attribute name _ _ = none

unfoldable pub construct : List ClassField → Dict Obj → Option Attributes
construct [] params = some no_attributes
construct (f ∷ fs) params =
    add_attribute f.field_name (or_default (lookup f.field_name params) f.default)
      (construct fs params)

abbrev pub instance_or : Python → String → Dict Obj → Option Attributes → Result Failure Obj
instance_or python name params (some attributes) = ok (instance_of name attributes)
instance_or python name params none = err (type_error none (python.cannot_initialize name params))

-- `__from_dict_create`
unfoldable pub create : Python → Match → Result Failure Obj
unfolding parameters construct
create python (name, d) =
    let c = python.class_of name in
    parameters c d >>= λ (params : Dict Obj).
    instance_or python name params (construct c.class_fields params)

-- The instances that can be created, with the first TypeError.
abbrev pub Created : Type 0
Created = Result Failure (List (String × Obj) × Option Failure)

abbrev pub add_created :
    String → Result Failure Obj → Option Failure → (Option Failure → Created) → Created
add_created name (ok o) first_error again =
    again first_error >>= λ (r : List (String × Obj) × Option Failure). ok ((name, o) ∷ r.0, r.1)
add_created name (err (type_error n m)) first_error again =
    again (first_of first_error (type_error n m))
add_created name (err overflow) first_error again = err overflow

unfoldable pub create_all : Python → List Match → Option Failure → Created
unfolding create
create_all python [] first_error = ok ([], first_error)
create_all python (m ∷ ms) first_error =
    add_created m.0 (create python m) first_error (λ fe. create_all python ms fe)

abbrev names : List (String × Obj) → List String
names [] = []
names ((n, o) ∷ rest) = n ∷ names rest

-- Without a result: that of a dict type, the first TypeError, or one for all the types.
abbrev pub unmatched : Python → Shape → Tys → Option Failure → Option Obj → Result Failure Obj
unmatched python s ts first_error (some r) = ok r
unmatched python s ts (some e) none = err e
unmatched python s ts none none = err (type_error none (python.mismatch s.value ts))

abbrev pub decide :
    Python → Shape → Tys → Option Obj → List (String × Obj) × Option Failure → Result Failure Obj
decide python s ts mapping_result ((n, o) ∷ [], first_error) = ok o
decide python s ts none (a ∷ b ∷ more, first_error) =
    err (type_error none (python.ambiguous s.value (names (a ∷ b ∷ more))))
decide python s ts mapping_result (created, first_error) =
    unmatched python s ts first_error mapping_result

-- After the loop over the types.
unfoldable pub finish : (strict : Bool) → Python → Shape → Tys → Tried → Result Failure Obj
unfolding matches_from create_all
finish strict python s ts (given r) = ok r
finish strict python s ts (broke e) = err e
finish strict python s ts (open_yet first_error mapping_result) =
    let found = matches_from python (strict || is_some mapping_result) s.members ts (0, []) in
    let decided =
      create_all python found.1 first_error >>= λ (r : List (String × Obj) × Option Failure).
      decide python s ts mapping_result r in
    if is_object s.value then decided else unmatched python s ts first_error mapping_result

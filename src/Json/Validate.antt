-- ===== src/Json/Validate.antt =====
-- `validate_types`, `__validate_sequence` and `_validate` of ValidateMixin in
-- packages/jsonrpcpeer/src/jsonrpcpeer/json_helpers.py. It recurs on the value and, at one value, on the
-- types, as `from_dict` does. `list_of` is here `list` itself, and a class is neither a sequence nor a
-- mapping.
pub mod Converted
pub mod Mixin
pub mod Accepted
use robotframework_jsonrpcre.Base.{
  ℕ, Bool, true, false, not, Option, none, some, List, [], ◌∷◌, ◌++◌, map, String, ◌&&◌, ◌||◌, ◌==◌,
  ◌=ₛ◌, length, if◌then◌else◌,
}
use robotframework_jsonrpcre.Base.Dict.{Dict}
use robotframework_jsonrpcre.Value.{
  Value, boolean, text, array, object, Items, nil, cons, Fields, end, field,
}
use robotframework_jsonrpcre.Json.Types.{
  Basic, int_type, Ty, any, basic, union, literal, enum, tuple_of, tuple_every, list_of, mapping_of,
  class_type, Tys, no_types, types, Obj, as_is, list, tuple, dict, member, instance_of, Objs,
  no_objs, objs, Pairs, no_pairs, pair, Python, single,
}
use robotframework_jsonrpcre.Json.Handlers.{
  is_basic, is_bool_type, is_array, is_object, count_types,
}

abbrev pub Errors : Type 0
Errors = List String

-- validate_types(t, value) for one value.
abbrev pub Check : Type 0
Check = Tys → Errors

-- What the validation takes from Python besides: whether an enum derives from a basic type, whether
-- a class is a proper subclass of another, the equality of an object that is no plain value with a literal, and the texts of the errors.
pub record Instances : Type 0 where
  pub enum_is : String → Basic → Bool
  pub derives : (sub super : String) → Bool
  pub equals_literal : Obj → Value → Bool
  pub not_among : Obj → List Value → String
  pub wrong_count : Ty → ℕ → ℕ → String
  pub unexpected : Tys → Obj → String

-- A value with the checks of its elements, or of its keys and the values under them.
pub record Checked : Type 0 where
  pub value : Obj
  pub elements : List Check
  pub members : List (Check × Check)

abbrev pub childless : Obj → Checked
childless o = record { value = o; elements = []; members = [] }

-- isinstance(value, list), tuple, Mapping, and Sequence without str.
abbrev is_list : Obj → Bool
is_list (list os) = true
is_list (as_is v) = is_array v
is_list o = false

abbrev is_tuple : Obj → Bool
is_tuple (tuple os) = true
is_tuple o = false

abbrev is_sequence : Obj → Bool
is_sequence o = is_list o || is_tuple o

abbrev is_dict : Obj → Bool
is_dict (dict ps) = true
is_dict (as_is v) = is_object v
is_dict o = false

-- A Boolean is an int, too.
abbrev is_instance : Basic → Value → Bool
is_instance int_type (boolean b) = true
is_instance t (boolean b) = is_bool_type t
is_instance t v = is_basic t v

abbrev pub concat : List Errors → Errors
concat [] = []
concat (e ∷ es) = e ++ concat es

-- Each member gives the errors of its key, then those of its value.
abbrev pub check_members : (key value : Tys) → List (Check × Check) → Errors
check_members key value [] = []
check_members key value ((k, v) ∷ ms) = (k key ++ v value) ++ check_members key value ms

-- zip(args, value)
abbrev pub check_each : Tys → List Check → Errors
check_each (types t ts) (c ∷ cs) = c (single t) ++ check_each ts cs
check_each _ _ = []

abbrev pub check_all : Tys → List Check → Errors
check_all ts cs = concat (map (λ (c : Check). c ts) cs)

-- The errors at a type that the value is an instance of.
abbrev when : Bool → Errors → Option Errors
when true errors = some errors
when false errors = none

-- One turn: no match goes on, a match without errors ends it, and other errors are collected.
abbrev pub next_type : Option Errors → Errors → (Errors → Errors) → Errors
next_type none result again = again result
next_type (some []) result again = []
next_type (some (e ∷ es)) result again = again (result ++ (e ∷ es))

-- None for the types lets everything through.
abbrev pub unless_untyped : Tys → Errors → Errors
unless_untyped no_types errors = []
unless_untyped (types t ts) errors = errors

module _ (python : Python) (instances : Instances) where
  abbrev basic_instance : Basic → Obj → Bool
  basic_instance t (as_is v) = is_instance t v
  basic_instance t (member name m) = instances.enum_is name t
  basic_instance t o = false

  abbrev equals : Obj → Value → Bool
  equals (as_is v) w = python.equals v w
  equals o w = instances.equals_literal o w

  abbrev pub is_among : Obj → List Value → Bool
  is_among o [] = false
  is_among o (w ∷ ws) = equals o w || is_among o ws

  abbrev of_enum : String → Obj → Bool
  of_enum name (member n m) = n =ₛ name
  of_enum name o = false

  abbrev of_class : String → Obj → Bool
  of_class name (instance_of n self) = n =ₛ name || instances.derives n name
  of_class name o = false

  -- `__validate_sequence` at a tuple type without `...`, of a value that is a sequence.
  unfoldable pub validate_tuple : Checked → Tys → Errors
  validate_tuple s ts =
      if count_types ts == length s.elements
      then check_each ts s.elements
      else instances.wrong_count (tuple_of ts) (count_types ts) (length s.elements) ∷ []

  -- At the end of the loop over the types.
  abbrev no_match : Tys → Obj → Errors → Errors
  no_match ts o [] = instances.unexpected ts o ∷ []
  no_match ts o (e ∷ es) = e ∷ es

  unfoldable mutual
    unfolding validate_tuple

    pub errors_at : Checked → Ty → Option Errors
    errors_at s any = some []
    errors_at s (basic b) = when (basic_instance b s.value) []
    errors_at s (union ts) = some (unless_untyped ts (try_each s ts [] ts))
    errors_at s (literal values) =
        if is_among s.value values then some [] else some (instances.not_among s.value values ∷ [])
    errors_at s (enum name members) = when (of_enum name s.value) []
    errors_at s (tuple_of no_types) = when (is_tuple s.value) []
    errors_at s (tuple_of (types t ts)) = when (is_sequence s.value) (validate_tuple s (types t ts))
    errors_at s (tuple_every t) = when (is_sequence s.value) (check_all (single t) s.elements)
    errors_at s (list_of no_types) = when (is_list s.value) []
    errors_at s (list_of (types t ts)) =
        when (is_sequence s.value) (check_all (types t ts) s.elements)
    errors_at s (mapping_of key value) = when (is_dict s.value) (check_members key value s.members)
    errors_at s (class_type name) = when (of_class name s.value) []

    pub try_each : Checked → Tys → Errors → Tys → Errors
    try_each s all result no_types = no_match all s.value result
    try_each s all result (types t ts) = next_type (errors_at s t) result (λ r. try_each s all r ts)

  unfoldable pub check : Checked → Check
  unfolding try_each
  check s ts = unless_untyped ts (try_each s ts [] ts)

  -- `validate_types` of a plain value.
  unfoldable mutual
    unfolding check

    pub validate_value : Value → Check
    validate_value (array xs) ts =
        check (record { value = as_is (array xs); elements = value_checks xs; members = [] }) ts
    validate_value (object fs) ts =
        check (record { value = as_is (object fs); elements = []; members = field_checks fs }) ts
    validate_value v ts = check (childless (as_is v)) ts

    pub value_checks : Items → List Check
    value_checks nil = []
    value_checks (cons v vs) = (λ ts. validate_value v ts) ∷ value_checks vs

    pub field_checks : Fields → List (Check × Check)
    field_checks end = []
    field_checks (field k v fs) =
        ((λ ts. check (childless (as_is (text k))) ts), (λ ts. validate_value v ts))
        ∷ field_checks fs

  unfoldable mutual
    unfolding check validate_value

    pub validate : Obj → Check
    validate (as_is v) ts = validate_value v ts
    validate (list os) ts =
        check (record { value = list os; elements = element_checks os; members = [] }) ts
    validate (tuple os) ts =
        check (record { value = tuple os; elements = element_checks os; members = [] }) ts
    validate (dict ps) ts =
        check (record { value = dict ps; elements = []; members = member_checks ps }) ts
    validate o ts = check (childless o) ts

    pub element_checks : Objs → List Check
    element_checks no_objs = []
    element_checks (objs o os) = (λ ts. validate o ts) ∷ element_checks os

    pub member_checks : Pairs → List (Check × Check)
    member_checks no_pairs = []
    member_checks (pair k v ps) = ((λ ts. validate k ts), (λ ts. validate v ts)) ∷ member_checks ps

  -- `validate_types`
  unfoldable pub validate_types : Tys → Obj → Errors
  unfolding validate
  validate_types ts o = validate o ts

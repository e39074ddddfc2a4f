-- ===== src/Tests/Json.antt =====
-- Runs of the conversion of JSON values.
use robotframework_jsonrpcre.Base.{
  true, false, Option, none, some, List, [], ◌∷◌, String, ◌≡◌, refl, ◌=ₛ◌, if◌then◌else◌, inl, inr,
  Bool-cases,
}
use robotframework_jsonrpcre.Base.Int.{ℤ, pos}
use robotframework_jsonrpcre.Base.Codes.{codes}
use robotframework_jsonrpcre.Base.Dict.{lookup, put}
use robotframework_jsonrpcre.Base.Result.{ok}
use robotframework_jsonrpcre.Value.{
  Value, boolean, integer, text, array, object, nil, cons, end, field,
}
use robotframework_jsonrpcre.Json.Case.{to_snake_case, to_camel_case, to_snake_case-to_camel_case}
use robotframework_jsonrpcre.Json.Types.{
  int_type, str_type, none_type, Ty, basic, list_of, class_type, Tys, no_types, types, Obj, as_is,
  list, instance_of, no_objs, objs, no_attributes, attribute, ClassField, Class, Python, single,
}
use robotframework_jsonrpcre.Json.FromDict.{from_dict}
use robotframework_jsonrpcre.Json.Validate.{
  Instances, validate_types, validate, validate_value, check, try_each, errors_at,
}
use robotframework_jsonrpcre.Json.Validate.Accepted.{validate_types-from_dict}
use robotframework_jsonrpcre.Json.Fits.{FitsTypes}
use robotframework_jsonrpcre.Json.Sound.OfType.{from_dict-FitsTypes}
use robotframework_jsonrpcre.Json.Sound.Filled.{WellFormed}

abbrev plain_field : String → Ty → Option Obj → ClassField
plain_field name t d = record { field_name = name; alias = none; field_type = t; default = d }

abbrev point : Class
point = record {
  class_fields =
      plain_field "x" (basic int_type) none
      ∷ plain_field "tags" (list_of (single (basic str_type))) (some (list no_objs))
      ∷ [];
  decode_case = none;
  encode_case = none;
}

abbrev nothing : Class
nothing = record { class_fields = []; decode_case = none; encode_case = none }

abbrev python : Python
python = record {
  equals = λ (v : Value). λ (w : Value). false;
  float_of = λ (n : ℤ). none;
  class_of = λ (name : String). if name =ₛ "Point" then point else nothing;
  mismatch = λ (v : Value). λ (ts : Tys). "mismatch";
  ambiguous = λ (v : Value). λ (names : List String). "ambiguous";
  cannot_initialize = λ (name : String). λ (params : List (String × Obj)). name;
}

abbrev one_point : Value
one_point = object (field "x" (integer (pos 1)) (field "tags" (array (cons (text "a") nil)) end))

abbrev point_or_none : Tys
point_or_none = types (class_type "Point") (types (basic none_type) no_types)

abbrev point_object : Obj
point_object = instance_of "Point" (
    attribute "x" (as_is (integer (pos 1)))
      (attribute "tags" (list (objs (as_is (text "a")) no_objs)) no_attributes))

from_dict_test : from_dict true python one_point point_or_none ≡ ok point_object
unfolding from_dict lookup put
from_dict_test = refl

python-WellFormed : (name : String) → WellFormed (python.class_of name)
python-WellFormed name = elim (Bool-cases (name =ₛ "Point")) [
  | inl y ↦ rw y (refl, (refl, tt))
  | inr n ↦ rw n tt
]

from_dict-FitsTypes_example : FitsTypes python point_or_none point_object
from_dict-FitsTypes_example =
    from_dict-FitsTypes true python one_point point_or_none point_object python-WellFormed
      from_dict_test

to_snake_case-to_camel_case_example : to_snake_case (to_camel_case (codes "a_b2")) ≡ codes "a_b2"
to_snake_case-to_camel_case_example =
    to_snake_case-to_camel_case b'a' (codes "_b2") refl (refl, (refl, (refl, tt)))

abbrev instances : Instances
instances = record {
  enum_is = λ name t. false;
  derives = λ sub super. false;
  equals_literal = λ o v. false;
  not_among = λ o values. "not among";
  wrong_count = λ t expected got. "wrong count";
  unexpected = λ ts o. "unexpected";
}

validate_types-from_dict_example : validate_types python instances point_or_none point_object ≡ []
validate_types-from_dict_example =
    validate_types-from_dict true python instances one_point point_or_none point_object
      python-WellFormed from_dict_test

-- A Boolean is accepted as an int, a text is not.
validate_types_test :
    (validate_types python instances (single (basic int_type)) (as_is (boolean true)) ≡ [])
    × (validate_types python instances (single (basic int_type)) (as_is (text "1"))
        ≡ "unexpected" ∷ [])
unfolding validate_types validate validate_value check try_each errors_at
validate_types_test = (refl, refl)

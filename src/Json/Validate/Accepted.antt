-- ===== src/Json/Validate/Accepted.antt =====
-- `from_dict` and the validation of packages/jsonrpcpeer/src/jsonrpcpeer/json_helpers.py together.
use robotframework_jsonrpcre.Base.{Bool, String, All, [], some, ◌≡◌}
use robotframework_jsonrpcre.Base.Result.{ok}
use robotframework_jsonrpcre.Value.{Value}
use robotframework_jsonrpcre.Json.Types.{
  Tys, Obj, class_type, instance_of, Attributes, Python, single,
}
use robotframework_jsonrpcre.Json.FromDict.{from_dict}
use robotframework_jsonrpcre.Json.Sound.Filled.{WellFormed}
use robotframework_jsonrpcre.Json.Sound.OfType.{from_dict-FitsTypes}
use robotframework_jsonrpcre.Json.Validate.{Instances, validate_types}
use robotframework_jsonrpcre.Json.Validate.Converted.{FitsTypes-validate_types}
use robotframework_jsonrpcre.Json.Validate.Mixin.{
  Metadata, PlainField, validate_fields, validate_fields-nil,
}

module _ (strict : Bool) (python : Python) (instances : Instances) where
  -- Where the fields of each class are told apart by their names, what `from_dict` gives for some types,
  -- strict or not, `validate_types` accepts for the same types.
  pub validate_types-from_dict :
      (v : Value) (ts : Tys) (o : Obj)
      → ((name : String) → WellFormed (python.class_of name))
      → from_dict strict python v ts ≡ ok o
      → validate_types python instances ts o ≡ []
  validate_types-from_dict v ts o well_formed e =
      FitsTypes-validate_types python instances ts o
        (from_dict-FitsTypes strict python v ts o well_formed e)

  -- Where, besides, the class has no validators of its own and its defaults are of the types of their
  -- fields, an instance that `from_dict` gives passes `_validate`.
  pub validate_fields-from_dict :
      (metadata : Metadata) (v : Value) (name : String) (self : Attributes)
      → ((other : String) → WellFormed (python.class_of other))
      → All (PlainField python instances metadata) (python.class_of name).class_fields
      → from_dict strict python v (single (class_type name)) ≡ ok (instance_of name self)
      → validate_fields python instances metadata (python.class_of name).class_fields self ≡ some []
  validate_fields-from_dict metadata v name self well_formed plain e =
      validate_fields-nil python instances metadata name self (well_formed name) plain (
        from_dict-FitsTypes strict python v (single (class_type name)) (instance_of name self)
          well_formed e)

-- ===== src/Json/Types.antt =====
-- What `from_dict` converts to: Python types as they appear in type hints, and Python objects. A class
-- is a dataclass whose fields are all parameters of its constructor, with no `__post_init__`; named tuples
-- and other containers than list, tuple and dict are left out.
use robotframework_jsonrpcre.Base.{ℕ, Bool, Option, List, String}
use robotframework_jsonrpcre.Base.Int.{ℤ}
use robotframework_jsonrpcre.Value.{Value}

pub data Basic : Type 0 where
  int_type bool_type float_type str_type none_type : Basic

-- `literal` has its values, `enum` its members with their values; `list_of` and `mapping_of` have no
-- types in them when the hint has no arguments, as `list` and `dict`. `list_of` is also the hint
-- `Sequence` and its like, `tuple_every t` is `tuple[t, ...]`.
mutual
  pub data Ty : Type 0 where
    any : Ty
    basic : Basic → Ty
    union : Tys → Ty
    literal : List Value → Ty
    enum : String → List (String × Value) → Ty
    tuple_of : Tys → Ty
    tuple_every : Ty → Ty
    list_of : Tys → Ty
    mapping_of : (key value : Tys) → Ty
    class_type : String → Ty

  pub data Tys : Type 0 where
    no_types : Tys
    types : Ty → Tys → Tys

-- `as_is v` is the value itself; an instance has its attributes in the order of the fields.
mutual
  pub data Obj : Type 0 where
    as_is : Value → Obj
    list : Objs → Obj
    tuple : Objs → Obj
    dict : Pairs → Obj
    member : (enum_name name : String) → Obj
    instance_of : String → Attributes → Obj

  pub data Objs : Type 0 where
    no_objs : Objs
    objs : Obj → Objs → Objs

  pub data Pairs : Type 0 where
    no_pairs : Pairs
    pair : Obj → Obj → Pairs → Pairs

  pub data Attributes : Type 0 where
    no_attributes : Attributes
    attribute : String → Obj → Attributes → Attributes

pub record ClassField : Type 0 where
  pub field_name : String
  pub alias : Option String
  pub field_type : Ty
  pub default : Option Obj

-- A class with the case conversions of its names, if it has them.
pub record Class : Type 0 where
  pub class_fields : List ClassField
  pub decode_case : Option (String → String)
  pub encode_case : Option (String → String)

-- A TypeError, with the name that a NamedTypeError has, or the OverflowError of a number that no
-- float holds.
pub data Failure : Type 0 where
  type_error : Option String → String → Failure
  overflow : Failure

-- What the conversion takes from Python: its equality, the float of an integer, the classes, and the
-- texts of its errors.
pub record Python : Type 0 where
  pub equals : Value → Value → Bool
  pub float_of : ℤ → Option ℕ
  pub class_of : String → Class
  pub mismatch : Value → Tys → String
  pub ambiguous : Value → List String → String
  pub cannot_initialize : (class_name : String) → (parameters : List (String × Obj)) → String

abbrev pub single : Ty → Tys
single t = types t no_types

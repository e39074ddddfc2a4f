-- ===== src/Json/Fits.antt =====
-- What it means that an object is of a type: the relation that `from_dict` is held to, stated without it.
use robotframework_jsonrpcre.Base.{Bool, true, false, some, List, [], ◌∷◌, String, ◌≡◌, ◌⊎◌}
use robotframework_jsonrpcre.Value.{Value, boolean}
use robotframework_jsonrpcre.Json.Types.{
  Basic, bool_type, Ty, any, basic, union, literal, enum, tuple_of, tuple_every, list_of,
  mapping_of, class_type, Tys, no_types, types, Obj, as_is, list, tuple, dict, member, instance_of,
  Objs, no_objs, objs, Pairs, no_pairs, pair, Attributes, no_attributes, attribute, ClassField,
  Python, single,
}
use robotframework_jsonrpcre.Json.Handlers.{among, is_basic}

-- A value of a basic type; a Boolean is no number.
abbrev pub is_of : Basic → Value → Bool
is_of bool_type (boolean b) = true
is_of bool_type v = false
is_of t (boolean b) = false
is_of t v = is_basic t v

abbrev pub HasMember : String → List (String × Value) → Type 0
HasMember name [] = ⊥
HasMember name ((m, v) ∷ ms) = (m ≡ name) ⊎ HasMember name ms

-- `FitsOne` is some type of a list, `FitsTypes` also a list without types, which lets a value through as
-- it is. An attribute of an instance has the type of its field, or is the field's default.
mutual
  pub data Fits (python : Python) : Ty → Obj → Type 0 where
    fits_any : (v : Value) → Fits python any (as_is v)
    fits_basic : {b : Basic} {v : Value} → is_of b v ≡ true → Fits python (basic b) (as_is v)
    fits_union : {ts : Tys} {o : Obj} → FitsTypes python ts o → Fits python (union ts) o
    fits_literal :
        {values : List Value} {v : Value}
        → among python v values ≡ true
        → Fits python (literal values) (as_is v)
    fits_enum :
        {name m : String} {members : List (String × Value)}
        → HasMember m members
        → Fits python (enum name members) (member name m)
    fits_tuple :
        {ts : Tys} {os : Objs} → FitsEach python ts os → Fits python (tuple_of ts) (tuple os)
    fits_every :
        {t : Ty} {os : Objs} → FitsAll python (single t) os → Fits python (tuple_every t) (tuple os)
    fits_bare :
        {os : Objs} → FitsAll python no_types os → Fits python (tuple_of no_types) (tuple os)
    fits_list : {ts : Tys} {os : Objs} → FitsAll python ts os → Fits python (list_of ts) (list os)
    fits_mapping :
        {key value : Tys} {ps : Pairs}
        → FitsPairs python key value ps
        → Fits python (mapping_of key value) (dict ps)
    fits_class :
        {name : String} {attrs : Attributes}
        → FitsFields python (python.class_of name).class_fields attrs
        → Fits python (class_type name) (instance_of name attrs)

  pub data FitsOne (python : Python) : Tys → Obj → Type 0 where
    first_type : {t : Ty} {ts : Tys} {o : Obj} → Fits python t o → FitsOne python (types t ts) o
    later_type : {t : Ty} {ts : Tys} {o : Obj} → FitsOne python ts o → FitsOne python (types t ts) o

  pub data FitsTypes (python : Python) : Tys → Obj → Type 0 where
    untyped : (v : Value) → FitsTypes python no_types (as_is v)
    one_of : {ts : Tys} {o : Obj} → FitsOne python ts o → FitsTypes python ts o

  pub data FitsAll (python : Python) : Tys → Objs → Type 0 where
    all_fit : {ts : Tys} → FitsAll python ts no_objs
    and_all :
        {ts : Tys} {o : Obj} {os : Objs}
        → FitsTypes python ts o
        → FitsAll python ts os
        → FitsAll python ts (objs o os)

  pub data FitsEach (python : Python) : Tys → Objs → Type 0 where
    each_fits : FitsEach python no_types no_objs
    and_each :
        {t : Ty} {ts : Tys} {o : Obj} {os : Objs}
        → FitsTypes python (single t) o
        → FitsEach python ts os
        → FitsEach python (types t ts) (objs o os)

  pub data FitsPairs (python : Python) : Tys → Tys → Pairs → Type 0 where
    pairs_fit : {key value : Tys} → FitsPairs python key value no_pairs
    and_pairs :
        {key value : Tys} {k v : Obj} {ps : Pairs}
        → FitsTypes python key k
        → FitsTypes python value v
        → FitsPairs python key value ps
        → FitsPairs python key value (pair k v ps)

  pub data FitsFields (python : Python) : List ClassField → Attributes → Type 0 where
    fields_fit : FitsFields python [] no_attributes
    by_value :
        {f : ClassField} {fs : List ClassField} {o : Obj} {attrs : Attributes}
        → FitsTypes python (single f.field_type) o
        → FitsFields python fs attrs
        → FitsFields python (f ∷ fs) (attribute f.field_name o attrs)
    by_default :
        {f : ClassField} {fs : List ClassField} {o : Obj} {attrs : Attributes}
        → f.default ≡ some o
        → FitsFields python fs attrs
        → FitsFields python (f ∷ fs) (attribute f.field_name o attrs)

-- ===== src/Json/AsJson/Plain.antt =====
-- The objects that come back from their JSON: those whose type tells from the value what it was.
use robotframework_jsonrpcre.Base.{
  Bool, true, false, some, List, [], ◌∷◌, All, String, ◌≡◌, eq_refl, refl, ◌∙◌,
}
use robotframework_jsonrpcre.Base.Result.{ok}
use robotframework_jsonrpcre.Value.{Value, null}
use robotframework_jsonrpcre.Json.Types.{
  Basic, none_type, Ty, any, basic, union, enum, list_of, class_type, no_types, types, Obj, as_is,
  list, member, instance_of, Objs, no_objs, objs, Attributes, no_attributes, attribute, ClassField,
  Class, Python, single,
}
use robotframework_jsonrpcre.Json.Handlers.{handle_enum}
use robotframework_jsonrpcre.Json.Classes.{field_of}
use robotframework_jsonrpcre.Json.Fits.{is_of}
use robotframework_jsonrpcre.Json.AsJson.{Writing, is_json, is_written}
use robotframework_jsonrpcre.Json.AsJson.Rows.{Apart, Distinct, Decodes}
use robotframework_jsonrpcre.Json.AsJson.Filled.{Fields}

-- Optional[t]
abbrev pub optional : Ty → Ty
optional t = union (types t (types (basic none_type) no_types))

-- A type that None is not taken for.
abbrev pub refuses_null : Ty → Bool
refuses_null (basic none_type) = false
refuses_null (basic b) = true
refuses_null (list_of ts) = true
refuses_null (class_type name) = true
refuses_null t = false

-- Values of `Any` and of the basic types, members of enums that are found by their values, lists of one
-- type, optional objects, and instances. A field of an instance is written, or is left out and has its default.
mutual
  pub data Plain (python : Python) (writing : Writing) : Ty → Obj → Type 0 where
    plain_any : {v : Value} → is_json v ≡ true → Plain python writing any (as_is v)
    plain_basic :
        {b : Basic} {v : Value} → is_of b v ≡ true → Plain python writing (basic b) (as_is v)
    plain_enum :
        {name m : String} {members : List (String × Value)}
        → is_json (writing.member_value name m) ≡ true
        → handle_enum python name members (writing.member_value name m) ≡ ok (some (member name m))
        → Plain python writing (enum name members) (member name m)
    plain_list :
        {t : Ty} {os : Objs}
        → PlainAll python writing t os
        → Plain python writing (list_of (single t)) (list os)
    plain_optional :
        {t : Ty} {o : Obj} → Plain python writing t o → Plain python writing (optional t) o
    plain_null : {t : Ty} → refuses_null t ≡ true → Plain python writing (optional t) (as_is null)
    plain_instance :
        {name : String} {self : Attributes}
        → PlainFields python writing name (python.class_of name).class_fields self
        → Plain python writing (class_type name) (instance_of name self)

  pub data PlainAll (python : Python) (writing : Writing) : Ty → Objs → Type 0 where
    plain_all : {t : Ty} → PlainAll python writing t no_objs
    and_plain :
        {t : Ty} {o : Obj} {os : Objs}
        → Plain python writing t o
        → PlainAll python writing t os
        → PlainAll python writing t (objs o os)

  pub data PlainFields (python : Python) (writing : Writing)
      : String → List ClassField → Attributes → Type 0 where
    plain_end : {name : String} → PlainFields python writing name [] no_attributes
    plain_written :
        {name : String} {f : ClassField} {fs : List ClassField} {o : Obj} {self : Attributes}
        → is_written python writing name f o ≡ true
        → Plain python writing f.field_type o
        → PlainFields python writing name fs self
        → PlainFields python writing name (f ∷ fs) (attribute f.field_name o self)
    plain_left_out :
        {name : String} {f : ClassField} {fs : List ClassField} {o : Obj} {self : Attributes}
        → is_written python writing name f o ≡ false
        → f.default ≡ some o
        → PlainFields python writing name fs self
        → PlainFields python writing name (f ∷ fs) (attribute f.field_name o self)

-- The fields of a class have different names, and the keys that they are written under decode to them.
pub record Named (c : Class) : Type 0 where
  pub distinct : Distinct c.class_fields
  pub decodes : Decodes c c.class_fields

abbrev SameFound : List ClassField → List ClassField → Type 0
SameFound all fs = All (λ (f : ClassField). field_of f.field_name all ≡ field_of f.field_name fs) fs

SameFound-tail :
    (all gs fs : List ClassField) (f : ClassField)
    → Apart f gs
    → All (λ (g : ClassField). field_of g.field_name all ≡ field_of g.field_name (f ∷ fs)) gs
    → All (λ (g : ClassField). field_of g.field_name all ≡ field_of g.field_name fs) gs
SameFound-tail all [] fs f a h = tt
SameFound-tail all (g ∷ gs) fs f (n, a) (e, h) = (e ∙ rw n refl, SameFound-tail all gs fs f a h)

SameFound-Fields :
    (c : Class) (fs : List ClassField) → Distinct fs → SameFound c.class_fields fs → Fields c fs
SameFound-Fields c [] d h = tt
SameFound-Fields c (f ∷ fs) (a, d) (e, h) = (
  e ∙ rw (eq_refl f.field_name) refl,
  SameFound-Fields c fs d (SameFound-tail c.class_fields fs fs f a h),
)

SameFound-refl :
    (all fs : List ClassField)
    → All (λ (f : ClassField). field_of f.field_name all ≡ field_of f.field_name all) fs
SameFound-refl all [] = tt
SameFound-refl all (f ∷ fs) = (refl, SameFound-refl all fs)

pub Distinct-Fields : (c : Class) → Distinct c.class_fields → Fields c c.class_fields
Distinct-Fields c d =
    SameFound-Fields c c.class_fields d (SameFound-refl c.class_fields c.class_fields)

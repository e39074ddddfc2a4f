-- ===== src/Json/Validate/Mixin.antt =====
-- ValidateMixin of packages/jsonrpcpeer/src/jsonrpcpeer/json_helpers.py: the conversion and the validation of
-- the fields after a dataclass is made.
use robotframework_jsonrpcre.Base.{
  All, Bool-cases, inl, inr, ◌⊎◌, ◌=ₛ◌, subst, ap, ◌∙◌, Option, none, some, List, [], ◌∷◌, String,
  ◌≡◌, refl, if◌then◌else◌,
}
use robotframework_jsonrpcre.Base.Dict.{Dict}
use robotframework_jsonrpcre.Json.Types.{
  Ty, class_type, Obj, instance_of, Attributes, no_attributes, attribute, ClassField, Python,
  single,
}
use robotframework_jsonrpcre.Json.Classes.{field_of}
use robotframework_jsonrpcre.Json.Sound.Filled.{WellFormed}
use robotframework_jsonrpcre.Json.Fits.{Fits, FitsOne, FitsFields, FitsTypes}
use robotframework_jsonrpcre.Json.Validate.{Errors, Instances, validate_types}
use robotframework_jsonrpcre.Json.Validate.Converted.{FitsTypes-validate_types}

-- The metadata of the fields of a class, by the name of the field: a converter, which is a method of its
-- own or takes the instance, and a validator.
pub record Metadata : Type 0 where
  pub convert : String → Option (Attributes → Obj → Obj)
  pub validate : String → Option (Attributes → Obj → Errors)

-- setattr(self, name, value)
unfoldable pub set_attribute : String → Obj → Attributes → Attributes
set_attribute name o no_attributes = no_attributes
set_attribute name o (attribute n old rest) =
    if n =ₛ name then attribute n o rest else attribute n old (set_attribute name o rest)

-- getattr(self, name)
unfoldable pub get_attribute : String → Attributes → Option Obj
get_attribute name no_attributes = none
get_attribute name (attribute n o rest) = if n =ₛ name then some o else get_attribute name rest

abbrev converted : String → Attributes → Option (Attributes → Obj → Obj) → Option Obj → Attributes
converted name self (some f) (some o) = set_attribute name (f self o) self
converted name self _ _ = self

-- `_convert`: in the order of the fields, each on what the earlier ones left.
unfoldable pub convert_fields : Metadata → List ClassField → Attributes → Attributes
unfolding set_attribute get_attribute
convert_fields metadata [] self = self
convert_fields metadata (f ∷ fs) self =
    convert_fields metadata fs (
      converted f.field_name self (metadata.convert f.field_name) (get_attribute f.field_name self))

-- The errors of a field; none when it has no such attribute.
abbrev pub field_errors : Option (Obj → Errors) → (Obj → Errors) → Option Obj → Option Errors
field_errors validator by_type none = none
field_errors none by_type (some o) = some (by_type o)
field_errors (some validator) by_type (some o) = some (validator o)

-- errors[f.name] = ers, if there are some.
abbrev pub add_errors : String → Option Errors → Option (Dict Errors) → Option (Dict Errors)
add_errors name (some []) (some rest) = some rest
add_errors name (some (e ∷ es)) (some rest) = some ((name, e ∷ es) ∷ rest)
add_errors name _ _ = none

abbrev applied : Attributes → Option (Attributes → Obj → Errors) → Option (Obj → Errors)
applied self none = none
applied self (some f) = some (f self)

module _ (python : Python) (instances : Instances) (metadata : Metadata) where
  -- `_validate`: the errors of the fields, which are raised if there are some. An attribute that is
  -- missing is an AttributeError, here none.
  unfoldable pub validate_fields : List ClassField → Attributes → Option (Dict Errors)
  unfolding get_attribute validate_types
  validate_fields [] self = some []
  validate_fields (f ∷ fs) self =
      add_errors f.field_name
        (field_errors (applied self (metadata.validate f.field_name))
          (validate_types python instances (single f.field_type)) (get_attribute f.field_name self))
        (validate_fields fs self)

  -- `__post_init__`
  unfoldable pub post_init : List ClassField → Attributes → Attributes × Option (Dict Errors)
  unfolding convert_fields validate_fields
  post_init fs self = let made = convert_fields metadata fs self in (made, validate_fields fs made)

  -- The attribute of a field is of its type, or is its default.
  get_attribute-found :
      (name : String) (f : ClassField) (fs : List ClassField) (self : Attributes)
      → FitsFields python fs self
      → field_of name fs ≡ some f
      → (o : Obj) × (get_attribute name self ≡ some o)
        × (FitsTypes python (single f.field_type) o ⊎ (f.default ≡ some o))
  unfolding get_attribute
  get_attribute-found name f fs self FitsFields.fields_fit h = absurd (cc)
  get_attribute-found name f fs self (FitsFields.by_value {f = g} {fs = gs} {o} {attrs} fits rest)
        h =
      elim (Bool-cases (g.field_name =ₛ name)) [
        | inl e ↦
            let i : some g ≡ some f = rw e at h in
            (
              o,
              rw e refl,
              let same : g ≡ f = cc in
                  inl (
                    subst (λ (x : ClassField). FitsTypes python (single x.field_type) o) same fits),
            )
        | inr e ↦ rw e (get_attribute-found name f gs attrs rest (rw e at h))
      ]
  get_attribute-found name f fs self (FitsFields.by_default {f = g} {fs = gs} {o} {attrs} d rest)
        h =
      elim (Bool-cases (g.field_name =ₛ name)) [
        | inl e ↦
            let i : some g ≡ some f = rw e at h in
            (
              o,
              rw e refl,
              inr (let same : f ≡ g = cc in ap (λ (x : ClassField). x.default) same ∙ d),
            )
        | inr e ↦ rw e (get_attribute-found name f gs attrs rest (rw e at h))
      ]

  -- A field without a validator, whose default is of its type.
  abbrev pub PlainField : ClassField → Type 0
  PlainField f =
      (metadata.validate f.field_name ≡ none)
      × ((o : Obj)
          → f.default ≡ some o
          → validate_types python instances (single f.field_type) o ≡ [])

  validate_fields-found :
      (all fs : List ClassField) (self : Attributes)
      → FitsFields python all self
      → All (λ (f : ClassField). field_of f.field_name all ≡ some f) fs
      → All PlainField fs
      → validate_fields fs self ≡ some []
  unfolding validate_fields
  validate_fields-found all [] self fits known plain = refl
  validate_fields-found all (f ∷ fs) self fits (k, known) ((v, d), plain) =
      let (o, found, how) = get_attribute-found f.field_name f all self fits k in
      let rest = validate_fields-found all fs self fits known plain in
      let passes : validate_types python instances (single f.field_type) o ≡ [] = elim how [
        | inl fits_type ↦
            FitsTypes-validate_types python instances (single f.field_type) o fits_type
        | inr e ↦ d o e
      ] in
      rw (v, found, rest) (rw passes refl)

  ClassFits : Ty → Obj → Type 0
  ClassFits (class_type name) (instance_of n self) =
      FitsFields python (python.class_of name).class_fields self
  ClassFits t o = Unit

  Fits-ClassFits : (t : Ty) (o : Obj) → Fits python t o → ClassFits t o
  unfolding ClassFits
  Fits-ClassFits t o (Fits.fits_class f) = f
  Fits-ClassFits t o _ = tt

  -- An instance whose attributes are of their types passes `_validate`.
  pub validate_fields-nil :
      (name : String) (self : Attributes)
      → WellFormed (python.class_of name)
      → All PlainField (python.class_of name).class_fields
      → FitsTypes python (single (class_type name)) (instance_of name self)
      → validate_fields (python.class_of name).class_fields self ≡ some []
  unfolding ClassFits
  validate_fields-nil name self well_formed plain (FitsTypes.one_of (FitsOne.first_type f)) =
      validate_fields-found (python.class_of name).class_fields (python.class_of name).class_fields
        self (Fits-ClassFits (class_type name) (instance_of name self) f) well_formed plain
  validate_fields-nil name self well_formed plain (FitsTypes.one_of (FitsOne.later_type f)) =
      elim f [ ]

-- ===== src/Json/AsJson/Rows.antt =====
-- What an object of JSON holds for an instance: a row for each field that was written.
use robotframework_jsonrpcre.Base.{
  false, none, some, List, [], ◌∷◌, ◌++◌, All, String, ◌≡◌, refl, sym, ap, subst, ◌∙◌, arith, ◌=ₛ◌,
  eq_iff, inl, inr, Bool-cases,
}
use mathlib.Core.List.{append-nil, append_assoc}
use robotframework_jsonrpcre.Base.Dict.{Dict, lookup, put}
use robotframework_jsonrpcre.Base.Result.{ok}
use robotframework_jsonrpcre.Value.{Value}
use robotframework_jsonrpcre.Json.Types.{
  Obj, Attributes, no_attributes, attribute, ClassField, Class, single,
}
use robotframework_jsonrpcre.Json.Handlers.{Conversion}
use robotframework_jsonrpcre.Json.Classes.{decode_name, cased}
use robotframework_jsonrpcre.Json.AsJson.{encode_name}

-- A field, its conversion back, and the object that it gives.
pub record Row : Type 0 where
  pub row_field : ClassField
  pub json : Value
  pub conversion : Conversion
  pub object : Obj

abbrev pub Apart : ClassField → List ClassField → Type 0
Apart f fs = All (λ (g : ClassField). (f.field_name =ₛ g.field_name) ≡ false) fs

-- The fields have different names.
abbrev pub Distinct : List ClassField → Type 0
Distinct [] = Unit
Distinct (f ∷ fs) = Apart f fs × Distinct fs

-- The rows of the fields that were written; a field that was not has its default.
pub data RowsOf : List ClassField → List Row → Attributes → Type 0 where
  all_rows : RowsOf [] [] no_attributes
  written :
      {f : ClassField} {fs : List ClassField} {r : Row} {rows : List Row} {self : Attributes}
      → r.row_field ≡ f
      → r.conversion (single f.field_type) ≡ ok r.object
      → RowsOf fs rows self
      → RowsOf (f ∷ fs) (r ∷ rows) (attribute f.field_name r.object self)
  left_out :
      {f : ClassField} {fs : List ClassField} {o : Obj} {rows : List Row} {self : Attributes}
      → f.default ≡ some o
      → RowsOf fs rows self
      → RowsOf (f ∷ fs) rows (attribute f.field_name o self)

abbrev pub row_table {ℓ} : {V : Type ℓ} → (Row → V) → List Row → Dict V
row_table g [] = []
row_table g (r ∷ rows) = (r.row_field.field_name, g r) ∷ row_table g rows

abbrev pub row_dict : List Row → Dict Conversion
row_dict rows = row_table (λ r. r.conversion) rows

abbrev pub row_parameters : List Row → Dict Obj
row_parameters rows = row_table (λ r. r.object) rows

abbrev pub row_members : Class → List Row → List (String × Conversion)
row_members c [] = []
row_members c (r ∷ rows) = (encode_name c r.row_field, r.conversion) ∷ row_members c rows

-- No row is of the field `f`.
abbrev pub Absent : ClassField → List Row → Type 0
Absent f rows = All (λ (r : Row). (f.field_name =ₛ r.row_field.field_name) ≡ false) rows

pub Apart-Absent :
    (f : ClassField) (fs : List ClassField) (rows : List Row) (self : Attributes)
    → RowsOf fs rows self
    → Apart f fs
    → Absent f rows
Apart-Absent f fs rows self RowsOf.all_rows a = tt
Apart-Absent f fs rows self (RowsOf.written {f = g} {fs = gs} {r} {rows = rest} {self = more} e _ h)
      (n, a) =
    (
      subst (λ (x : ClassField). (f.field_name =ₛ x.field_name) ≡ false) (sym e) n,
      Apart-Absent f gs rest more h a,
    )
Apart-Absent f fs rows self (RowsOf.left_out {fs = gs} {self = more} _ h) (n, a) =
    Apart-Absent f gs rows more h a

pub not_eq_swapped : (a b : String) → (a =ₛ b) ≡ false → (b =ₛ a) ≡ false
not_eq_swapped a b h = ground (arith, eq_iff a b, eq_iff b a)

pub lookup-Absent {ℓ} :
    {V : Type ℓ} (f : ClassField) (rows : List Row) (g : Row → V)
    → Absent f rows
    → lookup f.field_name (row_table g rows) ≡ none
unfolding lookup
lookup-Absent f [] g a = refl
lookup-Absent f (r ∷ rows) g (n, a) =
    rw (not_eq_swapped f.field_name r.row_field.field_name n) (lookup-Absent f rows g a)

put_fresh {ℓ} :
    {V : Type ℓ} (k : String) (v : V) (d : Dict V)
    → lookup k d ≡ none
    → put k v d ≡ d ++ (k, v) ∷ []
unfolding lookup put
put_fresh k v [] h = refl
put_fresh k v ((j, w) ∷ d) h = elim (Bool-cases (j =ₛ k)) [
  | inl e ↦ absurd (let i = rw e at h in cc)
  | inr e ↦ rw e (ap (λ x. (j, w) ∷ x) (put_fresh k v d (rw e at h)))
]

lookup-append_fresh {ℓ} :
    {V : Type ℓ} (k j : String) (v : V) (d : Dict V)
    → lookup k d ≡ none
    → (j =ₛ k) ≡ false
    → lookup k (d ++ (j, v) ∷ []) ≡ none
unfolding lookup
lookup-append_fresh k j v [] h n = rw n refl
lookup-append_fresh k j v ((i, w) ∷ d) h n = ground (arith, lookup-append_fresh k j v d)

module _ (c : Class) where
  -- The keys of the class come back to the names of its fields.
  abbrev pub Decodes : List ClassField → Type 0
  Decodes fs = All (λ (f : ClassField). decode_name c (encode_name c f) ≡ f.field_name) fs

  -- No row stands in the dict yet.
  abbrev AllFresh : List Row → Dict Conversion → Type 0
  AllFresh rows d = All (λ (r : Row). lookup r.row_field.field_name d ≡ none) rows

  AllFresh-append :
      (f : ClassField) (v : Conversion) (rows : List Row) (d : Dict Conversion)
      → Absent f rows
      → AllFresh rows d
      → AllFresh rows (d ++ (f.field_name, v) ∷ [])
  AllFresh-append f v [] d a h = tt
  AllFresh-append f v (r ∷ rows) d (n, a) (e, h) = (
    lookup-append_fresh r.row_field.field_name f.field_name v d e n,
    AllFresh-append f v rows d a h,
  )

  cased-cons :
      (k n : String) (v : Conversion) (ms : List (String × Conversion)) (d : Dict Conversion)
      → decode_name c k ≡ n
      → cased c ((k, v) ∷ ms) d ≡ cased c ms (put n v d)
  unfolding cased decode_name
  cased-cons k n v ms d h = ap (λ x. cased c ms (put x v d)) h

  -- The object with its keys decoded is the table of the rows.
  cased-row_members :
      (fs : List ClassField) (rows : List Row) (self : Attributes) (d : Dict Conversion)
      → RowsOf fs rows self
      → Distinct fs
      → Decodes fs
      → AllFresh rows d
      → cased c (row_members c rows) d ≡ d ++ row_dict rows
  unfolding cased
  cased-row_members fs rows self d RowsOf.all_rows apart dec fresh = sym (append-nil d)
  cased-row_members fs rows self d
        (RowsOf.written {f} {fs = gs} {r} {rows = rest} {self = more} e _ h) (a, apart) (k, dec)
        (new, fresh) =
      let name = r.row_field.field_name in
      let row : Dict Conversion = (name, r.conversion) ∷ [] in
      let absent = Apart-Absent f gs rest more h a in
      cased-cons (encode_name c r.row_field) name r.conversion (row_members c rest) d (rw e k)
      ∙ ap (cased c (row_members c rest)) (put_fresh name r.conversion d new)
      ∙ cased-row_members gs rest more (d ++ row) h apart dec
          (AllFresh-append r.row_field r.conversion rest d (rw e absent) fresh)
      ∙ append_assoc d row (row_dict rest)
  cased-row_members fs rows self d (RowsOf.left_out {fs = gs} {self = more} _ h) (_, apart) (_, dec)
        fresh =
      cased-row_members gs rows more d h apart dec fresh

  AllFresh-nil : (rows : List Row) → AllFresh rows []
  unfolding lookup
  AllFresh-nil [] = tt
  AllFresh-nil (r ∷ rows) = (refl, AllFresh-nil rows)

  pub cased-row_members_nil :
      (rows : List Row) (self : Attributes)
      → RowsOf c.class_fields rows self
      → Distinct c.class_fields
      → Decodes c.class_fields
      → cased c (row_members c rows) [] ≡ row_dict rows
  cased-row_members_nil rows self h apart dec =
      cased-row_members c.class_fields rows self [] h apart dec (AllFresh-nil rows)

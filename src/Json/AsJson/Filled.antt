-- ===== src/Json/AsJson/Filled.antt =====
-- The rows of an instance fill its class again.
use robotframework_jsonrpcre.Base.{
  true, none, some, List, [], ◌∷◌, All, ◌≡◌, refl, sym, subst, ◌∙◌, arith, eq_refl,
}
use robotframework_jsonrpcre.Base.Dict.{Dict, lookup}
use robotframework_jsonrpcre.Base.Result.{ok}
use robotframework_jsonrpcre.Json.Types.{Obj, Attributes, ClassField, Class}
use robotframework_jsonrpcre.Json.Handlers.{Conversion}
use robotframework_jsonrpcre.Json.Classes.{field_of, all_known, has_required, parameters, construct}
use robotframework_jsonrpcre.Json.AsJson.Rows.{
  Row, Apart, Distinct, RowsOf, row_table, row_dict, row_parameters, Apart-Absent, lookup-Absent,
}

module _ (c : Class) where
  -- The fields are those of the class.
  abbrev pub Fields : List ClassField → Type 0
  Fields fs = All (λ (f : ClassField). field_of f.field_name c.class_fields ≡ some f) fs

  pub all_known-row_dict :
      (fs : List ClassField) (rows : List Row) (self : Attributes)
      → RowsOf fs rows self
      → Fields fs
      → all_known c (row_dict rows) ≡ true
  all_known-row_dict fs rows self RowsOf.all_rows known = refl
  all_known-row_dict fs rows self
        (RowsOf.written {f} {fs = gs} {r} {rows = rest} {self = more} e _ h) (k, known) =
      let found : field_of r.row_field.field_name c.class_fields ≡ some f = rw e k in
      rw found (all_known-row_dict gs rest more h known)
  all_known-row_dict fs rows self (RowsOf.left_out {fs = gs} {self = more} _ h) (_, known) =
      all_known-row_dict gs rows more h known

  pub parameters-row_dict :
      (fs : List ClassField) (rows : List Row) (self : Attributes)
      → RowsOf fs rows self
      → Fields fs
      → parameters c (row_dict rows) ≡ ok (row_parameters rows)
  unfolding parameters
  parameters-row_dict fs rows self RowsOf.all_rows known = refl
  parameters-row_dict fs rows self
        (RowsOf.written {f} {fs = gs} {r} {rows = rest} {self = more} e conv h) (k, known) =
      let found : field_of r.row_field.field_name c.class_fields ≡ some f = rw e k in
      rw (found, parameters-row_dict gs rest more h known, conv) refl
  parameters-row_dict fs rows self (RowsOf.left_out {fs = gs} {self = more} _ h) (_, known) =
      parameters-row_dict gs rows more h known

-- A table that agrees with that of the rows at the fields.
abbrev Agrees {ℓ} : {V : Type ℓ} → (Row → V) → List Row → Dict V → List ClassField → Type ℓ
Agrees g rows d fs =
    All (λ (f : ClassField). lookup f.field_name d ≡ lookup f.field_name (row_table g rows)) fs

Agrees-tail {ℓ} :
    {V : Type ℓ} (g : Row → V) (r : Row) (rows : List Row) (d : Dict V) (fs : List ClassField)
    → Apart r.row_field fs
    → Agrees g (r ∷ rows) d fs
    → Agrees g rows d fs
unfolding lookup
Agrees-tail g r rows d [] a h = tt
Agrees-tail g r rows d (f ∷ fs) (n, a) (e, h) = (e ∙ rw n refl, Agrees-tail g r rows d fs a h)

Agrees-refl {ℓ} :
    {V : Type ℓ} (g : Row → V) (rows : List Row) (fs : List ClassField)
    → Agrees g rows (row_table g rows) fs
Agrees-refl g rows [] = tt
Agrees-refl g rows (f ∷ fs) = (refl, Agrees-refl g rows fs)

Apart-field :
    (f : ClassField) (r : Row) (fs : List ClassField)
    → r.row_field ≡ f
    → Apart f fs
    → Apart r.row_field fs
Apart-field f r fs e a = subst (λ x. Apart x fs) (sym e) a

has_required-Agrees :
    (fs : List ClassField) (rows : List Row) (self : Attributes) (d : Dict Conversion)
    → RowsOf fs rows self
    → Distinct fs
    → Agrees (λ r. r.conversion) rows d fs
    → has_required fs d ≡ true
unfolding lookup
has_required-Agrees fs rows self d RowsOf.all_rows apart h = refl
has_required-Agrees fs rows self d
      (RowsOf.written {f} {fs = gs} {r} {rows = rest} {self = more} e _ k) (a, apart) (l, h) =
    let rest_there =
      has_required-Agrees gs rest more d k apart
        (Agrees-tail (λ x. x.conversion) r rest d gs (Apart-field f r gs e a) h) in
    let here : lookup f.field_name d ≡ some r.conversion =
      l ∙ rw e (rw (eq_refl f.field_name) refl) in
    rw (here, rest_there) (ground arith)
has_required-Agrees fs rows self d (RowsOf.left_out {f} {fs = gs} {rows = rest} {self = more} e k)
      (a, apart) (l, h) =
    rw (e, has_required-Agrees gs rest more d k apart h) refl

construct-Agrees :
    (fs : List ClassField) (rows : List Row) (self : Attributes) (d : Dict Obj)
    → RowsOf fs rows self
    → Distinct fs
    → Agrees (λ r. r.object) rows d fs
    → construct fs d ≡ some self
unfolding lookup construct
construct-Agrees fs rows self d RowsOf.all_rows apart h = refl
construct-Agrees fs rows self d (RowsOf.written {f} {fs = gs} {r} {rows = rest} {self = more} e _ k)
      (a, apart) (l, h) =
    let rest_made =
      construct-Agrees gs rest more d k apart
        (Agrees-tail (λ x. x.object) r rest d gs (Apart-field f r gs e a) h) in
    let here : lookup f.field_name d ≡ some r.object = l ∙ rw e (rw (eq_refl f.field_name) refl) in
    rw (here, rest_made) refl
construct-Agrees fs rows self d (RowsOf.left_out {f} {fs = gs} {rows = rest} {self = more} e k)
      (a, apart) (l, h) =
    let absent : lookup f.field_name d ≡ none =
      l ∙ lookup-Absent f rest (λ x. x.object) (Apart-Absent f gs rest more k a) in
    rw (absent, e, construct-Agrees gs rest more d k apart h) refl

pub has_required-row_dict :
    (fs : List ClassField) (rows : List Row) (self : Attributes)
    → RowsOf fs rows self
    → Distinct fs
    → has_required fs (row_dict rows) ≡ true
has_required-row_dict fs rows self k apart =
    has_required-Agrees fs rows self (row_dict rows) k apart
      (Agrees-refl (λ r. r.conversion) rows fs)

pub construct-row_parameters :
    (fs : List ClassField) (rows : List Row) (self : Attributes)
    → RowsOf fs rows self
    → Distinct fs
    → construct fs (row_parameters rows) ≡ some self
construct-row_parameters fs rows self k apart =
    construct-Agrees fs rows self (row_parameters rows) k apart
      (Agrees-refl (λ r. r.object) rows fs)

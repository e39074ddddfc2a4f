-- ===== src/Json/AsJson/Handled.antt =====
-- One step back from JSON: what the handler of a type gives, and new keys of an object.
use robotframework_jsonrpcre.Base.{
  Bool, true, false, none, some, List, [], ◌∷◌, ◌≡◌, refl, sym, ap, subst, ◌∙◌, arith, ◌=ₛ◌, eq_iff,
  inl, inr, Bool-cases,
}
use robotframework_jsonrpcre.Base.Dict.{lookup}
use robotframework_jsonrpcre.Base.Result.{ok}
use robotframework_jsonrpcre.Value.{
  Value, null, boolean, integer, float, text, array, object, other, Items, nil, cons, end, field,
  fields,
}
use robotframework_jsonrpcre.Value as Value
use robotframework_jsonrpcre.Json.Types.{
  Basic, int_type, bool_type, float_type, str_type, none_type, Ty, basic, list_of, class_type, Tys,
  types, Obj, as_is, Attributes, ClassField, Class, Python,
}
use robotframework_jsonrpcre.Json.Handlers.{
  Shape, leaf, handle_basic_types, handle_sequence, is_mapping,
}
use robotframework_jsonrpcre.Json.Classes.{decode_name, finish}
use robotframework_jsonrpcre.Json.FromDict.{
  taken, handle, try_types, from_shape, from_dict, conversions, member_conversions,
}
use robotframework_jsonrpcre.Json.Fits.{is_of}
use robotframework_jsonrpcre.Json.AsJson.{encode_name, is_json}
use robotframework_jsonrpcre.Json.AsJson.Rows.{Row, Apart, Decodes, RowsOf}
use robotframework_jsonrpcre.Json.AsJson.Plain.{optional, refuses_null}
use robotframework_jsonrpcre.Json.AsJson.Restored.{or_none}

pub is_of-is_json : (b : Basic) (v : Value) → is_of b v ≡ true → is_json v ≡ true
unfolding is_json
is_of-is_json bool_type (boolean b) h = refl
is_of-is_json int_type (integer n) h = refl
is_of-is_json float_type (float x) h = refl
is_of-is_json str_type (text t) h = refl
is_of-is_json none_type null h = refl
is_of-is_json b v h = absurd (cc)

-- The fields that the rows are written as.
abbrev pub row_fields : Class → List Row → Value.Fields
row_fields c [] = end
row_fields c (r ∷ rows) = field (encode_name c r.row_field) r.json (row_fields c rows)

-- A key that decodes to another name than those of the rows is new.
pub lookup-row_fields :
    (c : Class) (f : ClassField) (fs : List ClassField) (rows : List Row) (self : Attributes)
    → decode_name c (encode_name c f) ≡ f.field_name
    → RowsOf fs rows self
    → Decodes c fs
    → Apart f fs
    → lookup (encode_name c f) (fields (row_fields c rows)) ≡ none
unfolding lookup
lookup-row_fields c f fs rows self d RowsOf.all_rows dec apart = refl
lookup-row_fields c f fs rows self d
      (RowsOf.written {f = g} {fs = gs} {r} {rows = rest} {self = more} e _ h) (k, dec) (n, apart) =
    elim (Bool-cases (encode_name c r.row_field =ₛ encode_name c f)) [
      | inr differs ↦ rw differs (lookup-row_fields c f gs rest more d h dec apart)
      | inl same ↦
          let keys : encode_name c r.row_field ≡ encode_name c f =
            ground (arith, eq_iff (encode_name c r.row_field) (encode_name c f)) in
          let decoded = subst (λ x. encode_name c x ≡ encode_name c f) e keys in
          let names : f.field_name ≡ g.field_name =
            sym d ∙ (ap (decode_name c) (sym decoded) ∙ k) in
          absurd (ground (arith, eq_iff f.field_name g.field_name))
    ]
lookup-row_fields c f fs rows self d (RowsOf.left_out {fs = gs} {self = more} _ h) (_, dec)
      (_, apart) =
    lookup-row_fields c f gs rows more d h dec apart

module _ (strict : Bool) (python : Python) where
  -- The value with the conversions of its parts.
  abbrev pub shape_of : Value → Shape
  shape_of (array xs) = record {
    value = array xs;
    elements = conversions strict python xs;
    members = [];
  }
  shape_of (object fs) = record {
    value = object fs;
    elements = [];
    members = member_conversions strict python fs;
  }
  shape_of v = leaf v

  from_dict-shape :
      (v : Value) (ts : Tys)
      → from_dict strict python v ts ≡ from_shape strict python (shape_of v) ts
  unfolding from_dict
  from_dict-shape (array xs) ts = refl
  from_dict-shape (object fs) ts = refl
  from_dict-shape _ ts = refl

  pub value-shape_of : (v : Value) → (shape_of v).value ≡ v
  value-shape_of (array xs) = refl
  value-shape_of (object fs) = refl
  value-shape_of _ = refl

  -- What the handler of the first type takes is the result.
  pub handled_first :
      (v : Value) (t : Ty) (ts : Tys) (o : Obj)
      → is_mapping t ≡ false
      → handle strict python (shape_of v) t ≡ ok (some o)
      → from_dict strict python v (types t ts) ≡ ok o
  unfolding from_shape try_types finish
  handled_first v t ts o m h = from_dict-shape v (types t ts) ∙ rw (h, m) refl

  pub basic-handled :
      (b : Basic) (v : Value)
      → is_of b v ≡ true
      → handle strict python (shape_of v) (basic b) ≡ ok (some (as_is v))
  unfolding handle handle_basic_types
  basic-handled bool_type (boolean b) h = refl
  basic-handled int_type (integer n) h = refl
  basic-handled float_type (float x) h = refl
  basic-handled str_type (text t) h = refl
  basic-handled none_type null h = refl
  basic-handled b v h = absurd (cc)

  null-refused : (t : Ty) → refuses_null t ≡ true → handle strict python (leaf null) t ≡ ok none
  unfolding handle handle_basic_types handle_sequence
  null-refused (basic int_type) h = ground arith
  null-refused (basic bool_type) h = ground arith
  null-refused (basic float_type) h = ground arith
  null-refused (basic str_type) h = ground arith
  null-refused (list_of ts) h = refl
  null-refused (class_type name) h = refl
  null-refused t h = absurd (cc)

  -- A type that None is not taken for leaves it to the type None.
  pub null_last :
      (t : Ty) (more : Tys)
      → refuses_null t ≡ true
      → from_dict strict python null (types (optional t) more) ≡ ok (as_is null)
  unfolding handle try_types finish handle_basic_types
  null_last t more h =
      handled_first null (optional t) more (as_is null) refl (rw (null-refused t h) refl)

  -- What is taken for a type is taken for the type with None.
  pub optional-handled :
      (v : Value) (t : Ty) (o : Obj)
      → from_dict strict python v (types t (or_none true)) ≡ ok o
      → handle strict python (shape_of v) (optional t) ≡ ok (some o)
  unfolding handle from_shape
  optional-handled v t o h =
      let shaped = sym (from_dict-shape v (types t (or_none true))) ∙ h in ap taken shaped

-- ===== src/Json/AsJson/RoundTrip.antt =====
-- `from_dict` undoes `as_json`.
use robotframework_jsonrpcre.Base.{
  Bool, true, false, some, List, [], ◌∷◌, map, String, ◌≡◌, refl, ap, ◌∙◌,
}
use robotframework_jsonrpcre.Base.Result.{ok}
use robotframework_jsonrpcre.Value.{Value, null, array, object, Items, nil, cons, field}
use robotframework_jsonrpcre.Json.Types.{
  Ty, class_type, Tys, types, Obj, as_is, Objs, Attributes, ClassField, Class, Python, single,
}
use robotframework_jsonrpcre.Json.Handlers.{Conversion, handle_sequence, all_of, is_mapping}
use robotframework_jsonrpcre.Json.Classes.{decode_name}
use robotframework_jsonrpcre.Json.FromDict.{
  handle, from_shape, from_dict, conversions, member_conversions,
}
use robotframework_jsonrpcre.Json.AsJson.{
  Writing, encode_name, before, is_json, as_json, items_json, attributes_json,
}
use robotframework_jsonrpcre.Json.AsJson.Rows.{Row, Apart, Distinct, Decodes, RowsOf, row_members}
use robotframework_jsonrpcre.Json.AsJson.Plain.{Plain, PlainAll, PlainFields, Named}
use robotframework_jsonrpcre.Json.AsJson.Restored.{or_none, from_shape-row_shape}
use robotframework_jsonrpcre.Json.AsJson.Handled.{
  is_of-is_json, row_fields, lookup-row_fields, shape_of, value-shape_of, handled_first,
  basic-handled, null_last, optional-handled,
}

module _ (strict : Bool) (python : Python) (writing : Writing) where
  -- The object is written, and what was written comes back as the object, also where None is allowed besides.
  abbrev Restores : Ty → Obj → Type 0
  Restores t o =
      (v : Value) × (as_json python writing o ≡ ok v)
      × ((b : Bool) → from_dict strict python v (types t (or_none b)) ≡ ok o)

  handle-Restores :
      (v : Value) (t : Ty) (o : Obj)
      → is_mapping t ≡ false
      → as_json python writing o ≡ ok v
      → handle strict python (shape_of strict python v) t ≡ ok (some o)
      → Restores t o
  handle-Restores v t o m w h = (v, w, λ b. handled_first strict python v t (or_none b) o m h)

  json_value : (v : Value) → is_json v ≡ true → as_json python writing (as_is v) ≡ ok v
  unfolding as_json
  json_value v h = rw h refl

  -- The rows of an instance: what is written, and that it comes back.
  abbrev Rows : String → List ClassField → Attributes → Type 0
  Rows name fs self =
      (rows : List Row) × RowsOf fs rows self
      × (attributes_json python writing name fs self ≡ ok (row_fields (python.class_of name) rows))
      × (member_conversions strict python (row_fields (python.class_of name) rows)
          ≡ row_members (python.class_of name) rows)

  abbrev ItemsRestored : Ty → Objs → Type 0
  ItemsRestored t os =
      (vs : Items) × (items_json python writing os ≡ ok vs)
      × (all_of (map (λ (c : Conversion). c (single t)) (conversions strict python vs)) ≡ ok os)

  before-row_fields :
      (c : Class) (f : ClassField) (v : Value) (fs : List ClassField) (rows : List Row)
      (self : Attributes)
      → decode_name c (encode_name c f) ≡ f.field_name
      → RowsOf fs rows self
      → Decodes c fs
      → Apart f fs
      → before (encode_name c f) v (row_fields c rows)
        ≡ field (encode_name c f) v (row_fields c rows)
  unfolding before
  before-row_fields c f v fs rows self d h dec apart =
      rw (lookup-row_fields c f fs rows self d h dec apart) refl

  module _ (named : (name : String) → Named (python.class_of name)) where
    mutual
      unfolding as_json items_json attributes_json handle handle_sequence all_of conversions
          member_conversions from_dict

      restores : (t : Ty) (o : Obj) → Plain python writing t o → Restores t o
      restores t o (Plain.plain_any {v} j) =
          handle-Restores v t o refl (json_value v j) (rw (value-shape_of strict python v) refl)
      restores t o (Plain.plain_basic {b} {v} h) =
          handle-Restores v t o refl (json_value v (is_of-is_json b v h))
            (basic-handled strict python b v h)
      restores t o (Plain.plain_enum {name} {m} {members} j h) =
          handle-Restores (writing.member_value name m) t o refl (rw j refl)
            (rw (value-shape_of strict python (writing.member_value name m)) h)
      restores t o (Plain.plain_list {t = one} {os} h) =
          let (vs, w, back) = restores_all one os h in
          handle-Restores (array vs) t o refl (rw w refl) (rw back refl)
      restores t o (Plain.plain_optional {t = one} h) =
          let (v, w, back) = restores one o h in
          handle-Restores v t o refl w (optional-handled strict python v one o (back true))
      restores t o (Plain.plain_null {t = one} h) =
          (null, refl, λ b. null_last strict python one (or_none b) h)
      restores t o (Plain.plain_instance {name} {self} h) =
          let c = python.class_of name in
          let (rows, all, w, back) =
            restores_fields name c.class_fields self (named name).distinct (named name).decodes h in
          (
            object (row_fields c rows),
            rw w refl,
            λ b.
                ap
                  (λ (ms : List (String × Conversion)).
                    from_shape strict python
                      (record { value = object (row_fields c rows); elements = []; members = ms })
                      (types (class_type name) (or_none b)))
                  back
                ∙ from_shape-row_shape strict python name rows self (named name) all
                    (row_fields c rows) b,
          )

      restores_all : (t : Ty) (os : Objs) → PlainAll python writing t os → ItemsRestored t os
      restores_all t os PlainAll.plain_all = (nil, refl, refl)
      restores_all t os (PlainAll.and_plain {o = o1} {os = rest} h hs) =
          let (v, w, back) = restores t o1 h in
          let (vs, ws, backs) = restores_all t rest hs in
          (cons v vs, rw (w, ws) refl, rw (back false, backs) refl)

      restores_fields :
          (name : String) (fs : List ClassField) (self : Attributes)
          → Distinct fs
          → Decodes (python.class_of name) fs
          → PlainFields python writing name fs self
          → Rows name fs self
      restores_fields name fs self apart dec PlainFields.plain_end =
          ([], RowsOf.all_rows, refl, refl)
      restores_fields name fs self (a, apart) (d, dec)
            (PlainFields.plain_written {f} {fs = gs} {o} {self = more} i h hs) =
          let c = python.class_of name in
          let (v, w, back) = restores f.field_type o h in
          let (rows, all, ws, backs) = restores_fields name gs more apart dec hs in
          let r : Row = record {
            row_field = f;
            json = v;
            conversion = λ ts. from_dict strict python v ts;
            object = o;
          } in
          (
            r ∷ rows,
            RowsOf.written {r = r} refl (back false) all,
            rw (i, w, ws) (ap (λ x. ok x) (before-row_fields c f v gs rows more d all dec a)),
            ap
                (λ (ms : List (String × Conversion)).
                  (encode_name c f, (λ (ts : Tys). from_dict strict python v ts)) ∷ ms)
                backs,
          )
      restores_fields name fs self (a, apart) (d, dec)
            (PlainFields.plain_left_out {f} {fs = gs} {o} {self = more} i e hs) =
          let (rows, all, ws, backs) = restores_fields name gs more apart dec hs in
          (rows, RowsOf.left_out e all, rw i ws, backs)

  -- Where the fields of each class have different names and the keys that they are written under
  -- decode to them, an object of a plain type, whose fields are written or have their default, is written
  -- by `as_json`, and `from_dict` for that type, strict or not, makes the same object of what was written.
  pub from_dict-as_json :
      (t : Ty) (o : Obj)
      → ((name : String) → Named (python.class_of name))
      → Plain python writing t o
      → (v : Value) × (as_json python writing o ≡ ok v)
        × (from_dict strict python v (single t) ≡ ok o)
  from_dict-as_json t o named h = let (v, w, back) = restores named t o h in (v, w, back false)

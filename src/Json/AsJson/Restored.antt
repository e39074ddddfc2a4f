-- ===== src/Json/AsJson/Restored.antt =====
-- An instance that `as_json` wrote is what `from_dict` makes of it.
use robotframework_jsonrpcre.Base.{
  ℕ, suc, Bool, true, false, none, List, [], ◌∷◌, String, ◌≡◌, refl, ap, ◌∙◌, arith, ◌||◌,
}
use robotframework_jsonrpcre.Base.Dict.{Dict}
use robotframework_jsonrpcre.Base.Result.{ok}
use robotframework_jsonrpcre.Value.{object, Fields}
use robotframework_jsonrpcre.Json.Types.{
  none_type, basic, class_type, Tys, no_types, types, instance_of, Attributes, Python,
}
use robotframework_jsonrpcre.Json.Handlers.{Conversion, Shape, open_yet, handle_basic_types}
use robotframework_jsonrpcre.Json.Classes.{
  cased, is_candidate, count_known, Match, best, matches_from, create, create_all, finish,
}
use robotframework_jsonrpcre.Json.FromDict.{handle, try_types, from_shape}
use robotframework_jsonrpcre.Json.AsJson.Rows.{
  Row, RowsOf, row_dict, row_members, cased-row_members_nil,
}
use robotframework_jsonrpcre.Json.AsJson.Filled.{
  all_known-row_dict, parameters-row_dict, has_required-row_dict, construct-row_parameters,
}
use robotframework_jsonrpcre.Json.AsJson.Plain.{Named, Distinct-Fields}

-- The type alone, or with None.
abbrev pub or_none : Bool → Tys
or_none true = types (basic none_type) no_types
or_none false = no_types

best-candidate :
    (candidate : Bool) (same : ℕ) (m : Match)
    → candidate ≡ true
    → best candidate same m (0, []) ≡ (suc same, m ∷ [])
best-candidate candidate same m h = ground arith

module _ (strict : Bool) (python : Python) where
  matches_from-or_none :
      (only b : Bool) (members : List (String × Conversion)) (found : ℕ × List Match)
      → matches_from python only members (or_none b) found ≡ found
  unfolding matches_from
  matches_from-or_none only true members found = refl
  matches_from-or_none only false members found = refl

  none_type-object :
      (fs : Fields) → handle_basic_types strict python none_type (object fs) ≡ ok none
  unfolding handle_basic_types
  none_type-object fs = ground arith

  module _ (name : String) (rows : List Row) (self : Attributes)
      (named : Named (python.class_of name))
      (all : RowsOf (python.class_of name).class_fields rows self) where
    cased_rows :
        cased (python.class_of name) (row_members (python.class_of name) rows) [] ≡ row_dict rows
    cased_rows =
        cased-row_members_nil (python.class_of name) rows self all named.distinct named.decodes

    created : create python (name, row_dict rows) ≡ ok (instance_of name self)
    unfolding create
    created =
        let c = python.class_of name in
        rw
          (
            parameters-row_dict c c.class_fields rows self all (Distinct-Fields c named.distinct),
            construct-row_parameters c.class_fields rows self all named.distinct,
          )
          refl

    candidate : (only : Bool) → is_candidate only (python.class_of name) (row_dict rows) ≡ true
    candidate only =
        let c = python.class_of name in
        rw
          (
            all_known-row_dict c c.class_fields rows self all (Distinct-Fields c named.distinct),
            has_required-row_dict c.class_fields rows self all named.distinct,
          )
          (ground arith)

    matched :
        (only b : Bool)
        → matches_from python only
            (row_members (python.class_of name) rows)
            (types (class_type name) (or_none b))
            (0, [])
          ≡ (suc (count_known (python.class_of name) (row_dict rows)), (name, row_dict rows) ∷ [])
    unfolding matches_from
    matched only b =
        let c = python.class_of name in
        let d = row_dict rows in
        ap
          (λ (x : Dict Conversion).
            matches_from python only (row_members c rows) (or_none b)
              (best (is_candidate only c x) (count_known c x) (name, x) (0, [])))
          cased_rows
        ∙ rw (best-candidate (is_candidate only c d) (count_known c d) (name, d) (candidate only)) (
            matches_from-or_none only b (row_members c rows)
              (suc (count_known c d), (name, d) ∷ []))

    -- The object of the rows, with the conversions of their values.
    abbrev pub row_shape : Fields → Shape
    row_shape fs = record {
      value = object fs;
      elements = [];
      members = row_members (python.class_of name) rows;
    }

    finish-rows :
        (fs : Fields) (b : Bool)
        → finish strict python
            (row_shape fs)
            (types (class_type name) (or_none b))
            (open_yet none none)
          ≡ ok (instance_of name self)
    unfolding finish create_all
    finish-rows fs b = rw (matched (strict || false) b, created) refl

    -- Of an object with these members, `from_dict` makes the instance.
    pub from_shape-row_shape :
        (fs : Fields) (b : Bool)
        → from_shape strict python (row_shape fs) (types (class_type name) (or_none b))
          ≡ ok (instance_of name self)
    unfolding from_shape try_types handle
    from_shape-row_shape fs true = rw (none_type-object fs) (finish-rows fs true)
    from_shape-row_shape fs false = finish-rows fs false

-- ===== src/Json/FromDict.antt =====
-- `from_dict` of packages/jsonrpcpeer/src/jsonrpcpeer/json_helpers.py: on the types, then on the value.
use robotframework_jsonrpcre.Base.{Bool, Option, none, some, List, [], ◌∷◌, String}
use robotframework_jsonrpcre.Base.Result.{Result, ok, err}
use robotframework_jsonrpcre.Value.{
  Value, text, array, object, Items, nil, cons, Fields, end, field,
}
use robotframework_jsonrpcre.Json.Types.{
  Ty, any, basic, union, literal, enum, tuple_of, tuple_every, list_of, mapping_of, class_type, Tys,
  no_types, types, Obj, as_is, Failure, Python,
}
use robotframework_jsonrpcre.Json.Handlers.{
  Conversion, Shape, leaf, Handled, handle_basic_types, handle_literal, handle_enum,
  handle_sequence, handle_tuple, handle_tuple_every, handle_mapping, Tried, open_yet, turn,
  is_mapping, is_one,
}
use robotframework_jsonrpcre.Json.Classes.{finish}

-- `__from_dict_handle_union` gives what `from_dict` gives.
abbrev pub taken : Result Failure Obj → Handled
taken (ok o) = ok (some o)
taken (err e) = err e

module _ (strict : Bool) (python : Python) where
  -- from_dict(value, types), from what the loop comes to.
  abbrev pub from_loop : Shape → Tys → Tried → Result Failure Obj
  from_loop s no_types tried = ok (as_is s.value)
  from_loop s (types t ts) tried = finish strict python s (types t ts) tried

  -- The handler of a type, and the loop over types.
  unfoldable mutual
    unfolding finish handle_basic_types handle_literal handle_enum handle_sequence handle_tuple
        handle_tuple_every handle_mapping

    pub handle : Shape → Ty → Handled
    handle s any = ok (some (as_is s.value))
    handle s (basic b) = handle_basic_types strict python b s.value
    handle s (union ts) = taken (from_loop s ts (try_types s (is_one ts) none ts))
    handle s (literal values) = handle_literal python values s.value
    handle s (enum name members) = handle_enum python name members s.value
    handle s (tuple_of ts) = handle_tuple s ts
    handle s (tuple_every t) = handle_tuple_every s t
    handle s (list_of ts) = handle_sequence s ts
    handle s (mapping_of key value) =
        handle_mapping
          (λ n. from_loop (leaf (text n)) key (try_types (leaf (text n)) (is_one key) none key)) s
          value
    handle s (class_type name) = ok none

    pub try_types : Shape → Bool → Option Failure → Tys → Tried
    try_types s alone first_error no_types = open_yet first_error none
    try_types s alone first_error (types t ts) =
        turn alone (is_mapping t) first_error (handle s t) (λ fe. try_types s alone fe ts)

  unfoldable pub from_shape : Shape → Conversion
  unfolding try_types
  from_shape s ts = from_loop s ts (try_types s (is_one ts) none ts)

  unfoldable mutual
    unfolding from_shape

    pub from_dict : Value → Conversion
    from_dict (array xs) ts =
        from_shape (record { value = array xs; elements = conversions xs; members = [] }) ts
    from_dict (object fs) ts =
        from_shape (record { value = object fs; elements = []; members = member_conversions fs }) ts
    from_dict v ts = from_shape (leaf v) ts

    pub conversions : Items → List Conversion
    conversions nil = []
    conversions (cons v vs) = (λ ts. from_dict v ts) ∷ conversions vs

    pub member_conversions : Fields → List (String × Conversion)
    member_conversions end = []
    member_conversions (field k v fs) = (k, (λ ts. from_dict v ts)) ∷ member_conversions fs

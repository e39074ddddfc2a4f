-- ===== src/Json/Handlers.antt =====
-- The handlers of `from_dict` in packages/jsonrpcpeer/src/jsonrpcpeer/json_helpers.py. `from_dict` recurs on the
-- value and, at one value, on the types: here a value is a shape, whose parts are the conversions of its
-- elements.
use robotframework_jsonrpcre.Base.{
  ℕ, suc, Bool, true, false, not, Option, none, some, List, [], ◌∷◌, map, String, ◌&&◌, ◌||◌, ◌==◌,
  if◌then◌else◌, length, format,
}
use robotframework_jsonrpcre.Base.Result.{Result, ok, err, ◌>>=◌}
use robotframework_jsonrpcre.Value.{Value, null, boolean, integer, float, text, array, object}
use robotframework_jsonrpcre.Json.Types.{
  Basic, int_type, bool_type, float_type, str_type, none_type, Ty, mapping_of, Tys, no_types, types,
  Obj, as_is, list, tuple, dict, member, Objs, no_objs, objs, Pairs, no_pairs, pair, Failure,
  type_error, overflow, Python, single,
}

-- from_dict(value, types) for one value.
abbrev pub Conversion : Type 0
Conversion = Tys → Result Failure Obj

-- A value with the conversions of its elements, or of the values under its keys.
pub record Shape : Type 0 where
  pub value : Value
  pub elements : List Conversion
  pub members : List (String × Conversion)

abbrev pub leaf : Value → Shape
leaf v = record { value = v; elements = []; members = [] }

-- `(r, True)` is `some r`, `(None, False)` is `none`.
abbrev pub Handled : Type 0
Handled = Result Failure (Option Obj)

-- `_from_dict_with_name`
abbrev pub with_name : String → Result Failure Obj → Result Failure Obj
with_name name (ok o) = ok o
with_name name (err (type_error none message)) = err (type_error (some name) message)
with_name name (err (type_error (some inner) message)) =
    err (type_error (some (format (name ∷ "." ∷ inner ∷ []))) message)
with_name name (err overflow) = err overflow

-- isinstance(value, t), of a value that is no Boolean.
abbrev pub is_basic : Basic → Value → Bool
is_basic int_type (integer n) = true
is_basic float_type (float x) = true
is_basic str_type (text s) = true
is_basic none_type null = true
is_basic _ _ = false

abbrev pub number : Option ℕ → Handled
number none = err overflow
number (some x) = ok (some (as_is (float x)))

abbrev pub is_bool_type : Basic → Bool
is_bool_type bool_type = true
is_bool_type _ = false

abbrev pub handle_number : (strict : Bool) → Python → Basic → Value → Handled
handle_number false python float_type (integer n) = number (python.float_of n)
handle_number _ python t v = ok none

-- `__from_dict_handle_basic_types`
unfoldable pub handle_basic_types : (strict : Bool) → Python → Basic → Value → Handled
handle_basic_types strict python t (boolean b) =
    if is_bool_type t then ok (some (as_is (boolean b))) else ok none
handle_basic_types strict python t v =
    if is_basic t v then ok (some (as_is v)) else handle_number strict python t v

abbrev pub among : Python → Value → List Value → Bool
among python v [] = false
among python v (w ∷ ws) = python.equals v w || among python v ws

-- `__from_dict_handle_literal`
unfoldable pub handle_literal : Python → List Value → Value → Handled
handle_literal python values v = if among python v values then ok (some (as_is v)) else ok none

-- `__from_dict_handle_enum`: the first member with this value.
unfoldable pub handle_enum : Python → String → List (String × Value) → Value → Handled
handle_enum python name [] v = ok none
handle_enum python name ((m, w) ∷ ms) v =
    if python.equals w v then ok (some (member name m)) else handle_enum python name ms v

unfoldable pub all_of : List (Result Failure Obj) → Result Failure Objs
all_of [] = ok no_objs
all_of (r ∷ rs) = r >>= λ o. all_of rs >>= λ os. ok (objs o os)

abbrev pub is_array : Value → Bool
is_array (array xs) = true
is_array v = false

abbrev pub is_object : Value → Bool
is_object (object fs) = true
is_object v = false

abbrev pub made : (Objs → Obj) → Result Failure Objs → Handled
made f (ok os) = ok (some (f os))
made f (err e) = err e

abbrev pub made_dict : Result Failure Pairs → Handled
made_dict (ok ps) = ok (some (dict ps))
made_dict (err e) = err e

-- `__from_dict_handle_sequence`
unfoldable pub handle_sequence : Shape → Tys → Handled
unfolding all_of
handle_sequence s ts =
    if is_array s.value
    then made list (all_of (map (λ (c : Conversion). c ts) s.elements))
    else ok none

abbrev pub count_types : Tys → ℕ
count_types no_types = 0
count_types (types t ts) = suc (count_types ts)

-- zip(value, args)
abbrev pub each_of : List Conversion → Tys → List (Result Failure Obj)
each_of (c ∷ cs) (types t ts) = c (single t) ∷ each_of cs ts
each_of _ _ = []

-- `__from_dict_handle_tuple`, without and with `...`.
unfoldable pub handle_tuple_every : Shape → Ty → Handled
unfolding all_of
handle_tuple_every s t =
    if is_array s.value
    then made tuple (all_of (map (λ (c : Conversion). c (single t)) s.elements))
    else ok none

unfoldable pub handle_tuple : Shape → Tys → Handled
unfolding all_of
handle_tuple s no_types =
    if is_array s.value
    then made tuple (all_of (map (λ (c : Conversion). c no_types) s.elements))
    else ok none
handle_tuple s (types t ts) =
    if is_array s.value
    then if count_types (types t ts) == length s.elements
      then made tuple (all_of (each_of s.elements (types t ts)))
      else ok none
    else ok none

-- `__from_dict_handle_mapping`, on the conversion of a key to the key type.
unfoldable pub pairs_of :
    (String → Result Failure Obj) → Tys → List (String × Conversion) → Result Failure Pairs
pairs_of key value_type [] = ok no_pairs
pairs_of key value_type ((n, c) ∷ ms) = with_name n (key n) >>= λ k.
    with_name n (c value_type) >>= λ v. pairs_of key value_type ms >>= λ ps. ok (pair k v ps)

unfoldable pub handle_mapping : (String → Result Failure Obj) → Shape → Tys → Handled
unfolding pairs_of
handle_mapping key s value_type =
    if is_object s.value then made_dict (pairs_of key value_type s.members) else ok none

-- What the loop over the types comes to: a result, an exception that is no TypeError, or no result
-- yet, with the first TypeError and the result of a dict type.
pub data Tried : Type 0 where
  given : Obj → Tried
  broke : Failure → Tried
  open_yet : (first_error : Option Failure) → (mapping_result : Option Obj) → Tried

abbrev pub first_of : Option Failure → Failure → Option Failure
first_of none e = some e
first_of (some first) e = some first

abbrev pub is_mapping : Ty → Bool
is_mapping (mapping_of k v) = true
is_mapping t = false

abbrev pub is_one : Tys → Bool
is_one (types t no_types) = true
is_one ts = false

-- One turn of the loop: on the only type or not, and what its handler gives.
abbrev pub turn :
    (alone mapping : Bool) → Option Failure → Handled → (Option Failure → Tried) → Tried
turn alone mapping first_error (err overflow) again = broke overflow
turn alone mapping first_error (err (type_error name message)) again =
    again (first_of first_error (type_error name message))
turn alone mapping first_error (ok none) again = again first_error
turn alone mapping first_error (ok (some r)) again =
    if mapping && not alone then open_yet first_error (some r) else given r

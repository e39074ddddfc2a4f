-- ===== src/Jsonable.antt =====
-- Values that JSON cannot hold travel as pickles: the end of
-- packages/jsonrpcpeer/src/jsonrpcpeer/json_helpers.py. A list, a dict and any other object is pickled.
use robotframework_jsonrpcre.Base.{
  ℕ, String, Bool, false, Option, none, some, List, ◌≡◌, refl, if◌then◌else◌,
}
use robotframework_jsonrpcre.Base.Dict.{lookup, has}
use robotframework_jsonrpcre.Base.Result.{Result, ok, err, Exception}
use robotframework_jsonrpcre.Value.{
  Value, null, boolean, integer, float, text, array, object, other, end, field, fields,
}

-- pickle and the hexadecimal text of bytes, with the exceptions of reading them.
pub record Pickle : Type 0 where
  pub dumps : Value → List ℕ
  pub loads : List ℕ → Result Exception Value
  pub hex : List ℕ → String
  pub fromhex : Value → Result Exception (List ℕ)

abbrev is_jsonable_dict : Value → Bool
is_jsonable_dict (object d) = has "__pickled__" (fields d)
is_jsonable_dict _ = false

abbrev pub object_to_jsonable_dict : Pickle → Value → Value
object_to_jsonable_dict pickle o =
    object (field "__pickled__" (text (pickle.hex (pickle.dumps o))) end)

abbrev load : Pickle → Result Exception (List ℕ) → Result Exception Value
load pickle (ok bytes) = pickle.loads bytes
load pickle (err x) = err x

abbrev no_pickle : Exception
no_pickle = record {
  type_name = "ValueError";
  message = "Dictionary does not contain pickled data";
  trace = "";
}

abbrev load_at : Pickle → Option Value → Result Exception Value
load_at pickle none = err no_pickle
load_at pickle (some v) = load pickle (pickle.fromhex v)

unfoldable pub jsonable_dict_to_object : Pickle → Value → Result Exception Value
jsonable_dict_to_object pickle (object d) = load_at pickle (lookup "__pickled__" (fields d))
jsonable_dict_to_object pickle _ = err no_pickle

unfoldable pub value_to_jsonable : Pickle → Value → Value
value_to_jsonable pickle (array xs) = object_to_jsonable_dict pickle (array xs)
value_to_jsonable pickle (object d) = object_to_jsonable_dict pickle (object d)
value_to_jsonable pickle (other n) = object_to_jsonable_dict pickle (other n)
value_to_jsonable pickle v = v

unfoldable pub jsonable_to_value : Pickle → Value → Result Exception Value
unfolding jsonable_dict_to_object
jsonable_to_value pickle v =
    let unpickled = jsonable_dict_to_object pickle v in
    if is_jsonable_dict v then unpickled else ok v

-- pickle and the hexadecimal text give the value back.
abbrev GivesBack : Pickle → Value → Type 0
GivesBack pickle v = load pickle (pickle.fromhex (text (pickle.hex (pickle.dumps v)))) ≡ ok v

-- Of a value that travels as a pickle.
abbrev pub Restores : Pickle → Value → Type 0
Restores pickle (array xs) = GivesBack pickle (array xs)
Restores pickle (object d) = GivesBack pickle (object d)
Restores pickle (other n) = GivesBack pickle (other n)
Restores pickle v = Unit

-- A value that pickle gives back comes back as it was: scalars as they are, any other value by its pickle.
pub jsonable_to_value-value_to_jsonable :
    (pickle : Pickle) (v : Value)
    → Restores pickle v
    → jsonable_to_value pickle (value_to_jsonable pickle v) ≡ ok v
unfolding jsonable_to_value value_to_jsonable lookup
jsonable_to_value-value_to_jsonable pickle (array xs) h = h
jsonable_to_value-value_to_jsonable pickle (object d) h = h
jsonable_to_value-value_to_jsonable pickle (other n) h = h
jsonable_to_value-value_to_jsonable pickle null h = refl
jsonable_to_value-value_to_jsonable pickle (boolean b) h = refl
jsonable_to_value-value_to_jsonable pickle (integer n) h = refl
jsonable_to_value-value_to_jsonable pickle (float x) h = refl
jsonable_to_value-value_to_jsonable pickle (text s) h = refl

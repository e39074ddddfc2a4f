-- ===== src/Tests/AsJson.antt =====
-- Runs of the writing of JSON, and back.
use robotframework_jsonrpcre.Base.{
  true, false, none, some, List, [], ◌∷◌, String, ◌≡◌, refl, ◌=ₛ◌, if◌then◌else◌, inl, inr,
  Bool-cases,
}
use robotframework_jsonrpcre.Base.Int.{ℤ, pos}
use robotframework_jsonrpcre.Base.Dict.{lookup}
use robotframework_jsonrpcre.Base.Result.{ok}
use robotframework_jsonrpcre.Value.{
  Value, null, integer, text, array, object, nil, cons, end, field,
}
use robotframework_jsonrpcre.Json.Types.{
  int_type, str_type, basic, list_of, class_type, Tys, Obj, as_is, list, dict, no_pairs, pair,
  instance_of, no_objs, objs, no_attributes, attribute, Class, Python, single,
}
use robotframework_jsonrpcre.Json.Classes.{decode_name}
use robotframework_jsonrpcre.Json.FromDict.{from_dict}
use robotframework_jsonrpcre.Json.AsJson.{
  Writing, encode_name, before, is_json, is_written, as_json,
}
use robotframework_jsonrpcre.Json.AsJson.Plain.{optional, Plain, PlainAll, PlainFields, Named}
use robotframework_jsonrpcre.Json.AsJson.RoundTrip.{from_dict-as_json}
use robotframework_jsonrpcre.Json.AsDict.{
  Making, as_dict, as_dict_inner, value_dict, insert_pair, kept, has_default_value, name_of,
}
use robotframework_jsonrpcre.Json.AsDict.Trees.{IsTree, as_dict-IsTree}

-- A note: its text, which JSON calls "text", its author, if it is known, and its lines.
abbrev note : Class
note = record {
  class_fields =
      record {
        field_name = "content";
        alias = some "text";
        field_type = basic str_type;
        default = none;
      }
      ∷ record {
        field_name = "author";
        alias = none;
        field_type = optional (basic str_type);
        default = some (as_is null);
      }
      ∷ record {
        field_name = "lines";
        alias = none;
        field_type = list_of (single (basic int_type));
        default = none;
      }
      ∷ [];
  decode_case = none;
  encode_case = none;
}

abbrev nothing : Class
nothing = record { class_fields = []; decode_case = none; encode_case = none }

abbrev python : Python
python = record {
  equals = λ (v : Value). λ (w : Value). false;
  float_of = λ (n : ℤ). none;
  class_of = λ (name : String). if name =ₛ "Note" then note else nothing;
  mismatch = λ (v : Value). λ (ts : Tys). "mismatch";
  ambiguous = λ (v : Value). λ (names : List String). "ambiguous";
  cannot_initialize = λ (name : String). λ (params : List (String × Obj)). name;
}

abbrev writing : Writing
writing = record {
  member_value = λ e m. null;
  key_text = λ o. none;
  has_default = λ c f. f =ₛ "author";
  nosave = λ c f. false;
  no_default_value = λ o. "no value";
  bad_key = λ o. "bad key";
}

abbrev a_note : Obj
a_note = instance_of "Note" (
    attribute "content" (as_is (text "hello")) (
      attribute "author" (as_is null)
        (attribute "lines" (list (objs (as_is (integer (pos 3))) no_objs)) no_attributes)))

-- An unknown author is left out.
as_json_test :
    as_json python writing a_note
    ≡ ok (
        object
          (field "text" (text "hello") (field "lines" (array (cons (integer (pos 3)) nil)) end)))
unfolding as_json is_json encode_name before is_written lookup
as_json_test = refl

note-Named : Named note
unfolding encode_name decode_name
note-Named = record {
  distinct = ((refl, (refl, tt)), ((refl, tt), (tt, tt)));
  decodes = (refl, (refl, (refl, tt)));
}

python-Named : (name : String) → Named (python.class_of name)
unfolding encode_name decode_name
python-Named name = elim (Bool-cases (name =ₛ "Note")) [
  | inl e ↦ rw e note-Named
  | inr e ↦ rw e (record { distinct = tt; decodes = tt })
]

a_note-Plain : Plain python writing (class_type "Note") a_note
unfolding is_written
a_note-Plain = Plain.plain_instance (
    PlainFields.plain_written refl (Plain.plain_basic refl) (
      PlainFields.plain_left_out refl refl (
        PlainFields.plain_written refl
          (Plain.plain_list (PlainAll.and_plain (Plain.plain_basic refl) PlainAll.plain_all))
          PlainFields.plain_end)))

from_dict-as_json_example :
    (v : Value) × (as_json python writing a_note ≡ ok v)
    × (from_dict true python v (single (class_type "Note")) ≡ ok a_note)
from_dict-as_json_example =
    from_dict-as_json true python writing (class_type "Note") a_note python-Named a_note-Plain

abbrev making : Making
making = record {
  value_of = λ e m. null;
  equals_default = λ c f o. f =ₛ "author";
  repr = λ n. "object";
  no_dataclass = "no dataclass";
  unhashable = "unhashable";
}

abbrev note_dict : Obj
note_dict = dict (
    pair (as_is (text "text")) (as_is (text "hello"))
      (pair (as_is (text "lines")) (list (objs (as_is (integer (pos 3))) no_objs)) no_pairs))

as_dict-IsTree_example : IsTree note_dict
unfolding as_dict as_dict_inner value_dict insert_pair kept has_default_value name_of encode_name
as_dict-IsTree_example = as_dict-IsTree python making true true a_note note_dict refl

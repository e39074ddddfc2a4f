-- ===== src/Tests/Keyword.antt =====
-- A keyword call across client and server at concrete values.
use robotframework_jsonrpcre.Base.{
  ℕ, suc, true, false, none, some, List, [], ◌∷◌, map, String, ◌≡◌, refl,
}
use robotframework_jsonrpcre.Base.Int.{pos}
use robotframework_jsonrpcre.Base.Result.{ok, Exception}
use robotframework_jsonrpcre.Value.{Value, integer, text, array, nil}
use robotframework_jsonrpcre.Jsonable.{Pickle, value_to_jsonable}
use robotframework_jsonrpcre.Server.Endpoint.{end_run}
use robotframework_jsonrpcre.Server.Library.{LibraryKeyword, TestLibrary, choose_keyword}
use robotframework_jsonrpcre.Server.Keyword.{Robot, gives, robot_run_keyword}
use robotframework_jsonrpcre.Server.Keyword.Returned.{
  answered, received, fields_of, sent_named, robot_run_keyword-returned,
}

abbrev an_error : Exception
an_error = record { type_name = "Error"; message = ""; trace = "" }

-- It restores the empty list.
abbrev pickle : Pickle
pickle = record {
  dumps = λ v. [];
  loads = λ bytes. ok (array nil);
  hex = λ bytes. "";
  fromhex = λ v. ok [];
}

abbrev add_keyword : LibraryKeyword
add_keyword = record {
  name = "Add";
  args = [];
  doc = "";
  tags = [];
  source = "";
  lineno = none;
  embedded = false;
}

abbrev calculator : TestLibrary
calculator = record {
  real_name = "Calculator";
  library_keywords = add_keyword ∷ [];
  library_doc = "";
  library_doc_format = "";
  scope_name = "";
  library_version = "";
  library_source = "";
  library_lineno = none;
}

-- Robot Framework as a counter of the keywords that it has run, each of which gives an empty list.
abbrev robot : Robot ℕ
robot = record {
  has_context = λ s. true;
  get_library = λ s token. ok calculator;
  find_keywords = λ lib name. lib.library_keywords;
  run = λ runner args named s. (gives (array nil), suc s);
  import_library = λ name args token s. (none, s);
  set_log_level = λ level s. (none, s);
  escape = λ v. v;
  str = λ v. "";
  show = λ v. "";
  no_context = λ what. an_error;
  raises = λ e. an_error;
}

abbrev arguments : List Value
arguments = integer (pos 1) ∷ array nil ∷ []

abbrev named_arguments : List (String × Value)
named_arguments = ("unit", text "m") ∷ []

robot_run_keyword-returned_example :
    let served =
      robot_run_keyword robot pickle "token" "Add"
        (map (value_to_jsonable pickle) arguments)
        (fields_of (sent_named pickle named_arguments))
        0 in
    (answered pickle "" (λ x. false) none (end_run served.0) ≡ some (received "" (ok (array nil))))
    × (served.1 ≡ 1)
unfolding choose_keyword
robot_run_keyword-returned_example =
    robot_run_keyword-returned robot pickle "" (λ x. false) none "token" "Add" calculator
      add_keyword arguments named_arguments 0 1 (ok (array nil)) (tt, (refl, tt)) (tt, tt) refl refl
      refl refl refl

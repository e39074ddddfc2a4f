-- ===== src/Server/Library.antt =====
-- The commands of the clients: the data that Robot Framework takes, the definition of a library, the
-- choice of a keyword and the keyword store. packages/server/src/robot_jsonrpcremote_server/_runner.py.
use robotframework_jsonrpcre.Base.{
  ℕ, Bool, true, false, not, Option, none, some, List, [], ◌∷◌, String, ◌≡◌, ◌||◌, ◌=ₛ◌,
  if◌then◌else◌, arith, eq_iff, format, inl, inr, Bool-cases,
}
use robotframework_jsonrpcre.Base.Dict.{Dict, contains, remove}
use robotframework_jsonrpcre.Base.Result.{Result, ok, err, ◌>>=◌}
use robotframework_jsonrpcre.Value.{Value, null, boolean, integer, float, text}
use robotframework_jsonrpcre.Protocol.{
  ArgumentKind, ArgumentDefinition, KeywordDefinition, LibraryDefinition, robot_code_value,
  keyword_not_found,
}
use robotframework_jsonrpcre.Protocol.Kinds.{from_value}
use robotframework_jsonrpcre.Server.Endpoint.{ResponseError}

abbrev control_words : List String
control_words = "AND" ∷ "ELSE" ∷ "ELSE IF" ∷ "AS" ∷ "WITH NAME" ∷ []

-- `_as_robot_data`, with `escape` of Robot Framework.
unfoldable pub as_robot_data : (Value → Value) → Value → Value
as_robot_data escape (text s) = if contains s control_words then text s else escape (text s)
as_robot_data escape v = escape v

-- ArgInfo of Robot Framework; without a default, NOT_SET. A member of an IntEnum is no integer here,
-- but another object.
pub record ArgInfo : Type 0 where
  pub arg_name : String
  pub arg_type : String
  pub default : Option Value
  pub default_repr : String
  pub arg_kind : String

-- `_default_of`
unfoldable pub default_of : (ℕ → Bool) → String → Value → Value
default_of is_finite repr null = null
default_of is_finite repr (text s) = text s
default_of is_finite repr (boolean b) = boolean b
default_of is_finite repr (integer n) = integer n
default_of is_finite repr (float x) = if is_finite x then float x else text repr
default_of is_finite repr v = text repr

-- running.LibraryKeyword and running.TestLibrary, as far as a definition shows them.
pub record LibraryKeyword : Type 0 where
  pub name : String
  pub args : List ArgInfo
  pub doc : String
  pub tags : List String
  pub source : String
  pub lineno : Option ℕ
  pub embedded : Bool

pub record TestLibrary : Type 0 where
  pub real_name : String
  pub library_keywords : List LibraryKeyword
  pub library_doc : String
  pub library_doc_format : String
  pub scope_name : String
  pub library_version : String
  pub library_source : String
  pub library_lineno : Option ℕ

abbrev default_value_of : (ℕ → Bool) → String → Option Value → Option Value
default_value_of is_finite repr none = none
default_value_of is_finite repr (some v) = some (default_of is_finite repr v)

abbrev has_value : Option Value → Bool
has_value none = false
has_value (some v) = true

abbrev with_kind : (ℕ → Bool) → ArgInfo → ArgumentKind → ArgumentDefinition
with_kind is_finite arg kind = record {
  argument_name = arg.arg_name;
  argument_type = some arg.arg_type;
  has_default = some (has_value arg.default);
  default_value = default_value_of is_finite arg.default_repr arg.default;
  is_required = true;
  kind = some kind;
  argument_doc = none;
}

-- `to_arg_def`: an unknown kind is an error, which names it.
unfoldable pub to_arg_def : (ℕ → Bool) → List ArgInfo → Result String (List ArgumentDefinition)
to_arg_def is_finite [] = ok []
to_arg_def is_finite (arg ∷ args) = from_value arg.arg_kind >>= λ kind.
    to_arg_def is_finite args >>= λ rest. ok (with_kind is_finite arg kind ∷ rest)

abbrev with_args : LibraryKeyword → List ArgumentDefinition → KeywordDefinition
with_args kw args = record {
  keyword_name = kw.name;
  keyword_args = args;
  keyword_doc = some kw.doc;
  tags = some kw.tags;
  keyword_source = some kw.source;
  keyword_lineno = kw.lineno;
}

-- `to_kw_def`, for all keywords of the library.
unfoldable pub to_kw_defs :
    (ℕ → Bool) → List LibraryKeyword → Result String (List KeywordDefinition)
unfolding to_arg_def
to_kw_defs is_finite [] = ok []
to_kw_defs is_finite (kw ∷ kws) = to_arg_def is_finite kw.args >>= λ args.
    to_kw_defs is_finite kws >>= λ rest. ok (with_args kw args ∷ rest)

unfoldable pub library_definition : (ℕ → Bool) → TestLibrary → Result String LibraryDefinition
unfolding to_kw_defs
library_definition is_finite lib =
    to_kw_defs is_finite lib.library_keywords >>= λ (kws : List KeywordDefinition). ok (record {
      library_name = lib.real_name;
      keywords = kws;
      doc = some lib.library_doc;
      doc_format = some lib.library_doc_format;
      scope = some lib.scope_name;
      version = some lib.library_version;
      source = some lib.library_source;
      lineno = lib.library_lineno;
    })

abbrev callable : String → LibraryKeyword → Bool
callable name kw = not kw.embedded || kw.name =ₛ name

abbrev not_found : String → String → ResponseError
not_found name library = record {
  code = robot_code_value keyword_not_found;
  message = format ("Keyword '" ∷ name ∷ "' not found in library '" ∷ library ∷ "'." ∷ []);
}

-- The keyword that `_robot_run_keyword` runs, of those that `find_keywords` of Robot Framework gives.
unfoldable pub choose_keyword :
    String → String → List LibraryKeyword → Result ResponseError LibraryKeyword
choose_keyword name library [] = err (not_found name library)
choose_keyword name library (kw ∷ kws) =
    let rest = choose_keyword name library kws in if callable name kw then ok kw else rest

-- `_robot_finalize_library`: the store without the library; that its scope ends is best effort.
unfoldable pub finalize_library : String → Dict TestLibrary → Dict TestLibrary
finalize_library token store = remove token store

exact_name :
    (name : String) (kw : LibraryKeyword)
    → callable name kw ≡ true
    → kw.embedded ≡ true
    → kw.name ≡ name
exact_name name kw t e = ground (arith, eq_iff kw.name name)

-- A keyword with embedded arguments is run only for its exact name, whatever other keywords'
-- patterns fit that name.
pub choose_keyword-exact :
    (name library : String) (kws : List LibraryKeyword) (kw : LibraryKeyword)
    → choose_keyword name library kws ≡ ok kw
    → kw.embedded ≡ true
    → kw.name ≡ name
unfolding choose_keyword
choose_keyword-exact name library [] kw h e = absurd (cc)
choose_keyword-exact name library (k ∷ kws) kw h e = elim (Bool-cases (callable name k)) [
  | inl t ↦ let i : k ≡ kw = cc (rw t at h) in exact_name name kw (rw i at t) e
  | inr f ↦ choose_keyword-exact name library kws kw (rw f at h) e
]

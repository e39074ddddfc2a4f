-- ===== src/Client/Keywords.antt =====
-- The keywords that the client library shows to Robot Framework, from the library definition of the
-- session: src/JsonRpcRemote/__init__.py.
use robotframework_jsonrpcre.Base.{
  ℕ, Bool, true, false, Option, none, some, List, [], ◌∷◌, map, String, ◌≡◌, ◌==◌, ◌=ₛ◌,
  if◌then◌else◌, arith, eq_iff, format, sym, inl, inr, Bool-cases,
}
use robotframework_jsonrpcre.Base.Decimal.{decimal}
use robotframework_jsonrpcre.Base.Dict.{Dict, put}
use robotframework_jsonrpcre.Base.Result.{Result, ok, err, Exception}
use robotframework_jsonrpcre.Value.{Value}
use robotframework_jsonrpcre.Protocol.{
  ArgumentDefinition, KeywordDefinition, LibraryDefinition, positional_only_marker,
  named_only_marker, var_positional, var_named, ArgumentKind,
}

abbrev value_error : String → Exception
value_error name = record {
  type_name = "ValueError";
  message =
      format (
        "Keyword '" ∷ name ∷ "' not available in the library definition of the remote server" ∷ []);
  trace = "";
}

abbrev find_keyword : String → List KeywordDefinition → Option KeywordDefinition
find_keyword name [] = none
find_keyword name (kw ∷ kws) = if kw.keyword_name =ₛ name then some kw else find_keyword name kws

abbrev init_definition : KeywordDefinition
init_definition = record {
  keyword_name = "__init__";
  keyword_args = [];
  keyword_doc = none;
  tags = none;
  keyword_source = none;
  keyword_lineno = none;
}

abbrev or_init : String → Option KeywordDefinition → Result Exception KeywordDefinition
or_init name (some kw) = ok kw
or_init name none = if name =ₛ "__init__" then ok init_definition else err (value_error name)

-- `_get_keyword_definition`
unfoldable pub get_keyword_definition :
    String → LibraryDefinition → Result Exception KeywordDefinition
get_keyword_definition name d = or_init name (find_keyword name d.keywords)

unfoldable pub get_keyword_names : LibraryDefinition → List String
get_keyword_names d = map (λ (kw : KeywordDefinition). kw.keyword_name) d.keywords

abbrev mapped :
    {A : Type 0} → (KeywordDefinition → A) → Result Exception KeywordDefinition → Result Exception A
mapped f (ok kw) = ok (f kw)
mapped f (err x) = err x

unfoldable pub get_keyword_documentation :
    String → LibraryDefinition → Result Exception (Option String)
unfolding get_keyword_definition
get_keyword_documentation name d =
    if name =ₛ "__intro__"
    then ok d.doc
    else mapped (λ (kw : KeywordDefinition). kw.keyword_doc) (get_keyword_definition name d)

-- An argument as Robot Framework takes it: a name, or a name with a default.
pub data Argument : Type 0 where
  name_only : String → Argument
  with_default : String → Option Value → Argument

abbrev starred : Option ArgumentKind → String → String
starred (some var_positional) name = format ("*" ∷ name ∷ [])
starred (some var_named) name = format ("**" ∷ name ∷ [])
starred _ name = name

abbrev is_set : Option Bool → Bool
is_set (some true) = true
is_set _ = false

abbrev plain_argument : ArgumentDefinition → Argument
plain_argument arg =
    if is_set arg.has_default
    then with_default (starred arg.kind arg.argument_name) arg.default_value
    else name_only (starred arg.kind arg.argument_name)

abbrev argument_of : Option ArgumentKind → ArgumentDefinition → Argument
argument_of (some positional_only_marker) arg = name_only "/"
argument_of (some named_only_marker) arg = name_only "*"
argument_of _ arg = plain_argument arg

unfoldable pub get_keyword_arguments : String → LibraryDefinition → Result Exception (List Argument)
unfolding get_keyword_definition
get_keyword_arguments name d =
    mapped
      (λ (kw : KeywordDefinition).
        map (λ (a : ArgumentDefinition). argument_of a.kind a) kw.keyword_args)
      (get_keyword_definition name d)

abbrev hint : ArgumentDefinition → Option String → Dict String → Dict String
hint arg none hints = hints
hint arg (some type_) hints = if type_ =ₛ "" then hints else put arg.argument_name type_ hints

abbrev hints_of : List ArgumentDefinition → Dict String → Dict String
hints_of [] hints = hints
hints_of (arg ∷ args) hints = hints_of args (hint arg arg.argument_type hints)

abbrev or_no_hints : Dict String → Option (Dict String)
or_no_hints [] = none
or_no_hints (h ∷ hints) = some (h ∷ hints)

unfoldable pub get_keyword_types :
    String → LibraryDefinition → Result Exception (Option (Dict String))
unfolding get_keyword_definition
get_keyword_types name d =
    mapped (λ (kw : KeywordDefinition). or_no_hints (hints_of kw.keyword_args []))
      (get_keyword_definition name d)

unfoldable pub get_keyword_tags :
    String → LibraryDefinition → Result Exception (Option (List String))
unfolding get_keyword_definition
get_keyword_tags name d =
    mapped (λ (kw : KeywordDefinition). kw.tags) (get_keyword_definition name d)

abbrev source_of : Option String → Option ℕ → Option String
source_of (some source) (some line) =
    if source =ₛ ""
    then some source
    else if line == 0
    then some source
    else some (format (source ∷ ":" ∷ decimal line ∷ []))
source_of source line = source

unfoldable pub get_keyword_source : String → LibraryDefinition → Result Exception (Option String)
unfolding get_keyword_definition
get_keyword_source name d =
    mapped (λ (kw : KeywordDefinition). source_of kw.keyword_source kw.keyword_lineno)
      (get_keyword_definition name d)

or_init-named :
    (name : String) (kws : List KeywordDefinition) (kw : KeywordDefinition)
    → or_init name (find_keyword name kws) ≡ ok kw
    → kw.keyword_name ≡ name
or_init-named name [] kw h = elim (Bool-cases (name =ₛ "__init__")) [
  | inl t ↦
      let k : init_definition ≡ kw = cc (rw t at h) in rw (← k) (sym ((eq_iff name "__init__").0 t))
  | inr f ↦ absurd (ground arith)
]
or_init-named name (k ∷ kws) kw h = elim (Bool-cases (k.keyword_name =ₛ name)) [
  | inl t ↦ let i : k ≡ kw = cc (rw t at h) in rw (← i) ((eq_iff k.keyword_name name).0 t)
  | inr f ↦ or_init-named name kws kw (rw f at h)
]

-- `_get_keyword_definition` gives a definition of the name that is asked for.
pub get_keyword_definition-named :
    (name : String) (d : LibraryDefinition) (kw : KeywordDefinition)
    → get_keyword_definition name d ≡ ok kw
    → kw.keyword_name ≡ name
unfolding get_keyword_definition
get_keyword_definition-named name d kw h = or_init-named name d.keywords kw h

-- ===== src/Client/Changes.antt =====
-- How a library definition differs from the one that Robot Framework registered: `_definition_changes` of
-- src/JsonRpcRemote/__init__.py. Python's equality of two keyword definitions is a parameter.
pub mod Empty
pub mod Itself
use text.Mathlib.TextLemmas.{append-eq-nil_iff}
use robotframework_jsonrpcre.Base.{
  ℕ, Bool, true, false, not, Option, none, some, List, [], ◌∷◌, ◌++◌, String, ◌≡◌, refl, sym, subst,
  ap, ◌↔◌, ◌⊎◌, inl, inr, arith, ◌&&◌, ◌==◌, ==_iff, ◌=ₛ◌, eq_iff, eq_refl, if◌then◌else◌, All,
  Bool-cases, format, is_some,
}
use robotframework_jsonrpcre.Base.Dict.{Dict, lookup, has, put, lookup-put}
use robotframework_jsonrpcre.Base.Text.{join}
use robotframework_jsonrpcre.Protocol.{KeywordDefinition, LibraryDefinition}

-- {keyword.name: keyword for keyword in keywords}, from the left.
unfoldable pub keyed : List KeywordDefinition → Dict KeywordDefinition → Dict KeywordDefinition
keyed [] d = d
keyed (k ∷ ks) d = keyed ks (put k.keyword_name k d)

-- The names of the one that the other has not.
unfoldable pub names_missing : Dict KeywordDefinition → Dict KeywordDefinition → List String
names_missing other [] = []
names_missing other ((n, k) ∷ d) =
    let rest = names_missing other d in if has n other then rest else n ∷ rest

abbrev pub equal_texts : Option String → Option String → Bool
equal_texts none none = true
equal_texts (some s) (some t) = s =ₛ t
equal_texts _ _ = false

abbrev pub equal_numbers : Option ℕ → Option ℕ → Bool
equal_numbers none none = true
equal_numbers (some m) (some n) = m == n
equal_numbers _ _ = false

abbrev pub unless : Bool → String → List String
unless true name = []
unless false name = name ∷ []

-- The fields of the two libraries that differ, apart from the keywords.
unfoldable pub attributes_changed : LibraryDefinition → LibraryDefinition → List String
attributes_changed a b =
    unless (a.library_name =ₛ b.library_name) "name"
    ++ (unless (equal_texts a.doc b.doc) "doc"
        ++ (unless (equal_texts a.doc_format b.doc_format) "doc_format"
            ++ (unless (equal_texts a.scope b.scope) "scope"
                ++ (unless (equal_texts a.version b.version) "version"
                    ++ (unless (equal_texts a.source b.source) "source"
                        ++ unless (equal_numbers a.lineno b.lineno) "lineno")))))

abbrev pub change : String → List String → List String
change label [] = []
change label (n ∷ ns) = format (label ∷ ": " ∷ join ", " (n ∷ ns) ∷ []) ∷ []

abbrev pub described : List String → (same_order : Bool) → String
described (c ∷ cs) same_order = join "; " (c ∷ cs)
described [] true = ""
described [] false = "the order of the keywords changed"

module _ (same : KeywordDefinition → KeywordDefinition → Bool) where
  abbrev pub differs : KeywordDefinition → Option KeywordDefinition → Bool
  differs k none = false
  differs k (some o) = not (same k o)

  unfoldable pub names_changed : Dict KeywordDefinition → Dict KeywordDefinition → List String
  names_changed old [] = []
  names_changed old ((n, k) ∷ d) =
      let rest = names_changed old d in if differs k (lookup n old) then n ∷ rest else rest

  unfoldable pub equal_keywords : List KeywordDefinition → List KeywordDefinition → Bool
  equal_keywords [] [] = true
  equal_keywords (a ∷ as') (b ∷ bs) = same a b && equal_keywords as' bs
  equal_keywords _ _ = false

  abbrev pub changes : LibraryDefinition → LibraryDefinition → List String
  changes a b =
      let old = keyed a.keywords [] in
      let new = keyed b.keywords [] in
      change "keywords added" (names_missing old new)
      ++ (change "keywords removed" (names_missing new old)
          ++ (change "keywords changed" (names_changed old new)
              ++ change "library attributes changed" (attributes_changed a b)))

  unfoldable pub definition_changes : Option LibraryDefinition → Option LibraryDefinition → String
  unfolding keyed names_missing names_changed equal_keywords attributes_changed
  definition_changes none none = ""
  definition_changes (some a) (some b) =
      described (changes a b) (equal_keywords a.keywords b.keywords)
  definition_changes _ _ = "the definition is missing"

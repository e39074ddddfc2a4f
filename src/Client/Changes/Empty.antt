-- ===== src/Client/Changes/Empty.antt =====
-- `_definition_changes` finds nothing exactly in definitions that are equal.
use text.Mathlib.TextLemmas.{append-eq-nil_iff}
use robotframework_jsonrpcre.Base.{
  ℕ, Bool, true, false, Option, none, some, List, [], ◌∷◌, ◌++◌, String, ◌≡◌, refl, ap, ◌↔◌, inl,
  inr, ==_iff, ◌=ₛ◌, eq_iff, All, All-append, All-map, Bool-cases,
}
use robotframework_jsonrpcre.Base.Text.{join}
use robotframework_jsonrpcre.Protocol.{KeywordDefinition, LibraryDefinition}
use robotframework_jsonrpcre.Client.Changes.{
  keyed, names_missing, equal_texts, equal_numbers, unless, attributes_changed, change,
  names_changed, equal_keywords, described, changes, definition_changes,
}

abbrev NotEmpty : String → Type 0
NotEmpty s = s ≡ "" → ⊥

-- No change without a text.
change-All :
    (label : String) (names : List String) → NotEmpty label → All NotEmpty (change label names)
change-All label [] h = tt
change-All label (n ∷ ns) h = ((λ e. h ((append-eq-nil_iff.0 e).0)), tt)

join-empty : (c : String) (cs : List String) → NotEmpty c → join "; " (c ∷ cs) ≡ "" → ⊥
unfolding join
join-empty c [] h e = h e
join-empty c (d ∷ cs) h e = h ((append-eq-nil_iff.0 e).0)

described-empty :
    (cs : List String) (b : Bool) → All NotEmpty cs → described cs b ≡ "" → (cs ≡ []) × (b ≡ true)
described-empty [] true h e = (refl, refl)
described-empty [] false h e = absurd (cc)
described-empty (c ∷ cs) b (h, _) e = absurd (join-empty c cs h e)

unless-none :
    (b : Bool) (n : String) (rest : List String)
    → unless b n ++ rest ≡ []
    → (b ≡ true) × (rest ≡ [])
unless-none true n rest e = (refl, e)
unless-none false n rest e = absurd (cc)

equal_texts-≡ : (a b : Option String) → equal_texts a b ≡ true → a ≡ b
equal_texts-≡ none none h = refl
equal_texts-≡ (some s) (some t) h = ap some ((eq_iff s t).0 h)
equal_texts-≡ none (some t) h = absurd (cc)
equal_texts-≡ (some s) none h = absurd (cc)

equal_numbers-≡ : (a b : Option ℕ) → equal_numbers a b ≡ true → a ≡ b
equal_numbers-≡ none none h = refl
equal_numbers-≡ (some s) (some t) h = ap some ((==_iff s t).0 h)
equal_numbers-≡ none (some t) h = absurd (cc)
equal_numbers-≡ (some s) none h = absurd (cc)

unless-last : (b : Bool) (n : String) → unless b n ≡ [] → b ≡ true
unless-last true n e = refl
unless-last false n e = absurd (cc)

same_fields :
    (a b : LibraryDefinition)
    → a.library_name ≡ b.library_name
    → a.keywords ≡ b.keywords
    → a.doc ≡ b.doc
    → a.doc_format ≡ b.doc_format
    → a.scope ≡ b.scope
    → a.version ≡ b.version
    → a.source ≡ b.source
    → a.lineno ≡ b.lineno
    → a ≡ b
same_fields a b p1 p2 p3 p4 p5 p6 p7 p8 = cc

attributes_changed-none :
    (a b : LibraryDefinition) → a.keywords ≡ b.keywords → attributes_changed a b ≡ [] → a ≡ b
unfolding attributes_changed
attributes_changed-none a b k e =
    let (n, e1) = unless-none (a.library_name =ₛ b.library_name) "name" _ e in
    let (d, e2) = unless-none (equal_texts a.doc b.doc) "doc" _ e1 in
    let (f, e3) = unless-none (equal_texts a.doc_format b.doc_format) "doc_format" _ e2 in
    let (c, e4) = unless-none (equal_texts a.scope b.scope) "scope" _ e3 in
    let (v, e5) = unless-none (equal_texts a.version b.version) "version" _ e4 in
    let (o, e6) = unless-none (equal_texts a.source b.source) "source" _ e5 in
    let l = unless-last (equal_numbers a.lineno b.lineno) "lineno" e6 in
    same_fields a b ((eq_iff _ _).0 n) k (equal_texts-≡ _ _ d) (equal_texts-≡ _ _ f)
      (equal_texts-≡ _ _ c) (equal_texts-≡ _ _ v) (equal_texts-≡ _ _ o) (equal_numbers-≡ _ _ l)

module _ (same : KeywordDefinition → KeywordDefinition → Bool) where
  -- `same` tells these keyword definitions apart.
  abbrev pub TellsApart : List KeywordDefinition → List KeywordDefinition → Type 0
  TellsApart xs ys =
      All (λ (x : KeywordDefinition). All (λ (y : KeywordDefinition). same x y ≡ true ↔ x ≡ y) ys)
        xs

  fewer :
      (y : KeywordDefinition) (xs ys : List KeywordDefinition)
      → TellsApart xs (y ∷ ys)
      → TellsApart xs ys
  fewer y xs ys h = All-map _ _ (λ x p. p.1) xs h

  equal_keywords_iff :
      (xs ys : List KeywordDefinition)
      → TellsApart xs ys
      → equal_keywords same xs ys ≡ true
      → xs ≡ ys
  unfolding equal_keywords
  equal_keywords_iff [] [] t h = refl
  equal_keywords_iff (x ∷ xs) (y ∷ ys) ((e, es), t) h = elim (Bool-cases (same x y)) [
    | inl s ↦ (let i = e.0 s in rw (i, equal_keywords_iff xs ys (fewer y xs ys t) (rw s at h)))
    | inr n ↦ absurd (cc (rw n at h))
  ]
  equal_keywords_iff [] (y ∷ ys) t h = absurd (cc)
  equal_keywords_iff (x ∷ xs) [] t h = absurd (cc)

  last_empty : {A : Type 0} (xs ys : List A) → xs ++ ys ≡ [] → ys ≡ []
  last_empty [] ys e = e
  last_empty (x ∷ xs) ys e = absurd (cc)

  change-empty : (label : String) (names : List String) → change label names ≡ [] → names ≡ []
  change-empty label [] e = refl
  change-empty label (n ∷ ns) e = absurd (cc)

  changes-All : (a b : LibraryDefinition) → All NotEmpty (changes same a b)
  changes-All a b =
      let old = keyed a.keywords [] in
      let new = keyed b.keywords [] in
      All-append NotEmpty (change "keywords added" (names_missing old new)) _
        (change-All "keywords added" (names_missing old new) (λ e. absurd (cc)))
        (All-append NotEmpty (change "keywords removed" (names_missing new old)) _
          (change-All "keywords removed" (names_missing new old) (λ e. absurd (cc)))
          (All-append NotEmpty (change "keywords changed" (names_changed same old new)) _
            (change-All "keywords changed" (names_changed same old new) (λ e. absurd (cc)))
            (change-All "library attributes changed" (attributes_changed a b) (λ e. absurd (cc)))))

  pub equal_definitions :
      (a b : LibraryDefinition)
      → TellsApart a.keywords b.keywords
      → definition_changes same (some a) (some b) ≡ ""
      → a ≡ b
  unfolding definition_changes
  equal_definitions a b t e =
      let old = keyed a.keywords [] in
      let new = keyed b.keywords [] in
      let (none_of, order) =
        described-empty (changes same a b) (equal_keywords same a.keywords b.keywords)
          (changes-All a b) e in
      let last = last_empty (change "keywords changed" (names_changed same old new)) _ (
        last_empty (change "keywords removed" (names_missing new old)) _
          (last_empty (change "keywords added" (names_missing old new)) _ none_of)) in
      attributes_changed-none a b (equal_keywords_iff a.keywords b.keywords t order)
        (change-empty "library attributes changed" (attributes_changed a b) last)

-- ===== src/Client/Changes/Itself.antt =====
-- A library definition does not differ from itself.
use robotframework_jsonrpcre.Base.{
  ℕ, Bool, true, Option, none, some, List, [], ◌∷◌, String, ◌≡◌, refl, sym, subst, ap, ◌↔◌, inl,
  inr, arith, ==_iff, ◌=ₛ◌, eq_iff, eq_refl, All, All-map, Bool-cases,
}
use robotframework_jsonrpcre.Base.Dict.{Dict, lookup, put, lookup-put}
use robotframework_jsonrpcre.Protocol.{KeywordDefinition, LibraryDefinition}
use robotframework_jsonrpcre.Client.Changes.{
  keyed, names_missing, equal_texts, equal_numbers, attributes_changed, names_changed,
  equal_keywords, definition_changes,
}
use robotframework_jsonrpcre.Client.Changes.Empty.{TellsApart, equal_definitions}

abbrev Entry : Dict KeywordDefinition → String × KeywordDefinition → Type 0
Entry d e = lookup e.0 d ≡ some e.1

-- Each name stands in the dict once.
abbrev Unique : Dict KeywordDefinition → Type 0
Unique [] = Unit
Unique ((n, k) ∷ d) = (lookup n d ≡ none) × Unique d

put-Unique :
    (n : String) (k : KeywordDefinition) (d : Dict KeywordDefinition)
    → Unique d
    → Unique (put n k d)
unfolding put lookup
put-Unique n k [] u = (refl, tt)
put-Unique n k ((m, j) ∷ d) (f, u) = elim (Bool-cases (m =ₛ n)) [
  | inl y ↦ (let i = (eq_iff m n).0 y in rw y (rw (← i) f, u))
  | inr g ↦ rw g (grind (arith, lookup-put n m k d, eq_iff n m, eq_iff m n), put-Unique n k d u)
]

put-All :
    (P : KeywordDefinition → Type 0) (n : String) (k : KeywordDefinition)
    (d : Dict KeywordDefinition)
    → P k
    → All (λ (e : String × KeywordDefinition). P e.1) d
    → All (λ (e : String × KeywordDefinition). P e.1) (put n k d)
unfolding put
put-All P n k [] p h = (p, tt)
put-All P n k ((m, j) ∷ d) p (h, hs) = elim (Bool-cases (m =ₛ n)) [
  | inl y ↦ rw y (p, hs)
  | inr g ↦ rw g (h, put-All P n k d p hs)
]

keyed-Unique :
    (ks : List KeywordDefinition) (d : Dict KeywordDefinition) → Unique d → Unique (keyed ks d)
unfolding keyed
keyed-Unique [] d u = u
keyed-Unique (k ∷ ks) d u =
    keyed-Unique ks (put k.keyword_name k d) (put-Unique k.keyword_name k d u)

-- A new entry does not hide the others.
All-Entry :
    (n : String) (k : KeywordDefinition) (d es : Dict KeywordDefinition)
    → lookup n d ≡ none
    → All (Entry d) es
    → All (Entry ((n, k) ∷ d)) es
unfolding lookup
All-Entry n k d [] f h = tt
All-Entry n k d ((m, j) ∷ es) f (h, hs) = elim (Bool-cases (n =ₛ m)) [
  | inl y ↦ (let i = (eq_iff n m).0 y in absurd (cc (rw i at f, h)))
  | inr g ↦ (rw g h, All-Entry n k d es f hs)
]

Unique-Entry : (d : Dict KeywordDefinition) → Unique d → All (Entry d) d
unfolding lookup
Unique-Entry [] u = tt
Unique-Entry ((n, k) ∷ d) (f, u) = (rw (eq_refl n) refl, All-Entry n k d d f (Unique-Entry d u))

names_missing-none : (d es : Dict KeywordDefinition) → All (Entry d) es → names_missing d es ≡ []
unfolding names_missing
names_missing-none d [] h = refl
names_missing-none d ((n, k) ∷ es) (h, hs) = rw h (names_missing-none d es hs)

equal_texts_refl : (a : Option String) → equal_texts a a ≡ true
equal_texts_refl none = refl
equal_texts_refl (some s) = eq_refl s

equal_numbers_refl : (a : Option ℕ) → equal_numbers a a ≡ true
equal_numbers_refl none = refl
equal_numbers_refl (some n) = (==_iff n n).1 refl

attributes_changed_refl : (a : LibraryDefinition) → attributes_changed a a ≡ []
unfolding attributes_changed
attributes_changed_refl a =
    rw
      (
        eq_refl a.library_name,
        equal_texts_refl a.doc,
        equal_texts_refl a.doc_format,
        equal_texts_refl a.scope,
        equal_texts_refl a.version,
        equal_texts_refl a.source,
        equal_numbers_refl a.lineno,
      )
      refl

keyed-All :
    (P : KeywordDefinition → Type 0) (ks : List KeywordDefinition) (d : Dict KeywordDefinition)
    → All P ks
    → All (λ (e : String × KeywordDefinition). P e.1) d
    → All (λ (e : String × KeywordDefinition). P e.1) (keyed ks d)
unfolding keyed
keyed-All P [] d h hd = hd
keyed-All P (k ∷ ks) d (h, hs) hd =
    keyed-All P ks (put k.keyword_name k d) hs (put-All P k.keyword_name k d h hd)

diagonal :
    (R : KeywordDefinition → KeywordDefinition → Type 0) (xs : List KeywordDefinition)
    → All (λ (x : KeywordDefinition). All (R x) xs) xs
    → All (λ (x : KeywordDefinition). R x x) xs
diagonal R [] h = tt
diagonal R (x ∷ xs) (h, hs) = (h.0, diagonal R xs (All-map _ _ (λ y p. p.1) xs hs))

abbrev pub keywords_of : Option LibraryDefinition → List KeywordDefinition
keywords_of none = []
keywords_of (some a) = a.keywords

module _ (same : KeywordDefinition → KeywordDefinition → Bool) where
  abbrev Same : KeywordDefinition → Type 0
  Same k = same k k ≡ true

  names_changed-none :
      (d es : Dict KeywordDefinition)
      → All (Entry d) es
      → All (λ (e : String × KeywordDefinition). Same e.1) es
      → names_changed same d es ≡ []
  unfolding names_changed
  names_changed-none d [] h s = refl
  names_changed-none d ((n, k) ∷ es) (h, hs) (s, ss) = rw (h, s) (names_changed-none d es hs ss)

  equal_keywords_refl :
      (xs : List KeywordDefinition) → All Same xs → equal_keywords same xs xs ≡ true
  unfolding equal_keywords
  equal_keywords_refl [] h = refl
  equal_keywords_refl (x ∷ xs) (h, hs) = rw h (equal_keywords_refl xs hs)

  definition_changes_refl :
      (a : Option LibraryDefinition) → All Same (keywords_of a) → definition_changes same a a ≡ ""
  unfolding definition_changes
  definition_changes_refl none s = refl
  definition_changes_refl (some a) s =
      let d = keyed a.keywords [] in
      let entries = Unique-Entry d (keyed-Unique a.keywords [] tt) in
      rw
        (
          names_missing-none d d entries,
          names_changed-none d d entries (keyed-All Same a.keywords [] s tt),
          attributes_changed_refl a,
          equal_keywords_refl a.keywords s,
        )
        refl

  no_changes :
      (a b : Option LibraryDefinition)
      → TellsApart same (keywords_of a) (keywords_of b)
      → definition_changes same a b ≡ ""
      → a ≡ b
  unfolding definition_changes
  no_changes none none t e = refl
  no_changes (some a) (some b) t e = ap some (equal_definitions same a b t e)
  no_changes none (some b) t e = absurd (cc)
  no_changes (some a) none t e = absurd (cc)

  itself :
      (a b : Option LibraryDefinition)
      → TellsApart same (keywords_of a) (keywords_of b)
      → a ≡ b
      → definition_changes same a b ≡ ""
  itself a b t e =
      let u =
        subst (λ (x : Option LibraryDefinition). TellsApart same (keywords_of a) (keywords_of x))
          (sym e) t in
      let s = All-map _ Same (λ x p. p.1 refl) (keywords_of a) (diagonal _ (keywords_of a) u) in
      subst (λ (x : Option LibraryDefinition). definition_changes same a x ≡ "") e
        (definition_changes_refl a s)

-- Where Python's equality tells the keyword definitions of two libraries apart, `_definition_changes` of the
-- two definitions, or of missing ones, is the empty text exactly if they are equal: every change is reported,
-- of a keyword, of the order of the keywords or of an attribute, and nothing else is.
pub definition_changes_iff :
    (same : KeywordDefinition → KeywordDefinition → Bool) (a b : Option LibraryDefinition)
    → TellsApart same (keywords_of a) (keywords_of b)
    → definition_changes same a b ≡ "" ↔ a ≡ b
definition_changes_iff same a b t = (no_changes same a b t, itself same a b t)

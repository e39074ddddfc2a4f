-- ===== src/Json/Sound/Chosen.antt =====
-- The class that is chosen for an object is one of the types.
use robotframework_jsonrpcre.Base.{
  ℕ, suc, Bool, true, false, Option, none, some, List, [], ◌∷◌, ◌||◌, is_some, String, ◌≡◌, refl,
  inl, inr, ◌==◌, ltb, All, All-append, Bool-cases,
}
use robotframework_jsonrpcre.Base.Result.{Result, ok, err, >>=-succeeds}
use robotframework_jsonrpcre.Json.Types.{
  class_type, Tys, no_types, types, Obj, Failure, type_error, overflow, Python,
}
use robotframework_jsonrpcre.Json.Handlers.{
  Conversion, Shape, Tried, given, broke, open_yet, first_of, is_object,
}
use robotframework_jsonrpcre.Json.Classes.{
  cased, Match, best, matches_from, create, is_candidate, count_known, Created, add_created,
  create_all, unmatched, decide, finish,
}
use robotframework_jsonrpcre.Json.Fits.{FitsOne, first_type, later_type}
use robotframework_jsonrpcre.Json.Sound.Parts.{SoundMember}
use robotframework_jsonrpcre.Json.Sound.Filled.{WellFormed, cased-All, create-Fits}

module _ (python : Python) where
  module _ (well_formed : (name : String) → WellFormed (python.class_of name))
      (all_types : Tys) where
    abbrev pub GoodMatch : Match → Type 0
    GoodMatch m = (o : Obj) → create python m ≡ ok o → FitsOne python all_types o

    abbrev pub GoodInstance : String × Obj → Type 0
    GoodInstance r = FitsOne python all_types r.1

    best-Good :
        (candidate : Bool) (same : ℕ) (m : Match) (found : ℕ × List Match)
        → GoodMatch m
        → All GoodMatch found.1
        → All GoodMatch (best candidate same m found).1
    best-Good false same m (most, matches) h hs = hs
    best-Good true same m (most, matches) h hs = elim (Bool-cases (ltb most (suc same))) [
      | inl y ↦ rw y (h, tt)
      | inr n ↦ elim (Bool-cases (suc same == most)) [
        | inl y ↦ rw (n, y) (All-append GoodMatch matches (m ∷ []) hs (h, tt))
        | inr k ↦ rw (n, k) hs
      ]
    ]

    matches_from-Good :
        (only : Bool) (members : List (String × Conversion)) (ts : Tys) (found : ℕ × List Match)
        → All (SoundMember python) members
        → ((o : Obj) → FitsOne python ts o → FitsOne python all_types o)
        → All GoodMatch found.1
        → All GoodMatch (matches_from python only members ts found).1
    unfolding matches_from
    matches_from-Good only members no_types found h within hs = hs
    matches_from-Good only members (types (class_type name) ts) found h within hs =
        let c = python.class_of name in
        let d = cased c members [] in
        matches_from-Good only members ts
          (best (is_candidate only c d) (count_known c d) (name, d) found) h
          (λ o f. within o (later_type f))
          (best-Good (is_candidate only c d) (count_known c d) (name, d) found
            (λ o e. within o (
              first_type (
                create-Fits python name d o (well_formed name) (cased-All python c members [] h tt)
                  e)))
            hs)
    matches_from-Good only members (types t ts) found h within hs =
        matches_from-Good only members ts found h (λ o f. within o (later_type f)) hs

    add_created-Good :
        (name : String) (made : Result Failure Obj) (first_error : Option Failure)
        (again : Option Failure → Created) (rs : List (String × Obj)) (fe : Option Failure)
        → ((o : Obj) → made ≡ ok o → FitsOne python all_types o)
        → ((e : Option Failure) (more : List (String × Obj)) (last : Option Failure)
            → again e ≡ ok (more, last)
            → All GoodInstance more)
        → add_created name made first_error again ≡ ok (rs, fe)
        → All GoodInstance rs
    add_created-Good name (ok o) first_error again rs fe h hs e =
        let (r, p, last) = >>=-succeeds _ (again first_error) (rs, fe) e in
        let i : (name, o) ∷ r.0 ≡ rs = cc last in rw (← i) (h o refl, hs first_error r.0 r.1 p)
    add_created-Good name (err (type_error n m)) first_error again rs fe h hs e =
        hs (first_of first_error (type_error n m)) rs fe e
    add_created-Good name (err overflow) first_error again rs fe h hs e = absurd (cc)

    create_all-Good :
        (ms : List Match) (first_error : Option Failure) (rs : List (String × Obj))
        (fe : Option Failure)
        → All GoodMatch ms
        → create_all python ms first_error ≡ ok (rs, fe)
        → All GoodInstance rs
    unfolding create_all
    create_all-Good [] first_error rs fe h e = let i : [] ≡ rs = cc in rw (← i) tt
    create_all-Good (m ∷ ms) first_error rs fe (h, hs) e =
        add_created-Good m.0 (create python m) first_error (create_all python ms) rs fe h
          (λ x more last. create_all-Good ms x more last hs) e

    unmatched-Good :
        (s : Shape) (ts : Tys) (first_error : Option Failure) (mapping_result : Option Obj)
        (o : Obj)
        → ((r : Obj) → mapping_result ≡ some r → FitsOne python all_types r)
        → unmatched python s ts first_error mapping_result ≡ ok o
        → FitsOne python all_types o
    unmatched-Good s ts first_error (some r) o h e = h o (cc)
    unmatched-Good s ts (some x) none o h e = absurd (cc)
    unmatched-Good s ts none none o h e = absurd (cc)

    decide-Good :
        (s : Shape) (ts : Tys) (mapping_result : Option Obj)
        (r : List (String × Obj) × Option Failure) (o : Obj)
        → ((m : Obj) → mapping_result ≡ some m → FitsOne python all_types m)
        → All GoodInstance r.0
        → decide python s ts mapping_result r ≡ ok o
        → FitsOne python all_types o
    decide-Good s ts mapping_result ((n, x) ∷ [], fe) o h (g, _) e =
        let i : x ≡ o = cc in rw (← i) g
    decide-Good s ts none (a ∷ b ∷ more, fe) o h g e = absurd (cc)
    decide-Good s ts (some m) (a ∷ b ∷ more, fe) o h g e = unmatched-Good s ts fe (some m) o h e
    decide-Good s ts mapping_result ([], fe) o h g e = unmatched-Good s ts fe mapping_result o h e

    -- What the loop over the types came to.
    abbrev pub SoundTried : Tried → Type 0
    SoundTried (given o) = FitsOne python all_types o
    SoundTried (broke e) = Unit
    SoundTried (open_yet e none) = Unit
    SoundTried (open_yet e (some o)) = FitsOne python all_types o

    open_yet-some :
        (e : Option Failure) (mapping_result : Option Obj) (r : Obj)
        → SoundTried (open_yet e mapping_result)
        → mapping_result ≡ some r
        → FitsOne python all_types r
    open_yet-some e none r h i = absurd (cc)
    open_yet-some e (some m) r h i = let j : m ≡ r = cc in rw (← j) h

    pub finish-FitsOne :
        (strict : Bool) (s : Shape) (tried : Tried) (o : Obj)
        → All (SoundMember python) s.members
        → SoundTried tried
        → finish strict python s all_types tried ≡ ok o
        → FitsOne python all_types o
    unfolding finish
    finish-FitsOne strict s (given r) o h g e = let i : r ≡ o = cc in rw (← i) g
    finish-FitsOne strict s (broke x) o h g e = absurd (cc)
    finish-FitsOne strict s (open_yet x m) o h g e = elim (Bool-cases (is_object s.value)) [
      | inl y ↦
          let found = matches_from python (strict || is_some m) s.members all_types (0, []) in
          let (r, p, last) = >>=-succeeds _ (create_all python found.1 x) o (rw y at e) in
          let good =
            matches_from-Good (strict || is_some m) s.members all_types (0, []) h (λ a f. f) tt in
          decide-Good s all_types m r o (λ a. open_yet-some x m a g)
            (create_all-Good found.1 x r.0 r.1 good p) last
      | inr n ↦ unmatched-Good s all_types x m o (λ a. open_yet-some x m a g) (rw n at e)
    ]

-- ===== src/Json/Sound/Parts.antt =====
-- The handlers of `from_dict` give objects of their types, if the conversions of the elements do.
use robotframework_jsonrpcre.Base.{
  ℕ, Bool, true, false, Option, none, some, List, [], ◌∷◌, map, String, ◌≡◌, refl, inl, inr, arith,
  ◌==◌, ==_iff, length, if◌then◌else◌, All, Bool-cases,
}
use robotframework_jsonrpcre.Base.Result.{Result, ok, err, >>=-succeeds}
use robotframework_jsonrpcre.Value.{Value, null, boolean, integer, float, text}
use robotframework_jsonrpcre.Json.Types.{
  Basic, int_type, bool_type, float_type, str_type, none_type, Ty, basic, literal, enum, tuple_of,
  tuple_every, list_of, mapping_of, Tys, no_types, types, Obj, as_is, list, tuple, dict, member,
  Objs, no_objs, objs, Pairs, no_pairs, pair, Failure, type_error, overflow, Python, single,
}
use robotframework_jsonrpcre.Json.Handlers.{
  Conversion, Shape, Handled, made, made_dict, number, handle_number, with_name, is_basic,
  handle_basic_types, among, handle_literal, handle_enum, all_of, is_array, is_object,
  handle_sequence, each_of, count_types, handle_tuple_every, handle_tuple, pairs_of, handle_mapping,
}
use robotframework_jsonrpcre.Json.Fits.{
  is_of, HasMember, Fits, fits_basic, fits_literal, fits_enum, fits_tuple, fits_every, fits_bare,
  fits_list, fits_mapping, FitsTypes, FitsAll, all_fit, and_all, FitsEach, each_fits, and_each,
  FitsPairs, pairs_fit, and_pairs,
}

is_basic-is_of : (b : Basic) (v : Value) → is_basic b v ≡ true → is_of b v ≡ true
is_basic-is_of int_type (integer n) h = refl
is_basic-is_of float_type (float x) h = refl
is_basic-is_of str_type (text s) h = refl
is_basic-is_of none_type null h = refl
is_basic-is_of b v h = absurd (cc)

module _ (python : Python) where
  abbrev pub SoundConversion : Conversion → Type 0
  SoundConversion c = (ts : Tys) (o : Obj) → c ts ≡ ok o → FitsTypes python ts o

  abbrev pub SoundMember : String × Conversion → Type 0
  SoundMember m = SoundConversion m.1

  abbrev pub SoundHandled : Ty → Handled → Type 0
  SoundHandled t h = (o : Obj) → h ≡ ok (some o) → Fits python t o

  all_of-FitsAll :
      (cs : List Conversion) (ts : Tys) (os : Objs)
      → All SoundConversion cs
      → all_of (map (λ (c : Conversion). c ts) cs) ≡ ok os
      → FitsAll python ts os
  unfolding all_of
  all_of-FitsAll [] ts os h e = let i : no_objs ≡ os = cc in rw (← i) all_fit
  all_of-FitsAll (c ∷ cs) ts os (h, hs) e =
      let (o, p, more) = >>=-succeeds _ (c ts) os e in
      let (rest, q, last) = >>=-succeeds _ (all_of (map (λ (c : Conversion). c ts) cs)) os more in
      let i : objs o rest ≡ os = cc last in
      rw (← i) (and_all (h ts o p) (all_of-FitsAll cs ts rest hs q))

  each_of-FitsEach :
      (cs : List Conversion) (ts : Tys) (os : Objs)
      → All SoundConversion cs
      → count_types ts ≡ length cs
      → all_of (each_of cs ts) ≡ ok os
      → FitsEach python ts os
  unfolding all_of
  each_of-FitsEach [] no_types os h n e = let i : no_objs ≡ os = cc in rw (← i) each_fits
  each_of-FitsEach [] (types t ts) os h n e = absurd (omega arith)
  each_of-FitsEach (c ∷ cs) no_types os h n e = absurd (omega arith)
  each_of-FitsEach (c ∷ cs) (types t ts) os (h, hs) n e =
      let (o, p, more) = >>=-succeeds _ (c (single t)) os e in
      let (rest, q, last) = >>=-succeeds _ (all_of (each_of cs ts)) os more in
      let i : objs o rest ≡ os = cc last in
      rw (← i) (and_each (h (single t) o p) (each_of-FitsEach cs ts rest hs (omega (arith, n)) q))

  pub with_name-ok :
      (n : String) (r : Result Failure Obj) (o : Obj) → with_name n r ≡ ok o → r ≡ ok o
  with_name-ok n (ok x) o e = e
  with_name-ok n (err (type_error none m)) o e = absurd (cc)
  with_name-ok n (err (type_error (some k) m)) o e = absurd (cc)
  with_name-ok n (err overflow) o e = absurd (cc)

  pairs_of-FitsPairs :
      (convert_key : String → Result Failure Obj) (key value : Tys)
      (ms : List (String × Conversion)) (ps : Pairs)
      → ((n : String) (o : Obj) → convert_key n ≡ ok o → FitsTypes python key o)
      → All SoundMember ms
      → pairs_of convert_key value ms ≡ ok ps
      → FitsPairs python key value ps
  unfolding pairs_of
  pairs_of-FitsPairs convert_key key value [] ps k h e =
      let i : no_pairs ≡ ps = cc in rw (← i) pairs_fit
  pairs_of-FitsPairs convert_key key value ((n, c) ∷ ms) ps k (h, hs) e =
      let (o, p, more) = >>=-succeeds _ (with_name n (convert_key n)) ps e in
      let (v, q, less) = >>=-succeeds _ (with_name n (c value)) ps more in
      let (rest, t, last) = >>=-succeeds _ (pairs_of convert_key value ms) ps less in
      let i : pair o v rest ≡ ps = cc last in
      rw (← i) (
        and_pairs (k n o (with_name-ok n _ o p)) (h value v (with_name-ok n _ v q))
          (pairs_of-FitsPairs convert_key key value ms rest k hs t))

  made-ok :
      (f : Objs → Obj) (r : Result Failure Objs) (o : Obj)
      → made f r ≡ ok (some o)
      → (os : Objs) × (r ≡ ok os) × (f os ≡ o)
  made-ok f (ok os) o e = (os, refl, cc)
  made-ok f (err x) o e = absurd (cc)

  made_dict-ok :
      (r : Result Failure Pairs) (o : Obj)
      → made_dict r ≡ ok (some o)
      → (ps : Pairs) × (r ≡ ok ps) × (dict ps ≡ o)
  made_dict-ok (ok ps) o e = (ps, refl, cc)
  made_dict-ok (err x) o e = absurd (cc)

  number-Sound :
      (x : Option ℕ) (o : Obj) → number x ≡ ok (some o) → Fits python (basic float_type) o
  number-Sound none o e = absurd (cc)
  number-Sound (some x) o e = let i : as_is (float x) ≡ o = cc in rw (← i) (fits_basic refl)

  handle_number-Sound :
      (strict : Bool) (b : Basic) (v : Value)
      → SoundHandled (basic b) (handle_number strict python b v)
  handle_number-Sound false float_type (integer n) o e = number-Sound (python.float_of n) o e
  handle_number-Sound _ b v o e = absurd (cc)

  basic_or_number :
      (strict : Bool) (b : Basic) (v : Value) (o : Obj) (t : Bool)
      → (t ≡ true → is_of b v ≡ true)
      → (if t then ok (some (as_is v)) else handle_number strict python b v) ≡ ok (some o)
      → Fits python (basic b) o
  basic_or_number strict b v o true h e =
      let i : as_is v ≡ o = cc e in rw (← i) (fits_basic (h refl))
  basic_or_number strict b v o false h e = handle_number-Sound strict b v o e

  pub handle_basic_types-Sound :
      (strict : Bool) (b : Basic) (v : Value)
      → SoundHandled (basic b) (handle_basic_types strict python b v)
  unfolding handle_basic_types
  handle_basic_types-Sound strict bool_type (boolean x) o e =
      let i : as_is (boolean x) ≡ o = cc in rw (← i) (fits_basic refl)
  handle_basic_types-Sound strict b (boolean x) o e = absurd (cc)
  handle_basic_types-Sound strict b v o e =
      basic_or_number strict b v o (is_basic b v) (is_basic-is_of b v) e

  pub handle_literal-Sound :
      (values : List Value) (v : Value)
      → SoundHandled (literal values) (handle_literal python values v)
  unfolding handle_literal
  handle_literal-Sound values v o e = elim (Bool-cases (among python v values)) [
    | inl t ↦ (let i : as_is v ≡ o = cc (rw t at e) in rw (← i) (fits_literal t))
    | inr f ↦ absurd (cc (rw f at e))
  ]

  handle_enum-member :
      (name : String) (ms : List (String × Value)) (v : Value) (o : Obj)
      → handle_enum python name ms v ≡ ok (some o)
      → (m : String) × (member name m ≡ o) × HasMember m ms
  unfolding handle_enum
  handle_enum-member name [] v o e = absurd (cc)
  handle_enum-member name ((m, w) ∷ ms) v o e = elim (Bool-cases (python.equals w v)) [
    | inl t ↦ (m, cc (rw t at e), inl refl)
    | inr f ↦ (let (k, i, h) = handle_enum-member name ms v o (rw f at e) in (k, i, inr h))
  ]

  pub handle_enum-Sound :
      (name : String) (ms : List (String × Value)) (v : Value)
      → SoundHandled (enum name ms) (handle_enum python name ms v)
  handle_enum-Sound name ms v o e =
      let (m, i, h) = handle_enum-member name ms v o e in rw (← i) (fits_enum h)

  module _ (s : Shape) (elements : All SoundConversion s.elements) where
    pub handle_sequence-Sound : (ts : Tys) → SoundHandled (list_of ts) (handle_sequence s ts)
    unfolding handle_sequence
    handle_sequence-Sound ts o e = elim (Bool-cases (is_array s.value)) [
      | inl t ↦
          let (os, p, i) = made-ok list _ o (rw t at e) in
          rw (← i) (fits_list (all_of-FitsAll s.elements ts os elements p))
      | inr f ↦ absurd (cc (rw f at e))
    ]

    pub handle_tuple_every-Sound : (t : Ty) → SoundHandled (tuple_every t) (handle_tuple_every s t)
    unfolding handle_tuple_every
    handle_tuple_every-Sound t o e = elim (Bool-cases (is_array s.value)) [
      | inl y ↦
          let (os, p, i) = made-ok tuple _ o (rw y at e) in
          rw (← i) (fits_every (all_of-FitsAll s.elements (single t) os elements p))
      | inr f ↦ absurd (cc (rw f at e))
    ]

    pub handle_tuple-Sound : (ts : Tys) → SoundHandled (tuple_of ts) (handle_tuple s ts)
    unfolding handle_tuple
    handle_tuple-Sound no_types o e = elim (Bool-cases (is_array s.value)) [
      | inl y ↦
          let (os, p, i) = made-ok tuple _ o (rw y at e) in
          rw (← i) (fits_bare (all_of-FitsAll s.elements no_types os elements p))
      | inr f ↦ absurd (cc (rw f at e))
    ]
    handle_tuple-Sound (types t ts) o e = elim (Bool-cases (is_array s.value)) [
      | inl y ↦ elim (Bool-cases (count_types (types t ts) == length s.elements)) [
        | inl n ↦
            let (os, p, i) = made-ok tuple _ o (rw (y, n) at e) in
            rw (← i) (
              fits_tuple
                (each_of-FitsEach s.elements (types t ts) os elements ((==_iff _ _).0 n) p))
        | inr n ↦ absurd (cc (rw (y, n) at e))
      ]
      | inr f ↦ absurd (cc (rw f at e))
    ]

    pub handle_mapping-Sound :
        (convert_key : String → Result Failure Obj) (key value : Tys)
        → ((n : String) (o : Obj) → convert_key n ≡ ok o → FitsTypes python key o)
        → All SoundMember s.members
        → SoundHandled (mapping_of key value) (handle_mapping convert_key s value)
    unfolding handle_mapping
    handle_mapping-Sound convert_key key value k members o e =
        elim (Bool-cases (is_object s.value)) [
          | inl y ↦
              let (ps, p, i) = made_dict-ok _ o (rw y at e) in
              rw (← i)
                (fits_mapping (pairs_of-FitsPairs convert_key key value s.members ps k members p))
          | inr f ↦ absurd (cc (rw f at e))
        ]

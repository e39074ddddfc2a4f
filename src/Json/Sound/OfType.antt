-- ===== src/Json/Sound/OfType.antt =====
-- Type soundness of `from_dict`, by induction on the types and then on the value.
use robotframework_jsonrpcre.Base.{
  Bool, not, Option, none, some, String, ◌≡◌, refl, inl, inr, ◌&&◌, All, Bool-cases,
}
use robotframework_jsonrpcre.Base.Result.{Result, ok, err}
use robotframework_jsonrpcre.Value.{
  Value, text, array, object, Items, nil, cons, Fields, end, field,
}
use robotframework_jsonrpcre.Json.Types.{
  Ty, any, basic, union, literal, enum, tuple_of, tuple_every, list_of, mapping_of, class_type, Tys,
  no_types, types, Obj, as_is, Failure, type_error, overflow, Python,
}
use robotframework_jsonrpcre.Json.Handlers.{
  Shape, leaf, Handled, Tried, turn, first_of, is_mapping, is_one,
}
use robotframework_jsonrpcre.Json.FromDict.{
  taken, from_loop, handle, try_types, from_shape, from_dict, conversions, member_conversions,
}
use robotframework_jsonrpcre.Json.Fits.{
  fits_any, fits_union, FitsOne, first_type, later_type, FitsTypes, untyped, one_of,
}
use robotframework_jsonrpcre.Json.Sound.Parts.{
  SoundConversion, SoundMember, SoundHandled, handle_basic_types-Sound, handle_literal-Sound,
  handle_enum-Sound, handle_sequence-Sound, handle_tuple_every-Sound, handle_tuple-Sound,
  handle_mapping-Sound,
}
use robotframework_jsonrpcre.Json.Sound.Filled.{WellFormed}
use robotframework_jsonrpcre.Json.Sound.Chosen.{SoundTried, finish-FitsOne}

module _ (strict : Bool) (python : Python)
    (well_formed : (name : String) → WellFormed (python.class_of name)) where
  from_loop-FitsTypes :
      (s : Shape) (ts : Tys) (tried : Tried) (o : Obj)
      → All (SoundMember python) s.members
      → SoundTried python well_formed ts tried
      → from_loop strict python s ts tried ≡ ok o
      → FitsTypes python ts o
  from_loop-FitsTypes s no_types tried o h g e =
      let i : as_is s.value ≡ o = cc in rw (← i) (untyped s.value)
  from_loop-FitsTypes s (types t ts) tried o h g e =
      one_of (finish-FitsOne python well_formed (types t ts) strict s tried o h g e)

  turn-Sound :
      (all_types : Tys) (alone mapping : Bool) (fe : Option Failure) (r : Handled)
      (again : Option Failure → Tried)
      → ((o : Obj) → r ≡ ok (some o) → FitsOne python all_types o)
      → ((e : Option Failure) → SoundTried python well_formed all_types (again e))
      → SoundTried python well_formed all_types (turn alone mapping fe r again)
  turn-Sound all_types alone mapping fe (err overflow) again h hs = tt
  turn-Sound all_types alone mapping fe (err (type_error n m)) again h hs =
      hs (first_of fe (type_error n m))
  turn-Sound all_types alone mapping fe (ok none) again h hs = hs fe
  turn-Sound all_types alone mapping fe (ok (some r)) again h hs =
      elim (Bool-cases (mapping && not alone)) [ inl y ↦ rw y (h r refl) | inr n ↦ rw n (h r refl) ]

  taken-Sound :
      (ts : Tys) (r : Result Failure Obj)
      → ((o : Obj) → r ≡ ok o → FitsTypes python ts o)
      → SoundHandled python (union ts) (taken r)
  taken-Sound ts (ok x) h o e = fits_union (h o (cc))
  taken-Sound ts (err x) h o e = absurd (cc)

  mutual
    unfolding try_types

    handle-Sound :
        (s : Shape)
        → All (SoundConversion python) s.elements
        → All (SoundMember python) s.members
        → (t : Ty) → SoundHandled python t (handle strict python s t)
    handle-Sound s elements members any o e =
        let i : as_is s.value ≡ o = cc in rw (← i) (fits_any s.value)
    handle-Sound s elements members (basic b) o e =
        handle_basic_types-Sound python strict b s.value o e
    handle-Sound s elements members (union ts) o e =
        taken-Sound ts
          (from_loop strict python s ts (try_types strict python s (is_one ts) none ts))
          (λ x p.
            from_loop-FitsTypes s ts _ x members
              (try_types-Sound s elements members (is_one ts) none ts ts (λ a f. f)) p)
          o e
    handle-Sound s elements members (literal values) o e =
        handle_literal-Sound python values s.value o e
    handle-Sound s elements members (enum name ms) o e =
        handle_enum-Sound python name ms s.value o e
    handle-Sound s elements members (tuple_of ts) o e = handle_tuple-Sound python s elements ts o e
    handle-Sound s elements members (tuple_every t) o e =
        handle_tuple_every-Sound python s elements t o e
    handle-Sound s elements members (list_of ts) o e =
        handle_sequence-Sound python s elements ts o e
    handle-Sound s elements members (mapping_of key value) o e =
        handle_mapping-Sound python s elements _ key value
          (λ n k p.
            from_loop-FitsTypes (leaf (text n)) key _ k tt
              (try_types-Sound (leaf (text n)) tt tt (is_one key) none key key (λ a f. f)) p)
          members o e
    handle-Sound s elements members (class_type name) o e = absurd (cc)

    try_types-Sound :
        (s : Shape)
        → All (SoundConversion python) s.elements
        → All (SoundMember python) s.members
        → (alone : Bool) (fe : Option Failure) (ts all_types : Tys)
        → ((o : Obj) → FitsOne python ts o → FitsOne python all_types o)
        → SoundTried python well_formed all_types (try_types strict python s alone fe ts)
    try_types-Sound s elements members alone fe no_types all_types within = tt
    try_types-Sound s elements members alone fe (types t ts) all_types within =
        turn-Sound all_types alone (is_mapping t) fe (handle strict python s t) _
          (λ o e. within o (first_type (handle-Sound s elements members t o e)))
          (λ e.
            try_types-Sound s elements members alone e ts all_types
              (λ o f. within o (later_type f)))

  from_shape-Sound :
      (s : Shape)
      → All (SoundConversion python) s.elements
      → All (SoundMember python) s.members
      → SoundConversion python (from_shape strict python s)
  unfolding from_shape
  from_shape-Sound s elements members ts o e =
      from_loop-FitsTypes s ts _ o members
        (try_types-Sound s elements members (is_one ts) none ts ts (λ a f. f)) e

  mutual
    unfolding from_dict

    value-Sound : (v : Value) → SoundConversion python (from_dict strict python v)
    value-Sound (array xs) = from_shape-Sound _ (items-Sound xs) tt
    value-Sound (object fs) = from_shape-Sound _ tt (fields-Sound fs)
    value-Sound v = from_shape-Sound (leaf v) tt tt

    items-Sound : (xs : Items) → All (SoundConversion python) (conversions strict python xs)
    items-Sound nil = tt
    items-Sound (cons v vs) = (value-Sound v, items-Sound vs)

    fields-Sound : (fs : Fields) → All (SoundMember python) (member_conversions strict python fs)
    fields-Sound end = tt
    fields-Sound (field k v fs) = (value-Sound v, fields-Sound fs)

-- Where the fields of each class are told apart by their names, an object that `from_dict` gives,
-- strict or not, is of one of the types it was asked for, down to the elements of its lists and
-- tuples, the keys and values of its dicts, and the attributes of its instances, each of which has the
-- type of its field or is the field's default; without types the value comes as it is.
pub from_dict-FitsTypes :
    (strict : Bool) (python : Python) (v : Value) (ts : Tys) (o : Obj)
    → ((name : String) → WellFormed (python.class_of name))
    → from_dict strict python v ts ≡ ok o
    → FitsTypes python ts o
from_dict-FitsTypes strict python v ts o well_formed e =
    value-Sound strict python well_formed v ts o e

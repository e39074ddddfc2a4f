-- ===== src/Json/Validate/Converted.antt =====
-- What `from_dict` gives passes `validate_types`.
use robotframework_jsonrpcre.Base.{
  true, Option, none, some, List, [], ◌∷◌, ◌++◌, ◌≡◌, refl, sym, ◌∙◌, arith, eq_refl, length,
}
use robotframework_jsonrpcre.Value.{Value, boolean, integer, float, text, null, array, object}
use robotframework_jsonrpcre.Json.Types.{
  Basic, int_type, bool_type, float_type, str_type, none_type, Ty, Tys, no_types, types, Obj, as_is,
  list, tuple, dict, member, instance_of, Objs, Pairs, Python, single,
}
use robotframework_jsonrpcre.Json.Handlers.{among, count_types}
use robotframework_jsonrpcre.Json.Fits.{
  Fits, FitsOne, FitsTypes, FitsAll, FitsEach, FitsPairs, is_of,
}
use robotframework_jsonrpcre.Json.Validate.{
  Errors, Checked, childless, Instances, is_instance, is_among, check_all, check_each,
  check_members, unless_untyped, errors_at, try_each, next_type, check, validate_value,
  value_checks, field_checks, validate, element_checks, member_checks, validate_types,
  validate_tuple,
}

is_of-is_instance : (b : Basic) (v : Value) → is_of b v ≡ true → is_instance b v ≡ true
is_of-is_instance bool_type (boolean b) h = refl
is_of-is_instance int_type (integer n) h = refl
is_of-is_instance float_type (float x) h = refl
is_of-is_instance str_type (text t) h = refl
is_of-is_instance none_type null h = refl
is_of-is_instance b v h = cc

module _ (python : Python) (instances : Instances) where
  among-is_among :
      (v : Value) (values : List Value)
      → among python v values ≡ true
      → is_among python instances (as_is v) values ≡ true
  among-is_among v [] h = h
  among-is_among v (w ∷ ws) h = ground (arith, among-is_among v ws)

  -- What an object is checked as.
  abbrev shape_of : Obj → Checked
  shape_of (as_is (array xs)) = record {
    value = as_is (array xs);
    elements = value_checks python instances xs;
    members = [];
  }
  shape_of (as_is (object fs)) = record {
    value = as_is (object fs);
    elements = [];
    members = field_checks python instances fs;
  }
  shape_of (as_is v) = childless (as_is v)
  shape_of (list os) = record {
    value = list os;
    elements = element_checks python instances os;
    members = [];
  }
  shape_of (tuple os) = record {
    value = tuple os;
    elements = element_checks python instances os;
    members = [];
  }
  shape_of (dict ps) = record {
    value = dict ps;
    elements = [];
    members = member_checks python instances ps;
  }
  shape_of o = childless o

  validate-check :
      (o : Obj) (ts : Tys) → validate python instances o ts ≡ check python instances (shape_of o) ts
  unfolding validate validate_value
  validate-check (as_is (array xs)) ts = refl
  validate-check (as_is (object fs)) ts = refl
  validate-check (as_is _) ts = refl
  validate-check (list os) ts = refl
  validate-check (tuple os) ts = refl
  validate-check (dict ps) ts = refl
  validate-check (member e m) ts = refl
  validate-check (instance_of n attrs) ts = refl

  value-shape_of : (v : Value) → (shape_of (as_is v)).value ≡ as_is v
  value-shape_of (array xs) = refl
  value-shape_of (object fs) = refl
  value-shape_of _ = refl

  next_type-nil :
      (x : Option Errors) (r : Errors) (again : Errors → Errors)
      → ((s : Errors) → again s ≡ [])
      → next_type x r again ≡ []
  next_type-nil none r again h = h r
  next_type-nil (some []) r again h = refl
  next_type-nil (some (e ∷ es)) r again h = h (r ++ (e ∷ es))

  unless_untyped-nil : (ts : Tys) (e : Errors) → e ≡ [] → unless_untyped ts e ≡ []
  unless_untyped-nil no_types e h = refl
  unless_untyped-nil (types t ts) e h = h

  mutual
    unfolding errors_at try_each check validate element_checks member_checks validate_tuple

    Fits-errors_at :
        (t : Ty) (o : Obj) → Fits python t o → errors_at python instances (shape_of o) t ≡ some []
    Fits-errors_at t o (Fits.fits_any v) = refl
    Fits-errors_at t o (Fits.fits_basic {b} {v} h) =
        rw (value-shape_of v, is_of-is_instance b v h) refl
    Fits-errors_at t o (Fits.fits_union {ts} (FitsTypes.untyped v)) = refl
    Fits-errors_at t o (Fits.fits_union {ts} (FitsTypes.one_of f)) =
        rw (unless_untyped-nil ts _ (FitsOne-try_each ts o f ts [])) refl
    Fits-errors_at t o (Fits.fits_literal {values} {v} h) =
        rw (value-shape_of v, among-is_among v values h) refl
    Fits-errors_at t o (Fits.fits_enum {name} h) = rw (eq_refl name) refl
    Fits-errors_at t o (Fits.fits_tuple {ts = no_types} f) = refl
    Fits-errors_at t o (Fits.fits_tuple {ts = types t1 more} {os} f) =
        let (same, none_left) = FitsEach-check_each (types t1 more) os f in
        rw (sym same) (ground (arith, none_left))
    Fits-errors_at t o (Fits.fits_every {t = one} {os} f) =
        rw (FitsAll-check_all (single one) os f) refl
    Fits-errors_at t o (Fits.fits_bare f) = refl
    Fits-errors_at t o (Fits.fits_list {ts = no_types} {os} f) = refl
    Fits-errors_at t o (Fits.fits_list {ts = types t1 more} {os} f) =
        rw (FitsAll-check_all (types t1 more) os f) refl
    Fits-errors_at t o (Fits.fits_mapping {key} {value} {ps} f) =
        rw (FitsPairs-check_members key value ps f) refl
    Fits-errors_at t o (Fits.fits_class {name} f) = rw (eq_refl name) refl

    FitsOne-try_each :
        (ts : Tys) (o : Obj)
        → FitsOne python ts o
        → (all : Tys) (r : Errors) → try_each python instances (shape_of o) all r ts ≡ []
    FitsOne-try_each ts o (FitsOne.first_type {t} f) all r = rw (Fits-errors_at t o f) refl
    FitsOne-try_each ts o (FitsOne.later_type {t} {ts = more} f) all r =
        next_type-nil (errors_at python instances (shape_of o) t) r
          (λ s. try_each python instances (shape_of o) all s more) (FitsOne-try_each more o f all)

    FitsTypes-validate :
        (ts : Tys) (o : Obj) → FitsTypes python ts o → validate python instances o ts ≡ []
    FitsTypes-validate ts o (FitsTypes.untyped v) = rw (validate-check (as_is v) no_types) refl
    FitsTypes-validate ts o (FitsTypes.one_of f) =
        validate-check o ts ∙ unless_untyped-nil ts _ (FitsOne-try_each ts o f ts [])

    FitsAll-check_all :
        (ts : Tys) (os : Objs)
        → FitsAll python ts os
        → check_all ts (element_checks python instances os) ≡ []
    FitsAll-check_all ts os FitsAll.all_fit = refl
    FitsAll-check_all ts os (FitsAll.and_all {o = o1} {os = rest} f g) =
        rw (FitsTypes-validate ts o1 f) (FitsAll-check_all ts rest g)

    FitsEach-check_each :
        (ts : Tys) (os : Objs)
        → FitsEach python ts os
        → (count_types ts ≡ length (element_checks python instances os))
          × (check_each ts (element_checks python instances os) ≡ [])
    FitsEach-check_each ts os FitsEach.each_fits = (refl, refl)
    FitsEach-check_each ts os (FitsEach.and_each {t} {ts = more} {o = o1} {os = rest} f g) =
        let (same, none_left) = FitsEach-check_each more rest g in
        (rw same refl, rw (FitsTypes-validate (single t) o1 f) none_left)

    FitsPairs-check_members :
        (key value : Tys) (ps : Pairs)
        → FitsPairs python key value ps
        → check_members key value (member_checks python instances ps) ≡ []
    FitsPairs-check_members key value ps FitsPairs.pairs_fit = refl
    FitsPairs-check_members key value ps (FitsPairs.and_pairs {k = k} {v = v} {ps = rest} f g h) =
        rw (FitsTypes-validate key k f, FitsTypes-validate value v g)
          (FitsPairs-check_members key value rest h)

  -- An object of the types passes.
  pub FitsTypes-validate_types :
      (ts : Tys) (o : Obj) → FitsTypes python ts o → validate_types python instances ts o ≡ []
  unfolding validate_types
  FitsTypes-validate_types ts o f = FitsTypes-validate ts o f

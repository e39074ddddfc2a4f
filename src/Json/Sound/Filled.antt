-- ===== src/Json/Sound/Filled.antt =====
-- An object that fills a class gives each field a value of its type, or its default.
use robotframework_jsonrpcre.Base.{
  Option, none, some, List, [], ◌∷◌, String, ◌≡◌, refl, subst, inl, inr, ◌=ₛ◌, All, Bool-cases,
  eq_iff,
}
use robotframework_jsonrpcre.Base.Dict.{Dict, lookup, put}
use robotframework_jsonrpcre.Base.Result.{Result, ok, >>=-succeeds}
use robotframework_jsonrpcre.Json.Types.{
  class_type, Obj, instance_of, Attributes, no_attributes, attribute, ClassField, Class, Failure,
  Python, single,
}
use robotframework_jsonrpcre.Json.Handlers.{Conversion, with_name}
use robotframework_jsonrpcre.Json.Classes.{
  decode_name, cased, field_of, add_parameter, parameters, or_default, add_attribute, construct,
  instance_or, create,
}
use robotframework_jsonrpcre.Json.Fits.{
  Fits, fits_class, FitsTypes, FitsFields, fields_fit, by_value, by_default,
}
use robotframework_jsonrpcre.Json.Sound.Parts.{SoundConversion, SoundMember, with_name-ok}

-- The fields of a class are told apart by their names.
abbrev pub WellFormed : Class → Type 0
WellFormed c =
    All (λ (f : ClassField). field_of f.field_name c.class_fields ≡ some f) c.class_fields

module _ (python : Python) where
  abbrev Parameter : Class → String × Obj → Type 0
  Parameter c p =
      (f : ClassField)
      → field_of p.0 c.class_fields ≡ some f
      → FitsTypes python (single f.field_type) p.1

  put-All :
      (k : String) (v : Conversion) (d : Dict Conversion)
      → SoundConversion python v
      → All (SoundMember python) d
      → All (SoundMember python) (put k v d)
  unfolding put
  put-All k v [] h hs = (h, tt)
  put-All k v ((j, w) ∷ d) h (i, hs) = elim (Bool-cases (j =ₛ k)) [
    | inl y ↦ rw y (h, hs)
    | inr n ↦ rw n (i, put-All k v d h hs)
  ]

  pub cased-All :
      (c : Class) (ms : List (String × Conversion)) (d : Dict Conversion)
      → All (SoundMember python) ms
      → All (SoundMember python) d
      → All (SoundMember python) (cased c ms d)
  unfolding cased
  cased-All c [] d h hd = hd
  cased-All c ((k, v) ∷ ms) d (h, hs) hd =
      cased-All c ms (put (decode_name c k) v d) hs (put-All (decode_name c k) v d h hd)

  field_of-Parameter :
      (c : Class) (k : String) (o : Obj) (f : ClassField)
      → field_of k c.class_fields ≡ some f
      → FitsTypes python (single f.field_type) o
      → Parameter c (k, o)
  field_of-Parameter c k o f e h g p =
      let i : f ≡ g = cc in subst (λ (x : ClassField). FitsTypes python (single x.field_type) o) i h

  add_parameter-All :
      (c : Class) (k : String) (v : Conversion) (found : Option ClassField)
      (others : Result Failure (Dict Obj)) (ps : Dict Obj)
      → field_of k c.class_fields ≡ found
      → SoundConversion python v
      → ((rest : Dict Obj) → others ≡ ok rest → All (Parameter c) rest)
      → add_parameter k v found others ≡ ok ps
      → All (Parameter c) ps
  add_parameter-All c k v none others ps y h hs e = hs ps e
  add_parameter-All c k v (some f) others ps y h hs e =
      let (o, p, more) = >>=-succeeds _ (with_name k (v (single f.field_type))) ps e in
      let (rest, q, last) = >>=-succeeds _ others ps more in
      let i : (k, o) ∷ rest ≡ ps = cc last in
      let fits = h (single f.field_type) o (with_name-ok python k _ o p) in
      rw (← i) (field_of-Parameter c k o f y fits, hs rest q)

  parameters-All :
      (c : Class) (d : Dict Conversion) (ps : Dict Obj)
      → All (SoundMember python) d
      → parameters c d ≡ ok ps
      → All (Parameter c) ps
  unfolding parameters
  parameters-All c [] ps h e = let i : [] ≡ ps = cc in rw (← i) tt
  parameters-All c ((k, v) ∷ d) ps (h, hs) e =
      add_parameter-All c k v (field_of k c.class_fields) (parameters c d) ps refl h
        (λ rest. parameters-All c d rest hs) e

  lookup-Parameter :
      (c : Class) (k : String) (ps : Dict Obj) (o : Obj)
      → All (Parameter c) ps
      → lookup k ps ≡ some o
      → Parameter c (k, o)
  unfolding lookup
  lookup-Parameter c k [] o h e = absurd (cc)
  lookup-Parameter c k ((j, x) ∷ ps) o (h, hs) e = elim (Bool-cases (j =ₛ k)) [
    | inl y ↦
        let i : x ≡ o = cc (rw y at e) in
        let same : j ≡ k = (eq_iff j k).0 y in
        let both : (j, x) ≡ (k, o) = cc in subst (Parameter c) both h
    | inr n ↦ lookup-Parameter c k ps o hs (rw n at e)
  ]

  or_default-by :
      (f : ClassField) (fs : List ClassField) (o : Obj) (attrs : Attributes) (found : Option Obj)
      → ((x : Obj) → found ≡ some x → FitsTypes python (single f.field_type) x)
      → or_default found f.default ≡ some o
      → FitsFields python fs attrs
      → FitsFields python (f ∷ fs) (attribute f.field_name o attrs)
  or_default-by f fs o attrs none h e hs = by_default e hs
  or_default-by f fs o attrs (some x) h e hs = by_value (h o e) hs

  add_attribute-some :
      (name : String) (value : Option Obj) (rest : Option Attributes) (attrs : Attributes)
      → add_attribute name value rest ≡ some attrs
      → (o : Obj) × (r : Attributes) × (value ≡ some o)
        × (rest ≡ some r)
        × (attribute name o r ≡ attrs)
  add_attribute-some name (some o) (some r) attrs e = (o, r, refl, refl, cc)
  add_attribute-some name none r attrs e = absurd (cc)
  add_attribute-some name (some o) none attrs e = absurd (cc)

  construct-FitsFields :
      (c : Class) (fs : List ClassField) (ps : Dict Obj) (attrs : Attributes)
      → All (λ (f : ClassField). field_of f.field_name c.class_fields ≡ some f) fs
      → All (Parameter c) ps
      → construct fs ps ≡ some attrs
      → FitsFields python fs attrs
  unfolding construct
  construct-FitsFields c [] ps attrs w h e =
      let i : no_attributes ≡ attrs = cc in rw (← i) fields_fit
  construct-FitsFields c (f ∷ fs) ps attrs (w, ws) h e =
      let (o, r, p, q, i) = add_attribute-some f.field_name _ (construct fs ps) attrs e in
      rw (← i) (
        or_default-by f fs o r (lookup f.field_name ps)
          (λ x y. lookup-Parameter c f.field_name ps x h y f w) p
          (construct-FitsFields c fs ps r ws h q))

  instance_or-Fits :
      (name : String) (ps : Dict Obj) (made : Option Attributes) (o : Obj)
      → ((attrs : Attributes)
          → made ≡ some attrs
          → FitsFields python (python.class_of name).class_fields attrs)
      → instance_or python name ps made ≡ ok o
      → Fits python (class_type name) o
  instance_or-Fits name ps none o h e = absurd (cc)
  instance_or-Fits name ps (some attrs) o h e =
      let i : instance_of name attrs ≡ o = cc in rw (← i) (fits_class (h attrs refl))

  -- A match whose values are sound gives an instance of its class.
  pub create-Fits :
      (name : String) (d : Dict Conversion) (o : Obj)
      → WellFormed (python.class_of name)
      → All (SoundMember python) d
      → create python (name, d) ≡ ok o
      → Fits python (class_type name) o
  unfolding create
  create-Fits name d o w h e =
      let c = python.class_of name in
      let (ps, p, made) = >>=-succeeds _ (parameters c d) o e in
      instance_or-Fits name ps (construct c.class_fields ps) o
        (λ attrs q. construct-FitsFields c c.class_fields ps attrs w (parameters-All c d ps h p) q)
        made

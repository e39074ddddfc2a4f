-- ===== src/Json/Case.antt =====
-- The case of field names: `to_snake_case` and `to_camel_case` of
-- packages/jsonrpcpeer/src/jsonrpcpeer/json_helpers.py, on names of ASCII letters; other letters have no
-- case here.
use robotframework_jsonrpcre.Base.{
  ℕ, ◌+◌, ◌-◌, Bool, true, false, [], ◌∷◌, ◌≡◌, refl, ap, arith, ◌&&◌, ◌||◌, ◌==◌, leb,
  if◌then◌else◌, All, Bool-cases, inl, inr,
}
use robotframework_jsonrpcre.Base.Codes.{Codes, is_space, lower_code}

abbrev pub is_lower : ℕ → Bool
is_lower c = leb b'a' c && leb c b'z'

abbrev is_upper : ℕ → Bool
is_upper c = leb b'A' c && leb c b'Z'

-- [\-\.\s]
abbrev is_break : ℕ → Bool
unfolding is_space
is_break c = c == b'-' || (c == b'.' || is_space c)

-- re.sub(r"[\-\.\s]", "_", s)
unfoldable pub underscored : Codes → Codes
unfolding is_break
underscored [] = []
underscored (c ∷ s) = (if is_break c then b'_' else c) ∷ underscored s

unfoldable pub snake_rest : Codes → Codes
snake_rest [] = []
snake_rest (c ∷ s) =
    let rest = snake_rest s in if is_upper c then b'_' ∷ (c + 32) ∷ rest else c ∷ rest

abbrev snake : Codes → Codes
snake [] = []
snake (c ∷ s) = lower_code c ∷ snake_rest s

unfoldable pub to_snake_case : Codes → Codes
unfolding underscored snake_rest lower_code
to_snake_case s = snake (underscored s)

-- [\-_\.]
abbrev is_mark : ℕ → Bool
is_mark c = c == b'-' || (c == b'_' || c == b'.')

abbrev strip_mark : Codes → Codes
strip_mark [] = []
strip_mark (c ∷ s) = if is_mark c then s else c ∷ s

abbrev is_joint : ℕ → ℕ → Bool
unfolding is_space
is_joint c d = (is_mark c || is_space c) && is_lower d

-- re.sub(r"[\-_\.\s]([a-z])", upper, s), from left to right.
unfoldable pub camel_rest : Codes → Codes
unfolding is_joint
camel_rest [] = []
camel_rest (c ∷ []) = c ∷ []
camel_rest (c ∷ d ∷ s) =
    let joined = (d - 32) ∷ camel_rest s in
    let rest = c ∷ camel_rest (d ∷ s) in if is_joint c d then joined else rest

abbrev camel : Codes → Codes
camel [] = []
camel (c ∷ s) = lower_code c ∷ camel_rest s

unfoldable pub to_camel_case : Codes → Codes
unfolding camel_rest lower_code
to_camel_case s = camel (strip_mark s)

-- A letter, a digit or an underscore, as in a field name in snake case.
abbrev pub is_name_code : ℕ → Bool
is_name_code c = is_lower c || ((leb b'0' c && leb c b'9') || c == b'_')

abbrev pub IsName : Codes → Type 0
IsName s = All (λ c. is_name_code c ≡ true) s

name-plain : (c : ℕ) → is_name_code c ≡ true → (is_break c ≡ false) × (is_upper c ≡ false)
unfolding is_break is_space
name-plain c h = ground arith

joint-back :
    (c d : ℕ)
    → is_name_code c ≡ true
    → is_joint c d ≡ true
    → (c ≡ b'_') × (is_break (d - 32) ≡ false) × (is_upper (d - 32) ≡ true) × (d - 32 + 32 ≡ d)
unfolding is_break is_joint is_space
joint-back c d h j = ground arith

first-plain :
    (c : ℕ) → is_lower c ≡ true → (is_mark c ≡ false) × (lower_code c ≡ c) × (is_break c ≡ false)
unfolding is_break is_space lower_code
first-plain c h = ground arith

rest_back : (s : Codes) → IsName s → snake_rest (underscored (camel_rest s)) ≡ s
unfolding snake_rest underscored camel_rest
rest_back [] h = refl
rest_back (c ∷ []) (h, _) = let (b, u) = name-plain c h in rw (b, u) refl
rest_back (c ∷ d ∷ s) (h, (k, t)) = elim (Bool-cases (is_joint c d)) [
  | inl j ↦
      let (e, b, u, back) = joint-back c d h j in
      rw (j, b, u, back, e) (ap (λ s. b'_' ∷ d ∷ s) (rest_back s t))
  | inr j ↦ let (b, u) = name-plain c h in rw (j, b, u) (ap (◌∷◌ c) (rest_back (d ∷ s) (k, t)))
]

-- A field name comes back from its camel case: a name of lower case letters, digits and underscores
-- whose first character is a letter.
pub to_snake_case-to_camel_case :
    (c : ℕ) (s : Codes)
    → is_lower c ≡ true
    → IsName s
    → to_snake_case (to_camel_case (c ∷ s)) ≡ c ∷ s
unfolding to_snake_case to_camel_case underscored
to_snake_case-to_camel_case c s h k =
    let (m, l, b) = first-plain c h in rw (m, l, b, l) (ap (◌∷◌ c) (rest_back s k))

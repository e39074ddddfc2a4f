-- ===== src/Base/Decimal.antt =====
-- `str(n)` of a natural number: its decimal digits.
use Prim.Native.Nat.{ℕ, zero, suc, ◌+◌, ◌-◌, ◌*◌, ◌/◌, ◌%◌, ◌<◌}
use Prim.Native.Char.{Char, code}
use Prim.Native.String.{String}
use mathlib.Core.Path.{◌≡◌, refl, sym, ap, ◌∙◌}
use native.Mathlib.Omega.{arith}
use mathlib.Core.Logic.{inl, inr}
use mathlib.Core.Bool.{Bool, true, false, ◌&&◌}
use mathlib.Core.List.{[], ◌∷◌}
use robotframework_jsonrpcre.Base.Tests.{ltb, leb, if◌then◌else◌, Bool-cases}
use robotframework_jsonrpcre.Base.Lists.{All}
use robotframework_jsonrpcre.Base.Codes.{Codes, codes}

abbrev digit : ℕ → Char
digit zero = "0"
digit (suc zero) = "1"
digit (suc (suc zero)) = "2"
digit (suc (suc (suc zero))) = "3"
digit (suc (suc (suc (suc zero)))) = "4"
digit (suc (suc (suc (suc (suc zero))))) = "5"
digit (suc (suc (suc (suc (suc (suc zero)))))) = "6"
digit (suc (suc (suc (suc (suc (suc (suc zero))))))) = "7"
digit (suc (suc (suc (suc (suc (suc (suc (suc zero)))))))) = "8"
digit _ = "9"

digit_code : (n : ℕ) → n < 10 → code (digit n) - 48 ≡ n
digit_code zero h = refl
digit_code (suc zero) h = refl
digit_code (suc (suc zero)) h = refl
digit_code (suc (suc (suc zero))) h = refl
digit_code (suc (suc (suc (suc zero)))) h = refl
digit_code (suc (suc (suc (suc (suc zero))))) h = refl
digit_code (suc (suc (suc (suc (suc (suc zero)))))) h = refl
digit_code (suc (suc (suc (suc (suc (suc (suc zero))))))) h = refl
digit_code (suc (suc (suc (suc (suc (suc (suc (suc zero)))))))) h = refl
digit_code (suc (suc (suc (suc (suc (suc (suc (suc (suc n))))))))) h =
    let last : n ≡ 0 = omega arith in rw last

digits : ℕ → ℕ → String → String
digits zero n out = out
digits (suc f) n out =
    let longer = String.◌∷◌ (digit (n % 10)) out in
    let more = digits f (n / 10) longer in if ltb n 10 then longer else more

unfoldable pub decimal : ℕ → String
unfolding digits
decimal n = digits (suc n) n ""

-- The number that a text of digits spells behind `acc`.
value : ℕ → String → ℕ
value acc String.[] = acc
value acc (String.◌∷◌ c s) = value (acc * 10 + (code c - 48)) s

value-digits : (f n : ℕ) (out : String) → n < f → value 0 (digits f n out) ≡ value n out
unfolding value digits
value-digits zero n out h = elim h [ ]
value-digits (suc f) n out h = ground (
  arith,
  digit_code (n % 10) (omega arith),
  value-digits f (n / 10) (String.◌∷◌ (digit (n % 10)) out),
)

value-decimal : (n : ℕ) → value 0 (decimal n) ≡ n
unfolding decimal value
value-decimal n = value-digits (suc n) n "" (omega arith)

pub decimal_injective : (m n : ℕ) → decimal m ≡ decimal n → m ≡ n
decimal_injective m n e = sym (value-decimal m) ∙ ap (value 0) e ∙ value-decimal n

-- An ASCII digit.
abbrev pub is_digit : ℕ → Bool
is_digit c = leb b'0' c && leb c b'9'

digit-is_digit : (n : ℕ) → is_digit (code (digit n)) ≡ true
digit-is_digit zero = refl
digit-is_digit (suc zero) = refl
digit-is_digit (suc (suc zero)) = refl
digit-is_digit (suc (suc (suc zero))) = refl
digit-is_digit (suc (suc (suc (suc zero)))) = refl
digit-is_digit (suc (suc (suc (suc (suc zero))))) = refl
digit-is_digit (suc (suc (suc (suc (suc (suc zero)))))) = refl
digit-is_digit (suc (suc (suc (suc (suc (suc (suc zero))))))) = refl
digit-is_digit (suc (suc (suc (suc (suc (suc (suc (suc zero)))))))) = refl
digit-is_digit (suc (suc (suc (suc (suc (suc (suc (suc (suc n))))))))) = refl

digits-All :
    (f n : ℕ) (out : String)
    → All (λ c. is_digit c ≡ true) (codes out)
    → All (λ c. is_digit c ≡ true) (codes (digits f n out))
unfolding digits
digits-All zero n out h = h
digits-All (suc f) n out h = elim (Bool-cases (ltb n 10)) [
  | inl y ↦ rw y (digit-is_digit (n % 10), h)
  | inr g ↦ rw g (digits-All f (n / 10) _ (digit-is_digit (n % 10), h))
]

abbrev pub is_cons : Codes → Bool
is_cons [] = false
is_cons (c ∷ s) = true

digits-is_cons :
    (f n : ℕ) (c : Char) (out : String) → is_cons (codes (digits f n (String.◌∷◌ c out))) ≡ true
unfolding digits
digits-is_cons zero n c out = refl
digits-is_cons (suc f) n c out = elim (Bool-cases (ltb n 10)) [
  | inl y ↦ rw y refl
  | inr g ↦ rw g (digits-is_cons f (n / 10) _ (String.◌∷◌ c out))
]

pub decimal-All : (n : ℕ) → All (λ c. is_digit c ≡ true) (codes (decimal n))
unfolding decimal
decimal-All n = digits-All (suc n) n "" tt

pub decimal-is_cons : (n : ℕ) → is_cons (codes (decimal n)) ≡ true
unfolding decimal digits
decimal-is_cons n = elim (Bool-cases (ltb n 10)) [
  | inl y ↦ rw y refl
  | inr g ↦ rw g (digits-is_cons n (n / 10) _ "")
]

-- The number that digits spell, from their codes.
abbrev pub spelled : ℕ → Codes → ℕ
spelled acc [] = acc
spelled acc (c ∷ s) = spelled (acc * 10 + (c - b'0')) s

spelled-value : (acc : ℕ) (s : String) → spelled acc (codes s) ≡ value acc s
unfolding value
spelled-value acc String.[] = refl
spelled-value acc (String.◌∷◌ c s) = spelled-value (acc * 10 + (code c - 48)) s

pub spelled-decimal : (n : ℕ) → spelled 0 (codes (decimal n)) ≡ n
spelled-decimal n = spelled-value 0 (decimal n) ∙ value-decimal n

decimal_runs : decimal 1207 ≡ "1207"
unfolding decimal
decimal_runs = refl

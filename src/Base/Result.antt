-- ===== src/Base/Result.antt =====
-- A value, or the exception that was raised instead; and a Python exception as a handler sees it.
use Prim.Native.String.{String}
use mathlib.Core.Path.{◌≡◌, refl}
use mathlib.Core.Logic.{◌⊎◌, inl, inr}

pub data Result {ℓ κ} (E : Type ℓ) (A : Type κ) : Type (ℓ ⊔ κ) where
  ok : A → Result E A
  err : E → Result E A

infixl 5 ◌>>=◌
abbrev pub ◌>>=◌ {ℓ κ λ'} :
    {E : Type ℓ} {A : Type κ} {B : Type λ'} → Result E A → (A → Result E B) → Result E B
ok a >>= f = f a
err e >>= f = err e

-- type(ex).__name__, str(ex), and what traceback.format_exc() shows while it is handled.
pub record Exception : Type 0 where
  pub type_name : String
  pub message : String
  pub trace : String

pub Result-cases {ℓ κ} :
    {E : Type ℓ} {A : Type κ} (r : Result E A) → ((a : A) × (r ≡ ok a)) ⊎ ((e : E) × (r ≡ err e))
Result-cases (ok a) = inl (a, refl)
Result-cases (err e) = inr (e, refl)

-- Both parts of a chain that succeeds have succeeded.
pub >>=-succeeds {ℓ κ λ'} :
    {X : Type ℓ} {Y : Type κ} {E : Type λ'} (go : X → Result E Y) (first : Result E X) (y : Y)
    → first >>= go ≡ ok y
    → (x : X) × (first ≡ ok x) × (go x ≡ ok y)
>>=-succeeds go (err e) y h = absurd (cc)
>>=-succeeds go (ok x) y h = (x, refl, h)

-- ===== src/Base/Codes.antt =====
-- Texts as lists of code points, where the program walks their characters: `strip`, `lower`,
-- `partition` and `split` of Python's `str`.
use Prim.Native.Char.{code}
use Prim.Native.Nat.{ℕ, ◌+◌}
use Prim.Native.String.{String}
use mathlib.Core.Bool.{Bool, true, false, ◌&&◌, ◌||◌}
use mathlib.Core.List.{List, [], ◌∷◌, reverse}
use robotframework_jsonrpcre.Base.Tests.{leb, ◌==◌, if◌then◌else◌}

abbrev pub Codes : Type 0
Codes = List ℕ

abbrev pub codes : String → Codes
codes String.[] = []
codes (String.◌∷◌ c s) = code c ∷ codes s

unfoldable pub codes_equal : Codes → Codes → Bool
codes_equal [] [] = true
codes_equal (a ∷ s) (b ∷ t) = a == b && codes_equal s t
codes_equal _ _ = false

-- The characters that str.isspace() accepts.
unfoldable pub is_space : ℕ → Bool
is_space c =
    (leb 9 c && leb c 13)
    || (leb 28 c && leb c 32)
    || c == 133
    || c == 160
    || c == 5760
    || (leb 8192 c && leb c 8202)
    || c == 8232
    || c == 8233
    || c == 8239
    || c == 8287
    || c == 12288

-- s.lstrip(), by a test of the characters to drop.
unfoldable pub strip_left : (ℕ → Bool) → Codes → Codes
strip_left drops [] = []
strip_left drops (c ∷ s) = if drops c then strip_left drops s else c ∷ s

unfoldable pub strip_by : (ℕ → Bool) → Codes → Codes
unfolding strip_left
strip_by drops s = reverse (strip_left drops (reverse (strip_left drops s)))

-- s.strip()
unfoldable pub strip : Codes → Codes
unfolding strip_by is_space
strip = strip_by is_space

-- c.lower(), of an ASCII letter; the texts that are lowered here hold no other letters.
unfoldable pub lower_code : ℕ → ℕ
lower_code c = if leb b'A' c && leb c b'Z' then c + 32 else c

unfoldable pub lower : Codes → Codes
unfolding lower_code
lower [] = []
lower (c ∷ s) = lower_code c ∷ lower s

-- name, _, value = s.partition(sep)
unfoldable pub partition : ℕ → Codes → Codes × Codes
partition sep [] = ([], [])
partition sep (c ∷ s) =
    let (name, value) = partition sep s in if c == sep then ([], s) else (c ∷ name, value)

abbrev cons_first : ℕ → List Codes → List Codes
cons_first c [] = (c ∷ []) ∷ []
cons_first c (part ∷ parts) = (c ∷ part) ∷ parts

-- s.split(sep)
unfoldable pub split : ℕ → Codes → List Codes
split sep [] = [] ∷ []
split sep (c ∷ s) = let parts = split sep s in if c == sep then [] ∷ parts else cons_first c parts

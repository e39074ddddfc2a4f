-- ===== src/Base/Text.antt =====
-- Texts put together: an f-string is the list of its pieces.
use Prim.Native.String
use Prim.Native.String.{String}
use mathlib.Core.List.{List, [], ◌∷◌}

abbrev pub format : List String → String
format [] = ""
format (s ∷ []) = s
format (s ∷ t ∷ rest) = String.◌++◌ s (format (t ∷ rest))

-- sep.join(items)
unfoldable pub join : String → List String → String
join sep [] = ""
join sep (s ∷ []) = s
join sep (s ∷ t ∷ rest) = String.◌++◌ s (String.◌++◌ sep (join sep (t ∷ rest)))

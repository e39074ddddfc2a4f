-- ===== src/Protocol/Kinds.antt =====
-- The values of the kinds and `ArgumentKind.from_value`.
use robotframework_jsonrpcre.Base.{
  List, [], ◌∷◌, String, ◌≡◌, refl, arith, if◌then◌else◌, ◌=ₛ◌, ◌↔◌, eq_iff,
}
use robotframework_jsonrpcre.Base.Result.{Result, ok, err}
use robotframework_jsonrpcre.Protocol.{
  ArgumentKind, positional_only, positional_or_named, positional_only_marker, named_only_marker,
  var_positional, named_only, var_named,
}

abbrev pub kind_value : ArgumentKind → String
kind_value positional_only = "POSITIONAL_ONLY"
kind_value positional_or_named = "POSITIONAL_OR_NAMED"
kind_value positional_only_marker = "POSITIONAL_ONLY_MARKER"
kind_value named_only_marker = "NAMED_ONLY_MARKER"
kind_value var_positional = "VAR_POSITIONAL"
kind_value named_only = "NAMED_ONLY"
kind_value var_named = "VAR_NAMED"

-- The members, in the order of the class.
abbrev argument_kinds : List ArgumentKind
argument_kinds =
    positional_only ∷ positional_or_named ∷ positional_only_marker ∷ named_only_marker
    ∷ var_positional ∷ named_only ∷ var_named ∷ []

-- The message of the ValueError is not modelled: err holds the value.
first_kind : String → List ArgumentKind → Result String ArgumentKind
first_kind value [] = err value
first_kind value (kind ∷ kinds) =
    if kind_value kind =ₛ value then ok kind else first_kind value kinds

unfoldable pub from_value : String → Result String ArgumentKind
unfolding first_kind
from_value value = first_kind value argument_kinds

first_kind-ok :
    (value : String) (kinds : List ArgumentKind) (kind : ArgumentKind)
    → first_kind value kinds ≡ ok kind
    → value ≡ kind_value kind
unfolding first_kind
first_kind-ok value [] kind h = cc
first_kind-ok value (k ∷ kinds) kind h =
    ground (arith, eq_iff (kind_value k) value, first_kind-ok value kinds kind)

from_value-only :
    (value : String) (kind : ArgumentKind) → from_value value ≡ ok kind → value ≡ kind_value kind
unfolding from_value
from_value-only value kind h = first_kind-ok value argument_kinds kind h

from_value-kind_value : (kind : ArgumentKind) → from_value (kind_value kind) ≡ ok kind
unfolding from_value
from_value-kind_value positional_only = refl
from_value-kind_value positional_or_named = refl
from_value-kind_value positional_only_marker = refl
from_value-kind_value named_only_marker = refl
from_value-kind_value var_positional = refl
from_value-kind_value named_only = refl
from_value-kind_value var_named = refl

-- `ArgumentKind.from_value` gives a kind for the value of that kind, and for no other text.
pub from_value-ok :
    (value : String) (kind : ArgumentKind) → from_value value ≡ ok kind ↔ value ≡ kind_value kind
from_value-ok value kind =
    (from_value-only value kind, λ (e : value ≡ kind_value kind). rw e (from_value-kind_value kind))

-- ===== src/Value.antt =====
-- The Python values that cross the wire, and those that a handler gets or returns
-- (packages/jsonrpcpeer/src/jsonrpcpeer/peer.py, json_helpers.py). A float is its bit pattern, since
-- the modelled code computes with none; `other` is any object that JSON does not have.
use robotframework_jsonrpcre.Base.{ℕ, String, Bool, true, false, Option, none, some, List, [], ◌∷◌}
use robotframework_jsonrpcre.Base.Dict.{Dict, lookup}
use robotframework_jsonrpcre.Base.Int.{ℤ}

mutual
  pub data Value : Type 0 where
    null : Value
    boolean : Bool → Value
    integer : ℤ → Value
    float : ℕ → Value
    text : String → Value
    array : Items → Value
    object : Fields → Value
    other : ℕ → Value

  pub data Items : Type 0 where
    nil : Items
    cons : Value → Items → Items

  pub data Fields : Type 0 where
    end : Fields
    field : String → Value → Fields → Fields

abbrev pub items : Items → List Value
items nil = []
items (cons v vs) = v ∷ items vs

abbrev pub fields : Fields → Dict Value
fields end = []
fields (field k v fs) = (k, v) ∷ fields fs

-- value is None
abbrev pub is_none : Value → Bool
is_none null = true
is_none _ = false

abbrev pub or_none : Option Value → Value
or_none none = null
or_none (some v) = v

-- message.get(key)
abbrev pub get : String → Fields → Value
get k fs = or_none (lookup k (fields fs))

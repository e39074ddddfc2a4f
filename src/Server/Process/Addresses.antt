-- ===== src/Server/Process/Addresses.antt =====
-- The addresses that the server binds: `_parse_addresses` and the choice in `run` of
-- packages/server/src/robot_jsonrpcremote_server/__main__.py.
use robotframework_jsonrpcre.Base.{Option, none, some, List, [], ◌∷◌}
use robotframework_jsonrpcre.Base.Codes.{Codes, codes, strip, split}

abbrev add_part : Codes → List Codes → List Codes
add_part [] rest = rest
add_part (c ∷ s) rest = (c ∷ s) ∷ rest

-- [part.strip() for part in parts if part.strip()]
unfoldable pub stripped : List Codes → List Codes
stripped [] = []
stripped (part ∷ parts) = add_part (strip part) (stripped parts)

abbrev or_none : List Codes → Option (List Codes)
or_none [] = none
or_none (a ∷ rest) = some (a ∷ rest)

-- `_parse_addresses`, of a text that is not set or empty, and of others.
unfoldable pub parse_addresses : Option Codes → Option (List Codes)
unfolding stripped
parse_addresses none = none
parse_addresses (some []) = none
parse_addresses (some (c ∷ s)) = or_none (stripped (split b',' (c ∷ s)))

abbrev default_address : List Codes
default_address = codes "127.0.0.1" ∷ []

-- args.addresses or env_addresses or ["127.0.0.1"]
unfoldable pub chosen_addresses : Option (List Codes) → Option (List Codes) → List Codes
chosen_addresses (some (a ∷ given)) env = a ∷ given
chosen_addresses _ (some (a ∷ env)) = a ∷ env
chosen_addresses _ _ = default_address

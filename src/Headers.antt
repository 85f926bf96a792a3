-- ===== src/Headers.antt =====
-- src/providers.go `firstHeaderValue` and `displayProviderName`, src/dispatch.go
-- `extractBearerToken` and `headerMapFromAny`, and the helpers
-- `firstNonEmpty` and `compactNonEmpty` of src/identity.go. Headers are listed in the order in
-- which Go's `range` visits the map.
use agy_identity_bridge.Base.{
  ℕ, Bool, Option, none, some, List, [], ◌∷◌, eqb, if◌then◌else◌, is_nil, any,
}
use agy_identity_bridge.Text.{Text, text, trim_space, equal_fold}
use agy_identity_bridge.Value.{Value, Map, string, slice, items, texts_of}

abbrev pub Headers : Type 0
Headers = List (Text × List Text)

-- `if a == "" { a = b }`
abbrev pub or_text : Text → Text → Text
or_text a b = if is_nil a then b else a

-- The loop over the wanted keys for one header.
abbrev pub is_wanted : List Text → Text → Bool
is_wanted keys key = any (λ wanted. equal_fold key wanted) keys

unfoldable pub first_header_value : Headers → List Text → Text
first_header_value [] keys = []
first_header_value ((key, []) ∷ headers) keys = first_header_value headers keys
first_header_value ((key, value ∷ _) ∷ headers) keys =
    if is_wanted keys key then trim_space value else first_header_value headers keys

unfoldable pub first_non_empty : List Text → Text
first_non_empty [] = []
first_non_empty (value ∷ values) =
    if is_nil (trim_space value) then first_non_empty values else trim_space value

unfoldable pub compact_non_empty : List Text → List Text
compact_non_empty [] = []
compact_non_empty (value ∷ values) =
    let rest = compact_non_empty values in
    if is_nil (trim_space value) then rest else trim_space value ∷ rest

unfoldable pub display_provider_name : List Text → Text
display_provider_name [] = text "unknown"
display_provider_name (value ∷ values) =
    if is_nil (trim_space value) then display_provider_name values else trim_space value

-- `strings.SplitN(s, " ", 2)`: the text before the first space, and what follows it.
abbrev pub cut_step : ℕ → Option (Text × Text) → Option (Text × Text)
cut_step c none = none
cut_step c (some (a, b)) = some (c ∷ a, b)

unfoldable pub cut_space : Text → Option (Text × Text)
cut_space [] = none
cut_space (c ∷ s) = if eqb c b' ' then some ([], s) else cut_step c (cut_space s)

abbrev pub bearer_of : Option (Text × Text) → Option Text
bearer_of none = none
bearer_of (some (scheme, token)) =
    if equal_fold scheme (text "bearer") then some (trim_space token) else none

unfoldable pub extract_bearer_token : Headers → Text
extract_bearer_token [] = []
extract_bearer_token ((key, []) ∷ headers) = extract_bearer_token headers
extract_bearer_token ((key, value ∷ _) ∷ headers) =
    let rest = extract_bearer_token headers in
    if equal_fold key (text "Authorization")
    then elim (bearer_of (cut_space (trim_space value))) [ none ↦ rest | some token ↦ token ]
    else rest

-- A list of strings that is not empty, or one string.
abbrev pub header_values : Value → List Text
header_values (slice vs) = texts_of (items vs)
header_values (string s) = s ∷ []
header_values _ = []

unfoldable pub header_map_from_any : Option Map → Headers
header_map_from_any none = []
header_map_from_any (some []) = []
header_map_from_any (some ((key, value) ∷ raw)) =
    let rest = header_map_from_any (some raw) in
    if is_nil (header_values value) then rest else (key, header_values value) ∷ rest

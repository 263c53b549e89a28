-- ===== src/Limitless/Posting/Messages.antt =====
-- src/limitless/limitlessOrderClient.ts: the texts that the retries read.
use team_index.Base.{
  is_space, ℕ, zero, suc, [], ◌∷◌, Option, none, some, Bool, true, false, ◌&&◌, ◌||◌, leb, ◌==◌,
  if◌then◌else◌, Text, codes, lower_code, to_lower, includes, ◌<|>◌,
}
use mathlib.Core.Option

abbrev pub is_hex : ℕ → Bool
is_hex c = leb b'0' c && leb c b'9' || leb b'a' c && leb c b'f' || leb b'A' c && leb c b'F'

-- exactly `n` hexadecimal digits at the start, and what follows
take_hex : ℕ → Text → Option (Text × Text)
take_hex zero s = some ([], s)
take_hex (suc n) [] = none
take_hex (suc n) (c ∷ s) =
    if is_hex c then Option.map (λ (r : Text × Text). (c ∷ r.0, r.1)) (take_hex n s) else none

abbrev all_of : Option (Text × Text) → Bool
all_of (some (hex, [])) = true
all_of _ = false

-- /^0x[a-fA-F0-9]{40}$/
unfoldable pub is_eth_address : Text → Bool
unfolding take_hex
is_eth_address (a ∷ b ∷ s) = (a == b'0' && b == b'x') && all_of (take_hex 40 s)
is_eth_address _ = false

-- A prefix in lower case, met in any letter case (the flag `i`).
strip_prefix : Text → Text → Option Text
strip_prefix [] s = some s
strip_prefix (p ∷ ps) [] = none
strip_prefix (p ∷ ps) (c ∷ s) = if lower_code c == p then strip_prefix ps s else none

skip_spaces : Text → Text
skip_spaces [] = []
skip_spaces (c ∷ s) = let rest = skip_spaces s in if is_space c then rest else c ∷ s

abbrev with_0x : ℕ → ℕ → Option (Text × Text) → Option Text
with_0x a b none = none
with_0x a b (some (hex, rest)) = some (a ∷ b ∷ hex)

address_here : Text → Option Text
address_here (a ∷ b ∷ s) =
    if a == b'0' && lower_code b == b'x' then with_0x a b (take_hex 40 s) else none
address_here _ = none

abbrev after_prefix : Option Text → Option Text
after_prefix none = none
after_prefix (some s) = address_here (skip_spaces s)

-- The first match of /Exchange address for this market:\s*(0x[a-fA-F0-9]{40})/i
unfoldable pub extract_expected_exchange_address : Text → Option Text
unfolding take_hex strip_prefix skip_spaces address_here
extract_expected_exchange_address [] = none
extract_expected_exchange_address (c ∷ s) =
    after_prefix (strip_prefix (codes "exchange address for this market:") (c ∷ s))
    <|> extract_expected_exchange_address s

-- /Invalid signature/i
unfoldable pub is_invalid_signature_error : Text → Bool
is_invalid_signature_error s = includes (codes "invalid signature") (to_lower s)

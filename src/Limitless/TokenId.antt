-- ===== src/Limitless/TokenId.antt =====
-- src/limitless/limitlessDiscoveryService.ts: a market and the side of a position as one text.
use team_index.Base.{
  ℕ, ◌+◌, ◌-◌, ◌*◌, ◌≡◌, refl, ap, [], ◌∷◌, ◌++◌, ◌&&◌, Option, none, some, ◌==◌, leb,
  if◌then◌else◌, Text,
}

pub data OutcomeSide : Type 0 where
  yes no : OutcomeSide

abbrev pub outcome_index : OutcomeSide → ℕ
outcome_index yes = 0
outcome_index no = 1

abbrev digit_of : OutcomeSide → ℕ
digit_of yes = b'0'
digit_of no = b'1'

-- `<marketId>:<outcomeIndex>`
unfoldable pub encode_limitless_token_id : Text → OutcomeSide → Text
encode_limitless_token_id market_id side = market_id ++ b':' ∷ digit_of side ∷ []

abbrev after_char : ℕ → Text → Option (Text × Text) → Option (Text × Text)
after_char c s none = if c == b':' then some ([], s) else none
after_char c s (some (before, after)) = some (c ∷ before, after)

-- Before and after the last colon
abbrev split_last : Text → Option (Text × Text)
split_last [] = none
split_last (c ∷ s) = after_char c s (split_last s)

-- `Number(s) || 0` of decimal digits; what is no number counts as 0.
abbrev pub number_from : ℕ → Text → ℕ
number_from acc [] = acc
number_from acc (c ∷ s) =
    let rest = number_from (acc * 10 + (c - b'0')) s in if leb b'0' c && leb c b'9' then rest else 0

abbrev decoded : Text → Option (Text × Text) → Text × ℕ
decoded token_id none = (token_id, 0)
decoded token_id (some (market_id, index)) = (market_id, number_from 0 index)

unfoldable pub decode_limitless_token_id : Text → Text × ℕ
decode_limitless_token_id token_id = decoded token_id (split_last token_id)

split_last-encoded :
    (market_id : Text) (side : OutcomeSide)
    → split_last (market_id ++ b':' ∷ digit_of side ∷ []) ≡ some (market_id, digit_of side ∷ [])
split_last-encoded [] yes = refl
split_last-encoded [] no = refl
split_last-encoded (c ∷ s) side = rw (split_last-encoded s side) refl

number-digit : (side : OutcomeSide) → number_from 0 (digit_of side ∷ []) ≡ outcome_index side
number-digit yes = refl
number-digit no = refl

-- The token id of a market and a side decodes to them, also where the market's id has colons.
pub decode-encode :
    (market_id : Text) (side : OutcomeSide)
    → decode_limitless_token_id (encode_limitless_token_id market_id side)
      ≡ (market_id, outcome_index side)
unfolding decode_limitless_token_id encode_limitless_token_id
decode-encode market_id side =
    rw (split_last-encoded market_id side) (ap (λ k. (market_id, k)) (number-digit side))

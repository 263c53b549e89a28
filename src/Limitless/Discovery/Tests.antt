-- ===== src/Limitless/Discovery/Tests.antt =====
-- Runs of the discovery of markets.
use team_index.Base.{ℕ, ◌≡◌, refl, List, [], ◌∷◌, none, Text, codes, text_eq, to_upper}
use team_index.Limitless.TokenId.{
  no, outcome_index, encode_limitless_token_id, decode_limitless_token_id, decode-encode,
}
use team_index.Limitless.Discovery.{other_hint, Market, discover_limitless_club_candidates}

decode-encode_example :
    decode_limitless_token_id (encode_limitless_token_id (codes "a:b") no)
    ≡ (codes "a:b", outcome_index no)
decode-encode_example = decode-encode (codes "a:b") no

abbrev market : Text → ℕ → Market
market status liquidity = record {
  id = codes "m";
  status = status;
  liquidity = liquidity;
  side_hint = other_hint;
  end_date = none;
  league = [];
}

-- The second is closed, and the third too small.
abbrev markets : List Market
markets =
    market (codes "active") 900 ∷ market (codes "closed") 900 ∷ market (codes "active") 100 ∷ []

one_found : (discover_limitless_club_candidates 500 markets []).1.created ≡ 1
unfolding discover_limitless_club_candidates text_eq to_upper
one_found = refl

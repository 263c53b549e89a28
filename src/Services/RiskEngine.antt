-- ===== src/Services/RiskEngine.antt =====
-- src/services/riskEngine.ts: the limits on the exposure of a pool. Values and percentages are whole
-- numbers; the limits are in hundredths, as the source divides by 100.
use team_index.Base.{ℕ, ◌+◌, ◌*◌, ◌≡◌, Bool, true, ◌&&◌, leb, arith}

pub record RiskInputs : Type 0 where
  pub pool_total_value_usd : ℕ
  pub pool_total_exposure_usd : ℕ
  pub max_per_match_pct : ℕ
  pub max_total_exposure_pct : ℕ

pub record Risk : Type 0 where
  pub max_per_match : ℕ
  pub max_total_exposure : ℕ
  pub ok : Bool

unfoldable pub is_within_risk : RiskInputs → ℕ → Risk
is_within_risk i proposed =
    let max_per_match = i.pool_total_value_usd * i.max_per_match_pct in
    let max_total_exposure = i.pool_total_value_usd * i.max_total_exposure_pct in
    record {
      max_per_match = max_per_match;
      max_total_exposure = max_total_exposure;
      ok =
          leb (proposed * 100) max_per_match
          && leb ((i.pool_total_exposure_usd + proposed) * 100) max_total_exposure;
    }

abbrev pub with_exposure : ℕ → RiskInputs → RiskInputs
with_exposure n i = record i { pool_total_exposure_usd = n }

-- An exposure that is accepted as a whole is accepted in two parts, the second one after the first
-- was added to the pool's exposure.
pub within_risk_split :
    (i : RiskInputs) (a b : ℕ)
    → (is_within_risk i (a + b)).ok ≡ true
    → ((is_within_risk i a).ok ≡ true)
      × ((is_within_risk (with_exposure (i.pool_total_exposure_usd + a) i) b).ok ≡ true)
unfolding is_within_risk
within_risk_split i a b h = ground arith

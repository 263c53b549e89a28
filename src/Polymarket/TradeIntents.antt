-- ===== src/Polymarket/TradeIntents.antt =====
-- src/polymarket/tradeIntentService.ts: an allocation is split into orders of a limited size. Amounts and
-- the limit are in 10^-12 pUSD, rounded amounts in millionths of a pUSD.
pub mod Split
mod Tests
use team_index.Base.{
  ℕ, zero, suc, ◌+◌, ◌-◌, ◌*◌, ◌/◌, min, List, [], ◌∷◌, Bool, true, false, Option, none, some, ltb,
  if◌then◌else◌,
}

abbrev pub micro : ℕ
micro = 1_000_000

-- `Math.round(x * 1_000_000)`
unfoldable pub rounded : ℕ → ℕ
rounded amount = (amount + 500_000) / micro

abbrev pub with_chunk : ℕ → Option (List ℕ) → Option (List ℕ)
with_chunk chunk none = none
with_chunk chunk (some chunks) = some (chunk ∷ chunks)

-- The loop with what remains; `none` without fuel
unfoldable pub chunks_of : ℕ → ℕ → ℕ → Option (List ℕ)
unfolding rounded
chunks_of zero remaining limit = none
chunks_of (suc fuel) zero limit = some []
chunks_of (suc fuel) (suc remaining) limit =
    let chunk = min (suc remaining * micro) limit in
    with_chunk (rounded chunk) (chunks_of fuel (rounded (suc remaining * micro - chunk)) limit)

unfoldable pub split_amount : ℕ → ℕ → ℕ → Option (List ℕ)
unfolding chunks_of rounded
split_amount fuel amount limit = chunks_of fuel (rounded amount) limit

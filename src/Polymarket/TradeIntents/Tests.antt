-- ===== src/Polymarket/TradeIntents/Tests.antt =====
-- Runs of the splitting of amounts.
use team_index.Base.{ℕ, suc, ◌*◌, ◌<◌, ◌≡◌, ◌↔◌, ◌⊎◌, refl, List, [], ◌∷◌, some, arith}
use team_index.Polymarket.TradeIntents.{micro, rounded, chunks_of, split_amount}
use team_index.Polymarket.TradeIntents.Split.{Parts, split_amount_iff, split_amount-Parts}

-- 2.5 pUSD with at most 1 pUSD an order
split_run :
    split_amount 10 2_500_000_000_000 (1_000_000 * micro)
    ≡ some (1_000_000 ∷ 1_000_000 ∷ 500_000 ∷ [])
unfolding split_amount chunks_of rounded
split_run = refl

-- A limit of 1.5 millionths: the chunks are more than the amount.
uneven_run : split_amount 10 3_000_000 1_500_000 ≡ some (2 ∷ 2 ∷ 1 ∷ [])
unfolding split_amount chunks_of rounded
uneven_run = refl

split_amount_iff_example :
    ((chunks : List ℕ) × (split_amount 10 3_000_000 1_500_000 ≡ some chunks))
    ↔ ((500_000 < 1_500_000) ⊎ (rounded 3_000_000 ≡ 0))
unfolding rounded
split_amount_iff_example = split_amount_iff 3_000_000 1_500_000 10 (omega arith)

split_amount-Parts_example :
    (chunks : List ℕ) × (split_amount
        (suc (rounded 2_500_000_000_000))
        2_500_000_000_000
        (1_000_000 * micro)
      ≡ some chunks)
    × Parts (rounded 2_500_000_000_000) 1_000_000 chunks
split_amount-Parts_example = split_amount-Parts 2_500_000_000_000 1_000_000 (omega arith)

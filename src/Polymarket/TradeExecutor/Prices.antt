-- ===== src/Polymarket/TradeExecutor/Prices.antt =====
-- src/polymarket/tradeExecutor.ts and money.ts: prices as whole numbers of 10^-12 pUSD, amounts as
-- whole numbers of 10^-18 pUSD. The source's floating point is taken as exact.
use team_index.Base.{
  ℕ, Bool, ◌+◌, ◌-◌, ◌*◌, ◌/◌, ◌%◌, ◌≤◌, ◌<◌, min, ◌≡◌, arith, Result, ok, throw, ◌==◌,
  if◌then◌else◌, Text, codes,
}

-- The tick sizes of the CLOB
pub data TickSize : Type 0 where
  tenth hundredth thousandth ten_thousandth : TickSize

abbrev pub tick_units : TickSize → ℕ
tick_units tenth = 100000000000
tick_units hundredth = 10000000000
tick_units thousandth = 1000000000
tick_units ten_thousandth = 100000000

-- What the four requests before an order return.
pub record Terms : Type 0 where
  pub tick_size : TickSize
  pub neg_risk : Bool
  pub fee_rate_bps : ℕ
  pub market_price : ℕ

-- `Math.min(0.9999, referencePrice * (1 + maxSlippageBps / 10_000))`, of a price in 10^-8 pUSD
unfoldable pub slippage_cap : ℕ → ℕ → ℕ
slippage_cap limit_price bps = min 999900000000 (limit_price * (10000 + bps))

unfoldable pub tick_aligned_ceiling : ℕ → TickSize → ℕ
tick_aligned_ceiling value tick = (value + tick_units tick - 1) / tick_units tick * tick_units tick

-- `decimalToBaseUnits` with 6 decimals, on the value of a column that is written without exponent
unfoldable pub decimal_to_base_units : ℕ → Result Text ℕ
decimal_to_base_units amount =
    if amount % 1000000000000 == 0
    then ok (amount / 1000000000000)
    else throw (codes "Amount has more than 6 significant decimals")

-- The price of an order is a whole number of ticks, at least the value that it is made of, and less
-- than a tick above it.
pub tick_aligned_ceiling_lem :
    (value : ℕ) (tick : TickSize)
    → (tick_aligned_ceiling value tick % tick_units tick ≡ 0)
      × (value ≤ tick_aligned_ceiling value tick)
      × (tick_aligned_ceiling value tick < value + tick_units tick)
unfolding tick_aligned_ceiling
tick_aligned_ceiling_lem value tenth = omega arith
tick_aligned_ceiling_lem value hundredth = omega arith
tick_aligned_ceiling_lem value thousandth = omega arith
tick_aligned_ceiling_lem value ten_thousandth = omega arith

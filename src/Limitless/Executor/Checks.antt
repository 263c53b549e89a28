-- ===== src/Limitless/Executor/Checks.antt =====
-- src/limitless/limitlessExecutor.ts: the checks of a trade before any money moves. Money and prices are
-- in 10^-12 units, percentages whole numbers.
use team_index.Base.{
  ℕ, zero, suc, ◌+◌, ◌*◌, ◌/◌, Bool, ◌&&◌, ◌||◌, not, Option, none, some, Result, ok, throw, ltb,
  ◌==◌, if◌then◌else◌, codes, ◌<|>◌,
}
use team_index.Services.RiskEngine.{is_within_risk}
use team_index.Limitless.Book.{
  unit, OrderBook, get_best_bid_ask, value_of, MarketBuySimulation, simulate_market_buy,
}
use team_index.Limitless.Posting.{Outcome, yes_outcome, no_outcome}
use team_index.Limitless.Executor.Calls.{
  Stop, skip, raise, no_liquidity, low_liquidity, risk, limitless_not_ready, insufficient_depth,
  slippage,
}

-- `riskParams` of a pool; a missing number is `none`.
pub record RiskParams : Type 0 where
  pub max_per_match_pct : Option ℕ
  pub risk_per_match_pct : Option ℕ
  pub per_match_pct : Option ℕ
  pub liquidity_min_usd : Option ℕ
  pub liquidity_usd_min : Option ℕ
  pub min_liquidity_usd : Option ℕ
  pub max_total_exposure_pct : Option ℕ
  pub max_slippage_pct : Option ℕ

abbrev pub or_number : Option ℕ → ℕ → ℕ
or_number none n = n
or_number (some m) n = m

unfoldable pub get_risk_per_match_pct : RiskParams → ℕ → ℕ
get_risk_per_match_pct p fallback =
    or_number (p.max_per_match_pct <|> p.risk_per_match_pct <|> p.per_match_pct) fallback

unfoldable pub get_liquidity_min_usd : RiskParams → ℕ → ℕ
get_liquidity_min_usd p fallback =
    or_number (p.liquidity_min_usd <|> p.liquidity_usd_min <|> p.min_liquidity_usd) fallback

abbrev pub outcome_of : ℕ → Outcome
outcome_of zero = yes_outcome
outcome_of (suc k) = no_outcome

-- What the trade is to buy
pub record Sized : Type 0 where
  pub best_ask : ℕ
  pub stake_usd : ℕ
  pub sim : MarketBuySimulation

abbrev pub too_steep : ℕ → ℕ → MarketBuySimulation → Bool
too_steep pct best_ask sim = ltb 0 pct && ltb (best_ask * (100 + pct)) (sim.worst_price * 100)

abbrev pub proposed_exposure : ℕ → RiskParams → ℕ
proposed_exposure total p = total * get_risk_per_match_pct p 3 / 100

abbrev pub within_risk : ℕ → ℕ → RiskParams → Bool
within_risk total exposure p =
    (is_within_risk
      (record {
        pool_total_value_usd = total;
        pool_total_exposure_usd = exposure;
        max_per_match_pct = get_risk_per_match_pct p 3;
        max_total_exposure_pct = or_number p.max_total_exposure_pct 20;
      })
      (proposed_exposure total p)).ok

-- The pre-flight check of the order book for the stake
abbrev pub pre_flight : ℕ → RiskParams → ℕ → MarketBuySimulation → Result Stop Sized
pre_flight stake p best_ask sim =
    if not sim.fully_filled
    then throw (skip insufficient_depth)
    else if too_steep (or_number p.max_slippage_pct 0) best_ask sim
    then throw (skip slippage)
    else ok (record { best_ask = best_ask; stake_usd = stake; sim = sim })

-- The checks of the pool's value and open exposure, the settings and the book, in their order
unfoldable pub checked : ℕ → ℕ → RiskParams → Bool → OrderBook → Result Stop Sized
unfolding get_risk_per_match_pct get_liquidity_min_usd
checked total exposure p ready book =
    let (best_bid, best_ask) = get_best_bid_ask book in
    let stake = proposed_exposure total p / 2 in
    if best_ask == 0 || best_bid == 0
    then throw (skip no_liquidity)
    else if ltb (value_of book.bids + value_of book.asks) (get_liquidity_min_usd p 50000 * unit)
    then throw (skip low_liquidity)
    else if not (within_risk total exposure p)
    then throw (skip risk)
    else if not ready
    then throw (skip limitless_not_ready)
    else if stake == 0
    then throw (raise (codes "Invalid trancheStakeUsd"))
    else pre_flight stake p best_ask (simulate_market_buy book stake)

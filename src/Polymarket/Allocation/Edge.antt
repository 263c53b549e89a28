-- ===== src/Polymarket/Allocation/Edge.antt =====
-- src/polymarket/allocationEngine.ts: the gates that a market passes, and the model of its edge.
use team_index.Base.{Bool, ◌&&◌, Option, none, some, if◌then◌else◌, List}
use team_index.Polymarket.Allocation.Number.{
  Number, ◌+◌, ◌-◌, ◌*◌, ◌/◌, ◌<◌, ◌<=◌, whole, abs, max, min, clamp,
}
use team_index.Polymarket.Allocation.Series.{TsFeatures}

-- The live data of a market
pub record MarketClobData (R : Type 0) : Type 0 where
  pub price : R
  pub spread : R
  pub liquidity : R
  pub volume_24h : R
  pub depth_at_2pct_slippage : R
  pub estimated_slippage : R
  pub days_to_resolution : R
  pub closed : Bool
  pub historical_prices : List (R × R)
  pub fee_rate_bps : Option R

pub data Reason : Type 0 where
  data_unavailable market_closed resolves_too_soon spread_too_wide slippage_too_high : Reason
  low_liquidity thin_depth stale_market longshot near_certain volatile_price severe_drawdown :
      Reason

pub record Edge (R : Type 0) : Type 0 where
  pub delta : R
  pub implied_q : R
  pub kelly : R
  pub edge_return : R

module _ {R : Type 0} ⦃n : Number R⦄ where
  abbrev pub max_spread : R
  max_spread = n.ratio 6 100

  abbrev pub min_liquidity : R
  min_liquidity = whole 5000

  abbrev pub min_depth : R
  min_depth = whole 1000

  -- The first gate that the market fails
  unfoldable pub get_rejection_reason : MarketClobData R → R → TsFeatures R → Option Reason
  get_rejection_reason clob entry_price ts =
      if clob.closed
      then some market_closed
      else if clob.days_to_resolution <= n.ratio 1 2
      then some resolves_too_soon
      else if max_spread < clob.spread
      then some spread_too_wide
      else if n.ratio 4 100 < clob.estimated_slippage
      then some slippage_too_high
      else if clob.liquidity < min_liquidity
      then some low_liquidity
      else if clob.depth_at_2pct_slippage < min_depth
      then some thin_depth
      else if clob.volume_24h < whole 500
      then some stale_market
      else if entry_price < n.ratio 5 100
      then some longshot
      else if n.ratio 97 100 < entry_price
      then some near_certain
      else if ts.has_data && n.ratio 12 10 < ts.realized_vol
      then some volatile_price
      else if ts.has_data && n.ratio 6 10 < ts.max_drawdown
      then some severe_drawdown
      else none

  unfoldable pub resolution_score : R → R
  resolution_score days =
      if days <= whole 0
      then whole 0
      else if days <= whole 1
      then n.ratio 35 100
      else if days <= whole 7
      then n.ratio 90 100
      else if days <= whole 21
      then whole 1
      else if days <= whole 60
      then n.ratio 75 100
      else if days <= whole 120
      then n.ratio 55 100
      else n.ratio 35 100

  unfoldable pub fav_longshot_edge : R → R
  fav_longshot_edge p =
      let x = whole 2 * p - whole 1 in n.ratio 15 1000 * whole 4 * x * (whole 1 - abs x)

  unfoldable pub momentum_edge : TsFeatures R → R → R
  momentum_edge ts volume_24h =
      let vol_confirm = clamp (volume_24h / whole 20000) (whole 0) (whole 1) in
      let persist_factor = clamp ts.variance_ratio (n.ratio 1 2) (n.ratio 3 2) in
      let signal = n.tanh (ts.momentum_z / whole 2) in
      if ts.has_data then n.ratio 2 100 * signal * vol_confirm * persist_factor else whole 0

  abbrev fee_rate : Option R → R
  fee_rate none = max (whole 0) (whole 0) / whole 10000
  fee_rate (some bps) = max (whole 0) bps / whole 10000

  unfoldable pub round_trip_cost : MarketClobData R → R
  round_trip_cost clob =
      clob.spread + clob.estimated_slippage + whole 2 * fee_rate clob.fee_rate_bps

  unfoldable pub compute_edge : R → TsFeatures R → MarketClobData R → Edge R
  unfolding fav_longshot_edge momentum_edge round_trip_cost
  compute_edge entry_price ts clob =
      let flb = fav_longshot_edge entry_price in
      let mom = momentum_edge ts clob.volume_24h in
      let delta =
        clamp (flb + mom - round_trip_cost clob) (whole 0 - n.ratio 5 100) (n.ratio 5 100) in
      let implied_q = clamp (entry_price + delta) (n.ratio 1 1000) (whole 1 - n.ratio 1 1000) in
      record {
        delta = delta;
        implied_q = implied_q;
        kelly = (implied_q - entry_price) / (whole 1 - entry_price);
        edge_return = (implied_q - entry_price) / entry_price;
      }

  abbrev unit_clamp : R → R
  unit_clamp v = clamp v (whole 0) (whole 1)

  unfoldable pub quality_composite : R → MarketClobData R → TsFeatures R → R → R
  unfolding resolution_score
  quality_composite entry_price clob ts edge_return =
      let cost_eff =
        whole 1 - unit_clamp ((clob.spread + clob.estimated_slippage) / n.ratio 8 100) in
      let liq_adq = unit_clamp (clob.liquidity / whole 50000) in
      let depth_adq = unit_clamp (clob.depth_at_2pct_slippage / whole 5000) in
      let vol_adq = unit_clamp (clob.volume_24h / whole 20000) in
      let timing = resolution_score clob.days_to_resolution in
      let stability =
        if ts.has_data
        then unit_clamp (whole 1 - ts.realized_vol / n.ratio 6 10)
        else n.ratio 1 2 in
      let dd_penalty =
        if ts.has_data then unit_clamp (ts.max_drawdown / n.ratio 1 2) else n.ratio 3 10 in
      let edge_bonus = clamp (edge_return * whole 5) (whole 0 - n.ratio 2 10) (n.ratio 2 10) in
      unit_clamp (
        n.ratio 20 100 * cost_eff
        + n.ratio 15 100 * liq_adq
        + n.ratio 15 100 * depth_adq
        + n.ratio 12 100 * vol_adq
        + n.ratio 10 100 * timing
        + n.ratio 18 100 * stability
        - n.ratio 10 100 * dd_penalty
        + edge_bonus)

  unfoldable pub position_vol : R → TsFeatures R → R → R
  position_vol entry_price ts days =
      let horizon = clamp (min days (whole 30)) (whole 1) (whole 30) in
      let ts_vol = (whole 1 - entry_price) * ts.realized_vol * n.sqrt horizon in
      let terminal =
        n.sqrt (entry_price * (whole 1 - entry_price)) / max entry_price (n.ratio 5 100) in
      let base =
        if ts.has_data then max ts_vol (n.ratio 3 10 * terminal) else n.ratio 6 10 * terminal in
      clamp base (n.ratio 2 100) (n.ratio 150 100)

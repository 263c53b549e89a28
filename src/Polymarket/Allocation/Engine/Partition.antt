-- ===== src/Polymarket/Allocation/Engine/Partition.antt =====
-- What runAllocationEngine's first step promises of the selected markets, as a relation.
use team_index.Base.{◌≡◌, refl, true, false, List, [], ◌∷◌, Option, none, some, arith, Text}
use team_index.Polymarket.Allocation.Number.{Number, whole}
use team_index.Polymarket.Allocation.Laws.{Le, Lt}
use team_index.Polymarket.Allocation.Series.{TsFeatures}
use team_index.Polymarket.Allocation.Edge.{
  MarketClobData, Reason, data_unavailable, get_rejection_reason,
}
use team_index.Polymarket.Allocation.Correlation.{SelectedMarket}
use team_index.Polymarket.Allocation.Projection.{Prepared}
use team_index.Polymarket.Allocation.Report.{RejectedMarket}
use team_index.Polymarket.Allocation.Engine.{
  prepared_of, entry_price, features, by_reason, by_data, sorted_in, screen,
}

module _ {R : Type 0} ⦃n : Number R⦄ where
  -- The bounds that a market in the pool keeps
  pub record Gates (clob : MarketClobData R) (price : R) (ts : TsFeatures R) : Type 0 where
    is_open : clob.closed ≡ false
    days : Lt (n.ratio 1 2) clob.days_to_resolution
    spread : Le clob.spread (n.ratio 6 100)
    slippage : Le clob.estimated_slippage (n.ratio 4 100)
    liquidity : Le (whole 5000) clob.liquidity
    depth : Le (whole 1000) clob.depth_at_2pct_slippage
    volume : Le (whole 500) clob.volume_24h
    no_longshot : Le (n.ratio 5 100) price
    no_certainty : Le price (n.ratio 97 100)
    calm : ts.has_data ≡ true → Le ts.realized_vol (n.ratio 12 10)
    no_drawdown : ts.has_data ≡ true → Le ts.max_drawdown (n.ratio 6 10)

  -- The markets that are turned down and the prepared ones, each in the order of the selection
  pub data Screened (clob_data : Text → Option (MarketClobData R))
      : List SelectedMarket → List RejectedMarket → List (Prepared R) → Type 0 where
    no_market : Screened clob_data [] [] []
    no_clob :
        {ms : List SelectedMarket} {rs : List RejectedMarket} {ps : List (Prepared R)}
        (m : SelectedMarket)
        → clob_data m.condition_id ≡ none
        → Screened clob_data ms rs ps
        → Screened clob_data (m ∷ ms) ((record { market = m; reason = data_unavailable }) ∷ rs) ps
    gated :
        {ms : List SelectedMarket} {rs : List RejectedMarket} {ps : List (Prepared R)}
        (m : SelectedMarket) (clob : MarketClobData R) (reason : Reason)
        → clob_data m.condition_id ≡ some clob
        → get_rejection_reason clob (entry_price m clob) (features m clob) ≡ some reason
        → Screened clob_data ms rs ps
        → Screened clob_data (m ∷ ms) ((record { market = m; reason = reason }) ∷ rs) ps
    kept :
        {ms : List SelectedMarket} {rs : List RejectedMarket} {ps : List (Prepared R)}
        (m : SelectedMarket) (clob : MarketClobData R)
        → clob_data m.condition_id ≡ some clob
        → Gates clob (entry_price m clob) (features m clob)
        → Screened clob_data ms rs ps
        → Screened clob_data (m ∷ ms) rs (prepared_of m clob ∷ ps)

  no_reason-Gates :
      (clob : MarketClobData R) (price : R) (ts : TsFeatures R)
      → get_rejection_reason clob price ts ≡ none
      → Gates clob price ts
  unfolding get_rejection_reason
  no_reason-Gates clob price ts h = record {
    is_open = ground arith;
    days = ground arith;
    spread = ground arith;
    slippage = ground arith;
    liquidity = ground arith;
    depth = ground arith;
    volume = ground arith;
    no_longshot = ground arith;
    no_certainty = ground arith;
    calm = λ d. ground arith;
    no_drawdown = λ d. ground arith;
  }

  by_reason-Screened :
      (clob_data : Text → Option (MarketClobData R)) (m : SelectedMarket) (ms : List SelectedMarket)
      (clob : MarketClobData R) (r : Option Reason) (rest : List RejectedMarket × List (Prepared R))
      → clob_data m.condition_id ≡ some clob
      → get_rejection_reason clob (entry_price m clob) (features m clob) ≡ r
      → Screened clob_data ms rest.0 rest.1
      → let all = sorted_in m (by_reason r (prepared_of m clob)) rest in
        Screened clob_data (m ∷ ms) all.0 all.1
  by_reason-Screened clob_data m ms clob (some reason) rest e r h = gated m clob reason e r h
  by_reason-Screened clob_data m ms clob none rest e r h =
      kept m clob e (no_reason-Gates clob (entry_price m clob) (features m clob) r) h

  by_data-Screened :
      (clob_data : Text → Option (MarketClobData R)) (m : SelectedMarket) (ms : List SelectedMarket)
      (d : Option (MarketClobData R)) (rest : List RejectedMarket × List (Prepared R))
      → clob_data m.condition_id ≡ d
      → Screened clob_data ms rest.0 rest.1
      → let all = sorted_in m (by_data d m) rest in Screened clob_data (m ∷ ms) all.0 all.1
  by_data-Screened clob_data m ms none rest e h = no_clob m e h
  by_data-Screened clob_data m ms (some clob) rest e h =
      by_reason-Screened clob_data m ms clob
        (get_rejection_reason clob (entry_price m clob) (features m clob)) rest e refl h

  -- On every selection and all market data, the first step of the engine refines the relation
  -- `Screened`: each market, in the order of the selection, either is turned down as unavailable
  -- because there is no data on it, or is turned down with the reason that the gates give, or is
  -- prepared, with its features and edge, and then passes all gates: it is open, more than half a day
  -- from resolution, its spread is at most 6%, its slippage 4%, liquidity, depth and volume at least
  -- 5000, 1000 and 500, its price between 5% and 97%, and, where it has data, its volatility at
  -- most 1.2 and its drawdown 60%.
  pub screen-Screened :
      (clob_data : Text → Option (MarketClobData R)) (ms : List SelectedMarket)
      → Screened clob_data ms (screen clob_data ms).0 (screen clob_data ms).1
  unfolding screen
  screen-Screened clob_data [] = no_market
  screen-Screened clob_data (m ∷ ms) =
      by_data-Screened clob_data m ms (clob_data m.condition_id) (screen clob_data ms) refl
        (screen-Screened clob_data ms)

-- ===== src/Polymarket/Allocation/Engine.antt =====
-- src/polymarket/allocationEngine.ts, runAllocationEngine: the steps from the selected markets to the
-- proposal.
pub mod Partition
pub mod Limits
use team_index.Base.{
  ℕ, zero, suc, Bool, true, false, not, ◌&&◌, ◌||◌, List, [], ◌∷◌, map, ◌++◌, Option, none, some,
  ◌==◌, if◌then◌else◌, length, any, Text, codes, text_eq, trim,
}
use team_index.Polymarket.Allocation.Number.{
  Number, ◌+◌, ◌-◌, ◌*◌, ◌/◌, ◌<◌, ◌<=◌, whole, abs, max, min, clamp, sum, mean, eps,
}
use team_index.Polymarket.Allocation.Series.{
  TsSeries, TsFeatures, MarketSide, side_price, chosen_side_series, compute_ts_features,
}
use team_index.Polymarket.Allocation.Edge.{
  MarketClobData, Reason, data_unavailable, Edge, get_rejection_reason, compute_edge,
  quality_composite, position_vol,
}
use team_index.Polymarket.Allocation.Correlation.{SelectedMarket, blended_corr}
use team_index.Polymarket.Allocation.Sizing.{
  Matrix, at, mat_vec, dot_from, quad_form, build_covariance, erc_weights, kelly_direction,
}
use team_index.Polymarket.Allocation.Projection.{
  Prepared, Slot, BindingConstraint, amounts, project_constraints,
}
use team_index.Polymarket.Allocation.Weights.{slots_of}
use team_index.Polymarket.Allocation.Report.{
  RejectedMarket, AllocationProposal, empty_proposal, proposal_of,
}

-- Where a market goes
pub data Verdict (R : Type 0) : Type 0 where
  turned_down : Reason → Verdict R
  passed_all : Prepared R → Verdict R

module _ {R : Type 0} ⦃n : Number R⦄ where
  abbrev entry_price : SelectedMarket → MarketClobData R → R
  entry_price m clob = clamp (side_price m.selected_side clob.price) eps (whole 1 - eps)

  abbrev features : SelectedMarket → MarketClobData R → TsFeatures R
  features m clob = compute_ts_features (chosen_side_series clob.historical_prices m.selected_side)

  abbrev prepared_of : SelectedMarket → MarketClobData R → Prepared R
  prepared_of m clob =
      let ts = features m clob in
      let edge = compute_edge (entry_price m clob) ts clob in
      record {
        market = m;
        clob = clob;
        series = chosen_side_series clob.historical_prices m.selected_side;
        ts = ts;
        entry_price = entry_price m clob;
        edge = edge;
        quality = quality_composite (entry_price m clob) clob ts edge.edge_return;
        vol = position_vol (entry_price m clob) ts clob.days_to_resolution;
      }

  abbrev pub by_reason : Option Reason → Prepared R → Verdict R
  by_reason (some reason) p = turned_down reason
  by_reason none p = passed_all p

  abbrev pub by_data : Option (MarketClobData R) → SelectedMarket → Verdict R
  by_data none m = turned_down data_unavailable
  by_data (some clob) m =
      by_reason (get_rejection_reason clob (entry_price m clob) (features m clob))
        (prepared_of m clob)

  abbrev pub sorted_in :
      SelectedMarket
      → Verdict R
      → List RejectedMarket × List (Prepared R)
      → List RejectedMarket × List (Prepared R)
  sorted_in m (turned_down reason) (rs, ps) = ((record { market = m; reason = reason }) ∷ rs, ps)
  sorted_in m (passed_all p) (rs, ps) = (rs, p ∷ ps)

  -- The first step, for the markets in their order
  unfoldable pub screen :
      (Text → Option (MarketClobData R))
      → List SelectedMarket
      → List RejectedMarket × List (Prepared R)
  screen clob_data [] = ([], [])
  screen clob_data (m ∷ ms) =
      sorted_in m (by_data (clob_data m.condition_id) m) (screen clob_data ms)

  abbrev pub with_prepared : R → List RejectedMarket → List (Prepared R) → AllocationProposal R
  with_prepared nav rejected [] = empty_proposal nav rejected
  with_prepared nav rejected (p ∷ ps) = proposal_of nav rejected (p ∷ ps) (slots_of nav (p ∷ ps))

  abbrev pub screened : R → List RejectedMarket × List (Prepared R) → AllocationProposal R
  screened nav (rejected, ps) = with_prepared nav rejected ps

  unfoldable pub run_allocation_engine :
      List SelectedMarket → (Text → Option (MarketClobData R)) → R → AllocationProposal R
  unfolding screen
  run_allocation_engine [] clob_data nav = empty_proposal (max nav (whole 0)) []
  run_allocation_engine (m ∷ ms) clob_data nav =
      if nav <= whole 0
      then empty_proposal (max nav (whole 0)) []
      else screened nav (screen clob_data (m ∷ ms))

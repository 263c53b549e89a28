-- ===== src/Polymarket/Allocation/Engine/Limits.antt =====
-- The amounts of runAllocationEngine against the limits of a market and of the pool.
use team_index.Base.{
  ℕ, suc, ◌≡◌, refl, Bool, true, false, List, [], ◌∷◌, map, Option, none, some, arith, All, Text,
  if◌then◌else◌,
}
use team_index.Polymarket.Allocation.Number.{Number, ◌+◌, ◌*◌, ◌<=◌, ◌/◌, whole, sum, max}
use team_index.Polymarket.Allocation.Laws.{Le, Laws}
use team_index.Polymarket.Allocation.Series.{TsFeatures}
use team_index.Polymarket.Allocation.Edge.{
  MarketClobData, Reason, get_rejection_reason, min_liquidity, min_depth,
}
use team_index.Polymarket.Allocation.Correlation.{SelectedMarket}
use team_index.Polymarket.Allocation.Projection.{
  Prepared, Slot, amounts, tiny, project_constraints, slots_from, market_top,
}
use team_index.Polymarket.Allocation.Projection.Caps.{Within, Tradeable, slots_from-Within}
use team_index.Polymarket.Allocation.Projection.Rounds.{project-Within}
use team_index.Polymarket.Allocation.Projection.Exposure.{project-Le}
use team_index.Polymarket.Allocation.Report.{
  RejectedMarket, ScoredAllocation, AllocationProposal, scored, empty_proposal,
}
use team_index.Polymarket.Allocation.Sizing.{build_covariance, quad_form, mat_vec, dot_from}
use team_index.Polymarket.Allocation.Weights.{slots_of, corr_rows, unit_of, gross_of, confidence_of}
use team_index.Polymarket.Allocation.Engine.{
  prepared_of, entry_price, features, by_reason, by_data, sorted_in, screen, screened,
  with_prepared, run_allocation_engine,
}

module _ {R : Type 0} ⦃n : Number R⦄ where
  passed_gates :
      (clob : MarketClobData R) (price : R) (ts : TsFeatures R)
      → get_rejection_reason clob price ts ≡ none
      → Le min_liquidity clob.liquidity × Le min_depth clob.depth_at_2pct_slippage
  unfolding get_rejection_reason
  passed_gates clob price ts h = ground arith

module _ {R : Type 0} ⦃n : Number R⦄ (l : Laws n) where
  nonneg : (k : ℕ) (a : R) → Le (whole k) a → Le (whole 0) a
  nonneg k a h = l.le_trans (whole 0) (whole k) a (l.ratio_nonneg k 1) h

  sorted_in-Tradeable :
      (r : Option Reason) (m : SelectedMarket) (clob : MarketClobData R)
      (rest : List RejectedMarket × List (Prepared R))
      → get_rejection_reason clob (entry_price m clob) (features m clob) ≡ r
      → All Tradeable rest.1
      → All Tradeable (sorted_in m (by_reason r (prepared_of m clob)) rest).1
  sorted_in-Tradeable (some reason) m clob rest e h = h
  sorted_in-Tradeable none m clob rest e h =
      let gates = passed_gates clob (entry_price m clob) (features m clob) e in
      ((nonneg 5000 clob.liquidity gates.0, nonneg 1000 clob.depth_at_2pct_slippage gates.1), h)

  by_data-Tradeable :
      (d : Option (MarketClobData R)) (m : SelectedMarket)
      (rest : List RejectedMarket × List (Prepared R))
      → All Tradeable rest.1
      → All Tradeable (sorted_in m (by_data d m) rest).1
  by_data-Tradeable none m rest h = h
  by_data-Tradeable (some clob) m rest h =
      sorted_in-Tradeable (get_rejection_reason clob (entry_price m clob) (features m clob)) m clob
        rest refl h

  pub screen-Tradeable :
      (clob_data : Text → Option (MarketClobData R)) (ms : List SelectedMarket)
      → All Tradeable (screen clob_data ms).1
  unfolding screen
  screen-Tradeable clob_data [] = tt
  screen-Tradeable clob_data (m ∷ ms) =
      by_data-Tradeable (clob_data m.condition_id) m (screen clob_data ms)
        (screen-Tradeable clob_data ms)

  project_constraints-Within :
      (ps : List (Prepared R)) (weights : List R) (nav gross : R) (corr : List (List R))
      → Le (whole 0) nav
      → Le (n.ratio 30 100) (whole 1)
      → All Tradeable ps
      → All (Within nav) (project_constraints ps weights nav gross corr)
  unfolding project_constraints
  project_constraints-Within ps weights nav gross corr v o h =
      project-Within l nav gross (slots_from nav weights 0 ps weights corr) v
        (slots_from-Within l nav weights 0 ps weights corr v o h)

  project_constraints-Le :
      (ps : List (Prepared R)) (weights : List R) (nav gross : R) (corr : List (List R))
      → Le (whole 0) nav
      → Le
          (sum (amounts (project_constraints ps weights nav gross corr)))
          (nav * n.ratio 80 100 + tiny)
  unfolding project_constraints
  project_constraints-Le ps weights nav gross corr v =
      project-Le l nav gross (slots_from nav weights 0 ps weights corr) v

  -- With exact arithmetic, in which 0.3 is at most 1, and a pool of no negative value, each slot of the
  -- projection of the markets that passed the first step has a cap within 8% of the pool's value, 10%
  -- of the market's liquidity and 50% of its depth, and an amount that is not negative and at most that
  -- cap, whatever the rounds of water-filling and the scalings of events, clusters and the pool did.
  pub slots_of-Within :
      (clob_data : Text → Option (MarketClobData R)) (ms : List SelectedMarket) (nav : R)
      → Le (whole 0) nav
      → Le (n.ratio 30 100) (whole 1)
      → All (Within nav) (slots_of nav (screen clob_data ms).1)
  slots_of-Within clob_data ms nav v o =
      let ps = (screen clob_data ms).1 in
      let corr = corr_rows 0 ps ps in
      let m = build_covariance (map (λ p. p.vol) ps) corr in
      let w_unit = unit_of ps m in
      let sigma = n.sqrt (max (whole 0) (quad_form m w_unit)) in
      project_constraints-Within ps w_unit nav (gross_of sigma (confidence_of ps)) corr v o
        (screen-Tradeable clob_data ms)

  -- With exact arithmetic and a pool of no negative value, the amounts of the projection sum up to at
  -- most 80% of the pool's value, and the tolerance of 1e-9, for any markets.
  pub slots_of-Le :
      (ps : List (Prepared R)) (nav : R)
      → Le (whole 0) nav
      → Le (sum (amounts (slots_of nav ps))) (nav * n.ratio 80 100 + tiny)
  slots_of-Le ps nav v =
      let corr = corr_rows 0 ps ps in
      let m = build_covariance (map (λ p. p.vol) ps) corr in
      let w_unit = unit_of ps m in
      let sigma = n.sqrt (max (whole 0) (quad_form m w_unit)) in
      project_constraints-Le ps w_unit nav (gross_of sigma (confidence_of ps)) corr v

module _ {R : Type 0} ⦃n : Number R⦄ where
  -- An allocation that is not negative and within the limit of a market
  abbrev pub Moderate : R → ScoredAllocation R → Type 0
  Moderate nav a = Le (whole 0) a.allocation_amount × Le a.allocation_amount (market_top nav)

module _ {R : Type 0} ⦃n : Number R⦄ (l : Laws n) where
  scored-Moderate :
      (nav : R) (i : ℕ) (port_var : R) (a sa : List R) (ps : List (Prepared R))
      (slots : List (Slot R)) (rows : List (List R))
      → All (Within nav) slots
      → All (Moderate nav) (scored i port_var a sa ps slots rows)
  scored-Moderate nav i port_var a sa [] slots rows h = tt
  scored-Moderate nav i port_var a sa (p ∷ ps) [] rows h = tt
  scored-Moderate nav i port_var a sa (p ∷ ps) (s ∷ ss) [] h = tt
  scored-Moderate nav i port_var a sa (p ∷ ps) (s ∷ ss) (row ∷ rows) ((c, q, t), h) = (
    (q, l.le_trans s.amount s.cap (market_top nav) t c.1),
    scored-Moderate nav (suc i) port_var a sa ps ss rows h,
  )

  with_prepared-Moderate :
      (nav : R) (rejected : List RejectedMarket) (ps : List (Prepared R))
      → All (Within nav) (slots_of nav ps)
      → All (Moderate nav) (with_prepared nav rejected ps).allocations
  with_prepared-Moderate nav rejected [] h = tt
  with_prepared-Moderate nav rejected (p ∷ ps) h =
      let corr = corr_rows 0 (p ∷ ps) (p ∷ ps) in
      let slots = slots_of nav (p ∷ ps) in
      let a = map (λ s. s.amount / nav) slots in
      let sa = mat_vec (build_covariance (map (λ q. q.vol) (p ∷ ps)) corr) a in
      scored-Moderate nav 0 (dot_from (whole 0) a sa) a sa (p ∷ ps) slots corr h

  if-Moderate :
      (nav : R) (b : Bool) (x y : AllocationProposal R)
      → (b ≡ true → All (Moderate nav) x.allocations)
      → (b ≡ false → All (Moderate nav) y.allocations)
      → All (Moderate nav) (if b then x else y).allocations
  if-Moderate nav true x y h k = h refl
  if-Moderate nav false x y h k = k refl

  -- With exact arithmetic, in which 0.3 is at most 1, for any selection, market data and value of the
  -- pool, also a negative one, each allocation of the engine's proposal has an amount that is not
  -- negative and at most 8% of the pool's value.
  pub run_allocation_engine-Moderate :
      (ms : List SelectedMarket) (clob_data : Text → Option (MarketClobData R)) (nav : R)
      → Le (n.ratio 30 100) (whole 1)
      → All (Moderate nav) (run_allocation_engine ms clob_data nav).allocations
  unfolding run_allocation_engine
  run_allocation_engine-Moderate [] clob_data nav o = tt
  run_allocation_engine-Moderate (m ∷ ms) clob_data nav o =
      if-Moderate nav (nav <= whole 0) (empty_proposal (max nav (whole 0)) [])
        (screened nav (screen clob_data (m ∷ ms))) (λ e. tt)
        (λ e.
          with_prepared-Moderate nav (screen clob_data (m ∷ ms)).0 (screen clob_data (m ∷ ms)).1
            (slots_of-Within l clob_data (m ∷ ms) nav (l.le_of_lt (whole 0) nav (ground arith)) o))

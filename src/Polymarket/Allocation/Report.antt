-- ===== src/Polymarket/Allocation/Report.antt =====
-- src/polymarket/allocationEngine.ts: the proposal, made of the amounts.
use team_index.Base.{
  ℕ, suc, Bool, false, not, ◌&&◌, ◌||◌, List, [], ◌∷◌, map, Option, none, some, ◌==◌, if◌then◌else◌,
  any, Text, codes, text_eq,
}
use team_index.Polymarket.Allocation.Number.{
  Number, ◌+◌, ◌-◌, ◌*◌, ◌/◌, ◌<◌, ◌<=◌, whole, max, clamp, sum, mean,
}
use team_index.Polymarket.Allocation.Edge.{Reason}
use team_index.Polymarket.Allocation.Correlation.{SelectedMarket}
use team_index.Polymarket.Allocation.Sizing.{Matrix, at, mat_vec, dot_from, build_covariance}
use team_index.Polymarket.Allocation.Projection.{
  Prepared, Slot, BindingConstraint, amounts, cluster_key,
}
use team_index.Polymarket.Allocation.Weights.{corr_rows, confidence_of}
use team_index.Polymarket.Allocation.Notes.{RiskLevel, Note, risk_level, build_reasons}

pub record RejectedMarket : Type 0 where
  pub market : SelectedMarket
  pub reason : Reason

pub record ScoredAllocation (R : Type 0) : Type 0 where
  pub market : SelectedMarket
  pub price : R
  pub quality_score : R
  pub adjusted_score : R
  pub correlation_risk : RiskLevel
  pub historical_risk : RiskLevel
  pub allocation_weight : R
  pub allocation_amount : R
  pub reasons : List Note
  pub implied_prob : R
  pub kelly_fraction : R
  pub risk_contribution : R
  pub period_vol_pct : R
  pub momentum_z : Option R
  pub trend_persistence : Option R
  pub binding_constraint : Option BindingConstraint

pub record AllocationProposal (R : Type 0) : Type 0 where
  pub nav : R
  pub target_exposure : R
  pub cash_weight : R
  pub cash_amount : R
  pub portfolio_quality : R
  pub good_markets_count : ℕ
  pub independent_good_markets_count : ℕ
  pub allocations : List (ScoredAllocation R)
  pub rejected_markets : List RejectedMarket
  pub cluster_exposure : List (Text × R)
  pub expected_return_pct : R
  pub expected_vol_pct : R
  pub risk_adjusted_return : R
  pub diversification_ratio : R
  pub effective_bets : R
  pub signal_confidence : R

module _ {R : Type 0} ⦃n : Number R⦄ where
  abbrev pub empty_proposal : R → List RejectedMarket → AllocationProposal R
  empty_proposal nav rejected = record {
    nav = nav;
    target_exposure = n.ratio 30 100;
    cash_weight = whole 1;
    cash_amount = nav;
    portfolio_quality = whole 0;
    good_markets_count = 0;
    independent_good_markets_count = 0;
    allocations = [];
    rejected_markets = rejected;
    cluster_exposure = (codes "cash", whole 1) ∷ [];
    expected_return_pct = whole 0;
    expected_vol_pct = whole 0;
    risk_adjusted_return = whole 0;
    diversification_ratio = whole 1;
    effective_bets = whole 0;
    signal_confidence = whole 0;
  }

  -- The positive correlation to the other invested markets, weighted by their amounts
  abbrev invested_burden : ℕ → ℕ → R → R → List R → List R → R
  invested_burden i j num den (x ∷ xs) (c ∷ cs) =
      invested_burden i (suc j) (if i == j then num else num + x * max c (whole 0))
        (if i == j then den else den + x) xs cs
  invested_burden i j num den _ _ = if n.ratio 1 1000000000 < den then num / den else whole 0

  abbrev pub scored :
      ℕ
      → R
      → List R
      → List R
      → List (Prepared R)
      → List (Slot R)
      → Matrix R
      → List (ScoredAllocation R)
  scored i port_var a sa (p ∷ ps) (s ∷ ss) (row ∷ rows) =
      record {
        market = p.market;
        price = p.entry_price;
        quality_score = p.quality;
        adjusted_score =
            clamp
              (p.quality
                + clamp (p.edge.edge_return * whole 2) (whole 0 - n.ratio 3 10) (n.ratio 3 10))
              (whole 0) (whole 1);
        correlation_risk =
            risk_level (invested_burden i 0 (whole 0) (whole 0) a row) (n.ratio 30 100)
              (n.ratio 60 100);
        historical_risk = risk_level p.ts.max_drawdown (n.ratio 15 100) (n.ratio 35 100);
        allocation_weight = at a i;
        allocation_amount = s.amount;
        reasons = build_reasons p.entry_price p.clob p.ts p.edge;
        implied_prob = p.edge.implied_q;
        kelly_fraction = p.edge.kelly;
        risk_contribution =
            if n.ratio 1 1000000000000 < port_var then at a i * at sa i / port_var else whole 0;
        period_vol_pct = p.vol;
        momentum_z = if p.ts.has_data then some p.ts.momentum_z else none;
        trend_persistence = if p.ts.has_data then some p.ts.variance_ratio else none;
        binding_constraint = s.binding;
      }
      ∷ scored (suc i) port_var a sa ps ss rows
  scored i port_var a sa _ _ _ = []

  -- `exposure[key] = value`, or added to what is there
  abbrev add_entry : Text → R → List (Text × R) → List (Text × R)
  add_entry k x [] = (k, whole 0 + x) ∷ []
  add_entry k x (e ∷ es) =
      let rest = add_entry k x es in if text_eq k e.0 then (e.0, e.1 + x) ∷ es else e ∷ rest

  abbrev set_entry : Text → R → List (Text × R) → List (Text × R)
  set_entry k x [] = (k, x) ∷ []
  set_entry k x (e ∷ es) =
      let rest = set_entry k x es in if text_eq k e.0 then (k, x) ∷ es else e ∷ rest

  abbrev add_cluster : Option Text → R → List (Text × R) → List (Text × R)
  add_cluster none x es = es
  add_cluster (some k) x es = add_entry k x es

  abbrev clusters_from : List (Prepared R) → List R → List (Text × R) → List (Text × R)
  clusters_from (p ∷ ps) (x ∷ xs) es = clusters_from ps xs (add_cluster (cluster_key p.market) x es)
  clusters_from _ _ es = es

  abbrev good : Prepared R → Bool
  good p = n.ratio 55 100 <= p.quality

  abbrev dependent_from : ℕ → ℕ → List (Prepared R) → List R → Bool
  dependent_from i j (q ∷ qs) (c ∷ cs) =
      not (i == j) && (good q && n.ratio 1 2 <= c) || dependent_from i (suc j) qs cs
  dependent_from i j _ _ = false

  abbrev good_count : List (Prepared R) → ℕ
  good_count [] = 0
  good_count (p ∷ ps) = let rest = good_count ps in if good p then suc rest else rest

  abbrev independent_count : ℕ → List (Prepared R) → List (Prepared R) → Matrix R → ℕ
  independent_count i all (p ∷ ps) (row ∷ rows) =
      let rest = independent_count (suc i) all ps rows in
      if good p && not (dependent_from i 0 all row) then suc rest else rest
  independent_count i all _ _ = 0

  abbrev effective_bets_of : List R → R → R
  effective_bets_of a invested =
      let w = map (λ x. if n.ratio 1 1000000000000 < invested then x / invested else whole 0) a in
      if any (λ x. whole 0 < x) w then whole 1 / sum (map (λ x. x * x) w) else whole 0

  abbrev pub proposal_of :
      R → List RejectedMarket → List (Prepared R) → List (Slot R) → AllocationProposal R
  proposal_of nav rejected ps slots =
      let corr = corr_rows 0 ps ps in
      let vols = map (λ p. p.vol) ps in
      let m = build_covariance vols corr in
      let a = map (λ s. s.amount / nav) slots in
      let sa = mat_vec m a in
      let port_var = dot_from (whole 0) a sa in
      let port_vol = n.sqrt (max (whole 0) port_var) in
      let edge_returns = map (λ p. p.edge.edge_return) ps in
      let expected_return = dot_from (whole 0) a edge_returns in
      let invested = sum a in
      let diversification =
        if n.ratio 1 1000000000 < port_vol then dot_from (whole 0) a vols / port_vol else whole 1 in
      record {
        nav = nav;
        target_exposure = invested;
        cash_weight = clamp (whole 1 - invested) (whole 0) (whole 1);
        cash_amount = max (whole 0) (nav - sum (amounts slots));
        portfolio_quality =
            clamp
              (n.ratio 1 2 * mean (map (λ p. p.quality) ps)
                + n.ratio 3 10 * confidence_of ps
                + n.ratio 2 10 * clamp (diversification / whole 2) (whole 0) (whole 1))
              (whole 0) (whole 1);
        good_markets_count = good_count ps;
        independent_good_markets_count = independent_count 0 ps ps corr;
        allocations = scored 0 port_var a sa ps slots corr;
        rejected_markets = rejected;
        cluster_exposure =
            set_entry (codes "cash") (clamp (whole 1 - invested) (whole 0) (whole 1))
              (clusters_from ps a []);
        expected_return_pct = expected_return;
        expected_vol_pct = port_vol;
        risk_adjusted_return =
            if n.ratio 1 1000000000 < port_vol then expected_return / port_vol else whole 0;
        diversification_ratio = diversification;
        effective_bets = effective_bets_of a invested;
        signal_confidence = confidence_of ps;
      }

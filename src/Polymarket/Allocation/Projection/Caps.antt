-- ===== src/Polymarket/Allocation/Projection/Caps.antt =====
-- The caps of projectConstraints against the limits of a market, and the slots they start from.
use team_index.Base.{ℕ, suc, List, [], ◌∷◌, All}
use team_index.Polymarket.Allocation.Number.{Number, ◌-◌, ◌*◌, whole, min}
use team_index.Polymarket.Allocation.Laws.{
  Le, Laws, min_le_left, min_le_right, le_min, clamp_le, le_clamp,
}
use team_index.Polymarket.Allocation.Edge.{MarketClobData}
use team_index.Polymarket.Allocation.Projection.{
  Prepared, Slot, cap_of, market_top, liquidity_cap, depth_cap, haircut_of, slots_from, corr_burden,
}

module _ {R : Type 0} ⦃n : Number R⦄ where
  -- A cap within the limits that the market, its liquidity and its depth set
  abbrev pub Limited : R → MarketClobData R → R → Type 0
  Limited nav clob cap =
      Le (whole 0) cap
      × Le cap (market_top nav)
      × Le cap (liquidity_cap clob)
      × Le cap (depth_cap clob)

  abbrev pub Within : R → Slot R → Type 0
  Within nav s = Limited nav s.clob s.cap × Le (whole 0) s.amount × Le s.amount s.cap

  -- The data of a market that passed its gates
  abbrev pub Tradeable : Prepared R → Type 0
  Tradeable p = Le (whole 0) p.clob.liquidity × Le (whole 0) p.clob.depth_at_2pct_slippage

module _ {R : Type 0} ⦃n : Number R⦄ (l : Laws n) (nav : R) where
  -- A cap that is made of the limits
  cap-Limited :
      (haircut : R) (clob : MarketClobData R)
      → Le (whole 0) nav
      → Le (whole 0) clob.liquidity
      → Le (whole 0) clob.depth_at_2pct_slippage
      → Le (whole 0) haircut
      → Le haircut (whole 1)
      → Limited nav clob (cap_of nav haircut clob)
  cap-Limited haircut clob v q d p h =
      let top = market_top nav * haircut in
      let both = min top (liquidity_cap clob) in
      let top_nonneg : Le (whole 0) (market_top nav) =
        l.times_nonneg nav (n.ratio 8 100) v (l.ratio_nonneg 8 100) in
      let below : Le (cap_of nav haircut clob) both = min_le_left l both (depth_cap clob) in
      (
        le_min l both (depth_cap clob) (whole 0)
            (le_min l top (liquidity_cap clob) (whole 0)
              (l.times_nonneg (market_top nav) haircut top_nonneg p)
              (l.times_nonneg clob.liquidity (n.ratio 10 100) q (l.ratio_nonneg 10 100)))
            (l.times_nonneg clob.depth_at_2pct_slippage (n.ratio 50 100) d (l.ratio_nonneg 50 100)),
        l.le_trans (cap_of nav haircut clob) both (market_top nav) below (
            l.le_trans both top (market_top nav) (min_le_left l top (liquidity_cap clob))
              (l.times_le (market_top nav) haircut top_nonneg h)),
        l.le_trans (cap_of nav haircut clob) both (liquidity_cap clob) below
            (min_le_right l top (liquidity_cap clob)),
        min_le_right l both (depth_cap clob),
      )

  pub slots_from-Within :
      (weights : List R) (i : ℕ) (ps : List (Prepared R)) (ws : List R) (rows : List (List R))
      → Le (whole 0) nav
      → Le (n.ratio 30 100) (whole 1)
      → All Tradeable ps
      → All (Within nav) (slots_from nav weights i ps ws rows)
  slots_from-Within weights i [] ws rows v o h = tt
  slots_from-Within weights i (p ∷ ps) [] rows v o h = tt
  slots_from-Within weights i (p ∷ ps) (w ∷ ws) [] v o h = tt
  slots_from-Within weights i (p ∷ ps) (w ∷ ws) (row ∷ rows) v o ((q, d), h) =
      let burden = n.ratio 70 100 * corr_burden i weights row in
      let least = le_clamp l (whole 1 - burden) (n.ratio 30 100) (whole 1) in
      let most = clamp_le l (whole 1 - burden) (n.ratio 30 100) (whole 1) o in
      let haircut_nonneg = l.le_trans (whole 0) (n.ratio 30 100) _ (l.ratio_nonneg 30 100) least in
      let limited =
        cap-Limited (haircut_of (corr_burden i weights row)) p.clob v q d haircut_nonneg most in
      (
        (limited, l.le_refl (whole 0), limited.0),
        slots_from-Within weights (suc i) ps ws rows v o h,
      )

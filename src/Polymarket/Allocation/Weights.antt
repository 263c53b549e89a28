-- ===== src/Polymarket/Allocation/Weights.antt =====
-- src/polymarket/allocationEngine.ts: the weights of the markets that passed, and the invested part.
use team_index.Base.{ℕ, suc, List, [], ◌∷◌, map, ◌==◌, if◌then◌else◌}
use team_index.Polymarket.Allocation.Number.{
  Number, ◌+◌, ◌-◌, ◌*◌, ◌/◌, ◌<◌, whole, abs, max, clamp, sum, mean,
}
use team_index.Polymarket.Allocation.Correlation.{blended_corr}
use team_index.Polymarket.Allocation.Sizing.{
  Matrix, quad_form, build_covariance, erc_weights, kelly_direction,
}
use team_index.Polymarket.Allocation.Projection.{Prepared, Slot, project_constraints}

module _ {R : Type 0} ⦃n : Number R⦄ where
  abbrev corr_row : ℕ → ℕ → Prepared R → List (Prepared R) → List R
  corr_row i j p [] = []
  corr_row i j p (q ∷ qs) =
      (if i == j then whole 1 else blended_corr p.market q.market p.series q.series)
      ∷ corr_row i (suc j) p qs

  abbrev pub corr_rows : ℕ → List (Prepared R) → List (Prepared R) → Matrix R
  corr_rows i all [] = []
  corr_rows i all (p ∷ ps) = corr_row i 0 p all ∷ corr_rows (suc i) all ps

  abbrev pub confidence_of : List (Prepared R) → R
  confidence_of ps =
      let data_frac = mean (map (λ p. if p.ts.has_data then whole 1 else whole 0) ps) in
      let avg_quality = mean (map (λ p. p.quality) ps) in
      let avg_pos_edge =
        mean (map (λ p. clamp p.edge.edge_return (whole 0) (n.ratio 2 10) / n.ratio 2 10) ps) in
      let avg_mom_sig =
        mean (map (λ p. clamp (abs p.ts.momentum_z / whole 2) (whole 0) (whole 1)) ps) in
      clamp
        (n.ratio 40 100 * data_frac
          + n.ratio 30 100 * avg_quality
          + n.ratio 20 100 * avg_pos_edge
          + n.ratio 10 100 * avg_mom_sig)
        (whole 0) (whole 1)

  abbrev mixed : R → List R → List R → List R
  mixed tilt (rp ∷ rps) (k ∷ ks) = ((whole 1 - tilt) * rp + tilt * k) ∷ mixed tilt rps ks
  mixed tilt _ _ = []

  abbrev pub unit_weights : R → List R → List R → List R
  unit_weights tilt w_rp w_kelly =
      let w_dir = mixed tilt w_rp w_kelly in
      if n.ratio 1 1000000000000 < sum w_dir then map (λ x. x / sum w_dir) w_dir else w_rp

  -- The invested fraction, by the volatility target and the confidence
  abbrev pub gross_of : R → R → R
  gross_of sigma confidence =
      let low = n.ratio 30 100 in
      let high = n.ratio 80 100 in
      let vol_gross =
        if n.ratio 1 1000000000 < sigma then clamp (n.ratio 12 100 / sigma) low high else low in
      clamp (low + (vol_gross - low) * confidence) low high

  -- The markets that passed, with the correlations of each and their covariance
  abbrev pub unit_of : List (Prepared R) → Matrix R → List R
  unit_of ps m =
      unit_weights (n.ratio 60 100 * confidence_of ps) (erc_weights m)
        (kelly_direction m (map (λ p. p.edge.edge_return) ps))

  abbrev pub slots_of : R → List (Prepared R) → List (Slot R)
  slots_of nav ps =
      let corr = corr_rows 0 ps ps in
      let m = build_covariance (map (λ p. p.vol) ps) corr in
      let w_unit = unit_of ps m in
      let sigma = n.sqrt (max (whole 0) (quad_form m w_unit)) in
      project_constraints ps w_unit nav (gross_of sigma (confidence_of ps)) corr

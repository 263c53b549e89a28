-- ===== src/Polymarket/Allocation/Notes.antt =====
-- src/polymarket/allocationEngine.ts: the reasons and risk levels that a proposal shows.
use team_index.Base.{Bool, true, false, not, ◌&&◌, List, [], ◌∷◌, if◌then◌else◌}
use team_index.Polymarket.Allocation.Number.{Number, ◌-◌, ◌<◌, ◌<=◌, whole}
use team_index.Polymarket.Allocation.Series.{TsFeatures}
use team_index.Polymarket.Allocation.Edge.{MarketClobData, Edge}

pub data RiskLevel : Type 0 where
  low medium high : RiskLevel

pub data Note : Type 0 where
  positive_edge edge_eroded upward_momentum downward_momentum trending mean_reverting : Note
  stable_price volatile_price notable_drawdown limited_history tight_spread wide_spread : Note
  deep_liquidity resolves_soon long_dated strong_favorite underdog : Note

abbrev note_if : Bool → Note → List Note → List Note
note_if true r rs = r ∷ rs
note_if false r rs = rs

module _ {R : Type 0} ⦃n : Number R⦄ where
  abbrev pub risk_level : R → R → R → RiskLevel
  risk_level v med top = if top <= v then high else if med <= v then medium else low

  -- The reasons of a history, which there is
  abbrev history_notes : TsFeatures R → List Note → List Note
  history_notes ts rest = note_if (whole 1 < ts.momentum_z) upward_momentum (
      note_if (not (whole 1 < ts.momentum_z) && ts.momentum_z < whole 0 - whole 1) downward_momentum
        (note_if (n.ratio 12 10 < ts.variance_ratio) trending (
          note_if (not (n.ratio 12 10 < ts.variance_ratio) && ts.variance_ratio < n.ratio 8 10)
            mean_reverting
            (note_if (ts.realized_vol < n.ratio 15 100) stable_price (
              note_if (not (ts.realized_vol < n.ratio 15 100) && n.ratio 40 100 < ts.realized_vol)
                volatile_price
                (note_if (n.ratio 30 100 <= ts.max_drawdown) notable_drawdown rest))))))

  abbrev data_notes : Bool → TsFeatures R → List Note → List Note
  data_notes true ts rest = history_notes ts rest
  data_notes false ts rest = limited_history ∷ rest

  unfoldable pub build_reasons : R → MarketClobData R → TsFeatures R → Edge R → List Note
  build_reasons price clob ts edge = note_if (n.ratio 2 100 < edge.edge_return) positive_edge (
      note_if (not (n.ratio 2 100 < edge.edge_return) && edge.edge_return < whole 0 - n.ratio 1 100)
        edge_eroded
        (data_notes ts.has_data ts (
          note_if (clob.spread <= n.ratio 2 100) tight_spread (
            note_if (not (clob.spread <= n.ratio 2 100) && n.ratio 4 100 < clob.spread) wide_spread
              (note_if (whole 20000 <= clob.liquidity) deep_liquidity (
                note_if (clob.days_to_resolution <= whole 7) resolves_soon (
                  note_if
                    (not (clob.days_to_resolution <= whole 7) && whole 60 < clob.days_to_resolution)
                    long_dated
                    (note_if (n.ratio 75 100 <= price) strong_favorite (
                      note_if (not (n.ratio 75 100 <= price) && price <= n.ratio 35 100) underdog
                        [])))))))))

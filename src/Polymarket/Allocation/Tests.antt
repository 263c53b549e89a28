-- ===== src/Polymarket/Allocation/Tests.antt =====
-- Runs of the allocation engine on fixed point numbers.
use team_index.Base.{
  ℕ, ◌≡◌, refl, false, List, [], ◌∷◌, map, Option, none, some, Text, codes, text_eq, All,
  if◌then◌else◌,
}
use team_index.Polymarket.Allocation.Number.{whole}
use team_index.Polymarket.Allocation.Fixed.{fixed, fixed-Laws}
use team_index.Polymarket.Allocation.Series.{yes_side}
use team_index.Polymarket.Allocation.Edge.{MarketClobData}
use team_index.Polymarket.Allocation.Correlation.{SelectedMarket, future}
use team_index.Polymarket.Allocation.Projection.{Prepared, amounts, tiny}
use team_index.Polymarket.Allocation.Report.{RejectedMarket}
use team_index.Polymarket.Allocation.Projection.Caps.{Within}
use team_index.Polymarket.Allocation.Weights.{slots_of}
use team_index.Polymarket.Allocation.Engine.{screen, run_allocation_engine}
use team_index.Polymarket.Allocation.Engine.Partition.{Screened, screen-Screened}
use team_index.Polymarket.Allocation.Engine.Limits.{slots_of-Within}

abbrev nav : ℕ
nav = whole 10000

abbrev selected : Text → SelectedMarket
selected id = record {
  market_id = id;
  condition_id = id;
  event_id = codes "e1";
  question = codes "Will France win?";
  market_type = future;
  selected_side = yes_side;
  manual_cluster_id = none;
}

abbrev deep_market : ℕ → MarketClobData ℕ
deep_market price = record {
  price = fixed.ratio price 100;
  spread = fixed.ratio 1 100;
  liquidity = whole 50000;
  volume_24h = whole 9000;
  depth_at_2pct_slippage = whole 4000;
  estimated_slippage = fixed.ratio 1 100;
  days_to_resolution = whole 20;
  closed = false;
  historical_prices = [];
  fee_rate_bps = none;
}

abbrev order_books : Text → Option (MarketClobData ℕ)
order_books id =
    if text_eq id (codes "a")
    then some (deep_market 60)
    else if text_eq id (codes "b")
    then some (deep_market 3)
    else if text_eq id (codes "c")
    then some (deep_market 75)
    else none

abbrev selection : List SelectedMarket
selection =
    selected (codes "a") ∷ selected (codes "b") ∷ selected (codes "c") ∷ selected (codes "d") ∷ []

-- Two of the four markets get an amount.
proposed :
    map (λ a. a.allocation_amount) (run_allocation_engine selection order_books nav).allocations
    ≡ 492000000001600 ∷ 492000000001600 ∷ []
unfolding run_allocation_engine text_eq team_index.Polymarket.Allocation.Edge.get_rejection_reason
    team_index.Polymarket.Allocation.Series.compute_ts_features
    team_index.Polymarket.Allocation.Series.chosen_side_series
    team_index.Polymarket.Allocation.Projection.project_constraints
    team_index.Polymarket.Allocation.Sizing.erc_weights
    team_index.Polymarket.Allocation.Sizing.build_covariance
    team_index.Polymarket.Allocation.Edge.position_vol
    team_index.Polymarket.Allocation.Correlation.blended_corr
    team_index.Polymarket.Allocation.Sizing.kelly_direction
    team_index.Polymarket.Allocation.Edge.compute_edge
    team_index.Polymarket.Allocation.Edge.quality_composite
    team_index.Polymarket.Allocation.Sizing.quad_form
    team_index.Polymarket.Allocation.Projection.corr_burden
proposed = refl

abbrev both : List RejectedMarket × List (Prepared ℕ)
both = screen order_books selection

screen-Screened_example : Screened order_books selection both.0 both.1
screen-Screened_example = screen-Screened order_books selection

slots_of-Within_example : All (Within nav) (slots_of nav both.1)
slots_of-Within_example = slots_of-Within fixed-Laws order_books selection nav refl refl

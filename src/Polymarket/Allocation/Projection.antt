-- ===== src/Polymarket/Allocation/Projection.antt =====
-- src/polymarket/allocationEngine.ts, projectConstraints: weights become amounts under the caps of
-- the market, its event, its cluster and the pool. The arrays of the source that run side by side
-- are one list of slots.
pub mod Caps
pub mod Rounds
pub mod Exposure
use team_index.Base.{
  ℕ, zero, suc, Bool, true, false, not, ◌&&◌, ◌||◌, List, [], ◌∷◌, map, Option, none, some, ◌==◌,
  if◌then◌else◌, length, any, Text, text_eq, trim,
}
use team_index.Polymarket.Allocation.Number.{
  Number, ◌+◌, ◌-◌, ◌*◌, ◌/◌, ◌<◌, ◌<=◌, whole, max, min, clamp, sum,
}
use team_index.Polymarket.Allocation.Series.{TsSeries, TsFeatures}
use team_index.Polymarket.Allocation.Edge.{MarketClobData, Edge}
use team_index.Polymarket.Allocation.Correlation.{SelectedMarket}

pub record Prepared (R : Type 0) : Type 0 where
  pub market : SelectedMarket
  pub clob : MarketClobData R
  pub series : TsSeries R
  pub ts : TsFeatures R
  pub entry_price : R
  pub edge : Edge R
  pub quality : R
  pub vol : R

pub data BindingConstraint : Type 0 where
  per_market liquidity depth per_event per_cluster corr_group total_exposure : BindingConstraint

-- A market with its weight, its cap and what that cap is due to, and its entry of `amounts`,
-- `capped` and `binding`
pub record Slot (R : Type 0) : Type 0 where
  pub market : SelectedMarket
  pub clob : MarketClobData R
  pub weight : R
  pub cap : R
  pub src : BindingConstraint
  pub amount : R
  pub capped : Bool
  pub binding : Option BindingConstraint

-- The keys in the order of their first use; `none` is no key.
abbrev distinct_keys : List Text → List (Option Text) → List Text
distinct_keys seen [] = []
distinct_keys seen (none ∷ ks) = distinct_keys seen ks
distinct_keys seen (some k ∷ ks) =
    let rest = distinct_keys seen ks in
    let more = distinct_keys (k ∷ seen) ks in if any (text_eq k) seen then rest else k ∷ more

-- The trimmed key, if it is not empty
abbrev key_of_text : Text → Option Text
key_of_text [] = none
key_of_text (c ∷ s) = some (c ∷ s)

abbrev pub event_key : SelectedMarket → Option Text
event_key m = key_of_text (trim m.event_id)

abbrev cluster_of : Option Text → Option Text
cluster_of none = none
cluster_of (some k) = key_of_text (trim k)

abbrev pub cluster_key : SelectedMarket → Option Text
cluster_key m = cluster_of m.manual_cluster_id

abbrev in_group : Text → Option Text → Bool
in_group k none = false
in_group k (some j) = text_eq k j

module _ {R : Type 0} ⦃n : Number R⦄ where
  abbrev pub tiny : R
  tiny = n.ratio 1 1000000000

  -- The weighted sums of the correlations to the other markets, and of their weights
  abbrev burden_from : ℕ → ℕ → R → R → List R → List R → R × R
  burden_from i j num den (w ∷ ws) (c ∷ cs) =
      let wj = max w (whole 0) in
      burden_from i (suc j) (if i == j then num else num + wj * max c (whole 0))
        (if i == j then den else den + wj) ws cs
  burden_from i j num den _ _ = (num, den)

  unfoldable pub corr_burden : ℕ → List R → List R → R
  corr_burden i weights row =
      let b = burden_from i 0 (whole 0) (whole 0) weights row in
      if tiny < b.1 then clamp (b.0 / b.1) (whole 0) (whole 1) else whole 0

  abbrev pub haircut_of : R → R
  haircut_of burden = clamp (whole 1 - n.ratio 70 100 * burden) (n.ratio 30 100) (whole 1)

  abbrev pub market_top : R → R
  market_top nav = nav * n.ratio 8 100

  abbrev pub liquidity_cap : MarketClobData R → R
  liquidity_cap clob = clob.liquidity * n.ratio 10 100

  abbrev pub depth_cap : MarketClobData R → R
  depth_cap clob = clob.depth_at_2pct_slippage * n.ratio 50 100

  abbrev pub cap_of : R → R → MarketClobData R → R
  cap_of nav haircut clob =
      min (min (market_top nav * haircut) (liquidity_cap clob)) (depth_cap clob)

  abbrev equal : R → R → Bool
  equal a b = a <= b && b <= a

  abbrev src_of : R → R → MarketClobData R → BindingConstraint
  src_of cap haircut clob =
      if equal cap (liquidity_cap clob)
      then liquidity
      else if equal cap (depth_cap clob)
      then depth
      else if haircut < n.ratio 999 1000
      then corr_group
      else per_market

  abbrev pub slot_of : R → R → R → Prepared R → Slot R
  slot_of nav haircut w p = record {
    market = p.market;
    clob = p.clob;
    weight = w;
    cap = cap_of nav haircut p.clob;
    src = src_of (cap_of nav haircut p.clob) haircut p.clob;
    amount = whole 0;
    capped = false;
    binding = none;
  }

  -- The slots, with all weights and the correlations of each market
  abbrev pub slots_from :
      R → List R → ℕ → List (Prepared R) → List R → List (List R) → List (Slot R)
  slots_from nav weights i (p ∷ ps) (w ∷ ws) (row ∷ rows) =
      slot_of nav (haircut_of (corr_burden i weights row)) w p
      ∷ slots_from nav weights (suc i) ps ws rows
  slots_from nav weights i _ _ _ = []

  abbrev pub amounts : List (Slot R) → List R
  amounts slots = map (λ s. s.amount) slots

  -- Not capped, and of positive weight
  abbrev pub is_active : Slot R → Bool
  is_active s = not s.capped && whole 0 < s.weight

  abbrev pub active_weights : List (Slot R) → List R
  active_weights [] = []
  active_weights (s ∷ ss) =
      let rest = active_weights ss in if is_active s then s.weight ∷ rest else rest

  -- `true`: the slot's share fills the room under its cap.
  abbrev pub filled : Bool → R → Slot R → Slot R
  filled true give s = record s { amount = s.cap; capped = true; binding = some s.src }
  filled false give s = record s { amount = s.amount + give }

  abbrev pub is_full : R → Slot R → Bool
  is_full give s = (s.cap - s.amount) - tiny <= give

  -- What an active slot gets in a round
  abbrev pub poured : Bool → R → Slot R → Slot R
  poured false give s = s
  poured true give s = filled (is_full give s) give s

  abbrev pub share : R → R → Slot R → R
  share remaining sum_w s = remaining * (s.weight / sum_w)

  abbrev pub pour : R → R → List (Slot R) → List (Slot R)
  pour remaining sum_w slots = map (λ s. poured (is_active s) (share remaining sum_w s) s) slots

  abbrev newly_capped : R → R → List (Slot R) → Bool
  newly_capped remaining sum_w slots =
      any (λ s. is_active s && is_full (share remaining sum_w s) s) slots

  abbrev pub no_share : R → List R → Bool
  no_share remaining [] = true
  no_share remaining (w ∷ ws) =
      sum (w ∷ ws) <= n.ratio 1 1000000000000 || remaining <= n.ratio 1 1000000

  -- The rounds of water-filling; there are at most one more than the markets.
  unfoldable pub fill_rounds : ℕ → R → R → List (Slot R) → List (Slot R)
  fill_rounds zero budget remaining slots = slots
  fill_rounds (suc k) budget remaining slots =
      let ws = active_weights slots in
      let slots' = pour remaining (sum ws) slots in
      let more = fill_rounds k budget (budget - sum (amounts slots')) slots' in
      if no_share remaining ws
      then slots
      else if newly_capped remaining (sum ws) slots
      then more
      else slots'

  abbrev group_amounts : (SelectedMarket → Option Text) → Text → List (Slot R) → List R
  group_amounts key k [] = []
  group_amounts key k (s ∷ ss) =
      let rest = group_amounts key k ss in
      if in_group k (key s.market) then s.amount ∷ rest else rest

  abbrev pub scaled : Bool → R → BindingConstraint → Slot R → Slot R
  scaled false scale label s = s
  scaled true scale label s = record s { amount = s.amount * scale; binding = some label }

  abbrev pub exceeds : R → R → Bool
  exceeds total budget = budget + tiny < total && whole 0 < total

  abbrev pub scale_group :
      (SelectedMarket → Option Text) → R → BindingConstraint → Text → List (Slot R) → List (Slot R)
  scale_group key budget label k slots =
      let total = sum (group_amounts key k slots) in
      if exceeds total budget
      then map (λ s. scaled (in_group k (key s.market)) (budget / total) label s) slots
      else slots

  abbrev pub scale_groups :
      (SelectedMarket → Option Text)
      → R
      → BindingConstraint
      → List Text
      → List (Slot R)
      → List (Slot R)
  scale_groups key budget label [] slots = slots
  scale_groups key budget label (k ∷ ks) slots =
      scale_groups key budget label ks (scale_group key budget label k slots)

  unfoldable pub apply_group :
      (SelectedMarket → Option Text) → R → BindingConstraint → List (Slot R) → List (Slot R)
  apply_group key budget label slots =
      scale_groups key budget label (distinct_keys [] (map (λ s. key s.market) slots)) slots

  -- The last scaling, to the exposure that the pool may have
  unfoldable pub cap_exposure : R → List (Slot R) → List (Slot R)
  cap_exposure total_cap slots =
      let total = sum (amounts slots) in
      if exceeds total total_cap
      then map (λ s. scaled true (total_cap / total) total_exposure s) slots
      else slots

  -- From the slots with no amounts
  unfoldable pub project : R → R → List (Slot R) → List (Slot R)
  unfolding fill_rounds apply_group cap_exposure
  project nav gross slots =
      let filled_up = fill_rounds (suc (length slots)) (nav * gross) (nav * gross) slots in
      let by_event = apply_group event_key (nav * n.ratio 15 100) per_event filled_up in
      let by_cluster = apply_group cluster_key (nav * n.ratio 25 100) per_cluster by_event in
      cap_exposure (nav * n.ratio 80 100) by_cluster

  unfoldable pub project_constraints :
      List (Prepared R) → List R → R → R → List (List R) → List (Slot R)
  unfolding project
  project_constraints prepared weights nav gross corr =
      project nav gross (slots_from nav weights 0 prepared weights corr)

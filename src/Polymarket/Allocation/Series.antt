-- ===== src/Polymarket/Allocation/Series.antt =====
-- src/polymarket/allocationEngine.ts: features of a market's price history, in logit space.
use Prim.Native.Nat.{◌/◌ as div, ◌*◌ as mul, max as max_ℕ, min as min_ℕ}
use team_index.Base.{
  ℕ, suc, Bool, false, ◌&&◌, List, [], ◌∷◌, map, ltb, leb, if◌then◌else◌, length, drop,
}
use team_index.Polymarket.Allocation.Number.{Number, ◌-◌, ◌*◌, ◌/◌, ◌<◌, whole, stdev, logit}

pub data MarketSide : Type 0 where
  yes_side no_side : MarketSide

-- The chosen side's prices with their times, `t` and `p` of a TsSeries
abbrev pub TsSeries : Type 0 → Type 0
TsSeries R = List (R × R)

pub record TsFeatures (R : Type 0) : Type 0 where
  pub obs : ℕ
  pub realized_vol : R
  pub momentum_z : R
  pub variance_ratio : R
  pub max_drawdown : R
  pub has_data : Bool

module _ {R : Type 0} ⦃n : Number R⦄ where
  -- Into a list that is sorted by time, after the points of the same time.
  abbrev insert_point : {X : Type 0} → R × X → List (R × X) → List (R × X)
  insert_point h [] = h ∷ []
  insert_point h (k ∷ ks) =
      let rest = insert_point h ks in if h.0 < k.0 then h ∷ k ∷ ks else k ∷ rest

  -- `sort((a, b) => a.t - b.t)`, which is stable
  abbrev pub sort_points : {X : Type 0} → List (R × X) → List (R × X) → List (R × X)
  sort_points done [] = done
  sort_points done (h ∷ hs) = sort_points (insert_point h done) hs

  abbrev cleaned : List (R × R) → List (R × R)
  cleaned [] = []
  cleaned (h ∷ hs) =
      let rest = cleaned hs in if whole 0 < h.1 && h.1 < whole 1 then h ∷ rest else rest

  abbrev pub side_price : MarketSide → R → R
  side_price yes_side p = p
  side_price no_side p = whole 1 - p

  unfoldable pub chosen_side_series : List (R × R) → MarketSide → TsSeries R
  chosen_side_series history side =
      map (λ h. (h.0, side_price side h.1)) (sort_points [] (cleaned history))

  -- The differences of the logits of neighbours
  abbrev pub logit_returns : List R → List R
  logit_returns [] = []
  logit_returns (p ∷ []) = []
  logit_returns (p ∷ q ∷ ps) = (logit q - logit p) ∷ logit_returns (q ∷ ps)

  -- The differences of the logits of two lists side by side
  abbrev paired_returns : List R → List R → List R
  paired_returns (p ∷ ps) (q ∷ qs) = (logit q - logit p) ∷ paired_returns ps qs
  paired_returns _ _ = []

  abbrev last_of : R → List R → R
  last_of p [] = p
  last_of p (q ∷ qs) = last_of q qs

  -- The running peak and the deepest fall below it
  abbrev drawdown : R → R → List R → R
  drawdown peak deepest [] = deepest
  drawdown peak deepest (x ∷ xs) =
      let peak' = if peak < x then x else peak in
      let dd = if whole 0 < peak' then (peak' - x) / peak' else whole 0 in
      drawdown peak' (if deepest < dd then dd else deepest) xs

  abbrev momentum_of : R → R → ℕ → R
  momentum_of vol total_drift steps =
      if n.ratio 1 1000000000 < vol && ltb 0 steps
      then total_drift / (vol * n.sqrt (whole steps))
      else whole 0

  abbrev variance_ratio_of : List R → R → ℕ → R
  variance_ratio_of ps vol steps =
      let k = max_ℕ 2 (min_ℕ 5 (div steps 3)) in
      let s = stdev (paired_returns ps (drop k ps)) in
      let var1 = vol * vol in
      if leb (mul k 2) steps && n.ratio 1 1000000000 < vol
      then (if n.ratio 1 1000000000000 < var1 then s * s / (whole k * var1) else whole 1)
      else whole 1

  abbrev no_features : ℕ → TsFeatures R
  no_features obs = record {
    obs = obs;
    realized_vol = whole 0;
    momentum_z = whole 0;
    variance_ratio = whole 1;
    max_drawdown = whole 0;
    has_data = false;
  }

  abbrev features_of : List R → TsFeatures R
  features_of [] = no_features 0
  features_of (p ∷ []) = no_features 1
  features_of (p ∷ q ∷ ps) =
      let vol = stdev (logit_returns (p ∷ q ∷ ps)) in
      let steps = suc (length ps) in
      record {
        obs = suc steps;
        realized_vol = vol;
        momentum_z = momentum_of vol (logit (last_of q ps) - logit p) steps;
        variance_ratio = variance_ratio_of (p ∷ q ∷ ps) vol steps;
        max_drawdown = drawdown p (whole 0) (p ∷ q ∷ ps);
        has_data = leb 4 (suc steps);
      }

  abbrev pub prices : TsSeries R → List R
  prices s = map (λ h. h.1) s

  unfoldable pub compute_ts_features : TsSeries R → TsFeatures R
  compute_ts_features s = features_of (prices s)

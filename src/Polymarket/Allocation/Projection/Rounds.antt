-- ===== src/Polymarket/Allocation/Projection/Rounds.antt =====
-- src/polymarket/allocationEngine.ts, projectConstraints: the rounds and the scalings keep each amount
-- under the cap of its market.
use team_index.Base.{
  ℕ, zero, suc, ◌≡◌, refl, Bool, true, false, List, [], ◌∷◌, map, Option, arith, All, Text,
  if◌then◌else◌, length,
}
use team_index.Polymarket.Allocation.Number.{Number, ◌+◌, ◌-◌, ◌*◌, ◌/◌, whole, sum}
use team_index.Polymarket.Allocation.Laws.{Le, Lt, Laws, plus_nonneg}
use team_index.Polymarket.Allocation.Correlation.{SelectedMarket}
use team_index.Polymarket.Allocation.Projection.{
  Slot, BindingConstraint, total_exposure, amounts, is_active, is_full, filled, poured, share, pour,
  no_share, active_weights, newly_capped, fill_rounds, scaled, exceeds, scale_group, scale_groups,
  apply_group, distinct_keys, cap_exposure, cluster_key, event_key, per_cluster, per_event, project,
  tiny, in_group, group_amounts,
}
use team_index.Polymarket.Allocation.Projection.Caps.{Within}

-- `map` keeps what its function keeps.
All-map :
    {A : Type 0} (P : A → Type 0) (f : A → A) (xs : List A)
    → ((a : A) → P a → P (f a))
    → All P xs
    → All P (map f xs)
All-map P f [] k h = tt
All-map P f (x ∷ xs) k (h, hs) = (k x h, All-map P f xs k hs)

module _ {R : Type 0} ⦃n : Number R⦄ (l : Laws n) (nav : R) where
  filled-Within :
      (b : Bool) (give : R) (s : Slot R)
      → is_full give s ≡ b
      → Le (whole 0) give
      → Within nav s
      → Within nav (filled b give s)
  filled-Within true give s e g (c, a, h) = (c, c.0, l.le_refl s.cap)
  filled-Within false give s e g (c, a, h) = (
    c,
    plus_nonneg l s.amount give a g,
    l.below_room s.cap s.amount give tiny (l.ratio_nonneg 1 1000000000) (ground arith),
  )

  poured-Within :
      (b : Bool) (give : R) (s : Slot R)
      → (b ≡ true → Le (whole 0) give)
      → Within nav s
      → Within nav (poured b give s)
  poured-Within false give s g h = h
  poured-Within true give s g h = filled-Within (is_full give s) give s refl (g refl) h

  share-nonneg :
      (remaining sum_w : R) (s : Slot R)
      → Le (whole 0) remaining
      → Lt (whole 0) sum_w
      → is_active s ≡ true
      → Le (whole 0) (share remaining sum_w s)
  share-nonneg remaining sum_w s r w a =
      l.times_nonneg remaining (s.weight / sum_w) r
        (l.over_nonneg s.weight sum_w (l.le_of_lt (whole 0) s.weight (ground arith)) w)

  pour-Within :
      (remaining sum_w : R) (slots : List (Slot R))
      → Le (whole 0) remaining
      → Lt (whole 0) sum_w
      → All (Within nav) slots
      → All (Within nav) (pour remaining sum_w slots)
  pour-Within remaining sum_w slots r w h =
      All-map (Within nav) (λ s. poured (is_active s) (share remaining sum_w s) s) slots
        (λ s k.
          poured-Within (is_active s) (share remaining sum_w s) s
            (share-nonneg remaining sum_w s r w) k)
        h

  -- Above a number that is not negative
  positive : (a b : R) → Le (whole 0) a → n.lt a b ≡ true → Le (whole 0) b
  positive a b h k = l.le_trans (whole 0) a b h (l.le_of_lt a b k)

  no_share-false :
      (remaining : R) (ws : List R)
      → no_share remaining ws ≡ false
      → Le (whole 0) remaining × Lt (whole 0) (sum ws)
  no_share-false remaining [] h = absurd (cc h)
  no_share-false remaining (w ∷ ws) h = (
    positive (n.ratio 1 1000000) remaining (l.ratio_nonneg 1 1000000) (ground arith),
    l.le_lt_trans (whole 0) (n.ratio 1 1000000000000) (sum (w ∷ ws))
        (l.ratio_nonneg 1 1000000000000) (ground arith),
  )

  if-Within :
      (b : Bool) (x y : List (Slot R))
      → (b ≡ true → All (Within nav) x)
      → (b ≡ false → All (Within nav) y)
      → All (Within nav) (if b then x else y)
  if-Within true x y h k = h refl
  if-Within false x y h k = k refl

  fill_rounds-Within :
      (k : ℕ) (budget remaining : R) (slots : List (Slot R))
      → All (Within nav) slots
      → All (Within nav) (fill_rounds k budget remaining slots)
  unfolding fill_rounds
  fill_rounds-Within zero budget remaining slots h = h
  fill_rounds-Within (suc k) budget remaining slots h =
      let ws = active_weights slots in
      let slots' = pour remaining (sum ws) slots in
      if-Within (no_share remaining ws) slots _ (λ e. h)
        (λ e.
          let facts = no_share-false remaining ws e in
          let poured = pour-Within remaining (sum ws) slots facts.0 facts.1 h in
          if-Within (newly_capped remaining (sum ws) slots) _ slots'
            (λ c. fill_rounds-Within k budget (budget - sum (amounts slots')) slots' poured)
            (λ c. poured))

  scaled-Within :
      (b : Bool) (scale : R) (label : BindingConstraint) (s : Slot R)
      → Le (whole 0) scale
      → Le scale (whole 1)
      → Within nav s
      → Within nav (scaled b scale label s)
  scaled-Within false scale label s p q h = h
  scaled-Within true scale label s p q (c, a, h) = (
    c,
    l.times_nonneg s.amount scale a p,
    l.le_trans (s.amount * scale) s.amount s.cap (l.times_le s.amount scale a q) h,
  )

  -- What the scale of an exceeded budget is
  exceeds-scale :
      (total budget : R)
      → Le (whole 0) budget
      → exceeds total budget ≡ true
      → Le (whole 0) (budget / total) × Le (budget / total) (whole 1)
  exceeds-scale total budget b h =
      let pos : Lt (whole 0) total = ground arith in
      (
        l.over_nonneg budget total b pos,
        l.over_le_one budget total
            (l.le_trans budget (budget + tiny) total
              (l.plus_ge budget tiny (l.ratio_nonneg 1 1000000000))
              (l.le_of_lt (budget + tiny) total (ground arith)))
            pos,
      )

  scale_group-Within :
      (key : SelectedMarket → Option Text) (budget : R) (label : BindingConstraint) (k : Text)
      (slots : List (Slot R))
      → Le (whole 0) budget
      → All (Within nav) slots
      → All (Within nav) (scale_group key budget label k slots)
  scale_group-Within key budget label k slots b h =
      let total = sum (group_amounts key k slots) in
      if-Within (exceeds total budget) _ slots
        (λ e.
          let facts = exceeds-scale total budget b e in
          All-map (Within nav) (λ s. scaled (in_group k (key s.market)) (budget / total) label s)
            slots
            (λ s.
              scaled-Within (in_group k (key s.market)) (budget / total) label s facts.0 facts.1)
            h)
        (λ e. h)

  scale_groups-Within :
      (key : SelectedMarket → Option Text) (budget : R) (label : BindingConstraint) (ks : List Text)
      (slots : List (Slot R))
      → Le (whole 0) budget
      → All (Within nav) slots
      → All (Within nav) (scale_groups key budget label ks slots)
  scale_groups-Within key budget label [] slots b h = h
  scale_groups-Within key budget label (k ∷ ks) slots b h =
      scale_groups-Within key budget label ks (scale_group key budget label k slots) b
        (scale_group-Within key budget label k slots b h)

  apply_group-Within :
      (key : SelectedMarket → Option Text) (budget : R) (label : BindingConstraint)
      (slots : List (Slot R))
      → Le (whole 0) budget
      → All (Within nav) slots
      → All (Within nav) (apply_group key budget label slots)
  unfolding apply_group
  apply_group-Within key budget label slots b h =
      scale_groups-Within key budget label (distinct_keys [] (map (λ s. key s.market) slots)) slots
        b h

  cap_exposure-Within :
      (total_cap : R) (slots : List (Slot R))
      → Le (whole 0) total_cap
      → All (Within nav) slots
      → All (Within nav) (cap_exposure total_cap slots)
  unfolding cap_exposure
  cap_exposure-Within total_cap slots b h =
      let total = sum (amounts slots) in
      if-Within (exceeds total total_cap) _ slots
        (λ e.
          let facts = exceeds-scale total total_cap b e in
          All-map (Within nav) (λ s. scaled true (total_cap / total) total_exposure s) slots
            (λ s. scaled-Within true (total_cap / total) total_exposure s facts.0 facts.1) h)
        (λ e. h)

  pub project-Within :
      (gross : R) (slots : List (Slot R))
      → Le (whole 0) nav
      → All (Within nav) slots
      → All (Within nav) (project nav gross slots)
  unfolding project
  project-Within gross slots v h = cap_exposure-Within (nav * n.ratio 80 100) _ (part 80) (
      apply_group-Within cluster_key (nav * n.ratio 25 100) per_cluster _ (part 25) (
        apply_group-Within event_key (nav * n.ratio 15 100) per_event _ (part 15)
          (fill_rounds-Within (suc (length slots)) (nav * gross) (nav * gross) slots h)))
    where
      part : (k : ℕ) → Le (whole 0) (nav * n.ratio k 100)
      part k = l.times_nonneg nav (n.ratio k 100) v (l.ratio_nonneg k 100)

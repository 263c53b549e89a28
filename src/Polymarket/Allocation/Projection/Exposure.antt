-- ===== src/Polymarket/Allocation/Projection/Exposure.antt =====
-- The sum of the amounts of projectConstraints against the exposure that the pool may have.
use team_index.Base.{
  ◌≡◌, refl, Bool, true, false, List, [], ◌∷◌, map, arith, if◌then◌else◌, ap, Bool-cases, inl, inr,
  suc, length,
}
use team_index.Polymarket.Allocation.Number.{Number, ◌+◌, ◌*◌, ◌/◌, ◌<◌, whole, sum}
use team_index.Polymarket.Allocation.Laws.{Le, Lt, Laws, sum-scaled}
use team_index.Polymarket.Allocation.Projection.{
  Slot, BindingConstraint, total_exposure, amounts, scaled, exceeds, cap_exposure, tiny, project,
  fill_rounds, apply_group, event_key, cluster_key, per_event, per_cluster,
}

module _ {R : Type 0} ⦃n : Number R⦄ where
  amounts-scaled :
      (k : R) (label : BindingConstraint) (slots : List (Slot R))
      → amounts (map (λ s. scaled true k label s) slots) ≡ map (λ x. x * k) (amounts slots)
  amounts-scaled k label [] = refl
  amounts-scaled k label (s ∷ ss) = ap (λ xs. s.amount * k ∷ xs) (amounts-scaled k label ss)

module _ {R : Type 0} ⦃n : Number R⦄ (l : Laws n) where
  if-Le :
      (b : Bool) (x y : List (Slot R)) (top : R)
      → (b ≡ true → Le (sum (amounts x)) top)
      → (b ≡ false → Le (sum (amounts y)) top)
      → Le (sum (amounts (if b then x else y))) top
  if-Le true x y top h k = h refl
  if-Le false x y top h k = k refl

  with_tiny : (cap : R) → Le cap (cap + tiny)
  with_tiny cap = l.plus_ge cap tiny (l.ratio_nonneg 1 1000000000)

  -- An amount of money that does not exceed the cap
  not_exceeds :
      (total cap : R) → Le (whole 0) cap → exceeds total cap ≡ false → Le total (cap + tiny)
  not_exceeds total cap c e = elim (Bool-cases (whole 0 < total)) [
    | inl pos ↦ ground arith
    | inr neg ↦
        l.le_trans total (whole 0) (cap + tiny) neg
          (l.le_trans (whole 0) cap (cap + tiny) c (with_tiny cap))
  ]

  scaled-Le :
      (cap : R) (slots : List (Slot R))
      → Lt (whole 0) (sum (amounts slots))
      → Le
          (sum
            (amounts (map (λ s. scaled true (cap / sum (amounts slots)) total_exposure s) slots)))
          cap
  scaled-Le cap slots pos =
      let total = sum (amounts slots) in
      let k = cap / total in
      rw (amounts-scaled k total_exposure slots) (
        l.le_trans (sum (map (λ x. x * k) (amounts slots))) (total * k) cap
          (sum-scaled l k (amounts slots)) (l.times_over cap total pos))

  cap_exposure-Le :
      (cap : R) (slots : List (Slot R))
      → Le (whole 0) cap
      → Le (sum (amounts (cap_exposure cap slots))) (cap + tiny)
  unfolding cap_exposure
  cap_exposure-Le cap slots c =
      let total = sum (amounts slots) in
      if-Le (exceeds total cap) _ slots (cap + tiny)
        (λ e. l.le_trans _ cap (cap + tiny) (scaled-Le cap slots (ground arith)) (with_tiny cap))
        (λ e. not_exceeds total cap c e)

  pub project-Le :
      (nav gross : R) (slots : List (Slot R))
      → Le (whole 0) nav
      → Le (sum (amounts (project nav gross slots))) (nav * n.ratio 80 100 + tiny)
  unfolding project
  project-Le nav gross slots v =
      let filled_up = fill_rounds (suc (length slots)) (nav * gross) (nav * gross) slots in
      let by_event = apply_group event_key (nav * n.ratio 15 100) per_event filled_up in
      let by_cluster = apply_group cluster_key (nav * n.ratio 25 100) per_cluster by_event in
      cap_exposure-Le (nav * n.ratio 80 100) by_cluster
        (l.times_nonneg nav (n.ratio 80 100) v (l.ratio_nonneg 80 100))

-- ===== src/Polymarket/Allocation/Laws.antt =====
-- What the theorems on the allocation engine use of its numbers: laws of exact arithmetic.
use team_index.Base.{ℕ, true, false, ◌≡◌, arith, List, [], ◌∷◌, map}
use team_index.Polymarket.Allocation.Number.{Number, ◌+◌, ◌*◌, whole, sum, sum_from, min, clamp}

-- `a ≤ b`
abbrev pub Le : {R : Type 0} ⦃n : Number R⦄ → R → R → Type 0
Le ⦃n⦄ a b = n.lt b a ≡ false

abbrev pub Lt : {R : Type 0} ⦃n : Number R⦄ → R → R → Type 0
Lt ⦃n⦄ a b = n.lt a b ≡ true

pub record Laws {R : Type 0} (n : Number R) : Type 0 where
  pub le_refl : (a : R) → n.lt a a ≡ false
  pub le_of_lt : (a b : R) → n.lt a b ≡ true → n.lt b a ≡ false
  pub le_trans : (a b c : R) → n.lt b a ≡ false → n.lt c b ≡ false → n.lt c a ≡ false
  pub le_lt_trans : (a b c : R) → n.lt b a ≡ false → n.lt b c ≡ true → n.lt a c ≡ true
  pub ratio_nonneg : (a b : ℕ) → n.lt (n.ratio a b) (n.ratio 0 1) ≡ false
  pub plus_ge : (a b : R) → n.lt b (n.ratio 0 1) ≡ false → n.lt (n.plus a b) a ≡ false
  pub times_nonneg :
      (a b : R)
      → n.lt a (n.ratio 0 1) ≡ false
      → n.lt b (n.ratio 0 1) ≡ false
      → n.lt (n.times a b) (n.ratio 0 1) ≡ false
  pub over_nonneg :
      (a b : R)
      → n.lt a (n.ratio 0 1) ≡ false
      → n.lt (n.ratio 0 1) b ≡ true
      → n.lt (n.over a b) (n.ratio 0 1) ≡ false
  -- a factor of 1 at most, and a quotient of a part by the whole
  pub times_le :
      (a h : R)
      → n.lt a (n.ratio 0 1) ≡ false
      → n.lt (n.ratio 1 1) h ≡ false
      → n.lt a (n.times a h) ≡ false
  pub over_le_one :
      (b t : R)
      → n.lt t b ≡ false
      → n.lt (n.ratio 0 1) t ≡ true
      → n.lt (n.ratio 1 1) (n.over b t) ≡ false
  pub times_over : (b t : R) → n.lt (n.ratio 0 1) t ≡ true → n.lt b (n.times t (n.over b t)) ≡ false
  pub times_plus :
      (a b k : R) → n.lt (n.times (n.plus a b) k) (n.plus (n.times a k) (n.times b k)) ≡ false
  pub times_zero : (k : R) → n.times (n.ratio 0 1) k ≡ n.ratio 0 1
  pub plus_mono : (a b c : R) → n.lt b a ≡ false → n.lt (n.plus b c) (n.plus a c) ≡ false
  -- less than the room that is left, and less by a small number
  pub below_room :
      (cap a give t : R)
      → n.lt t (n.ratio 0 1) ≡ false
      → n.lt give (n.minus (n.minus cap a) t) ≡ true
      → n.lt cap (n.plus a give) ≡ false

module _ {R : Type 0} ⦃n : Number R⦄ (l : Laws n) where
  pub plus_nonneg : (a b : R) → Le (whole 0) a → Le (whole 0) b → Le (whole 0) (a + b)
  plus_nonneg a b h k = l.le_trans (whole 0) a (a + b) h (l.plus_ge a b k)

  pub min_le_left : (a b : R) → Le (min a b) a
  min_le_left a b = ground (arith, l.le_refl a, l.le_of_lt b a)

  pub min_le_right : (a b : R) → Le (min a b) b
  min_le_right a b = ground (arith, l.le_refl b)

  pub le_min : (a b c : R) → Le c a → Le c b → Le c (min a b)
  le_min a b c h k = ground arith

  -- clamp v low high, where low ≤ high
  pub clamp_le : (v low high : R) → Le low high → Le (clamp v low high) high
  clamp_le v low high h = ground (arith, min_le_left high v)

  pub le_clamp : (v low high : R) → Le low (clamp v low high)
  le_clamp v low high = ground (arith, l.le_refl low, l.le_of_lt low (min high v))

  sum_from_mono : (a b : R) (xs : List R) → Le a b → Le (sum_from a xs) (sum_from b xs)
  sum_from_mono a b [] h = h
  sum_from_mono a b (x ∷ xs) h = sum_from_mono (a + x) (b + x) xs (l.plus_mono a b x h)

  sum_from-scaled :
      (k acc : R) (xs : List R)
      → Le (sum_from (acc * k) (map (λ x. x * k) xs)) (sum_from acc xs * k)
  sum_from-scaled k acc [] = l.le_refl (acc * k)
  sum_from-scaled k acc (x ∷ xs) =
      l.le_trans _ (sum_from ((acc + x) * k) (map (λ y. y * k) xs)) _
        (sum_from_mono (acc * k + x * k) ((acc + x) * k) (map (λ y. y * k) xs)
          (l.times_plus acc x k))
        (sum_from-scaled k (acc + x) xs)

  -- The sum of the scaled numbers is at most the scaled sum.
  pub sum-scaled : (k : R) (xs : List R) → Le (sum (map (λ x. x * k) xs)) (sum xs * k)
  sum-scaled k xs = let h = sum_from-scaled k (whole 0) xs in rw (l.times_zero k) at h

-- ===== src/Polymarket/Allocation/Number.antt =====
-- src/polymarket/allocationEngine.ts: the numbers that the engine computes with, as an interface.
-- They are the finite floating point numbers; NaN does not arise, as each division is guarded.
use team_index.Base.{ℕ, suc, Bool, not, List, [], ◌∷◌, if◌then◌else◌, length}

pub record Number (R : Type 0) : Type 0 where
  pub lt : R → R → Bool
  pub plus : R → R → R
  pub minus : R → R → R
  pub times : R → R → R
  pub over : R → R → R
  pub sqrt : R → R
  pub log : R → R
  pub tanh : R → R
  pub floor : R → ℕ
  -- the number nearest to a quotient of whole numbers
  pub ratio : ℕ → ℕ → R

module _ {R : Type 0} ⦃n : Number R⦄ where
  infixl 65 ◌+◌ ◌-◌
  infixl 70 ◌*◌ ◌/◌
  infix 50 ◌<◌ ◌<=◌
  abbrev pub ◌+◌ : R → R → R
  a + b = n.plus a b

  abbrev pub ◌-◌ : R → R → R
  a - b = n.minus a b

  abbrev pub ◌*◌ : R → R → R
  a * b = n.times a b

  abbrev pub ◌/◌ : R → R → R
  a / b = n.over a b

  abbrev pub ◌<◌ : R → R → Bool
  a < b = n.lt a b

  abbrev pub ◌<=◌ : R → R → Bool
  a <= b = not (n.lt b a)

  abbrev pub whole : ℕ → R
  whole k = n.ratio k 1

  abbrev pub max : R → R → R
  max a b = if n.lt a b then b else a

  abbrev pub min : R → R → R
  min a b = if n.lt b a then b else a

  abbrev pub abs : R → R
  abs a = if n.lt a (whole 0) then whole 0 - a else a

  abbrev pub clamp : R → R → R → R
  clamp v low high = max low (min high v)

  -- `xs.reduce((a, b) => a + b, 0)`
  abbrev pub sum_from : R → List R → R
  sum_from acc [] = acc
  sum_from acc (x ∷ xs) = sum_from (acc + x) xs

  abbrev pub sum : List R → R
  sum xs = sum_from (whole 0) xs

  abbrev pub mean : List R → R
  mean [] = whole 0
  mean (x ∷ xs) = sum (x ∷ xs) / whole (length (x ∷ xs))

  abbrev squares : R → List R → List R
  squares m [] = []
  squares m (x ∷ xs) = (x - m) * (x - m) ∷ squares m xs

  abbrev pub stdev : List R → R
  stdev [] = whole 0
  stdev (x ∷ []) = whole 0
  stdev (x ∷ y ∷ xs) =
      n.sqrt
        (max (whole 0) (sum (squares (mean (x ∷ y ∷ xs)) (x ∷ y ∷ xs)) / whole (suc (length xs))))

  abbrev pub eps : R
  eps = n.ratio 1 10000

  unfoldable pub logit : R → R
  logit p = let q = clamp p eps (whole 1 - eps) in n.log (q / (whole 1 - q))

-- ===== src/Polymarket/Allocation/Sizing.antt =====
-- src/polymarket/allocationEngine.ts: the covariance of the markets and the weights made of it.
use team_index.Base.{
  ℕ, zero, suc, Bool, not, ◌||◌, List, [], ◌∷◌, map, ◌++◌, Option, none, some, ◌==◌, ltb,
  if◌then◌else◌, length, replicate, drop,
}
use team_index.Polymarket.Allocation.Number.{
  Number, ◌+◌, ◌-◌, ◌*◌, ◌/◌, ◌<◌, whole, abs, max, sum, mean,
}

abbrev pub Matrix : Type 0 → Type 0
Matrix R = List (List R)

abbrev pub indices_from : {A : Type 0} → ℕ → List A → List ℕ
indices_from i [] = []
indices_from i (x ∷ xs) = i ∷ indices_from (suc i) xs

abbrev set_at : {A : Type 0} → ℕ → A → List A → List A
set_at i a [] = []
set_at zero a (x ∷ xs) = a ∷ xs
set_at (suc i) a (x ∷ xs) = x ∷ set_at i a xs

abbrev filtered : (ℕ → Bool) → List ℕ → List ℕ
filtered p [] = []
filtered p (i ∷ is) = let rest = filtered p is in if p i then i ∷ rest else rest

module _ {R : Type 0} ⦃n : Number R⦄ where
  -- `xs[i]`, of an index in range
  abbrev pub at : List R → ℕ → R
  at [] i = whole 0
  at (x ∷ xs) zero = x
  at (x ∷ xs) (suc i) = at xs i

  abbrev row_at : Matrix R → ℕ → List R
  row_at [] i = []
  row_at (x ∷ xs) zero = x
  row_at (x ∷ xs) (suc i) = row_at xs i

  abbrev pub dot_from : R → List R → List R → R
  dot_from acc (y ∷ ys) (x ∷ xs) = dot_from (acc + y * x) ys xs
  dot_from acc _ _ = acc

  abbrev pub mat_vec : Matrix R → List R → List R
  mat_vec m x = map (λ row. dot_from (whole 0) row x) m

  unfoldable pub quad_form : Matrix R → List R → R
  quad_form m x = dot_from (whole 0) x (mat_vec m x)

  abbrev covariance_row : R → List R → List R → List R
  covariance_row v (c ∷ cs) (u ∷ us) = c * v * u ∷ covariance_row v cs us
  covariance_row v _ _ = []

  abbrev bump : ℕ → R → List R → List R
  bump i d [] = []
  bump zero d (x ∷ xs) = (x + d) ∷ xs
  bump (suc i) d (x ∷ xs) = x ∷ bump i d xs

  abbrev covariance_rows : ℕ → R → List R → List R → Matrix R → Matrix R
  covariance_rows i ridge vols (v ∷ vs) (row ∷ rows) =
      bump i ridge (covariance_row v row vols) ∷ covariance_rows (suc i) ridge vols vs rows
  covariance_rows i ridge vols _ _ = []

  unfoldable pub build_covariance : List R → Matrix R → Matrix R
  build_covariance vols corr =
      let ridge = n.ratio 1 10000 * mean (map (λ v. v * v) vols) + n.ratio 1 1000000000 in
      covariance_rows 0 ridge vols vols corr

  -- The products of weight and covariance but for position `i`
  abbrev others : ℕ → ℕ → R → List R → List R → R
  others i j acc (w ∷ ws) (s ∷ ss) = others i (suc j) (if i == j then acc else acc + w * s) ws ss
  others i j acc _ _ = acc

  abbrev erc_weight : R → R → R → R → R
  erc_weight lambda a b w =
      if n.ratio 1 1000000000000 < a
      then (whole 0 - b + n.sqrt (max (whole 0) (b * b + whole 4 * a * lambda))) / (whole 2 * a)
      else w

  -- One round of coordinate descent: the weights and the largest change
  abbrev erc_sweep : R → ℕ → Matrix R → List R × R → List R × R
  erc_sweep lambda i [] s = s
  erc_sweep lambda i (row ∷ rows) s =
      let wi = erc_weight lambda (at row i) (others i 0 (whole 0) s.0 row) (at s.0 i) in
      erc_sweep lambda (suc i) rows
        (set_at i (max wi (n.ratio 1 1000000000)) s.0, max s.1 (abs (wi - at s.0 i)))

  unfoldable pub erc_rounds : ℕ → R → Matrix R → List R → List R
  erc_rounds zero lambda m w = w
  erc_rounds (suc k) lambda m w =
      let s = erc_sweep lambda 0 m (w, whole 0) in
      let more = erc_rounds k lambda m s.0 in if s.1 < n.ratio 1 100000000 then s.0 else more

  -- Divided by their sum, or all equal
  abbrev normalised : List R → List R
  normalised w =
      if whole 0 < sum w
      then map (λ x. x / sum w) w
      else replicate (length w) (whole 1 / whole (length w))

  unfoldable pub erc_weights : Matrix R → List R
  unfolding erc_rounds
  erc_weights [] = []
  erc_weights (row ∷ []) = whole 1 ∷ []
  erc_weights (row ∷ row' ∷ rows) =
      let k = length (row ∷ row' ∷ rows) in
      normalised
        (erc_rounds 250 (whole 1 / whole k) (row ∷ row' ∷ rows) (replicate k (whole 1 / whole k)))

  abbrev augmented : Matrix R → List R → Matrix R
  augmented (row ∷ rows) (b ∷ bs) = (row ++ b ∷ []) ∷ augmented rows bs
  augmented _ _ = []

  -- The row from `r` on with the largest entry in the column, the first of such
  abbrev pivot : ℕ → Matrix R → ℕ → ℕ → Matrix R → ℕ
  pivot col m best r [] = best
  pivot col m best r (row ∷ rows) =
      pivot col m (if abs (at (row_at m best) col) < abs (at row col) then r else best) (suc r) rows

  abbrev swapped : ℕ → ℕ → Matrix R → Matrix R
  swapped i j m = set_at j (row_at m i) (set_at i (row_at m j) m)

  abbrev subtract_from : ℕ → ℕ → R → List R → List R → List R
  subtract_from col c f (x ∷ xs) (p ∷ ps) =
      (if ltb c col then x else x - f * p) ∷ subtract_from col (suc c) f xs ps
  subtract_from col c f _ _ = []

  abbrev is_zero : R → Bool
  is_zero f = not (f < whole 0 || whole 0 < f)

  abbrev eliminate : ℕ → ℕ → List R → Matrix R → Matrix R
  eliminate col r prow [] = []
  eliminate col r prow (row ∷ rows) =
      let f = at row col / at prow col in
      (if r == col || is_zero f then row else subtract_from col 0 f row prow)
      ∷ eliminate col (suc r) prow rows

  -- The columns of `cols`, one after the other; `none`: the matrix is singular.
  unfoldable pub gauss : List ℕ → Matrix R → Option (Matrix R)
  gauss [] m = some m
  gauss (col ∷ cols) m =
      let p = pivot col m col (suc col) (drop (suc col) m) in
      let m' = swapped col p m in
      let rest = gauss cols (eliminate col 0 (row_at m' col) m') in
      if abs (at (row_at m p) col) < n.ratio 1 1000000000000 then none else rest

  abbrev solutions : ℕ → ℕ → Matrix R → List R
  solutions k i [] = []
  solutions k i (row ∷ rows) = at row k / at row i ∷ solutions k (suc i) rows

  unfoldable pub solve_linear : Matrix R → List R → Option (List R)
  unfolding gauss
  solve_linear m b = elim (gauss (indices_from 0 b) (augmented m b)) [
    | none ↦ none
    | some m' ↦ some (solutions (length b) 0 m')
  ]

  abbrev assign : List ℕ → List R → List R → List R
  assign (i ∷ is) (x ∷ xs) w = assign is xs (set_at i x w)
  assign _ _ w = w

  -- The weights of the diagonal alone, where the matrix is singular
  abbrev diagonal_weight : Matrix R → List R → ℕ → R
  diagonal_weight m mu i =
      let s = at (row_at m i) i in
      if n.ratio 1 1000000000000 < s then max (whole 0) (at mu i / s) else whole 0

  unfoldable pub kelly_passes : ℕ → Matrix R → List R → List ℕ → List R → List R
  unfolding solve_linear
  kelly_passes zero m mu active w = w
  kelly_passes (suc k) m mu [] w = w
  kelly_passes (suc k) m mu (i ∷ is) w =
      let active = i ∷ is in
      let zeros : List R = replicate (length mu) (whole 0) in
      elim (solve_linear (map (λ a. map (λ b. at (row_at m a) b) active) active)
        (map (λ a. at mu a) active)) [
          | none ↦ assign active (map (λ a. diagonal_weight m mu a) active) zeros
          | some sol ↦
              let w' = assign active sol zeros in
              let survivors = filtered (λ a. n.ratio 1 1000000000 < at w' a) active in
              let more = kelly_passes k m mu survivors w' in
              if length survivors == length active then w' else more
        ]

  unfoldable pub kelly_direction : Matrix R → List R → List R
  unfolding kelly_passes
  kelly_direction m [] = []
  kelly_direction m (u ∷ us) =
      let w =
        map (λ x. max (whole 0) x)
          (kelly_passes 4 m (u ∷ us) (indices_from 0 (u ∷ us))
            (replicate (length (u ∷ us)) (whole 0))) in
      if n.ratio 1 1000000000000 < sum w
      then map (λ x. x / sum w) w
      else replicate (length (u ∷ us)) (whole 0)

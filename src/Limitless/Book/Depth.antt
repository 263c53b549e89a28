-- ===== src/Limitless/Book/Depth.antt =====
-- src/limitless/limitlessOrderClient.ts, simulateMarketBuy: which budgets the asks fill.
use team_index.Base.{
  ℕ, ◌+◌, ◌≤◌, ◌≡◌, ◌↔◌, refl, List, [], ◌∷◌, true, ltb, leb, arith, Bool-cases, inl, inr,
}
use team_index.Limitless.Book.{
  Level, OrderBook, times, value_of, levels, insert_level, sort_levels, Walk, whole_level,
  walk_asks, simulate_market_buy,
}

insert_level-value :
    (l : Level) (ls : List Level)
    → value_of (insert_level l ls) ≡ times l.price l.size + value_of ls
insert_level-value l [] = refl
insert_level-value l (k ∷ ks) = elim (Bool-cases (ltb l.price k.price)) [
  | inl e ↦ rw e refl
  | inr e ↦ rw e (omega (arith, insert_level-value l ks))
]

sort_levels-value :
    (done ls : List Level) → value_of (sort_levels done ls) ≡ value_of done + value_of ls
sort_levels-value done [] = omega arith
sort_levels-value done (l ∷ ls) =
    omega (arith, sort_levels-value (insert_level l done) ls, insert_level-value l done)

-- The walk leaves what the asks do not cover, or at most one unit.
walk_asks-left :
    (ls : List Level) (s : Walk)
    → ((walk_asks ls s).remaining ≤ 1000) ↔ (s.remaining ≤ value_of ls + 1000)
unfolding walk_asks
walk_asks-left [] s = (λ h. omega arith, λ h. omega arith)
walk_asks-left (l ∷ ls) s =
    let ih = walk_asks-left ls (whole_level l s) in
    elim (Bool-cases (leb s.remaining 1)) [
      | inl e ↦ rw e (λ h. ground arith, λ h. ground arith)
      | inr e ↦ elim (Bool-cases (leb (times l.price l.size) s.remaining)) [
        | inl f ↦ rw (e, f) (λ h. ground (arith, ih.0 h), λ h. ih.1 (ground arith))
        | inr f ↦ rw (e, f) (λ h. ground arith, λ h. ground arith)
      ]
    ]

walk_asks-below : (ls : List Level) (s : Walk) → (walk_asks ls s).remaining ≤ s.remaining
unfolding walk_asks
walk_asks-below [] s = omega arith
walk_asks-below (l ∷ ls) s = ground (arith, walk_asks-below ls (whole_level l s))

-- A budget counts as fully filled exactly when the asks of positive price and size, in any order, are worth
-- it but for 1e-9 USD; and what is spent is at most the budget, and the budget but for 1e-9 USD when it is
-- fully filled.
pub fully_filled_iff :
    (book : OrderBook) (budget_usd : ℕ)
    → let s = simulate_market_buy book budget_usd in
      ((s.fully_filled ≡ true) ↔ (budget_usd ≤ value_of (levels book.asks) + 1000))
      × (s.spent_usd ≤ budget_usd)
      × (s.fully_filled ≡ true → budget_usd ≤ s.spent_usd + 1000)
unfolding simulate_market_buy
fully_filled_iff book budget_usd =
    let asks = sort_levels [] (levels book.asks) in
    let start : Walk = record { remaining = budget_usd; filled_shares = 0; worst_price = 0 } in
    let left = walk_asks-left asks start in
    let below = walk_asks-below asks start in
    let total = sort_levels-value [] (levels book.asks) in
    (
      (
        λ h. omega (arith, total, left.0 (ground arith)),
        λ h. ground (arith, left.1 (omega (arith, total, h))),
      ),
      omega arith,
      λ h. ground (arith, below),
    )

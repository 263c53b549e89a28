-- ===== src/Limitless/Amounts/Bounds.antt =====
-- The amounts of limitlessOrderClient.ts against the exact cost of the shares.
use team_index.Base.{ℕ, ◌+◌, ◌-◌, ◌*◌, ◌/◌, ◌≤◌, ◌<◌, ◌≡◌, ◌≢◌, ◌↔◌, arith, ok}
use team_index.Limitless.Amounts.{
  Number, not_finite, plus, minus, buy, sell, scale, micros, clamp_order_price, OrderAmounts,
  quote_limitless_order_amounts, quote_limitless_fok_amounts,
}

clamp_order_price_bounds :
    (p : Number) → (10_000_000_000 ≤ clamp_order_price p) × (clamp_order_price p ≤ 990_000_000_000)
unfolding clamp_order_price
clamp_order_price_bounds not_finite = omega arith
clamp_order_price_bounds (minus n) = omega arith
clamp_order_price_bounds (plus n) = omega arith

product_le : (a p : ℕ) → p ≤ 990_000 → a * p ≤ a * 990_000
product_le a p h = grind arith

micros_le : (p : Number) → micros (clamp_order_price p) ≤ 990_000
unfolding micros
micros_le p = omega (arith, clamp_order_price_bounds p)

-- A cost of at most 0.99 for each share, rounded up, is no more than one for each.
rounded_le : (a cost : ℕ) → cost ≤ a * 990_000 → (cost + scale - 1) / scale ≤ a
rounded_le a cost h = omega arith

-- A buyer pays the exact cost rounded up to the next micro-dollar and a seller asks the exact value
-- rounded down, by less than one; neither is more than a dollar for a share, and what a buyer pays
-- for a size covers what a seller of that size asks.
pub quote_bounds :
    (price : Number) (size : ℕ)
    → let cost : ℕ = micros size * micros (quote_limitless_order_amounts price size buy).0 in
      let pays : ℕ = (quote_limitless_order_amounts price size buy).1.maker_amount in
      let asks : ℕ = (quote_limitless_order_amounts price size sell).1.taker_amount in
      (cost ≤ pays * scale)
      × (pays * scale < cost + scale)
      × (asks * scale ≤ cost)
      × (cost < asks * scale + scale)
      × (pays ≤ micros size)
      × (asks ≤ pays)
unfolding quote_limitless_order_amounts
quote_bounds price size =
    let cost : ℕ = micros size * micros (clamp_order_price price) in
    let most = product_le (micros size) (micros (clamp_order_price price)) (micros_le price) in
    (
      omega arith,
      omega arith,
      omega arith,
      omega arith,
      rounded_le (micros size) cost most,
      omega arith,
    )

-- A market order is quoted exactly when its size rounds to a positive number of micro-units, and
-- its maker amount is then that number.
pub fok_iff :
    (size n : ℕ)
    → ((quote_limitless_fok_amounts (plus size)
          ≡ ok (record { maker_amount = n; taker_amount = 1 }))
        ↔ ((0 < n) × (n ≡ micros size)))
      × ((o : OrderAmounts) → quote_limitless_fok_amounts (minus size) ≢ ok o)
unfolding quote_limitless_fok_amounts
fok_iff size n = ((λ e. ground arith, λ h. ground arith), λ o e. cc)

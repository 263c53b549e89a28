-- ===== src/Limitless/Book.antt =====
-- src/limitless/limitlessOrderClient.ts: reading an order book, and the fill of a market order. Prices,
-- shares and dollars are decimals with twelve places, written by their 10^-12 units; products and
-- quotients are rounded down.
pub mod Depth
use team_index.Base.{
  ℕ, zero, suc, ◌+◌, ◌-◌, ◌*◌, ◌/◌, ◌≤◌, List, [], ◌∷◌, map, Bool, true, false, ◌&&◌, Option, none,
  some, ltb, leb, if◌then◌else◌, min, max,
}

abbrev pub unit : ℕ
unit = 1_000_000_000_000

abbrev pub times : ℕ → ℕ → ℕ
times a b = a * b / unit

abbrev pub over : ℕ → ℕ → ℕ
over a b = a * unit / b

-- A level of the book; numbers are finite and not negative.
pub record Level : Type 0 where
  pub price : ℕ
  pub size : ℕ

pub record OrderBook : Type 0 where
  pub bids : List Level
  pub asks : List Level

-- Without a bid it is 0, as in the source.
abbrev max_price : List Level → ℕ
max_price [] = 0
max_price (l ∷ []) = l.price
max_price (l ∷ k ∷ ls) = max l.price (max_price (k ∷ ls))

-- Without an ask it is 1, as in the source.
abbrev min_price : List Level → ℕ
min_price [] = unit
min_price (l ∷ []) = l.price
min_price (l ∷ k ∷ ls) = min l.price (min_price (k ∷ ls))

-- The best bid, 0 without bids, and the best ask, 1 without asks
unfoldable pub get_best_bid_ask : OrderBook → ℕ × ℕ
get_best_bid_ask book = (max_price book.bids, min_price book.asks)

abbrev pub value_of : List Level → ℕ
value_of [] = 0
value_of (l ∷ ls) = times l.price l.size + value_of ls

pub record MarketBuySimulation : Type 0 where
  pub fully_filled : Bool
  pub filled_shares : ℕ
  pub spent_usd : ℕ
  pub worst_price : ℕ
  pub avg_price : ℕ

abbrev pub is_level : Level → Bool
is_level l = ltb 0 l.price && ltb 0 l.size

abbrev pub levels : List Level → List Level
levels [] = []
levels (l ∷ ls) = let rest = levels ls in if is_level l then l ∷ rest else rest

-- Into a list that is sorted by price, after the levels of the same price
abbrev pub insert_level : Level → List Level → List Level
insert_level l [] = l ∷ []
insert_level l (k ∷ ks) =
    let rest = insert_level l ks in if ltb l.price k.price then l ∷ k ∷ ks else k ∷ rest

abbrev pub sort_levels : List Level → List Level → List Level
sort_levels done [] = done
sort_levels done (l ∷ ls) = sort_levels (insert_level l done) ls

-- What is left of the budget, the shares so far and the last price
pub record Walk : Type 0 where
  pub remaining : ℕ
  pub filled_shares : ℕ
  pub worst_price : ℕ

abbrev pub whole_level : Level → Walk → Walk
whole_level l s = record {
  remaining = s.remaining - times l.price l.size;
  filled_shares = s.filled_shares + l.size;
  worst_price = l.price;
}

abbrev pub last_level : Level → Walk → Walk
last_level l s = record {
  remaining = 0;
  filled_shares = s.filled_shares + over s.remaining l.price;
  worst_price = l.price;
}

-- The loop over the sorted asks
unfoldable pub walk_asks : List Level → Walk → Walk
walk_asks [] s = s
walk_asks (l ∷ ls) s =
    let next = walk_asks ls (whole_level l s) in
    if leb s.remaining 1
    then s
    else if leb (times l.price l.size) s.remaining
    then next
    else last_level l s

abbrev pub simulated : ℕ → Walk → MarketBuySimulation
simulated budget_usd s =
    let spent = budget_usd - s.remaining in
    record {
      fully_filled = leb s.remaining 1000;
      filled_shares = s.filled_shares;
      spent_usd = spent;
      worst_price = s.worst_price;
      avg_price = if ltb 0 s.filled_shares then over spent s.filled_shares else 0;
    }

unfoldable pub simulate_market_buy : OrderBook → ℕ → MarketBuySimulation
unfolding walk_asks
simulate_market_buy book budget_usd = simulated budget_usd (
    walk_asks (sort_levels [] (levels book.asks))
      (record { remaining = budget_usd; filled_shares = 0; worst_price = 0 }))

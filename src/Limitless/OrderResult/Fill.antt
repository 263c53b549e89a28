-- ===== src/Limitless/OrderResult/Fill.antt =====
-- src/limitless/limitlessOrderClient.ts, extractLimitlessFill: what an order's answer says it filled.
use team_index.Base.{
  ℕ, ◌+◌, ◌*◌, List, [], ◌∷◌, Bool, true, false, ◌&&◌, ◌||◌, Option, none, some, ltb, if◌then◌else◌,
  ◌<|>◌,
}
use team_index.Limitless.OrderResult.{ExecutionTotals, OrderResult}
use team_index.Limitless.Book.{over}

-- In 10^-12 units
pub record LimitlessFill : Type 0 where
  pub invested_usd : ℕ
  pub shares : ℕ
  pub fee_usd : ℕ
  pub fill_price : ℕ
  pub matched : Bool

-- `num(v) / 1e6`
abbrev num : Option ℕ → ℕ
num none = 0
num (some n) = n * 1_000_000

abbrev is_set : Option ℕ → Bool
is_set none = false
is_set (some n) = true

abbrev fill_of : ℕ → ℕ → ℕ → LimitlessFill
fill_of invested fee shares = record {
  invested_usd = invested;
  shares = shares;
  fee_usd = fee;
  fill_price = if ltb 0 shares then over invested shares else 0;
  matched = ltb 0 shares && ltb 0 invested;
}

abbrev sum_matched : List ℕ → ℕ
sum_matched [] = 0
sum_matched (m ∷ ms) = m * 1_000_000 + sum_matched ms

abbrev by_matches : List ℕ → Option LimitlessFill
by_matches [] = none
by_matches (m ∷ ms) =
    if ltb 0 (sum_matched (m ∷ ms))
    then some (record {
      invested_usd = sum_matched (m ∷ ms);
      shares = 0;
      fee_usd = 0;
      fill_price = 0;
      matched = true;
    })
    else none

abbrev by_totals : Option ExecutionTotals → List ℕ → Option LimitlessFill
by_totals none ms = by_matches ms
by_totals (some t) ms =
    if is_set t.usd_gross || is_set t.contracts_net
    then some
        (fill_of (num t.usd_gross) (num t.usd_fee) (num (t.contracts_net <|> t.contracts_gross)))
    else by_matches ms

unfoldable pub extract_limitless_fill : OrderResult → Option LimitlessFill
extract_limitless_fill r = by_totals r.totals r.maker_matches

-- ===== src/Limitless/Amounts.antt =====
-- src/limitless/limitlessOrderClient.ts: the amounts of an order. A JavaScript number is a decimal
-- with twelve places, written by its 10^-12 units; sizes are finite and not negative in GTC orders.
pub mod Bounds
use team_index.Base.{
  ℕ, ◌+◌, ◌-◌, ◌*◌, ◌/◌, Result, ok, throw, ltb, leb, if◌then◌else◌, Bool, min, max,
}

pub data Side : Type 0 where
  buy sell : Side

-- `plus n` is n / 10^12, `minus n` is -n / 10^12; `not_finite` is NaN or an infinity.
pub data Number : Type 0 where
  not_finite : Number
  plus minus : ℕ → Number

abbrev pub scale : ℕ
scale = 1_000_000

-- `Math.round(x * 1e6)` of a number that is not negative
unfoldable pub micros : ℕ → ℕ
micros n = (n + 500_000) / 1_000_000

unfoldable pub clamp_order_price : Number → ℕ
clamp_order_price not_finite = 500_000_000_000
clamp_order_price (minus n) = 10_000_000_000
clamp_order_price (plus n) = min 990_000_000_000 (max 10_000_000_000 n)

pub record OrderAmounts : Type 0 where
  pub maker_amount : ℕ
  pub taker_amount : ℕ

unfoldable pub compute_amounts : ℕ → ℕ → Side → OrderAmounts
unfolding micros
compute_amounts price size buy = record {
  maker_amount = (micros size * micros price + scale - 1) / scale;
  taker_amount = micros size;
}
compute_amounts price size sell = record {
  maker_amount = micros size;
  taker_amount = micros size * micros price / scale;
}

unfoldable pub quote_limitless_order_amounts : Number → ℕ → Side → ℕ × OrderAmounts
unfolding clamp_order_price compute_amounts
quote_limitless_order_amounts price size side =
    (clamp_order_price price, compute_amounts (clamp_order_price price) size side)

-- `BigInt` of a number that is not finite throws a RangeError.
pub data AmountError : Type 0 where
  range_error invalid_maker_amount : AmountError

abbrev positive_amount : ℕ → Result AmountError OrderAmounts
positive_amount n =
    if leb n 0
    then throw invalid_maker_amount
    else ok (record { maker_amount = n; taker_amount = 1 })

unfoldable pub quote_limitless_fok_amounts : Number → Result AmountError OrderAmounts
unfolding micros
quote_limitless_fok_amounts not_finite = throw range_error
quote_limitless_fok_amounts (minus n) = throw invalid_maker_amount
quote_limitless_fok_amounts (plus n) = positive_amount (micros n)

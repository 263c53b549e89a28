-- ===== src/Polymarket/Money/Columns.antt =====
-- src/polymarket/money.ts on the values of columns, as tradeExecutor.ts uses it. The model of that file takes
-- them as whole numbers of 10^-18.
use mathlib.Core.Path.{subst}
use native.Mathlib.Nat.{eq_of_mul-eq-mul_right}
use team_index.Base.{
  ℕ, ◌*◌, ◌/◌, ◌%◌, ◌^◌, ◌<◌, ◌≡◌, refl, sym, ap, ◌∙◌, true, Option, Result, ok, throw, Text, trim,
  ◌==◌, length, ◌++◌, arith, Bool-cases, inl, inr,
}
use team_index.Polymarket.Money.{
  parts, is_decimal, fraction_of, big_int, decimal_to_base_units, base_units_to_decimal,
}
use team_index.Polymarket.Money.Printed.{power-Positive, read-print}
use team_index.Polymarket.Money.Exact.{IsExact, Reading, decimal_to_base_units-Reading}
use team_index.Polymarket.TradeExecutor.Prices

-- The same number, or two errors
abbrev pub Agree : Result Text ℕ → Result Text ℕ → Type 0
Agree (ok m) (ok n) = m ≡ n
Agree (throw e) (throw f) = Unit
Agree _ _ = ⊥

swap_factors : (a b c : ℕ) → a * b * c ≡ a * c * b
swap_factors a b c = grind arith

units_whole : (a n b d : ℕ) → 0 < b → n * b ≡ d * 10 ^ 6 → a * b ≡ d * 10 ^ 18 → a ≡ n * 10 ^ 12
units_whole a n b d o h k =
    let same : n * 10 ^ 12 * b ≡ a * b = omega (arith, swap_factors n (10 ^ 12) b, h, k) in
    eq_of_mul-eq-mul_right b o a (n * 10 ^ 12) (sym same)

units_part : (a b d : ℕ) → a % 10 ^ 12 ≡ 0 → a * b ≡ d * 10 ^ 18 → a / 10 ^ 12 * b ≡ d * 10 ^ 6
units_part a b d h k =
    let m = a / 10 ^ 12 in
    let whole : a ≡ m * 10 ^ 12 = omega (arith, h) in
    let same : m * b * 10 ^ 12 ≡ d * 10 ^ 18 =
      sym (swap_factors m (10 ^ 12) b) ∙ ap (λ x. x * b) (sym whole) ∙ k in
    omega (arith, same)

whole_column : (n : ℕ) → Prices.decimal_to_base_units (n * 10 ^ 12) ≡ ok n
unfolding Prices.decimal_to_base_units
whole_column n = ground arith

read_column :
    (p : Text × Option Text) (r : Result Text ℕ) (amount : ℕ)
    → Reading 6 p r
    → is_decimal p ≡ true
    → IsExact 18 p amount
    → Agree r (Prices.decimal_to_base_units amount)
unfolding Prices.decimal_to_base_units
read_column p (ok n) amount (decimal, h) _ k =
    let whole =
      units_whole amount n (10 ^ length (fraction_of p.1)) (big_int 0 (p.0 ++ fraction_of p.1))
        (power-Positive (length (fraction_of p.1))) h k in
    subst (Agree (ok n)) (sym (ap Prices.decimal_to_base_units whole ∙ whole_column n)) refl
read_column p (throw e) amount h decimal k = elim (Bool-cases (amount % 10 ^ 12 == 0)) [
  | inl z ↦ absurd (elim h [
    | inl other ↦ cc (other, decimal)
    | inr inexact ↦ inexact (amount / 10 ^ 12) (
        units_part amount (10 ^ length (fraction_of p.1)) (big_int 0 (p.0 ++ fraction_of p.1))
          (ground (arith, z)) k)
  ])
  | inr z ↦ rw z tt
]

-- The text of a column's value, without an exponent, is read as the same number of base units as the value itself
-- is converted to, or both are refused, a value that is no whole number of base units.
pub column-Agree :
    (amount : ℕ)
    → Agree
        (decimal_to_base_units (base_units_to_decimal amount 18) 6)
        (Prices.decimal_to_base_units amount)
column-Agree amount =
    let s = base_units_to_decimal amount 18 in
    let p = parts (trim s) in
    let (decimal, exact) =
      subst (Reading 18 p) (read-print amount 18) (decimal_to_base_units-Reading s 18) in
    read_column p (decimal_to_base_units s 6) amount (decimal_to_base_units-Reading s 6) decimal
      exact

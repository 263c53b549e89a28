-- ===== src/Polymarket/Money.antt =====
-- src/polymarket/money.ts: amounts as texts of decimals and as whole numbers of base units.
pub mod Digits
pub mod Printed
pub mod Inexact
pub mod Exact
pub mod Columns
mod Tests
use team_index.Base.{
  ℕ, zero, suc, ◌+◌, ◌-◌, ◌*◌, ◌/◌, ◌%◌, ◌^◌, List, [], ◌∷◌, ◌++◌, Bool, true, false, ◌&&◌, not,
  Option, none, some, Result, ok, throw, Text, codes, trim, leb, ltb, ◌==◌, if◌then◌else◌, any,
  length, take, drop, replicate,
}

abbrev pub is_digit : ℕ → Bool
is_digit c = leb b'0' c && leb c b'9'

abbrev pub all_digits : Text → Bool
all_digits [] = true
all_digits (c ∷ s) = is_digit c && all_digits s

-- `\d+`
abbrev pub some_digits : Text → Bool
some_digits [] = false
some_digits (c ∷ s) = is_digit c && all_digits s

-- What stands before the first point, and after it; the parts of `split(".")`, where there is one point at
-- most
abbrev pub parts : Text → Text × Option Text
parts [] = ([], none)
parts (c ∷ s) =
    let (whole, fraction) = parts s in if c == b'.' then ([], some s) else (c ∷ whole, fraction)

abbrev pub is_decimal : Text × Option Text → Bool
is_decimal (whole, none) = some_digits whole
is_decimal (whole, some fraction) = some_digits whole && some_digits fraction

-- `fraction = ""`
abbrev pub fraction_of : Option Text → Text
fraction_of none = []
fraction_of (some f) = f

-- `BigInt` of digits that follow the digits of `a`
abbrev pub big_int : ℕ → Text → ℕ
big_int a [] = a
big_int a (c ∷ s) = big_int (a * 10 + (c - b'0')) s

abbrev pub is_significant : ℕ → Bool
is_significant c = leb b'1' c && leb c b'9'

abbrev pub zeros : ℕ → Text
zeros n = replicate n b'0'

abbrev pub padded : ℕ → Text → Text
padded decimals fraction = take decimals (take decimals fraction ++ zeros decimals)

abbrev pub units_of : ℕ → Text → Text → Result Text ℕ
units_of decimals whole fraction =
    if any is_significant (drop decimals fraction)
    then throw (codes "Amount has more significant decimals")
    else ok (big_int 0 whole * 10 ^ decimals + big_int 0 (padded decimals fraction))

abbrev pub read_parts : ℕ → Text × Option Text → Result Text ℕ
read_parts decimals p =
    if not (is_decimal p)
    then throw (codes "Invalid unsigned decimal amount")
    else units_of decimals (p.0) (fraction_of (p.1))

unfoldable pub decimal_to_base_units : Text → ℕ → Result Text ℕ
decimal_to_base_units value decimals = read_parts decimals (parts (trim value))

-- `toString`, where the fuel is more than the number
abbrev pub digits : ℕ → ℕ → Text
digits zero n = []
digits (suc fuel) n = elim (ltb n 10) [
  | true ↦ (b'0' + n) ∷ []
  | false ↦ digits fuel (n / 10) ++ (b'0' + n % 10) ∷ []
]

abbrev pub to_text : ℕ → Text
to_text n = digits (suc n) n

abbrev pub pad_start : ℕ → Text → Text
pad_start n s = zeros (n - length s) ++ s

-- A digit before what is kept of the digits after it
abbrev pub before_zeros : ℕ → Text → Text
before_zeros c [] = if c == b'0' then [] else c ∷ []
before_zeros c (d ∷ t) = c ∷ d ∷ t

-- `replace(/0+$/, "")`
abbrev pub without_zeros : Text → Text
without_zeros [] = []
without_zeros (c ∷ s) = before_zeros c (without_zeros s)

abbrev pub with_fraction : Text → Text → Text
with_fraction whole [] = whole
with_fraction whole (c ∷ s) = whole ++ b'.' ∷ c ∷ s

unfoldable pub base_units_to_decimal : ℕ → ℕ → Text
base_units_to_decimal value decimals =
    let divisor = 10 ^ decimals in
    with_fraction (to_text (value / divisor))
      (without_zeros (pad_start decimals (to_text (value % divisor))))

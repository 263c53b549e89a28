-- ===== src/Polymarket/Money/Printed.antt =====
-- src/polymarket/money.ts: the texts that baseUnitsToDecimal prints are read again.
use native.Mathlib.Nat.{div-add-mod', mod-lt, pow-suc}
use team_index.Base.{
  ℕ, zero, suc, ◌+◌, ◌*◌, ◌/◌, ◌%◌, ◌^◌, ◌≤◌, ◌<◌, ◌≡◌, refl, ap, ◌∙◌, [], ◌∷◌, ◌++◌, true, false,
  Option, none, some, ok, Text, no_space, trim-no_space, ◌==◌, length, drop, arith,
}
use team_index.Polymarket.Money.{
  all_digits, some_digits, parts, is_decimal, fraction_of, big_int, units_of, read_parts,
  decimal_to_base_units, to_text, without_zeros, pad_start, with_fraction, base_units_to_decimal,
}
use team_index.Polymarket.Money.Digits.{Reads, fraction-Reads, big_int-digits, some_digits-to_text}

all_digits-some : (s : Text) → some_digits s ≡ true → all_digits s ≡ true
all_digits-some [] h = refl
all_digits-some (c ∷ s) h = h

drop_all : (n : ℕ) (s : Text) → length s ≤ n → drop n s ≡ []
drop_all zero [] h = refl
drop_all zero (c ∷ s) h = absurd (omega arith)
drop_all (suc n) [] h = refl
drop_all (suc n) (c ∷ s) h = drop_all n s (omega arith)

no_space-digits : (s t : Text) → all_digits s ≡ true → no_space t ≡ true → no_space (s ++ t) ≡ true
no_space-digits [] t h k = k
no_space-digits (c ∷ s) t h k = ground (arith, no_space-digits s t)

no_space-all_digits : (s : Text) → all_digits s ≡ true → no_space s ≡ true
no_space-all_digits [] h = refl
no_space-all_digits (c ∷ s) h = ground (arith, no_space-all_digits s)

parts-whole : (w : Text) → all_digits w ≡ true → parts w ≡ (w, none)
parts-whole [] h = refl
parts-whole (c ∷ w) h =
    let rest : all_digits w ≡ true = ground (arith, h) in
    let digit : (c == b'.') ≡ false = ground (arith, h) in
    rw (parts, digit) (ap (λ p. (c ∷ p.0, p.1)) (parts-whole w rest))

parts-point : (w f : Text) → all_digits w ≡ true → parts (w ++ b'.' ∷ f) ≡ (w, some f)
parts-point [] f h = refl
parts-point (c ∷ w) f h =
    let rest : all_digits w ≡ true = ground (arith, h) in
    let digit : (c == b'.') ≡ false = ground (arith, h) in
    rw (parts, digit) (ap (λ p. (c ∷ p.0, p.1)) (parts-point w f rest))

units_of-Reads :
    (d n : ℕ) (w f : Text) → Reads d n f → units_of d w f ≡ ok (big_int 0 w * 10 ^ d + n)
units_of-Reads d n w f (small, all, e) =
    rw (units_of, drop_all d f small) (ap (λ m. ok (big_int 0 w * 10 ^ d + m)) e)

read_parts-ok :
    (d : ℕ) (p : Text × Option Text)
    → is_decimal p ≡ true
    → read_parts d p ≡ units_of d p.0 (fraction_of p.1)
read_parts-ok d p h = rw (read_parts, h) refl

-- A decimal that is printed with digits that are read as `n` after the point
read-with_fraction :
    (d n : ℕ) (w f : Text)
    → some_digits w ≡ true
    → Reads d n f
    → decimal_to_base_units (with_fraction w f) d ≡ ok (big_int 0 w * 10 ^ d + n)
unfolding decimal_to_base_units
read-with_fraction d n w [] h r =
    let all = all_digits-some w h in
    ap (λ s. read_parts d (parts s)) (trim-no_space w (no_space-all_digits w all))
    ∙ ap (read_parts d) (parts-whole w all)
    ∙ read_parts-ok d (w, none) h
    ∙ units_of-Reads d n w [] r
read-with_fraction d n w (c ∷ f) h r =
    let all = all_digits-some w h in
    let (small, fraction, e) = r in
    let plain : no_space (b'.' ∷ c ∷ f) ≡ true = no_space-all_digits (c ∷ f) fraction in
    ap (λ s. read_parts d (parts s))
      (trim-no_space (w ++ b'.' ∷ c ∷ f) (no_space-digits w (b'.' ∷ c ∷ f) all plain))
    ∙ ap (read_parts d) (parts-point w (c ∷ f) all)
    ∙ read_parts-ok d (w, some (c ∷ f)) (rw h fraction)
    ∙ units_of-Reads d n w (c ∷ f) r

pub power-Positive : (d : ℕ) → 0 < 10 ^ d
power-Positive zero = omega arith
power-Positive (suc d) = omega (arith, pow-suc 10 d, power-Positive d)

-- Any number of base units, with any number of decimals, is read again from the text that it is printed as.
pub read-print :
    (value decimals : ℕ)
    → decimal_to_base_units (base_units_to_decimal value decimals) decimals ≡ ok value
unfolding base_units_to_decimal
read-print value decimals =
    let divisor = 10 ^ decimals in
    let w = value / divisor in
    let r = value % divisor in
    let f = without_zeros (pad_start decimals (to_text r)) in
    let printed : Reads decimals r f =
      fraction-Reads decimals r (mod-lt value (power-Positive decimals)) in
    read-with_fraction decimals r (to_text w) f (some_digits-to_text w) printed
    ∙ ap (λ m. ok (m * divisor + r)) (big_int-digits (suc w) w (omega arith))
    ∙ ap ok (div-add-mod' value divisor)

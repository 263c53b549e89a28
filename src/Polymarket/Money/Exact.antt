-- ===== src/Polymarket/Money/Exact.antt =====
-- src/polymarket/money.ts: what decimalToBaseUnits accepts, and the amount that it returns.
use native.Mathlib.Nat.{pow-suc}
use team_index.Base.{
  ℕ, zero, suc, ◌+◌, ◌-◌, ◌*◌, ◌^◌, ◌≤◌, ◌≡◌, refl, sym, ap, ◌∙◌, [], ◌∷◌, ◌++◌, true, false, any,
  Option, none, some, Result, ok, throw, Text, trim, length, length-append, length-take-drop, take,
  drop, arith, Bool-cases, ◌⊎◌, inl, inr,
}
use team_index.Polymarket.Money.{
  all_digits, parts, is_decimal, fraction_of, big_int, is_significant, zeros, padded, units_of,
  read_parts, decimal_to_base_units,
}
use team_index.Polymarket.Money.Digits.{big_int-append, length-zeros}
use team_index.Polymarket.Money.Inexact.{big_int-from, inexact}

big_int-insignificant :
    (f : Text) → all_digits f ≡ true → any is_significant f ≡ false → big_int 0 f ≡ 0
big_int-insignificant [] h k = refl
big_int-insignificant (c ∷ f) h k =
    let none_left : 0 * 10 + (c - b'0') ≡ 0 = ground (arith, h, k) in
    let rest : big_int 0 f ≡ 0 = big_int-insignificant f (ground (arith, h)) (ground (arith, k)) in
    ap (λ x. big_int x f) none_left ∙ rest

big_int-take-zeros : (n e : ℕ) → big_int 0 (take n (zeros e)) ≡ 0
big_int-take-zeros zero e = refl
big_int-take-zeros (suc n) zero = refl
big_int-take-zeros (suc n) (suc e) = big_int-take-zeros n e

merge : (x a b p s : ℕ) → p * b ≡ s * a → (x * a + p) * (b * 10) ≡ (x * b + s) * (a * 10)
merge x a b p s h = grind arith

-- Digits that are cut off or filled up with zeros
abbrev cut : ℕ → ℕ → Text → Text
cut d e f = take d (take d f ++ zeros e)

length-cut : (d e : ℕ) (f : Text) → d ≤ e → length (cut d e f) ≡ d
length-cut d e f h = omega (
  arith,
  length-take-drop d 0 (take d f ++ zeros e),
  length-append (take d f) (zeros e),
  length-zeros e,
)

cut-exact :
    (d e : ℕ) (f : Text)
    → d ≤ e
    → all_digits f ≡ true
    → any is_significant (drop d f) ≡ false
    → big_int 0 (cut d e f) * 10 ^ length f ≡ big_int 0 f * 10 ^ d
cut-exact zero e f h all k = omega (arith, big_int-insignificant f all k)
cut-exact (suc d) e [] h all k = ap (λ m. m * 1) (big_int-take-zeros (suc d) e) ∙ omega arith
cut-exact (suc d) e (c ∷ f) h all k =
    let x = 0 * 10 + (c - b'0') in
    let small : d ≤ e = omega arith in
    let rest = cut-exact d e f small (ground (arith, all)) k in
    let left : big_int x (cut d e f) ≡ x * 10 ^ d + big_int 0 (cut d e f) =
      big_int-from x (cut d e f)
      ∙ ap (λ l. x * 10 ^ l + big_int 0 (cut d e f)) (length-cut d e f small) in
    ap (λ m. m * 10 ^ suc (length f)) left
    ∙ ap (λ m. (x * 10 ^ d + big_int 0 (cut d e f)) * m) (pow-suc 10 (length f))
    ∙ merge x (10 ^ d) (10 ^ length f) (big_int 0 (cut d e f)) (big_int 0 f) rest
    ∙ ap (λ m. m * (10 ^ d * 10)) (sym (big_int-from x f))
    ∙ ap (λ m. big_int x f * m) (sym (pow-suc 10 d))

-- The digits of both parts, as a whole number of units of the last digit, are the amount in base units.
abbrev pub IsExact : ℕ → Text × Option Text → ℕ → Type 0
IsExact d p n = n * 10 ^ length (fraction_of p.1) ≡ big_int 0 (p.0 ++ fraction_of p.1) * 10 ^ d

-- The result of reading a text with these parts
abbrev pub Reading : ℕ → Text × Option Text → Result Text ℕ → Type 0
Reading d p (ok n) = (is_decimal p ≡ true) × IsExact d p n
Reading d p (throw e) = (is_decimal p ≡ false) ⊎ ((n : ℕ) → ¬ IsExact d p n)

distribute : (w b f a p : ℕ) → p * b ≡ f * a → (w * a + p) * b ≡ (w * b + f) * a
distribute w b f a p h = grind arith

units-exact :
    (d : ℕ) (w f : Text)
    → all_digits f ≡ true
    → any is_significant (drop d f) ≡ false
    → (big_int 0 w * 10 ^ d + big_int 0 (padded d f)) * 10 ^ length f ≡ big_int 0 (w ++ f) * 10 ^ d
units-exact d w f all k =
    distribute (big_int 0 w) (10 ^ length f) (big_int 0 f) (10 ^ d) (big_int 0 (padded d f))
      (cut-exact d d f (omega arith) all k)
    ∙ ap (λ m. m * 10 ^ d) (sym (big_int-append 0 w f ∙ big_int-from (big_int 0 w) f))

decimal-all_digits :
    (p : Text × Option Text) → is_decimal p ≡ true → all_digits (fraction_of p.1) ≡ true
decimal-all_digits (w, none) h = refl
decimal-all_digits (w, some []) h = refl
decimal-all_digits (w, some (c ∷ f)) h = ground (arith, h)

read_parts-Reading : (d : ℕ) (p : Text × Option Text) → Reading d p (read_parts d p)
read_parts-Reading d p = elim (Bool-cases (is_decimal p)) [
  | inr e ↦ rw (read_parts, e) (inl e)
  | inl e ↦ elim (Bool-cases (any is_significant (drop d (fraction_of p.1)))) [
    | inl k ↦
        rw (read_parts, e, units_of, k)
          (inr (λ n x.
            inexact d (big_int 0 p.0) (fraction_of p.1) n (decimal-all_digits p e) k
              (x ∙ ap (λ m. m * 10 ^ d) (big_int-append 0 p.0 (fraction_of p.1)))))
    | inr k ↦
        rw (read_parts, e, units_of, k)
          (e, units-exact d p.0 (fraction_of p.1) (decimal-all_digits p e) k)
  ]
]

-- A text is read only if it is a decimal, digits with at most one point between them, after blanks at its ends
-- are cut off, and what is read is exactly its value in base units. A text is refused only if it is no decimal
-- or no whole number of base units is its value.
pub decimal_to_base_units-Reading :
    (value : Text) (decimals : ℕ)
    → Reading decimals (parts (trim value)) (decimal_to_base_units value decimals)
unfolding decimal_to_base_units
decimal_to_base_units-Reading value decimals = read_parts-Reading decimals (parts (trim value))

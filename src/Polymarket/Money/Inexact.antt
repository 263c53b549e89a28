-- ===== src/Polymarket/Money/Inexact.antt =====
-- src/polymarket/money.ts: digits behind the last decimal.
use native.Mathlib.Nat.{add-mul, mul-le-mul_right, pow-suc}
use team_index.Base.{
  ℕ, zero, suc, ◌+◌, ◌-◌, ◌*◌, ◌^◌, ◌≤◌, ◌<◌, ◌≡◌, ◌≢◌, sym, ap, ◌∙◌, [], ◌∷◌, true, any, Text, leb,
  length, drop, arith, Bool-cases, inl, inr,
}
use team_index.Polymarket.Money.{all_digits, big_int, is_significant}

shift : (a x b s : ℕ) → (a * 10 + x) * b + s ≡ a * (b * 10) + ((0 * 10 + x) * b + s)
shift a x b s = grind arith

pub big_int-from : (a : ℕ) (s : Text) → big_int a s ≡ a * 10 ^ length s + big_int 0 s
big_int-from a [] = omega arith
big_int-from a (c ∷ s) =
    let x = c - b'0' in
    let power = 10 ^ length s in
    big_int-from (a * 10 + x) s
    ∙ shift a x power (big_int 0 s)
    ∙ ap (λ b. a * b + ((0 * 10 + x) * power + big_int 0 s)) (sym (pow-suc 10 (length s)))
    ∙ ap (λ m. a * 10 ^ suc (length s) + m) (sym (big_int-from (0 * 10 + x) s))

digit_less : (x b s : ℕ) → x ≤ 9 → s < b → x * b + s < b * 10
digit_less x b s h k = grind arith

digit_more : (x b s : ℕ) → 0 < x → s < b → 0 < x * b + s
digit_more x b s h k = grind arith

big_int-less : (s : Text) → all_digits s ≡ true → big_int 0 s < 10 ^ length s
big_int-less [] h = omega arith
big_int-less (c ∷ s) h =
    let x = 0 * 10 + (c - b'0') in
    let small : x ≤ 9 = ground (arith, h) in
    let rest = big_int-less s (ground (arith, h)) in
    let step = digit_less x (10 ^ length s) (big_int 0 s) small rest in
    omega (arith, step, big_int-from x s, pow-suc 10 (length s))

big_int-more : (s : Text) → all_digits s ≡ true → any is_significant s ≡ true → 0 < big_int 0 s
big_int-more [] h k = absurd (cc k)
big_int-more (c ∷ s) h k =
    let x = 0 * 10 + (c - b'0') in
    let rest : all_digits s ≡ true = ground (arith, h) in
    elim (Bool-cases (is_significant c)) [
      | inl e ↦
          let large : 0 < x = ground (arith, e) in
          omega (
            arith,
            digit_more x (10 ^ length s) (big_int 0 s) large (big_int-less s rest),
            big_int-from x s,
          )
      | inr e ↦
          let later : any is_significant s ≡ true = ground (arith, e, k) in
          omega (arith, big_int-more s rest later, big_int-from x s)
    ]

between : (n a b f : ℕ) → 0 < f → f < b → n * b ≢ a * b + f
between n a b f h k e = elim (Bool-cases (leb n a)) [
  | inl s ↦ let small : n ≤ a = ground (arith, s) in omega (arith, mul-le-mul_right b small, e)
  | inr s ↦
      let large : a + 1 ≤ n = ground (arith, s) in
      omega (arith, mul-le-mul_right b large, add-mul a 1 b, e)
]

divided : (n b m a : ℕ) → n * (b * 10) ≡ m * (a * 10) → n * b ≡ m * a
divided n b m a h = grind arith

-- With a digit other than 0 behind the last decimal, no whole number of base units is the amount.
pub inexact :
    (d a : ℕ) (f : Text) (n : ℕ)
    → all_digits f ≡ true
    → any is_significant (drop d f) ≡ true
    → n * 10 ^ length f ≢ big_int a f * 10 ^ d
inexact zero a f n h k e =
    between n a (10 ^ length f) (big_int 0 f) (big_int-more f h k) (big_int-less f h)
      (e ∙ omega (arith, big_int-from a f))
inexact (suc d) a [] n h k e = absurd (cc k)
inexact (suc d) a (c ∷ f) n h k e =
    let rest : all_digits f ≡ true = ground (arith, h) in
    inexact d (a * 10 + (c - b'0')) f n rest k (
      divided n (10 ^ length f) (big_int (a * 10 + (c - b'0')) f) (10 ^ d) (
        ap (λ m. n * m) (sym (pow-suc 10 (length f)))
        ∙ e
        ∙ ap (λ m. big_int (a * 10 + (c - b'0')) f * m) (pow-suc 10 d)))

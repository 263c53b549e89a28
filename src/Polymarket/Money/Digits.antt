-- ===== src/Polymarket/Money/Digits.antt =====
-- src/polymarket/money.ts: the digits of numbers.
use mathlib.Core.Path.{subst}
use native.Mathlib.Nat.{pow-suc}
use team_index.Base.{
  ℕ, zero, suc, ◌+◌, ◌-◌, ◌*◌, ◌/◌, ◌%◌, ◌^◌, ◌≤◌, ◌<◌, ◌≡◌, refl, sym, ap, ◌∙◌, [], ◌∷◌, ◌++◌,
  true, false, Text, ltb, ◌==◌, length, length-append, take, take_all, arith, Bool-cases, inl, inr,
}
use team_index.Polymarket.Money.{
  all_digits, some_digits, big_int, zeros, padded, digits, to_text, pad_start, before_zeros,
  without_zeros,
}

pub big_int-append : (a : ℕ) (s t : Text) → big_int a (s ++ t) ≡ big_int (big_int a s) t
big_int-append a [] t = refl
big_int-append a (c ∷ s) t = big_int-append (a * 10 + (c - b'0')) s t

all_digits-append :
    (s t : Text) → all_digits s ≡ true → all_digits t ≡ true → all_digits (s ++ t) ≡ true
all_digits-append [] t h k = k
all_digits-append (c ∷ s) t h k = ground (arith, all_digits-append s t)

all_digits-zeros : (n : ℕ) → all_digits (zeros n) ≡ true
all_digits-zeros zero = refl
all_digits-zeros (suc n) = ground (arith, all_digits-zeros n)

big_int-zeros : (n : ℕ) (s : Text) → big_int 0 (zeros n ++ s) ≡ big_int 0 s
big_int-zeros zero s = refl
big_int-zeros (suc n) s = big_int-zeros n s

-- Both rounds of `digits`
digits-small : (fuel n : ℕ) → ltb n 10 ≡ true → digits (suc fuel) n ≡ (b'0' + n) ∷ []
digits-small fuel n e = rw (e, digits) refl

digits-large :
    (fuel n : ℕ)
    → ltb n 10 ≡ false
    → digits (suc fuel) n ≡ digits fuel (n / 10) ++ (b'0' + n % 10) ∷ []
digits-large fuel n e = rw (e, digits) refl

pub big_int-digits : (fuel n : ℕ) → n < fuel → big_int 0 (digits fuel n) ≡ n
big_int-digits zero n h = absurd (omega arith)
big_int-digits (suc fuel) n h = elim (Bool-cases (ltb n 10)) [
  | inl e ↦ ap (big_int 0) (digits-small fuel n e) ∙ omega arith
  | inr e ↦
      let large : 10 ≤ n = ground (arith, e) in
      let rest = big_int-digits fuel (n / 10) (omega arith) in
      ap (big_int 0) (digits-large fuel n e)
      ∙ big_int-append 0 (digits fuel (n / 10)) ((b'0' + n % 10) ∷ [])
      ∙ ap (λ k. k * 10 + (b'0' + n % 10 - b'0')) rest
      ∙ omega arith
]

all_digits-digits : (fuel n : ℕ) → all_digits (digits fuel n) ≡ true
all_digits-digits zero n = refl
all_digits-digits (suc fuel) n = elim (Bool-cases (ltb n 10)) [
  | inl e ↦ ap all_digits (digits-small fuel n e) ∙ ground (arith, e)
  | inr e ↦
      ap all_digits (digits-large fuel n e)
      ∙ all_digits-append (digits fuel (n / 10)) ((b'0' + n % 10) ∷ [])
          (all_digits-digits fuel (n / 10)) (ground arith)
]

length-small : (fuel n : ℕ) → ltb n 10 ≡ true → length (digits (suc fuel) n) ≡ 1
length-small fuel n e = ap length (digits-small fuel n e)

length-large :
    (fuel n : ℕ)
    → ltb n 10 ≡ false
    → length (digits (suc fuel) n) ≡ suc (length (digits fuel (n / 10)))
length-large fuel n e =
    ap length (digits-large fuel n e)
    ∙ length-append (digits fuel (n / 10)) ((b'0' + n % 10) ∷ [])
    ∙ omega arith

pub length-digits : (fuel n d : ℕ) → n < 10 ^ suc d → length (digits fuel n) ≤ suc d
length-digits zero n d h = omega arith
length-digits (suc fuel) n zero h = elim (Bool-cases (ltb n 10)) [
  | inl e ↦ omega (arith, length-small fuel n e)
  | inr e ↦ absurd (ground (arith, e))
]
length-digits (suc fuel) n (suc d) h = elim (Bool-cases (ltb n 10)) [
  | inl e ↦ omega (arith, length-small fuel n e)
  | inr e ↦
      let less : n / 10 < 10 ^ suc d = omega (arith, pow-suc 10 (suc d)) in
      omega (arith, length-large fuel n e, length-digits fuel (n / 10) d less)
]

before_zeros-zeros :
    (c : ℕ) (t : Text) (k : ℕ) (s : Text)
    → t ++ zeros k ≡ s
    → (j : ℕ) × (before_zeros c t ++ zeros j ≡ c ∷ s)
before_zeros-zeros c (d ∷ t) k s h = (k, ap (λ r. c ∷ r) h)
before_zeros-zeros c [] k s h = elim (Bool-cases (c == b'0')) [
  | inl e ↦ let same : b'0' ≡ c = ground (arith, e) in (suc k, rw (e, before_zeros) (cc (h, same)))
  | inr e ↦ (k, rw (e, before_zeros) (ap (λ r. c ∷ r) h))
]

-- A text is what `without_zeros` leaves of it, and zeros.
pub without_zeros-zeros : (s : Text) → (k : ℕ) × (without_zeros s ++ zeros k ≡ s)
without_zeros-zeros [] = (0, refl)
without_zeros-zeros (c ∷ s) =
    let (k, e) = without_zeros-zeros s in before_zeros-zeros c (without_zeros s) k s e

all_digits-left : (s t : Text) → all_digits (s ++ t) ≡ true → all_digits s ≡ true
all_digits-left [] t h = refl
all_digits-left (c ∷ s) t h = ground (arith, h, all_digits-left s t)

take-zeros :
    (p : Text) (k d e : ℕ)
    → length (p ++ zeros k) ≡ d
    → k ≤ e
    → take d (p ++ zeros e) ≡ p ++ zeros k
take-zeros (c ∷ p) k zero e h o = absurd (omega arith)
take-zeros (c ∷ p) k (suc d) e h o = ap (λ r. c ∷ r) (take-zeros p k d e (omega arith) o)
take-zeros [] zero zero e h o = refl
take-zeros [] zero (suc d) e h o = absurd (omega arith)
take-zeros [] (suc k) zero e h o = absurd (omega arith)
take-zeros [] (suc k) (suc d) zero h o = absurd (omega arith)
take-zeros [] (suc k) (suc d) (suc e) h o =
    ap (λ r. b'0' ∷ r) (take-zeros [] k d e (omega arith) (omega arith))

pub length-zeros : (k : ℕ) → length (zeros k) ≡ k
length-zeros zero = refl
length-zeros (suc k) = omega (arith, length-zeros k)

-- What `decimalToBaseUnits` reads of the digits after a point
abbrev pub Reads : ℕ → ℕ → Text → Type 0
Reads d n f = (length f ≤ d) × (all_digits f ≡ true) × (big_int 0 (padded d f) ≡ n)

without_zeros-Reads :
    (d n : ℕ) (s : Text)
    → length s ≡ d
    → all_digits s ≡ true
    → big_int 0 s ≡ n
    → Reads d n (without_zeros s)
without_zeros-Reads d n s h k e =
    let (j, same) = without_zeros-zeros s in
    let f = without_zeros s in
    let whole : length (f ++ zeros j) ≡ d = ap length same ∙ h in
    let sum : length f + j ≡ d = omega (arith, whole, length-append f (zeros j), length-zeros j) in
    let small : length f ≤ d = omega (arith, sum) in
    let pad : padded d f ≡ s =
      ap (λ r. take d (r ++ zeros d)) (take_all d f small)
      ∙ take-zeros f j d d whole (omega (arith, sum))
      ∙ same in
    (small, all_digits-left f (zeros j) (ap all_digits same ∙ k), ap (big_int 0) pad ∙ e)

-- The digits that are printed after the point are read as the same number.
pub fraction-Reads : (d n : ℕ) → n < 10 ^ d → Reads d n (without_zeros (pad_start d (to_text n)))
fraction-Reads zero n h =
    let same : 0 ≡ n = omega arith in
    let family : ℕ → Type 0 = λ m. Reads 0 m (without_zeros (pad_start 0 (to_text m))) in
    subst family same (omega arith, refl, refl)
fraction-Reads (suc d) n h =
    let s = to_text n in
    let z = zeros (suc d - length s) in
    without_zeros-Reads (suc d) n (pad_start (suc d) s)
      (omega
        (arith, length-append z s, length-zeros (suc d - length s), length-digits (suc n) n d h))
      (all_digits-append z s (all_digits-zeros (suc d - length s)) (all_digits-digits (suc n) n))
      (big_int-zeros (suc d - length s) s ∙ big_int-digits (suc n) n (omega arith))

some_digits-snoc :
    (s : Text) (c : ℕ) → all_digits (s ++ c ∷ []) ≡ true → some_digits (s ++ c ∷ []) ≡ true
some_digits-snoc [] c h = h
some_digits-snoc (d ∷ s) c h = h

pub some_digits-to_text : (n : ℕ) → some_digits (to_text n) ≡ true
some_digits-to_text n =
    let all : all_digits (to_text n) ≡ true = all_digits-digits (suc n) n in
    elim (Bool-cases (ltb n 10)) [
      | inl e ↦ ap some_digits (digits-small n n e) ∙ sym (ap all_digits (digits-small n n e)) ∙ all
      | inr e ↦
          ap some_digits (digits-large n n e)
          ∙ some_digits-snoc (digits n (n / 10)) (b'0' + n % 10)
              (sym (ap all_digits (digits-large n n e)) ∙ all)
    ]

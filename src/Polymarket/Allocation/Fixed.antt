-- ===== src/Polymarket/Allocation/Fixed.antt =====
-- Fixed point numbers with twelve decimals, a concrete instance of the numbers of the engine: it
-- rounds products and quotients down, and a difference stops at 0.
use Prim.Native.Nat.{◌+◌, ◌-◌, ◌*◌, ◌/◌, ◌≤◌}
use native.Mathlib.Nat.{mul-le-mul, div-le_of_le-mul, mul-div-le, le_refl}
use team_index.Base.{ℕ, ◌≡◌, false, arith, ltb}
use team_index.Polymarket.Allocation.Number.{Number}
use team_index.Polymarket.Allocation.Laws.{Laws}

abbrev one : ℕ
one = 1000000000000

instance abbrev pub fixed : Number ℕ
fixed = record {
  lt = ltb;
  plus = λ a b. a + b;
  minus = λ a b. a - b;
  times = λ a b. a * b / one;
  over = λ a b. a * one / b;
  sqrt = λ a. a;
  log = λ a. a;
  tanh = λ a. a;
  floor = λ a. a / one;
  ratio = λ a b. a * one / b;
}

not_below : (a b : ℕ) → a ≤ b → ltb b a ≡ false
not_below a b h = ground arith

times_le : (a h : ℕ) → h ≤ one → a * h / one ≤ a
times_le a h k = omega (arith, mul-le-mul (le_refl a) k)

over_le : (b t : ℕ) → b ≤ t → 1 ≤ t → b * one / t ≤ one
over_le b t h k = div-le_of_le-mul t (omega (arith, mul-le-mul h (le_refl one)))

times_over : (b t : ℕ) → t * (b * one / t) / one ≤ b
times_over b t = omega (arith, mul-div-le (b * one) t)

times_plus : (a b k : ℕ) → a * k / one + b * k / one ≤ (a + b) * k / one
times_plus a b k = grind arith

pub fixed-Laws : Laws fixed
fixed-Laws = record {
  le_refl = λ a. not_below a a (omega arith);
  le_of_lt = λ a b h. ground arith;
  le_trans = λ a b c h k. ground arith;
  le_lt_trans = λ a b c h k. ground arith;
  ratio_nonneg = λ a b. ground arith;
  plus_ge = λ a b h. ground arith;
  times_nonneg = λ a b h k. ground arith;
  over_nonneg = λ a b h k. ground arith;
  times_le = λ a h k j. not_below _ _ (times_le a h (ground arith));
  over_le_one = λ b t h k. not_below _ _ (over_le b t (ground arith) (ground arith));
  times_over = λ b t h. not_below _ _ (times_over b t);
  times_plus = λ a b k. not_below _ _ (times_plus a b k);
  times_zero = λ k. omega arith;
  plus_mono = λ a b c h. ground arith;
  below_room = λ cap a give t h k. ground arith;
}

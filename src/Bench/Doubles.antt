-- ===== src/Bench/Doubles.antt =====
-- What the benchmarks do with a `double`: conversions, one comparison, and rounded arithmetic. The
-- values that occur are numbers, never NaN.
use native.Mathlib.Nat.{mul-le-mul_right}
use agent_kv.Prelude.{
  ℕ, ◌+◌, ◌*◌, ◌/◌, ◌≤◌, Bool, true, false, ltb, ◌≡◌, arith, ltb→lt, ltb→le, ltb-false,
}

pub record Doubles {ℓ} (D : Type ℓ) : Type ℓ where
  pub of_number : ℕ → D
  pub lt : D → D → Bool
  pub add : D → D → D
  pub mul : D → D → D
  pub div : D → D → D
  pub ceil : D → D
  -- `static_cast<std::size_t>`
  pub cast : D → ℕ

infix 4 ◌≼◌
abbrev pub ◌≼◌ {ℓ} : {D : Type ℓ} ⦃d : Doubles D⦄ → D → D → Type 0
◌≼◌ ⦃d⦄ x y = d.lt y x ≡ false

-- The comparison orders the numbers, and rounding, the product with a size, the division by 100 and
-- the conversions keep their order.
pub record IsMonotone {ℓ} (D : Type ℓ) ⦃d : Doubles D⦄ : Type ℓ where
  pub le_of_lt : (x y : D) → d.lt x y ≡ true → x ≼ y
  pub le_trans : (x y z : D) → x ≼ y → y ≼ z → x ≼ z
  pub of_number-le : (m n : ℕ) → m ≤ n → d.of_number m ≼ d.of_number n
  pub div-le : (x y : D) → x ≼ y → d.div x (d.of_number 100) ≼ d.div y (d.of_number 100)
  pub mul-le : (n : ℕ) (x y : D) → x ≼ y → d.mul x (d.of_number n) ≼ d.mul y (d.of_number n)
  pub ceil-le : (x y : D) → x ≼ y → d.ceil x ≼ d.ceil y
  pub cast-le : (x y : D) → x ≼ y → d.cast x ≤ d.cast y

-- The laws can be met: hundredths, rounded down.
abbrev pub Hundredths : Type 0
Hundredths = ℕ

instance abbrev pub hundredths : Doubles Hundredths
hundredths = record {
  of_number = λ n. n * 100;
  lt = ltb;
  add = λ x y. x + y;
  mul = λ x y. x * y / 100;
  div = λ x y. x * 100 / y;
  ceil = λ x. (x + 99) / 100 * 100;
  cast = λ x. x / 100;
}

pub Hundredths-IsMonotone : IsMonotone Hundredths
Hundredths-IsMonotone = record {
  le_of_lt = λ x y h. ltb-false y x (omega (arith, ltb→lt x y h));
  le_trans = λ x y z h h'. ltb-false z x (omega (arith, ltb→le y x h, ltb→le z y h'));
  of_number-le = λ m n h. ltb-false (n * 100) (m * 100) (omega arith);
  div-le = λ x y h. ltb-false _ _ (omega (arith, ltb→le y x h));
  mul-le = λ n x y h. ltb-false _ _ (omega (arith, mul-le-mul_right (n * 100) (ltb→le y x h)));
  ceil-le = λ x y h. ltb-false _ _ (omega (arith, ltb→le y x h));
  cast-le = λ x y h. omega (arith, ltb→le y x h);
}

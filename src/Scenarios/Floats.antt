-- ===== src/Scenarios/Floats.antt =====
-- A concrete `Float64` for the scenarios: a number in halves.
use native.Mathlib.Nat.{mul-le-mul_left}
use processing_platform.Prelude.{ℕ, ◌+◌, ◌*◌, ◌/◌, ◌^◌, ◌≤◌, ◌<◌, ◌≡◌, refl, arith}
use processing_platform.Retry.{Float64}

pub double-half : (n : ℕ) → n * 2 / 2 ≡ n
double-half n = omega arith

pub half-mul : (n a b : ℕ) → a ≤ b → n * 2 * a / 2 / 2 ≤ n * 2 * b / 2 / 2
half-mul n a b h = omega (arith, mul-le-mul_left (n * 2) h)

abbrev pub halves : Float64
halves = record {
  of_int64 = λ n. n * 2;
  to_int64 = λ f. f / 2;
  pow = λ a b. (a / 2) ^ (b / 2) * 2;
  add = λ a b. a + b;
  mul = λ a b. a * b / 2;
  five = 10;
  half = 1;
  three_halves = 3;
  Le = λ a b. a ≤ b;
  Unit01 = λ r. r < 2;
  pow-five = λ n h. rw (double-half n, double-half (5 ^ n)) refl;
  half-le-add = λ r h. omega arith;
  add-le-three_halves = λ r h. omega arith;
  mul_mono = λ n a b _ _ h _. half-mul n a b h;
  mul-half = λ n _. omega arith;
  mul-three_halves = λ n _. omega arith;
  Le_refl = λ a. omega arith;
}

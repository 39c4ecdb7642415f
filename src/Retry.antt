-- ===== src/Retry.antt =====
-- internal/retry/backoff.go. A float64 is its bit pattern, and the operations of math and of the
-- hardware are those of a `Float64`, with what IEEE 754 says of them on the range in use.
pub mod Bounds
use processing_platform.Prelude.{ℕ, ◌+◌, ◌-◌, ◌*◌, ◌/◌, ◌%◌, ◌^◌, ◌≤◌, ◌≡◌, ltb, if◌then◌else◌}

pub record Float64 : Type 1 where
  pub of_int64 : ℕ → ℕ  -- float64(n), of a 64-bit pattern
  pub to_int64 : ℕ → ℕ  -- int64(f), a 64-bit pattern
  pub pow : ℕ → ℕ → ℕ
  pub add : ℕ → ℕ → ℕ
  pub mul : ℕ → ℕ → ℕ
  pub five : ℕ
  pub half : ℕ
  pub three_halves : ℕ
  pub Le : ℕ → ℕ → Type 0
  pub Unit01 : ℕ → Type 0  -- the values in [0, 1)
  -- The powers of five are exact while they fit 53 bits.
  pub pow-five : (n : ℕ) → n ≤ 9 → to_int64 (pow five (of_int64 n)) ≡ 5 ^ n
  -- Rounding and truncation are monotone.
  pub half-le-add : (r : ℕ) → Unit01 r → Le half (add half r)
  pub add-le-three_halves : (r : ℕ) → Unit01 r → Le (add half r) three_halves
  pub mul_mono :
      (n a b : ℕ)
      → n ≤ 2 ^ 51
      → Le half a
      → Le a b
      → Le b three_halves
      → to_int64 (mul (of_int64 n) a) ≤ to_int64 (mul (of_int64 n) b)
  -- These products are exact before truncation.
  pub mul-half : (n : ℕ) → n ≤ 2 ^ 51 → to_int64 (mul (of_int64 n) half) ≡ n / 2
  pub mul-three_halves : (n : ℕ) → n ≤ 2 ^ 51 → to_int64 (mul (of_int64 n) three_halves) ≡ n * 3 / 2
  pub Le_refl : (a : ℕ) → Le a a

abbrev pub second : ℕ
second = 1000000000

module _ (fp : Float64) where
  open fp use {of_int64, to_int64, pow, add, mul, five, half}

  -- `base` of `Delay`, with the wrap of the int64 product.
  unfoldable pub base : ℕ → ℕ
  base attempt =
      let a = if ltb attempt 1 then 1 else attempt in
      to_int64 (pow five (of_int64 (a - 1))) * second % 2 ^ 64

  -- `Delay`, in nanoseconds; `r` is what rand.Float64() drew.
  unfoldable pub delay : ℕ → ℕ → ℕ
  delay attempt r = to_int64 (mul (of_int64 (base attempt)) (add half r))

  unfoldable pub next_at : ℕ → ℕ → ℕ → ℕ
  unfolding delay
  next_at now attempt r = now + delay attempt r

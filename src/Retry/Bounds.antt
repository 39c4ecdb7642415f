-- ===== src/Retry/Bounds.antt =====
-- The range of `Delay` and that its products do not overflow.
use processing_platform.Prelude.{
  ℕ, zero, suc, ◌-◌, ◌*◌, ◌/◌, ◌%◌, ◌^◌, ◌≤◌, ◌≡◌, arith, ltb, if◌then◌else◌,
}
use processing_platform.Retry.{Float64, second, base, delay}

pow-five-le : (n : ℕ) → n ≤ 8 → 5 ^ n ≤ 390625
pow-five-le zero h = omega arith
pow-five-le (suc zero) h = omega arith
pow-five-le (suc (suc zero)) h = omega arith
pow-five-le (suc (suc (suc zero))) h = omega arith
pow-five-le (suc (suc (suc (suc zero)))) h = omega arith
pow-five-le (suc (suc (suc (suc (suc zero))))) h = omega arith
pow-five-le (suc (suc (suc (suc (suc (suc zero)))))) h = omega arith
pow-five-le (suc (suc (suc (suc (suc (suc (suc zero))))))) h = omega arith
pow-five-le (suc (suc (suc (suc (suc (suc (suc (suc zero)))))))) h = omega arith
pow-five-le (suc (suc (suc (suc (suc (suc (suc (suc (suc n))))))))) h = absurd (omega arith)

attempt-one : (n : ℕ) → (if ltb (suc n) 1 then 1 else suc n) - 1 ≡ n
attempt-one n = ground arith

base-le : (n : ℕ) → n ≤ 8 → 5 ^ n * second ≤ 2 ^ 51
base-le n h = omega (arith, pow-five-le n h)

base-no_wrap : (n : ℕ) → n ≤ 8 → 5 ^ n * second % 2 ^ 64 ≡ 5 ^ n * second
base-no_wrap n h = omega (arith, pow-five-le n h)

module _ (fp : Float64) where
  base-eq : (n : ℕ) → n ≤ 8 → base fp (suc n) ≡ 5 ^ n * second
  unfolding base
  base-eq n h = rw (attempt-one n, fp.pow-five n (omega arith)) (base-no_wrap n h)

  -- For the retries 1 to 9 and a draw in [0, 1), the delay is at least half and at most three halves
  -- of 5^(attempt - 1) seconds.
  pub delay_bounds :
      (n r : ℕ)
      → n ≤ 8
      → fp.Unit01 r
      → (5 ^ n * second / 2 ≤ delay fp (suc n) r) × (delay fp (suc n) r ≤ 5 ^ n * second * 3 / 2)
  unfolding delay
  delay_bounds n r h u =
      let lower = fp.half-le-add r u in
      let upper = fp.add-le-three_halves r u in
      let fits = base-le n h in
      rw (base-eq n h, delay)
        (
          rw (← fp.mul-half (5 ^ n * second) fits)
              (fp.mul_mono _ _ _ fits (fp.Le_refl _) lower upper),
          rw (← fp.mul-three_halves (5 ^ n * second) fits)
              (fp.mul_mono _ _ _ fits lower upper (fp.Le_refl _)),
        )

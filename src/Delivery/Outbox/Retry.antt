-- ===== src/Delivery/Outbox/Retry.antt =====
-- The delays between attempts of `SqliteOutbox.failed` in delivery.py.
use ump.Prelude.{ℕ, zero, suc, ◌-◌, ◌*◌, ◌^◌, ◌≤◌, arith}
use ump.Delivery.Outbox.{min, retry_delay}

pow_pos : (n : ℕ) → 1 ≤ 2 ^ n
pow_pos zero = omega arith
pow_pos (suc n) = omega (arith, pow_pos n)

pow_mono : (m n : ℕ) → m ≤ n → 2 ^ m ≤ 2 ^ n
pow_mono zero n h = pow_pos n
pow_mono (suc m) zero h = elim h [ ]
pow_mono (suc m) (suc n) h = omega (arith, pow_mono m n (omega arith))

min_mono : (a b c : ℕ) → a ≤ b → min a c ≤ min b c
min_mono a b c h = ground arith

mul_mono : (k a b : ℕ) → a ≤ b → k * a ≤ k * b
mul_mono k a b h = grind arith

-- A delay is at most the maximum, is at least the base delay or the maximum, and never falls as the
-- attempts grow.
pub retry_delay_bounds :
    (attempts later base maximum : ℕ)
    → attempts ≤ later
    → (retry_delay attempts base maximum ≤ maximum)
      × (min base maximum ≤ retry_delay attempts base maximum)
      × (retry_delay attempts base maximum ≤ retry_delay later base maximum)
unfolding retry_delay
retry_delay_bounds n m base maximum h =
    let p = pow_pos (min (n - 1) 16) in
    let grows = mul_mono base 1 (2 ^ min (n - 1) 16) p in
    let up =
      pow_mono (min (n - 1) 16) (min (m - 1) 16) (min_mono (n - 1) (m - 1) 16 (omega arith)) in
    (
      ground arith,
      min_mono base (base * 2 ^ min (n - 1) 16) maximum (omega arith),
      min_mono (base * 2 ^ min (n - 1) 16) (base * 2 ^ min (m - 1) 16) maximum
          (mul_mono base (2 ^ min (n - 1) 16) (2 ^ min (m - 1) 16) up),
    )

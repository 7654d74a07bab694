-- ===== src/Words/Powers.antt =====
-- Powers of two.
use native.Mathlib.Nat.{pow-le-pow_right, pow-suc, mul_assoc}
use native.Mathlib.Omega.{pow_step}
use evmbt.Prelude.{ℕ, zero, suc, ◌+◌, ◌*◌, ◌^◌, ◌<◌, ◌≤◌, ◌≡◌, ◌∙◌, ap, arith}

pub lt_pow : (n : ℕ) → n < 2 ^ n
lt_pow zero = omega arith
lt_pow (suc n) = omega (arith, lt_pow n, pow_step 2 n)

pub one-le_pow : (n : ℕ) → 1 ≤ 2 ^ n
one-le_pow zero = omega arith
one-le_pow (suc n) = omega (arith, one-le_pow n, pow_step 2 n)

pub pow_mono : (n m : ℕ) → n ≤ m → 2 ^ n ≤ 2 ^ m
pow_mono n m h = pow-le-pow_right (omega arith) h

pub pow_add : (a b : ℕ) → 2 ^ (a + b) ≡ 2 ^ a * 2 ^ b
pow_add a zero = ap (λ n. 2 ^ n) {y = a} (omega arith) ∙ omega arith
pow_add a (suc b) =
    ap (λ n. 2 ^ n) {y = suc (a + b)} (omega arith)
    ∙ omega (
      arith,
      pow_step 2 (a + b),
      pow_add a b,
      ap (λ (n : ℕ). 2 ^ a * n) (pow-suc 2 b),
      mul_assoc (2 ^ a) (2 ^ b) 2,
    )

-- ===== src/Extend/High.antt =====
-- `xor` with the word of ones, and `or` with a mask of the high bits, as arithmetic.
use Prim.Native.Nat.{bit_or, bit_xor, bit_xor-bitwise, differ, max}
use native.Mathlib.Omega.{pow_step}
use evmbt.Words.Bits.{or-halves, or-zero, any_fuel, mod_double, twice}
use evmbt.Words.{one-le_pow}
use evmbt.Prelude.{ℕ, zero, suc, ◌+◌, ◌-◌, ◌*◌, ◌/◌, ◌%◌, ◌^◌, ◌<◌, ◌≡◌, ◌∙◌, refl, ap, arith}

xor-halves : (a b : ℕ) → bit_xor a b ≡ bit_xor (a / 2) (b / 2) * 2 + differ (a % 2) (b % 2)
xor-halves zero b = omega (arith, bit_xor-bitwise 0 b, bit_xor-bitwise 0 (b / 2))
xor-halves (suc a) b = omega (
  arith,
  bit_xor-bitwise (suc a) b,
  bit_xor-bitwise (suc a / 2) (b / 2),
  any_fuel (λ n. n) differ a (suc a / 2) (suc a / 2) (b / 2) (omega arith) (omega arith),
)

differ_one : (x : ℕ) → x < 2 → differ x 1 ≡ 1 - x
differ_one zero h = refl
differ_one (suc zero) h = refl
differ_one (suc (suc x)) h = absurd (omega arith)

-- `not` of a number of `k` bits.
pub xor-ones : (k a : ℕ) → a < 2 ^ k → bit_xor a (2 ^ k - 1) ≡ 2 ^ k - 1 - a
xor-ones zero zero h = bit_xor-bitwise 0 0
xor-ones zero (suc a) h = absurd (omega arith)
xor-ones (suc k) a h =
    let mask : (2 ^ suc k - 1) / 2 ≡ 2 ^ k - 1 = omega (arith, pow_step 2 k, one-le_pow k) in
    let ones : (2 ^ suc k - 1) % 2 ≡ 1 = omega (arith, pow_step 2 k, one-le_pow k) in
    omega (
      arith,
      xor-halves a (2 ^ suc k - 1),
      ap (λ n. bit_xor (a / 2) n) mask,
      xor-ones k (a / 2) (omega (arith, pow_step 2 k)),
      ap (λ n. differ (a % 2) n) ones,
      differ_one (a % 2) (omega arith),
      pow_step 2 k,
    )

max_one : (x : ℕ) → x < 2 → max x 1 ≡ 1
max_one zero h = refl
max_one (suc zero) h = refl
max_one (suc (suc x)) h = absurd (omega arith)

max_none : (x : ℕ) → max x 0 ≡ x
max_none x = omega arith

or-ones : (k a : ℕ) → a < 2 ^ k → bit_or a (2 ^ k - 1) ≡ 2 ^ k - 1
or-ones zero zero h = or-zero 0
or-ones zero (suc a) h = absurd (omega arith)
or-ones (suc k) a h =
    let mask : (2 ^ suc k - 1) / 2 ≡ 2 ^ k - 1 = omega (arith, pow_step 2 k, one-le_pow k) in
    let ones : (2 ^ suc k - 1) % 2 ≡ 1 = omega (arith, pow_step 2 k, one-le_pow k) in
    omega (
      arith,
      or-halves a (2 ^ suc k - 1),
      ap (λ n. bit_or (a / 2) n) mask,
      or-ones k (a / 2) (omega (arith, pow_step 2 k)),
      ap (λ n. max (a % 2) n) ones,
      max_one (a % 2) (omega arith),
      pow_step 2 k,
    )

-- `or` with the `k` bits from `s` on.
pub or-high :
    (s k a : ℕ) → a < 2 ^ (s + k) → bit_or a ((2 ^ k - 1) * 2 ^ s) ≡ (2 ^ k - 1) * 2 ^ s + a % 2 ^ s
or-high zero k a h =
    let mask : (2 ^ k - 1) * 2 ^ 0 ≡ 2 ^ k - 1 = omega arith in
    ap (λ n. bit_or a n) mask
    ∙ or-ones k a (omega (arith, h, ap (λ j. 2 ^ j) {x = 0 + k} {y = k} (omega arith)))
    ∙ omega arith
or-high (suc s) k a h =
    let mask = 2 ^ k - 1 in
    let half : mask * 2 ^ suc s / 2 ≡ mask * 2 ^ s = omega (arith, twice mask s) in
    let grow : 2 ^ (suc s + k) ≡ 2 ^ suc (s + k) = ap (λ j. 2 ^ j) (omega arith) in
    let half_fits : a / 2 < 2 ^ (s + k) = omega (arith, h, grow, pow_step 2 (s + k)) in
    let even : mask * 2 ^ suc s % 2 ≡ 0 = omega (arith, twice mask s) in
    omega (
      arith,
      or-halves a (mask * 2 ^ suc s),
      ap (λ n. bit_or (a / 2) n) half,
      ap (λ n. max (a % 2) n) even,
      max_none (a % 2),
      or-high s k (a / 2) half_fits,
      twice mask s,
      mod_double a s,
    )

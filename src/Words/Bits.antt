-- ===== src/Words/Bits.antt =====
-- `or` of numbers that share no bit, and `and` with a mask, as arithmetic.
use Prim.Native.Nat.{bit_and, bit_or, digits, bit_and-bitwise, bit_or-bitwise, min, max}
use native.Mathlib.Nat.{
  pow-suc, mul_assoc, mod-lt, mod-eq_of_lt, div-add-mod, mul-add-mod_self_left, div-div-eq-div-mul,
}
use native.Mathlib.Omega.{pow_step}
use evmbt.Words.Powers.{one-le_pow}
use evmbt.Prelude.{ℕ, zero, suc, ◌+◌, ◌-◌, ◌*◌, ◌/◌, ◌%◌, ◌^◌, ◌<◌, ◌≤◌, ◌≡◌, ◌∙◌, refl, ap, arith}

-- The native operations recur on the digits with fuel; any fuel that covers the number will do.
module _ (rest : ℕ → ℕ) (op : ℕ → ℕ → ℕ) where
  pub any_fuel : (n m a b : ℕ) → a ≤ n → a ≤ m → digits rest op n a b ≡ digits rest op m a b
  any_fuel zero zero a b h k = refl
  any_fuel zero (suc m) zero b h k = refl
  any_fuel zero (suc m) (suc a) b h k = absurd (omega arith)
  any_fuel (suc n) zero zero b h k = refl
  any_fuel (suc n) zero (suc a) b h k = absurd (omega arith)
  any_fuel (suc n) (suc m) zero b h k = refl
  any_fuel (suc n) (suc m) (suc a) b h k =
      omega (arith, any_fuel n m (suc a / 2) (b / 2) (omega arith) (omega arith))

pub or-halves : (a b : ℕ) → bit_or a b ≡ bit_or (a / 2) (b / 2) * 2 + max (a % 2) (b % 2)
or-halves zero b = omega (arith, bit_or-bitwise 0 b, bit_or-bitwise 0 (b / 2))
or-halves (suc a) b = omega (
  arith,
  bit_or-bitwise (suc a) b,
  bit_or-bitwise (suc a / 2) (b / 2),
  any_fuel (λ n. n) max a (suc a / 2) (suc a / 2) (b / 2) (omega arith) (omega arith),
)

pub and-halves : (a b : ℕ) → bit_and a b ≡ bit_and (a / 2) (b / 2) * 2 + min (a % 2) (b % 2)
and-halves zero b = omega (arith, bit_and-bitwise 0 b, bit_and-bitwise 0 (b / 2))
and-halves (suc a) b = omega (
  arith,
  bit_and-bitwise (suc a) b,
  bit_and-bitwise (suc a / 2) (b / 2),
  any_fuel (λ n. 0) min a (suc a / 2) (suc a / 2) (b / 2) (omega arith) (omega arith),
)

or_zero_upto : (n a : ℕ) → a ≤ n → bit_or a 0 ≡ a
or_zero_upto n zero h = bit_or-bitwise 0 0
or_zero_upto zero (suc a) h = absurd (omega arith)
or_zero_upto (suc n) (suc a) h =
    omega (arith, or-halves (suc a) 0, or_zero_upto n (suc a / 2) (omega arith))

pub or-zero : (a : ℕ) → bit_or a 0 ≡ a
or-zero a = or_zero_upto a a (omega arith)

and_zero_upto : (n a : ℕ) → a ≤ n → bit_and a 0 ≡ 0
and_zero_upto n zero h = bit_and-bitwise 0 0
and_zero_upto zero (suc a) h = absurd (omega arith)
and_zero_upto (suc n) (suc a) h =
    omega (arith, and-halves (suc a) 0, and_zero_upto n (suc a / 2) (omega arith))

pub and-zero : (a : ℕ) → bit_and a 0 ≡ 0
and-zero a = and_zero_upto a a (omega arith)

pub twice : (q k : ℕ) → q * 2 ^ suc k ≡ 2 * (q * 2 ^ k)
twice q k = omega (arith, ap (λ (n : ℕ). q * n) (pow-suc 2 k), mul_assoc q (2 ^ k) 2)

-- A number in the bits from `k` on, and one below them.
pub or_disjoint : (k q r : ℕ) → r < 2 ^ k → bit_or (q * 2 ^ k) r ≡ q * 2 ^ k + r
or_disjoint zero q r h =
    let z : r ≡ 0 = omega (arith, h) in ap (λ n. bit_or (q * 1) n) z ∙ or-zero (q * 1) ∙ omega arith
or_disjoint (suc k) q r h =
    let half : q * 2 ^ suc k / 2 ≡ q * 2 ^ k = omega (arith, twice q k) in
    let low : r / 2 < 2 ^ k = omega (arith, pow_step 2 k) in
    omega (
      arith,
      or-halves (q * 2 ^ suc k) r,
      ap (λ n. bit_or n (r / 2)) half,
      or_disjoint k q (r / 2) low,
      twice q k,
    )

pub mod_double : (a k : ℕ) → a % 2 ^ suc k ≡ a / 2 % 2 ^ k * 2 + a % 2
mod_double a k =
    let m = 2 ^ k in
    let q = a / 2 / m in
    let r = a / 2 % m * 2 + a % 2 in
    let small : r < 2 ^ suc k = omega (arith, pow_step 2 k, mod-lt (a / 2) (one-le_pow k)) in
    let split : a ≡ 2 ^ suc k * q + r =
      omega (arith, div-add-mod (a / 2) m, ap (λ (n : ℕ). n * q) (pow_step 2 k), mul_assoc 2 m q) in
    ap (λ n. n % 2 ^ suc k) split ∙ mul-add-mod_self_left (2 ^ suc k) q r ∙ mod-eq_of_lt small

-- `and` with a mask of `k` low bits.
pub and_low : (k a : ℕ) → bit_and a (2 ^ k - 1) ≡ a % 2 ^ k
and_low zero a = and-zero a ∙ omega arith
and_low (suc k) a =
    let m = 2 ^ k in
    let mask : (2 ^ suc k - 1) / 2 ≡ m - 1 = omega (arith, pow_step 2 k, one-le_pow k) in
    let ones : (2 ^ suc k - 1) % 2 ≡ 1 = omega (arith, pow_step 2 k, one-le_pow k) in
    omega (
      arith,
      and-halves a (2 ^ suc k - 1),
      ap (λ n. bit_and (a / 2) n) mask,
      and_low k (a / 2),
      ones,
      mod_double a k,
    )

-- `and` with a mask of `k` bits from `s` on.
pub and_field : (s k a : ℕ) → bit_and a ((2 ^ k - 1) * 2 ^ s) ≡ a / 2 ^ s % 2 ^ k * 2 ^ s
and_field zero k a =
    let mask : (2 ^ k - 1) * 2 ^ 0 ≡ 2 ^ k - 1 = omega arith in
    let whole : a / 2 ^ 0 ≡ a = omega arith in
    ap (λ n. bit_and a n) mask ∙ and_low k a ∙ omega (arith, ap (λ n. n % 2 ^ k) whole)
and_field (suc s) k a =
    let mask = 2 ^ k - 1 in
    let half : mask * 2 ^ suc s / 2 ≡ mask * 2 ^ s = omega (arith, twice mask s) in
    let shift : a / 2 / 2 ^ s ≡ a / 2 ^ suc s =
      div-div-eq-div-mul a 2 (2 ^ s) ∙ ap (λ n. a / n) (omega (arith, pow_step 2 s)) in
    let field = a / 2 ^ suc s % 2 ^ k in
    omega (
      arith,
      and-halves a (mask * 2 ^ suc s),
      ap (λ n. bit_and (a / 2) n) half,
      and_field s k (a / 2),
      ap (λ n. n % 2 ^ k * 2 ^ s) shift,
      twice mask s,
      twice field s,
    )

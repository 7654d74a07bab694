-- ===== src/Lift/Bounds.antt =====
-- Widths of the results of the integer operations, for the evaluator.
use Prim.Native.Nat.{
  bit_and, bit_or, bit_xor, digits, differ, bit_and-bitwise, bit_or-bitwise, bit_xor-bitwise,
}
use native.Mathlib.Nat.{one-le-pow, mod-lt, mod-le, div-le_self}
use native.Mathlib.Omega.{pow_step}
use evmbt.Prelude.{
  ℕ, zero, suc, ◌-◌, ◌/◌, ◌%◌, ◌^◌, ◌<◌, ◌≤◌, min, max, arith, Bool, true, false, if◌then◌else◌,
  Bool-cases, inl, inr,
}
use evmbt.Lift.Machine.{bit, is_negative, magnitude, signed_div, signed_rem, signed_shift}

pub pow_pos : (w : ℕ) → 0 < 2 ^ w
pow_pos w = one-le-pow w 2 (omega arith)

pub mod_fits : (w n : ℕ) → n % 2 ^ w < 2 ^ w
mod_fits w n = mod-lt n (pow_pos w)

pub bit_fits : (b : Bool) → bit b < 2 ^ 1
bit_fits true = omega arith
bit_fits false = omega arith

pub if_fits : (c : Bool) (x y k : ℕ) → x < k → y < k → (if c then x else y) < k
if_fits true x y k h h' = h
if_fits false x y k h h' = h'

magnitude_fits : (w n : ℕ) → n < 2 ^ w → magnitude w n < 2 ^ w
magnitude_fits w n h = elim (Bool-cases (is_negative w n)) [
  | inl neg ↦ rw neg (mod_fits w _)
  | inr pos ↦ rw pos h
]

pub signed_div_fits : (w m n : ℕ) → m < 2 ^ w → signed_div w m n < 2 ^ w
signed_div_fits w m n h =
    let q : magnitude w m / magnitude w n < 2 ^ w =
      omega (arith, div-le_self (magnitude w m) (magnitude w n), magnitude_fits w m h) in
    let minus = mod_fits w (2 ^ w - magnitude w m / magnitude w n) in
    if_fits (is_negative w m) _ _ (2 ^ w) (if_fits (is_negative w n) _ _ (2 ^ w) q minus)
      (if_fits (is_negative w n) _ _ (2 ^ w) minus q)

pub signed_rem_fits : (w m n : ℕ) → m < 2 ^ w → signed_rem w m n < 2 ^ w
signed_rem_fits w m n h = ground (
  arith,
  mod_fits w (2 ^ w - magnitude w m % magnitude w n),
  mod-le (magnitude w m) (magnitude w n),
  magnitude_fits w m h,
)

pub signed_shift_fits : (w n s : ℕ) → n < 2 ^ w → signed_shift w n s < 2 ^ w
signed_shift_fits w n s h = ground (arith, pow_pos w, div-le_self n (2 ^ s))

-- A digitwise operation has no more digits than its arguments.
digits_fits :
    (z : ℕ → ℕ) (f : ℕ → ℕ → ℕ)
    → ((b : ℕ) → z b ≤ b)
    → ((x y : ℕ) → x < 2 → y < 2 → f x y < 2)
    → (fuel w a b : ℕ) → a < 2 ^ w
    → b < 2 ^ w
    → digits z f fuel a b < 2 ^ w
digits_fits z f hz hf zero w a b p q = omega (arith, hz b)
digits_fits z f hz hf (suc n) w zero b p q = omega (arith, hz b)
digits_fits z f hz hf (suc n) zero (suc a) b p q = absurd (omega (arith, p))
digits_fits z f hz hf (suc n) (suc w) (suc a) b p q = omega (
  arith,
  pow_step 2 w,
  digits_fits z f hz hf n w (suc a / 2) (b / 2) (omega (arith, pow_step 2 w))
      (omega (arith, pow_step 2 w)),
  hf (suc a % 2) (b % 2) (omega arith) (omega arith),
)

differ_fits : (x y : ℕ) → x < 2 → y < 2 → differ x y < 2
differ_fits zero y h k = k
differ_fits (suc x) zero h k = h
differ_fits (suc zero) (suc zero) h k = omega arith
differ_fits (suc zero) (suc (suc y)) h k = absurd (omega arith)
differ_fits (suc (suc x)) (suc y) h k = absurd (omega arith)

pub bit_and_fits : (w m n : ℕ) → m < 2 ^ w → n < 2 ^ w → bit_and m n < 2 ^ w
bit_and_fits w m n h k =
    simp bit_and-bitwise
      (digits_fits (λ b. zero) min (λ b. omega arith) (λ x y p q. omega arith) m w m n h k)

pub bit_or_fits : (w m n : ℕ) → m < 2 ^ w → n < 2 ^ w → bit_or m n < 2 ^ w
bit_or_fits w m n h k =
    simp bit_or-bitwise
      (digits_fits (λ b. b) max (λ b. omega arith) (λ x y p q. omega arith) m w m n h k)

pub bit_xor_fits : (w m n : ℕ) → m < 2 ^ w → n < 2 ^ w → bit_xor m n < 2 ^ w
bit_xor_fits w m n h k =
    simp bit_xor-bitwise (digits_fits (λ b. b) differ (λ b. omega arith) differ_fits m w m n h k)

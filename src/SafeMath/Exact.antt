-- ===== src/SafeMath/Exact.antt =====
-- The checked operations against the exact ones on numbers.
use native.Mathlib.Nat.{div-lt_iff_lt-mul, mod-lt, mod-eq_of_lt, mul-div_cancel_left}
use evmbt.Prelude.{
  ℕ, ◌+◌, ◌-◌, ◌*◌, ◌/◌, ◌^◌, ◌<◌, ◌≤◌, ◌≡◌, ◌≢◌, ◌∙◌, refl, ap, Option, none, some, ltb, leb, ◌==◌,
  if◌then◌else◌, Bool-cases, inl, inr, eq_of_beq, ne_of_beq, arith,
}
use evmbt.Words.{mul_word}
use evmbt.SafeMath.Defs.{
  Outcome, returned, reverted, safe_add, safe_sub, safe_mul, safe_udiv, BinaryOpcode, add_op,
  sub_op, mul_op, udiv_op, other_op, safe_func,
}

-- The result on numbers, where it is a word.
abbrev pub exact : BinaryOpcode → ℕ → ℕ → Option ℕ
exact add_op a b = if ltb (a + b) (2 ^ 256) then some (a + b) else none
exact sub_op a b = if leb b a then some (a - b) else none
exact mul_op a b = if ltb (a * b) (2 ^ 256) then some (a * b) else none
exact udiv_op a b = if b == 0 then none else some (a / b)
exact (other_op n) a b = none

abbrev pub outcome : Option ℕ → Outcome
outcome (some n) = returned n
outcome none = reverted 0

safe_add_lem : (a b : ℕ) → a < 2 ^ 256 → b < 2 ^ 256 → safe_add a b ≡ outcome (exact add_op a b)
unfolding safe_add
safe_add_lem a b h k = ground arith

safe_sub_lem : (a b : ℕ) → a < 2 ^ 256 → safe_sub a b ≡ outcome (exact sub_op a b)
unfolding safe_sub
safe_sub_lem a b h = ground arith

safe_udiv_lem : (a b : ℕ) → safe_udiv a b ≡ outcome (exact udiv_op a b)
unfolding safe_udiv
safe_udiv_lem a b = ground arith

quotient_back : (a b : ℕ) → a ≢ 0 → a * b < 2 ^ 256 → mul_word 256 a b / a ≡ b
quotient_back a b n h =
    let p : 0 < a = omega arith in ap (λ k. k / a) (mod-eq_of_lt h) ∙ mul-div_cancel_left b p

quotient_lost : (a b : ℕ) → a ≢ 0 → 2 ^ 256 ≤ a * b → mul_word 256 a b / a < b
quotient_lost a b n h =
    let below : mul_word 256 a b < b * a =
      grind (arith, mod-lt (a * b) {m = 2 ^ 256} (omega arith)) in
    (div-lt_iff_lt-mul {k = a} (omega arith)).1 below

safe_mul_zero : (b : ℕ) → safe_mul 0 b ≡ returned 0
unfolding safe_mul
safe_mul_zero b = refl

safe_mul_fits : (a b : ℕ) → a ≢ 0 → a * b < 2 ^ 256 → safe_mul a b ≡ returned (a * b)
unfolding safe_mul
safe_mul_fits a b n h = ground (arith, quotient_back a b n h, mod-eq_of_lt h)

safe_mul_wraps : (a b : ℕ) → a ≢ 0 → 2 ^ 256 ≤ a * b → safe_mul a b ≡ reverted 0
unfolding safe_mul
safe_mul_wraps a b n h = ground (arith, quotient_lost a b n h)

safe_mul_lem : (a b : ℕ) → safe_mul a b ≡ outcome (exact mul_op a b)
safe_mul_lem a b = elim (Bool-cases (a == 0)) [
  | inl z ↦
      let e : a ≡ 0 = eq_of_beq a 0 z in
      let none_lost : a * b ≡ 0 = ap (λ n. n * b) e ∙ omega arith in
      ap (λ n. safe_mul n b) e ∙ safe_mul_zero b ∙ ground arith
  | inr z ↦
      let n : a ≢ 0 = ne_of_beq a 0 z in
      elim (Bool-cases (ltb (a * b) (2 ^ 256))) [
        | inl lt ↦ safe_mul_fits a b n (ground arith) ∙ ground arith
        | inr ge ↦ safe_mul_wraps a b n (ground arith) ∙ ground arith
      ]
]

abbrev pub IsArithmetic : BinaryOpcode → Type 0
IsArithmetic (other_op n) = ⊥
IsArithmetic op = Unit

-- The function that replaces an addition, a subtraction, a product or an unsigned quotient of words
-- returns the exact result where that is a word, and reverts where it is not: a sum or a product
-- of at least 2^256, a negative difference, or a quotient by 0.
pub safe_func-exact :
    (op : BinaryOpcode) (a b : ℕ)
    → IsArithmetic op
    → a < 2 ^ 256
    → b < 2 ^ 256
    → (f : ℕ → ℕ → Outcome) × (safe_func op ≡ some f) × (f a b ≡ outcome (exact op a b))
unfolding safe_func
safe_func-exact add_op a b ok h k = (safe_add, refl, safe_add_lem a b h k)
safe_func-exact sub_op a b ok h k = (safe_sub, refl, safe_sub_lem a b h)
safe_func-exact mul_op a b ok h k = (safe_mul, refl, safe_mul_lem a b)
safe_func-exact udiv_op a b ok h k = (safe_udiv, refl, safe_udiv_lem a b)
safe_func-exact (other_op n) a b ok h k = absurd ok

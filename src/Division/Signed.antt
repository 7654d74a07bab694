-- ===== src/Division/Signed.antt =====
-- The emitted divisions of signed words, and the ones that keep a single result.
use evmbt.Prelude.{
  ℕ, ◌/◌, ◌%◌, ◌^◌, ◌<◌, ◌≡◌, ◌≢◌, ◌∙◌, refl, ap, some, true, false, arith, Bool, if◌then◌else◌,
  ◌>>=◌,
}
use evmbt.Lift.Machine.{is_negative, negate, magnitude, signed_lt, signed_div, signed_rem}
use evmbt.Words.{sub_word}
use evmbt.Division.Unsigned.{udivrem-divides}
use evmbt.Division.Defs.{udivrem, absolute, with_signs, udiv, urem, sdivrem, sdiv, srem}

pub udiv-quotient : (x y : ℕ) → x < 2 ^ 256 → 0 < y → udiv x y ≡ some (x / y)
unfolding udiv
udiv-quotient x y h p = ap (λ o. o >>= (λ pair. some pair.0)) (udivrem-divides 256 x y h p)

pub urem-remainder : (w x y : ℕ) → x < 2 ^ w → 0 < y → urem w x y ≡ some (x % y)
unfolding urem
urem-remainder w x y h p = ap (λ o. o >>= (λ pair. some pair.1)) (udivrem-divides w x y h p)

-- The emitted test and difference are the word's sign and its magnitude.
below_zero : (x : ℕ) → x < 2 ^ 256 → signed_lt 256 x 0 ≡ is_negative 256 x
below_zero x h = ground arith

negate_sub : (x : ℕ) → sub_word 256 0 x ≡ negate 256 x
negate_sub x = ap (λ n. n % 2 ^ 256) (omega arith)

absolute_is : (x : ℕ) → x < 2 ^ 256 → absolute (signed_lt 256 x 0) x ≡ magnitude 256 x
unfolding absolute
absolute_is x h = ground (arith, below_zero x h)

magnitude_fits : (x : ℕ) → x < 2 ^ 256 → magnitude 256 x < 2 ^ 256
magnitude_fits x h = ground arith

magnitude_positive : (x : ℕ) → x < 2 ^ 256 → x ≢ 0 → 0 < magnitude 256 x
magnitude_positive x h n = ground arith

with_signs_by :
    (b c : Bool) (q r : ℕ)
    → with_signs b c (q, r) ≡ (
      if b then (if c then q else negate 256 q) else (if c then negate 256 q else q),
      if b then negate 256 r else r,
    )
unfolding with_signs
with_signs_by true true q r = ap (λ n. (q, n)) (negate_sub r)
with_signs_by true false q r =
    ap (λ n. (n, sub_word 256 0 r)) (negate_sub q) ∙ ap (λ n. (negate 256 q, n)) (negate_sub r)
with_signs_by false true q r = ap (λ n. (n, r)) (negate_sub q)
with_signs_by false false q r = refl

with_signs_is :
    (x y : ℕ)
    → with_signs
        (is_negative 256 x)
        (is_negative 256 y)
        (magnitude 256 x / magnitude 256 y, magnitude 256 x % magnitude 256 y)
      ≡ (signed_div 256 x y, signed_rem 256 x y)
with_signs_is x y =
    with_signs_by (is_negative 256 x) (is_negative 256 y) (magnitude 256 x / magnitude 256 y)
      (magnitude 256 x % magnitude 256 y)

sdivrem_call :
    (x y : ℕ) (res : ℕ × ℕ)
    → udivrem 256 (absolute (signed_lt 256 x 0) x) (absolute (signed_lt 256 y 0) y) ≡ some res
    → sdivrem x y ≡ some (with_signs (signed_lt 256 x 0) (signed_lt 256 y 0) res)
unfolding sdivrem
sdivrem_call x y res e =
    ap (λ o. o >>= (λ p. some (with_signs (signed_lt 256 x 0) (signed_lt 256 y 0) p))) e

-- `evm.sdivrem` gives LLVM's signed quotient and remainder of every two words with a divisor that
-- is not 0, also where the quotient -2^255 / -1 overflows and wraps.
pub sdivrem-signed :
    (x y : ℕ)
    → x < 2 ^ 256
    → y < 2 ^ 256
    → y ≢ 0
    → sdivrem x y ≡ some (signed_div 256 x y, signed_rem 256 x y)
sdivrem-signed x y h k n =
    let q = magnitude 256 x / magnitude 256 y in
    let r = magnitude 256 x % magnitude 256 y in
    let call =
      ap (λ a. udivrem 256 a (absolute (signed_lt 256 y 0) y)) (absolute_is x h)
      ∙ ap (λ a. udivrem 256 (magnitude 256 x) a) (absolute_is y k)
      ∙ udivrem-divides 256 (magnitude 256 x) (magnitude 256 y) (magnitude_fits x h)
          (magnitude_positive y k n) in
    sdivrem_call x y (q, r) call
    ∙ ap (λ b. some (with_signs b (signed_lt 256 y 0) (q, r))) (below_zero x h)
    ∙ ap (λ b. some (with_signs (is_negative 256 x) b (q, r))) (below_zero y k)
    ∙ ap some (with_signs_is x y)

pub sdiv-signed_div :
    (x y : ℕ) → x < 2 ^ 256 → y < 2 ^ 256 → y ≢ 0 → sdiv x y ≡ some (signed_div 256 x y)
unfolding sdiv
sdiv-signed_div x y h k n = ap (λ o. o >>= (λ pair. some pair.0)) (sdivrem-signed x y h k n)

pub srem-signed_rem :
    (x y : ℕ) → x < 2 ^ 256 → y < 2 ^ 256 → y ≢ 0 → srem x y ≡ some (signed_rem 256 x y)
unfolding srem
srem-signed_rem x y h k n = ap (λ o. o >>= (λ pair. some pair.1)) (sdivrem-signed x y h k n)

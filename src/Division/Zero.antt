-- ===== src/Division/Zero.antt =====
-- The emitted division by 0.
use native.Mathlib.Nat.{mod-eq_of_lt}
use native.Mathlib.Omega.{pow_step}
use Prim.Native.Nat.{bit_or}
use evmbt.Prelude.{ℕ, zero, suc, ◌+◌, ◌-◌, ◌*◌, ◌%◌, ◌^◌, ◌<◌, ◌≤◌, ◌≡◌, ◌∙◌, ap, some, arith}
use evmbt.Words.{shl_word, one-le_pow, pow_mono}
use evmbt.Division.Defs.{shift_loop, div_loop, udivrem}
use evmbt.Division.Leading.{Digits, ctlz-Digits}
use evmbt.Division.Unsigned.{
  pair_eq, or_one, shift_loop-shl, div_loop_large, div_loop_last_large, udivrem_main,
}

-- Every round takes 0 away and puts a 1 into the quotient.
div_loop_ones :
    (w i n fuel r : ℕ)
    → suc n + i ≤ w
    → i ≤ fuel
    → div_loop w (suc fuel) 0 r i (2 ^ suc n - 2) ≡ some (2 ^ (suc n + i) - 1, r)
div_loop_ones w zero n fuel r h f =
    let even : (2 ^ suc n - 2) % 2 ≡ 0 = omega (arith, pow_step 2 n) in
    let ones : bit_or (2 ^ suc n - 2) 1 ≡ 2 ^ (suc n + 0) - 1 =
      or_one (2 ^ suc n - 2) even
      ∙ omega (
        arith,
        pow_step 2 n,
        one-le_pow n,
        ap (λ k. 2 ^ k) {x = suc n + 0} {y = suc n} (omega arith),
      ) in
    div_loop_last_large w fuel 0 r (2 ^ suc n - 2) (omega arith) ∙ pair_eq ones (omega arith)
div_loop_ones w (suc i) n zero r h f = absurd (omega arith)
div_loop_ones w (suc i) n (suc fuel) r h f =
    let q = 2 ^ suc n - 2 in
    let even : q % 2 ≡ 0 = omega (arith, pow_step 2 n) in
    let room : 2 ^ suc (suc n) ≤ 2 ^ w = pow_mono (suc (suc n)) w (omega arith) in
    let next : shl_word w (bit_or q 1) 1 ≡ 2 ^ suc (suc n) - 2 =
      ap (λ k. k * 2 % 2 ^ w) (or_one q even)
      ∙ mod-eq_of_lt (omega (arith, pow_step 2 (suc n), pow_step 2 n, one-le_pow n))
      ∙ omega (arith, pow_step 2 (suc n), pow_step 2 n, one-le_pow n) in
    div_loop_large w (suc fuel) 0 r i q (omega arith)
    ∙ ap (λ k. div_loop w (suc fuel) 0 k i (shl_word w (bit_or q 1) 1)) {x = r - 0} {y = r}
        (omega arith)
    ∙ ap (λ k. div_loop w (suc fuel) 0 r i k) next
    ∙ div_loop_ones w i (suc n) fuel r (omega arith) (omega arith)
    ∙ ap (λ k. some (2 ^ k - 1, r)) (omega arith)

-- `evm.udivrem` of a word of `m` binary digits, fewer than `w`, by 0 gives the quotient
-- 2^(m + 1) - 1 and the word itself as the remainder.
pub udivrem-zero : (w m x : ℕ) → Digits x m → m < w → udivrem w x 0 ≡ some (2 ^ suc m - 1, x)
udivrem-zero w m x d h =
    let k : w - 0 - (w - m) ≡ m = omega arith in
    udivrem_main w x 0 (w - 0) (w - m) 0 (omega arith)
      (ctlz-Digits w 0 0 (omega arith, omega arith) (omega arith))
      (ctlz-Digits w m x d (omega arith)) (omega arith)
      (ap (λ j. shift_loop w (suc w) j 0) k
        ∙ shift_loop-shl w m w 0 (omega arith) (omega arith) (omega (arith, one-le_pow w))
        ∙ ap some (omega arith))
    ∙ ap (λ j. div_loop w (suc w) 0 x j 0) k
    ∙ div_loop_ones w m 0 w x (omega arith) (omega arith)
    ∙ ap (λ j. some (2 ^ j - 1, x)) (omega arith)

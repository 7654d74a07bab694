-- ===== src/Division/Unsigned.antt =====
-- The emitted division `evm.udivrem` against `/` and `%`.
use native.Mathlib.Nat.{
  mod-eq_of_lt, mul_assoc, add-mul-div_left, add-mul-mod_self_left, div-eq_of_lt,
}
use native.Mathlib.Omega.{pow_step}
use evmbt.Prelude.{
  ℕ, zero, suc, ◌+◌, ◌-◌, ◌*◌, ◌/◌, ◌%◌, ◌^◌, ◌<◌, ◌≤◌, ◌≡◌, ◌∙◌, refl, sym, ap, Option, some,
  arith, Bool-cases, inl, inr, leb,
}
use Prim.Native.Nat.{bit_or}
use evmbt.Words.{shl_word, sub_word-le, lt_pow, one-le_pow, pow_mono, pow_add}
use evmbt.Words.Bits.{or_disjoint}
use evmbt.Division.Leading.{Digits, Digits-positive, Digits-mono, fits-Digits, ctlz-Digits}
use evmbt.Division.Defs.{ctlz, shift_loop, div_loop, udivrem}

double_pow : (y k : ℕ) → y * 2 ^ suc k ≡ y * 2 * 2 ^ k
double_pow y k = omega (arith, ap (λ (n : ℕ). y * n) (pow_step 2 k), mul_assoc y 2 (2 ^ k))

shift_loop_next :
    (w fuel i y : ℕ)
    → suc i < 2 ^ w
    → y * 2 < 2 ^ w
    → shift_loop w (suc fuel) (suc i) y ≡ shift_loop w fuel i (y * 2)
unfolding shift_loop
shift_loop_next w fuel i y h l =
    ground (arith, sub_word-le w (suc i) 1 h (omega arith), mod-eq_of_lt l)

shift_loop_end : (w fuel y : ℕ) → shift_loop w (suc fuel) 0 y ≡ some y
unfolding shift_loop
shift_loop_end w fuel y = refl

pub shift_loop-shl :
    (w i fuel y : ℕ)
    → i ≤ fuel
    → i ≤ w
    → y * 2 ^ i < 2 ^ w
    → shift_loop w (suc fuel) i y ≡ some (y * 2 ^ i)
shift_loop-shl w zero fuel y f l h = shift_loop_end w fuel y ∙ ap some (omega arith)
shift_loop-shl w (suc i) zero y f l h = absurd (omega arith)
shift_loop-shl w (suc i) (suc fuel) y f l h =
    let fits : y * 2 * 2 ^ i < 2 ^ w = omega (arith, double_pow y i) in
    let one : y * 2 < 2 ^ w = grind (arith, one-le_pow i) in
    shift_loop_next w (suc fuel) i y (omega (arith, lt_pow w)) one
    ∙ shift_loop-shl w i fuel (y * 2) (omega arith) (omega arith) fits
    ∙ ap some (sym (double_pow y i))

pub div_loop_last_large :
    (w fuel y r q : ℕ) → y ≤ r → div_loop w (suc fuel) y r 0 q ≡ some (bit_or q 1, r - y)
unfolding div_loop
div_loop_last_large w fuel y r q h = ground arith

div_loop_last_small : (w fuel y r q : ℕ) → r < y → div_loop w (suc fuel) y r 0 q ≡ some (q, r)
unfolding div_loop
div_loop_last_small w fuel y r q h = ground arith

pub div_loop_large :
    (w fuel y r i q : ℕ)
    → y ≤ r
    → div_loop w (suc fuel) y r (suc i) q
      ≡ div_loop w fuel (y / 2) (r - y) i (shl_word w (bit_or q 1) 1)
unfolding div_loop
div_loop_large w fuel y r i q h = ground arith

div_loop_small :
    (w fuel y r i q : ℕ)
    → r < y
    → div_loop w (suc fuel) y r (suc i) q ≡ div_loop w fuel (y / 2) r i (shl_word w q 1)
unfolding div_loop
div_loop_small w fuel y r i q h = ground arith

pub or_one : (q : ℕ) → q % 2 ≡ 0 → bit_or q 1 ≡ q + 1
or_one q h =
    let even : q / 2 * 2 ^ 1 ≡ q = omega arith in
    ap (λ n. bit_or n 1) (sym even) ∙ or_disjoint 1 (q / 2) 1 (omega arith) ∙ omega arith

pub pair_eq : {a b c d : ℕ} → a ≡ c → b ≡ d → ◌≡◌ {A = Option (ℕ × ℕ)} (some (a, b)) (some (c, d))
pair_eq h k = rw h (rw k refl)

-- `m` times the divisor taken away.
take_multiple :
    (y m r : ℕ) → 0 < y → y * m ≤ r → (r / y ≡ (r - y * m) / y + m) × (r % y ≡ (r - y * m) % y)
take_multiple y m r h l =
    let split : r ≡ r - y * m + y * m = omega arith in
    (
      ap (λ n. n / y) split ∙ add-mul-div_left (r - y * m) m h,
      ap (λ n. n % y) split ∙ add-mul-mod_self_left (r - y * m) y m,
    )

-- The rounds from a shift of `i` on, with the quotient's digits so far in `q`.
pub div_loop-divides :
    (w i n fuel y r q : ℕ)
    → 0 < y
    → r < 2 * (y * 2 ^ i)
    → q % 2 ≡ 0
    → q + 2 ≤ 2 ^ n
    → n + i ≡ w
    → i ≤ fuel
    → div_loop w (suc fuel) (y * 2 ^ i) r i q ≡ some (q * 2 ^ i + r / y, r % y)
div_loop-divides w zero n fuel y r q p h e b s f =
    let whole : y * 2 ^ 0 ≡ y = omega arith in
    ap (λ k. div_loop w (suc fuel) k r 0 q) whole ∙ elim (Bool-cases (leb y r)) [
      | inl le ↦
          let large : y ≤ r = ground arith in
          let t = take_multiple y 1 r p (omega arith) in
          let rest : r - y * 1 < y = omega arith in
          let one : r / y ≡ 1 = t.0 ∙ ap (λ k. k + 1) (div-eq_of_lt rest) in
          let left : r - y ≡ r % y = omega (arith, t.1, mod-eq_of_lt rest) in
          div_loop_last_large w fuel y r q large ∙ pair_eq (or_one q e ∙ omega (arith, one)) left
      | inr gt ↦
          let small : r < y = ground arith in
          div_loop_last_small w fuel y r q small
          ∙ pair_eq (omega (arith, div-eq_of_lt small)) (sym (mod-eq_of_lt small))
    ]
div_loop-divides w (suc i) n zero y r q p h e b s f = absurd (omega arith)
div_loop-divides w (suc i) n (suc fuel) y r q p h e b s f =
    let top = y * 2 ^ suc i in
    let half : top / 2 ≡ y * 2 ^ i = omega (arith, double_pow y i) in
    let room : 2 ^ suc n ≤ 2 ^ w = pow_mono (suc n) w (omega arith) in
    elim (Bool-cases (leb top r)) [
      | inl le ↦
          let large : top ≤ r = ground arith in
          let fits : shl_word w (bit_or q 1) 1 ≡ (q + 1) * 2 =
            ap (λ n. n * 2 % 2 ^ w) (or_one q e) ∙ mod-eq_of_lt (omega (arith, pow_step 2 n)) in
          div_loop_large w (suc fuel) top r i q large
          ∙ ap (λ k. div_loop w (suc fuel) k (r - top) i (shl_word w (bit_or q 1) 1)) half
          ∙ ap (λ k. div_loop w (suc fuel) (y * 2 ^ i) (r - top) i k) fits
          ∙ div_loop-divides w i (suc n) fuel y (r - top) ((q + 1) * 2) p
              (omega (arith, double_pow y i)) (omega arith) (omega (arith, pow_step 2 n))
              (omega arith) (omega arith)
          ∙ (let t = take_multiple y (2 ^ suc i) r p large in
              let more : (q + 1) * 2 * 2 ^ i ≡ q * 2 ^ suc i + 2 ^ suc i =
                sym (double_pow (q + 1) i) ∙ grind arith in
              pair_eq (omega (arith, more, t.0)) (sym t.1))
      | inr gt ↦
          let small : r < top = ground arith in
          let fits : shl_word w q 1 ≡ q * 2 = mod-eq_of_lt (omega (arith, pow_step 2 n)) in
          div_loop_small w (suc fuel) top r i q small
          ∙ ap (λ k. div_loop w (suc fuel) k r i (shl_word w q 1)) half
          ∙ ap (λ k. div_loop w (suc fuel) (y * 2 ^ i) r i k) fits
          ∙ div_loop-divides w i (suc n) fuel y r (q * 2) p (omega (arith, double_pow y i))
              (omega arith) (omega (arith, pow_step 2 n)) (omega arith) (omega arith)
          ∙ ap (λ k. some (k + r / y, r % y)) (sym (double_pow q i))
    ]

udivrem_small : (w x y : ℕ) → x < y → udivrem w x y ≡ some (0, x)
unfolding udivrem
udivrem_small w x y h = ground arith

pub udivrem_main :
    (w x y a b s : ℕ)
    → y ≤ x
    → ctlz w y ≡ some a
    → ctlz w x ≡ some b
    → b ≤ a
    → shift_loop w (suc w) (a - b) y ≡ some s
    → udivrem w x y ≡ div_loop w (suc w) s x (a - b) 0
unfolding udivrem
udivrem_main w x y a b s h p q l r = ground arith

mul_mono : (a b c : ℕ) → a ≤ b → a * c ≤ b * c
mul_mono a b c h = grind arith

divide_Digits :
    (w x y m n : ℕ)
    → 0 < y
    → y ≤ x
    → m ≤ w
    → Digits x m
    → Digits y n
    → udivrem w x y ≡ some (x / y, x % y)
divide_Digits w x y m n p l a d e =
    let n-le-m = Digits-mono y x n m l e d in
    let pos = Digits-positive y n p e in
    let k = w - n - (w - m) in
    let shift : n + k ≡ m = omega arith in
    let whole : 2 ^ m ≡ 2 ^ n * 2 ^ k = ap (λ j. 2 ^ j) (sym shift) ∙ pow_add n k in
    let below : y * 2 ^ k < 2 ^ m = grind (arith, e.0, one-le_pow k) in
    let above : 2 ^ m ≤ 2 * (y * 2 ^ k) =
      omega (arith, whole, mul_mono (2 ^ n) (2 * y) (2 ^ k) pos.1, mul_assoc 2 y (2 ^ k)) in
    let room : 2 ^ 1 ≤ 2 ^ (w - k) = pow_mono 1 (w - k) (omega (arith, pos.0)) in
    udivrem_main w x y (w - n) (w - m) (y * 2 ^ k) l (ctlz-Digits w n y e (omega arith))
      (ctlz-Digits w m x d a) (omega arith)
      (shift_loop-shl w k w y (omega arith) (omega arith) (omega (arith, pow_mono m w a)))
    ∙ div_loop-divides w k (w - k) w y x 0 p (omega (arith, d.0)) refl (omega arith) (omega arith)
        (omega arith)
    ∙ ap (λ j. some (j, x % y)) (omega arith)

-- `evm.udivrem` gives the quotient and the remainder of every two words with a divisor that is
-- not 0: it returns, and no instruction of it wraps that must not.
pub udivrem-divides : (w x y : ℕ) → x < 2 ^ w → 0 < y → udivrem w x y ≡ some (x / y, x % y)
udivrem-divides w x y h p = elim (Bool-cases (leb y x)) [
  | inl le ↦
      let l : y ≤ x = ground arith in
      let dx = fits-Digits w x h in
      let dy = fits-Digits w y (omega arith) in divide_Digits w x y dx.0 dy.0 p l dx.1 dx.2 dy.2
  | inr gt ↦
      let small : x < y = ground arith in
      udivrem_small w x y small ∙ pair_eq (sym (div-eq_of_lt small)) (sym (mod-eq_of_lt small))
]

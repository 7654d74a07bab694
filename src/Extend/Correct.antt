-- ===== src/Extend/Correct.antt =====
-- The emitted SIGNEXTEND against the number that the low bytes stand for.
use Prim.Native.Nat.{bit_and, bit_or, bit_xor}
use native.Mathlib.Nat.{mod-eq_of_lt, mod-lt, div-add-mod, mul-add-mod_self_left}
use native.Mathlib.Omega.{pow_step}
use evmbt.Prelude.{
  ℕ, suc, List, ◌∷◌, ◌+◌, ◌-◌, ◌*◌, ◌/◌, ◌%◌, ◌^◌, ◌<◌, ◌≤◌, ◌≡◌, ◌∙◌, refl, ap, Bool-cases, inl,
  inr, leb, ltb, ◌==◌, if◌then◌else◌, arith,
}
use evmbt.Words.{shl_word, sub_word, sub_word-le, one-le_pow, pow_mono, pow_add}
use evmbt.Words.Bits.{and_low}
use evmbt.Extend.High.{xor-ones, or-high}
use evmbt.Extend.Defs.{bit_position, signextend_result, compile_signextend}

-- The low `size` bits of a word as a signed number, in 256 bits.
abbrev pub extend : ℕ → ℕ → ℕ
extend size word =
    let low = word % 2 ^ size in
    if ltb low (2 ^ (size - 1)) then low else low + (2 ^ 256 - 2 ^ size)

-- The number that SIGNEXTEND is to give.
abbrev pub sign_extended : ℕ → ℕ → ℕ
sign_extended idx word = if leb idx 30 then extend (8 * (idx + 1)) word else word

bit_position_lem : (idx : ℕ) → idx ≤ 30 → bit_position idx ≡ 8 * idx + 7
unfolding bit_position
bit_position_lem idx h = omega arith

-- The value of the case at a bit `n`.
abbrev at_bit : ℕ → ℕ → ℕ
at_bit n word =
    let mask = sub_word 256 (shl_word 256 1 n) 1 in
    if word / 2 ^ n % 2 == 1 then bit_or word (bit_xor mask (2 ^ 256 - 1)) else bit_and word mask

twice_fits : (n : ℕ) → n < 256 → 2 * 2 ^ n ≤ 2 ^ 256
twice_fits n h =
    let m : 2 ^ suc n ≤ 2 ^ 256 = pow_mono (suc n) 256 h in omega (arith, pow_step 2 n, m)

mask_is : (n : ℕ) → n < 256 → sub_word 256 (shl_word 256 1 n) 1 ≡ 2 ^ n - 1
mask_is n h =
    let small : 2 ^ n < 2 ^ 256 = omega (arith, twice_fits n h, one-le_pow n) in
    let one : shl_word 256 1 n ≡ 2 ^ n =
      ap (λ k. k % 2 ^ 256) {x = 1 * 2 ^ n} (omega arith) ∙ mod-eq_of_lt small in
    ap (λ k. sub_word 256 k 1) one ∙ sub_word-le 256 (2 ^ n) 1 small (one-le_pow n)

high_is : (n : ℕ) → n < 256 → (2 ^ (256 - n) - 1) * 2 ^ n ≡ 2 ^ 256 - 2 ^ n
high_is n h =
    let k = 256 - n in
    let all : 2 ^ 256 ≡ 2 ^ k * 2 ^ n =
      ap (λ j. 2 ^ j) {x = 256} {y = k + n} (omega arith) ∙ pow_add k n in
    let pred : 2 ^ k ≡ 2 ^ k - 1 + 1 = omega (arith, one-le_pow k) in
    let part : 2 ^ k * 2 ^ n ≡ (2 ^ k - 1) * 2 ^ n + 2 ^ n =
      ap (λ (z : ℕ). z * 2 ^ n) pred ∙ grind arith in
    omega (arith, all, part)

negmask_is : (n : ℕ) → n < 256 → bit_xor (2 ^ n - 1) (2 ^ 256 - 1) ≡ (2 ^ (256 - n) - 1) * 2 ^ n
negmask_is n h =
    xor-ones 256 (2 ^ n - 1) (omega (arith, twice_fits n h, one-le_pow n))
    ∙ omega (arith, high_is n h, one-le_pow n)

low_bits : (n word : ℕ) → word % 2 ^ suc n ≡ word / 2 ^ n % 2 * 2 ^ n + word % 2 ^ n
low_bits n word =
    let m = 2 ^ n in
    let q = word / m in
    let r = q % 2 * m + word % m in
    let bit : q % 2 < 2 = omega arith in
    let small : r < 2 ^ suc n = grind (arith, pow_step 2 n, mod-lt word (one-le_pow n), bit) in
    let halves : m * q ≡ m * (q / 2 * 2 + q % 2) = ap (λ (z : ℕ). m * z) {x = q} (omega arith) in
    let steps : 2 ^ suc n * (q / 2) ≡ 2 * m * (q / 2) =
      ap (λ (z : ℕ). z * (q / 2)) (pow_step 2 n) in
    let split : word ≡ 2 ^ suc n * (q / 2) + r = grind (arith, div-add-mod word m, halves, steps) in
    ap (λ k. k % 2 ^ suc n) split ∙ mul-add-mod_self_left (2 ^ suc n) (q / 2) r ∙ mod-eq_of_lt small

at_bit_set :
    (n word : ℕ)
    → n < 256
    → word < 2 ^ 256
    → word / 2 ^ n % 2 ≡ 1
    → bit_or word (bit_xor (2 ^ n - 1) (2 ^ 256 - 1)) ≡ extend (suc n) word
at_bit_set n word h l b =
    let k = 256 - n in
    let m = 2 ^ n in
    let low : word % 2 ^ suc n ≡ m + word % m =
      low_bits n word ∙ ap (λ j. j * m + word % m) b ∙ omega arith in
    let whole : word < 2 ^ (n + k) =
      omega (arith, l, ap (λ j. 2 ^ j) {x = n + k} {y = 256} (omega arith)) in
    let high : (2 ^ k - 1) * m ≡ 2 ^ 256 - m = high_is n h in
    ap (λ j. bit_or word j) (negmask_is n h)
    ∙ or-high n k word whole
    ∙ ground (arith, high, low, pow_step 2 n, twice_fits n h)

at_bit_clear : (n word : ℕ) → word / 2 ^ n % 2 ≡ 0 → bit_and word (2 ^ n - 1) ≡ extend (suc n) word
at_bit_clear n word b =
    let m = 2 ^ n in
    let low : word % 2 ^ suc n ≡ word % m =
      low_bits n word ∙ ap (λ j. j * m + word % m) b ∙ omega arith in
    and_low n word ∙ ground (arith, low, mod-lt word (one-le_pow n))

at_bit-extend : (n word : ℕ) → n < 256 → word < 2 ^ 256 → at_bit n word ≡ extend (suc n) word
at_bit-extend n word h l = elim (Bool-cases (word / 2 ^ n % 2 == 1)) [
  | inl e ↦ rw e (
      ap (λ j. bit_or word (bit_xor j (2 ^ 256 - 1))) (mask_is n h)
      ∙ at_bit_set n word h l (ground arith))
  | inr e ↦ rw e (ap (λ j. bit_and word j) (mask_is n h) ∙ at_bit_clear n word (ground arith))
]

signextend_result-sign_extended :
    (idx word : ℕ) → word < 2 ^ 256 → signextend_result idx word ≡ sign_extended idx word
unfolding signextend_result
signextend_result-sign_extended idx word l = elim (Bool-cases (leb idx 30)) [
  | inl e ↦ rw e (
      ap (λ n. at_bit n word) (bit_position_lem idx (ground arith))
      ∙ at_bit-extend (8 * idx + 7) word (ground arith) l
      ∙ ap (λ n. extend n word) {x = suc (8 * idx + 7)} {y = 8 * (idx + 1)} (omega arith))
  | inr e ↦ rw e refl
]

-- The case SIGNEXTEND replaces the two words on the top of the stack by the low bytes of the second
-- as a signed number, one more of them than the first says, and by the second as it is where the
-- first is more than 30. The second has 256 bits.
pub compile_signextend-sign_extended :
    (idx word : ℕ) (stack : List ℕ)
    → word < 2 ^ 256
    → compile_signextend (idx ∷ word ∷ stack) ≡ sign_extended idx word ∷ stack
unfolding compile_signextend
compile_signextend-sign_extended idx word stack l =
    ap (λ w. w ∷ stack) (signextend_result-sign_extended idx word l)

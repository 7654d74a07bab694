-- ===== src/Environment/Mirror.antt =====
-- Numbers with their bytes in the opposite order.
use native.Mathlib.Nat.{mod-lt, mul-div_cancel, add-mul-div_left, div-eq_of_lt}
use evmbt.Prelude.{
  ℕ, zero, suc, ◌+◌, ◌-◌, ◌*◌, ◌/◌, ◌%◌, ◌^◌, ◌<◌, ◌≤◌, ◌≡◌, ◌∙◌, refl, sym, ap, ◌==◌, Bool-cases,
  inl, inr, eq_of_beq, ne_of_beq, arith,
}
use evmbt.Words.{one-le_pow, pow_add}
use evmbt.Words.Fields.{shift_back, shift_twice}

-- The byte `i` of a word, from the lowest one on.
abbrev pub byte : ℕ → ℕ → ℕ
byte i n = n / 2 ^ (i * 8) % 2 ^ 8

-- The lowest `i` bytes of `n`, the first of them at the place `top` of the result, and so on down.
abbrev pub mirrored : ℕ → ℕ → ℕ → ℕ
mirrored top zero n = 0
mirrored top (suc i) n = mirrored top i n + byte i n * 2 ^ ((top - i) * 8)

byte-lt : (i n : ℕ) → byte i n < 2 ^ 8
byte-lt i n = mod-lt (n / 2 ^ (i * 8)) (omega arith)

-- The place after a byte's is 2^8 times the byte's.
next_place : (s : ℕ) → 2 ^ (s * 8 + 8) ≡ 2 ^ (s * 8) * 2 ^ 8
next_place s = pow_add (s * 8) 8

pub byte_fits : (s i n : ℕ) → byte i n * 2 ^ (s * 8) < 2 ^ (s * 8 + 8)
byte_fits s i n = grind (arith, byte-lt i n, next_place s, one-le_pow (s * 8))

-- Below the lowest byte that is placed there is nothing.
pub mirrored-multiple :
    (top i n : ℕ) → i ≤ suc top → (q : ℕ) × (mirrored top i n ≡ q * 2 ^ ((suc top - i) * 8))
mirrored-multiple top zero n h = (0, omega arith)
mirrored-multiple top (suc i) n h =
    let before = mirrored-multiple top i n (omega arith) in
    let place : 2 ^ ((suc top - i) * 8) ≡ 2 ^ ((top - i) * 8) * 2 ^ 8 =
      ap (λ k. 2 ^ k) {y = (top - i) * 8 + 8} (omega arith) ∙ next_place (top - i) in
    let same : (suc top - suc i) * 8 ≡ (top - i) * 8 = omega arith in
    (
      before.0 * 2 ^ 8 + byte i n,
      grind (arith, before.1, place, ap (λ (k : ℕ). before.0 * k) place)
          ∙ ap (λ k. (before.0 * 2 ^ 8 + byte i n) * 2 ^ k) (sym same),
    )

pub mirrored-lt :
    (top i n : ℕ) → i ≤ suc top → mirrored top i n + 2 ^ ((suc top - i) * 8) ≤ 2 ^ (suc top * 8)
mirrored-lt top zero n h =
    omega (arith, ap (λ k. 2 ^ k) {x = (suc top - 0) * 8} {y = suc top * 8} (omega arith))
mirrored-lt top (suc i) n h =
    let place : 2 ^ ((suc top - i) * 8) ≡ 2 ^ ((top - i) * 8 + 8) = ap (λ k. 2 ^ k) (omega arith) in
    let same : (suc top - suc i) * 8 ≡ (top - i) * 8 = omega arith in
    let fits : byte i n * 2 ^ ((top - i) * 8) + 2 ^ ((top - i) * 8) ≤ 2 ^ ((top - i) * 8 + 8) =
      grind (arith, byte-lt i n, next_place (top - i)) in
    omega (arith, ap (λ k. 2 ^ k) same, mirrored-lt top i n (omega arith), place)

-- What lies below a shift does not count.
shift_skips : (q r p s : ℕ) → r < 2 ^ p → p ≤ s → (q * 2 ^ p + r) / 2 ^ s ≡ q * 2 ^ p / 2 ^ s
shift_skips q r p s h l =
    let split : p + (s - p) ≡ s = omega arith in
    let quotient : (q * 2 ^ p + r) / 2 ^ p ≡ q * 2 ^ p / 2 ^ p =
      ap (λ k. k / 2 ^ p) {y = r + 2 ^ p * q} (grind arith)
      ∙ add-mul-div_left r q (one-le_pow p)
      ∙ ap (λ k. k + q) (div-eq_of_lt h)
      ∙ omega (arith, mul-div_cancel q (one-le_pow p)) in
    ap (λ k. (q * 2 ^ p + r) / 2 ^ k) (sym split)
    ∙ sym (shift_twice (q * 2 ^ p + r) p (s - p))
    ∙ ap (λ k. k / 2 ^ (s - p)) quotient
    ∙ shift_twice (q * 2 ^ p) p (s - p)
    ∙ ap (λ k. q * 2 ^ p / 2 ^ k) split

byte_last : (q b s : ℕ) → b < 2 ^ 8 → byte s ((q * 2 ^ 8 + b) * 2 ^ (s * 8)) ≡ b
byte_last q b s h =
    ap (λ k. k % 2 ^ 8) (mul-div_cancel (q * 2 ^ 8 + b) (one-le_pow (s * 8))) ∙ omega arith

-- The byte `j` stands at the place `top - j`.
pub byte-mirrored :
    (top i j n : ℕ) → i ≤ suc top → j < i → byte (top - j) (mirrored top i n) ≡ byte j n
byte-mirrored top zero j n h l = absurd (omega arith)
byte-mirrored top (suc i) j n h l =
    let s = top - i in
    let before = mirrored-multiple top i n (omega arith) in
    let q = before.0 in
    let place : (suc top - i) * 8 ≡ s * 8 + 8 = omega arith in
    let multiple : mirrored top i n ≡ q * 2 ^ (s * 8 + 8) = before.1 ∙ ap (λ k. q * 2 ^ k) place in
    elim (Bool-cases (j == i)) [
      | inl same ↦
          let e : j ≡ i = eq_of_beq j i same in
          let whole : mirrored top (suc i) n ≡ (q * 2 ^ 8 + byte i n) * 2 ^ (s * 8) =
            grind (arith, multiple, ap (λ (k : ℕ). q * k) (next_place s)) in
          ap (λ k. byte (top - k) (mirrored top (suc i) n)) e
          ∙ ap (λ k. byte s k) whole
          ∙ byte_last q (byte i n) s (byte-lt i n)
          ∙ ap (λ k. byte k n) (sym e)
      | inr other ↦
          let less : j < i = omega (arith, ne_of_beq j i other) in
          ap (λ k. byte (top - j) (k + byte i n * 2 ^ (s * 8))) multiple
          ∙ ap (λ k. k % 2 ^ 8)
              (shift_skips q (byte i n * 2 ^ (s * 8)) (s * 8 + 8) ((top - j) * 8) (byte_fits s i n)
                (omega arith))
          ∙ ap (λ k. byte (top - j) k) (sym multiple)
          ∙ byte-mirrored top i j n (omega arith) less
    ]

-- The upper bytes of a number, from the bytes of its mirror.
upper_bytes :
    (top i m n : ℕ)
    → i ≤ suc top
    → n < 2 ^ (suc top * 8)
    → ((j : ℕ) → j ≤ top → byte j m ≡ byte (top - j) n)
    → mirrored top i m ≡ n / 2 ^ ((suc top - i) * 8) * 2 ^ ((suc top - i) * 8)
upper_bytes top zero m n h l e =
    let whole : (suc top - 0) * 8 ≡ suc top * 8 = omega arith in
    sym (
      ap (λ k. n / 2 ^ k * 2 ^ k) whole
      ∙ ap (λ k. k * 2 ^ (suc top * 8)) (div-eq_of_lt l)
      ∙ omega arith)
upper_bytes top (suc i) m n h l e =
    let s = top - i in
    let place : (suc top - i) * 8 ≡ s * 8 + 8 = omega arith in
    let same : (suc top - suc i) * 8 ≡ s * 8 = omega arith in
    let quotient : n / 2 ^ (s * 8) / 2 ^ 8 ≡ n / 2 ^ (s * 8 + 8) = shift_twice n (s * 8) 8 in
    let split : n / 2 ^ (s * 8) ≡ n / 2 ^ (s * 8 + 8) * 2 ^ 8 + byte s n = omega arith in
    ap (λ k. k + byte i m * 2 ^ (s * 8)) (upper_bytes top i m n (omega arith) l e)
    ∙ ap (λ k. n / 2 ^ k * 2 ^ k + byte i m * 2 ^ (s * 8)) place
    ∙ ap (λ k. n / 2 ^ (s * 8 + 8) * 2 ^ (s * 8 + 8) + k * 2 ^ (s * 8)) (e i (omega arith))
    ∙ grind (
      arith,
      ap (λ (k : ℕ). k * 2 ^ (s * 8)) split,
      ap (λ (k : ℕ). n / 2 ^ (s * 8 + 8) * k) (next_place s),
    )
    ∙ ap (λ k. n / 2 ^ k * 2 ^ k) (sym same)

-- Twice the reversal of all bytes is the number.
pub mirrored_twice :
    (top n : ℕ) → n < 2 ^ (suc top * 8) → mirrored top (suc top) (mirrored top (suc top) n) ≡ n
mirrored_twice top n h =
    let m = mirrored top (suc top) n in
    let back = λ (j : ℕ) (l : j ≤ top).
      ap (λ k. byte k m) {x = j} {y = top - (top - j)} (omega arith)
      ∙ byte-mirrored top (suc top) (top - j) n (omega arith) (omega arith) in
    let none_left : (suc top - suc top) * 8 ≡ 0 = omega arith in
    upper_bytes top (suc top) m n (omega arith) h back
    ∙ ap (λ k. n / 2 ^ k * 2 ^ k) none_left
    ∙ omega arith

-- A number of `k` bytes at the upper end of a word: its reversal is the word's.
byte_zero : (i s n : ℕ) → i * 8 + 8 ≤ s → byte i (n * 2 ^ s) ≡ 0
byte_zero i s n h =
    let split : 2 ^ s ≡ 2 ^ (s - i * 8 - 8) * 2 ^ 8 * 2 ^ (i * 8) =
      ap (λ k. 2 ^ k) {x = s} {y = s - i * 8 - 8 + 8 + i * 8} (omega arith)
      ∙ pow_add (s - i * 8 - 8 + 8) (i * 8)
      ∙ ap (λ k. k * 2 ^ (i * 8)) (pow_add (s - i * 8 - 8) 8) in
    ap (λ k. k / 2 ^ (i * 8) % 2 ^ 8) {y = (n * 2 ^ (s - i * 8 - 8) * 2 ^ 8 + 0) * 2 ^ (i * 8)}
      (grind (arith, ap (λ (k : ℕ). n * k) split))
    ∙ byte_last (n * 2 ^ (s - i * 8 - 8)) 0 i (omega arith)

zero_bytes : (top j s n : ℕ) → j * 8 ≤ s → mirrored top j (n * 2 ^ s) ≡ 0
zero_bytes top zero s n h = refl
zero_bytes top (suc j) s n h =
    ap (λ k. k + byte j (n * 2 ^ s) * 2 ^ ((top - j) * 8)) (zero_bytes top j s n (omega arith))
    ∙ ap (λ k. 0 + k * 2 ^ ((top - j) * 8)) (byte_zero j s n (omega arith))
    ∙ omega arith

pub mirrored_padded :
    (z k i n : ℕ)
    → z + k ≡ 32
    → i ≤ k
    → mirrored 31 (z + i) (n * 2 ^ (z * 8)) ≡ mirrored (k - 1) i n
mirrored_padded z k zero n h l =
    ap (λ j. mirrored 31 j (n * 2 ^ (z * 8))) {x = z + 0} {y = z} (omega arith)
    ∙ zero_bytes 31 z (z * 8) n (omega arith)
mirrored_padded z k (suc i) n h l =
    let m = n * 2 ^ (z * 8) in
    let next : z + suc i ≡ suc (z + i) = omega arith in
    let shifted : (z + i) * 8 ≡ i * 8 + z * 8 = omega arith in
    let place : (31 - (z + i)) * 8 ≡ (k - 1 - i) * 8 = omega arith in
    ap (λ j. mirrored 31 j m) next
    ∙ ap (λ j. j + byte (z + i) m * 2 ^ ((31 - (z + i)) * 8))
        (mirrored_padded z k i n h (omega arith))
    ∙ ap (λ j. mirrored (k - 1) i n + m / 2 ^ j % 2 ^ 8 * 2 ^ ((31 - (z + i)) * 8)) shifted
    ∙ ap (λ j. mirrored (k - 1) i n + j % 2 ^ 8 * 2 ^ ((31 - (z + i)) * 8))
        (shift_back n (z * 8) (i * 8))
    ∙ ap (λ j. mirrored (k - 1) i n + byte i n * 2 ^ j) place

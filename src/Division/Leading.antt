-- ===== src/Division/Leading.antt =====
-- The emitted count of the leading zeros, `wasm.ctlz`.
use native.Mathlib.Nat.{mod-eq_of_lt}
use native.Mathlib.Omega.{pow_step}
use evmbt.Prelude.{
  ℕ, zero, suc, ◌+◌, ◌-◌, ◌*◌, ◌/◌, ◌^◌, ◌<◌, ◌≤◌, ◌≡◌, ◌≢◌, ◌∙◌, refl, ap, some, arith, Bool-cases,
  inl, inr, ◌==◌, leb, eq_of_beq, ne_of_beq,
}
use evmbt.Words.{sub_word, sub_word-le, lt_pow, pow_mono}
use evmbt.Division.Defs.{ctlz_loop, ctlz}

-- `x` has `k` binary digits.
abbrev pub Digits : ℕ → ℕ → Type 0
Digits x k = (x < 2 ^ k) × (2 ^ k ≤ 2 * x + 1)

Digits-half : (x k : ℕ) → Digits x (suc k) → Digits (x / 2) k
Digits-half x k d = omega (arith, d.0, d.1, pow_step 2 k)

Digits-double : (x k : ℕ) → x ≢ 0 → Digits (x / 2) k → Digits x (suc k)
Digits-double x zero h d = (omega (arith, d.0), omega arith)
Digits-double x (suc k) h d =
    (omega (arith, d.0, pow_step 2 (suc k)), omega (arith, d.1, pow_step 2 (suc k), pow_step 2 k))

pub Digits-zero : (k : ℕ) → Digits 0 k → k ≡ 0
Digits-zero zero d = refl
Digits-zero (suc k) d = omega (arith, d.1, pow_step 2 k, lt_pow k)

pub Digits-positive : (x k : ℕ) → 0 < x → Digits x k → (0 < k) × (2 ^ k ≤ 2 * x)
Digits-positive x zero h d = absurd (omega (arith, d.0))
Digits-positive x (suc k) h d = (omega arith, omega (arith, d.1, pow_step 2 k))

pub Digits-mono : (y x m n : ℕ) → y ≤ x → Digits y m → Digits x n → m ≤ n
Digits-mono y x m n h d e = elim (Bool-cases (leb m n)) [
  | inl le ↦ ground arith
  | inr gt ↦
      let more : suc n ≤ m = ground arith in
      absurd (omega (arith, d.1, e.0, pow_mono (suc n) m more, pow_step 2 n))
]

-- The digits of a word that fits `n` bits.
pub fits-Digits : (n x : ℕ) → x < 2 ^ n → (k : ℕ) × (k ≤ n) × Digits x k
fits-Digits zero x h = (0, omega arith, (omega arith, omega arith))
fits-Digits (suc n) x h = elim (Bool-cases (x == 0)) [
  | inl e ↦ let z : x ≡ 0 = eq_of_beq x 0 e in (0, omega arith, (omega arith, omega arith))
  | inr e ↦
      let rest = fits-Digits n (x / 2) (omega (arith, pow_step 2 n)) in
      let nz : x ≢ 0 = ne_of_beq x 0 e in
      (suc rest.0, omega (arith, rest.1), Digits-double x rest.0 nz rest.2)
]

ctlz_loop_end : (w fuel c : ℕ) → ctlz_loop w (suc fuel) 0 c ≡ some (sub_word w w c)
unfolding ctlz_loop
ctlz_loop_end w fuel c = refl

ctlz_loop_next :
    (w fuel t c : ℕ)
    → t ≢ 0
    → c + 1 < 2 ^ w
    → ctlz_loop w (suc fuel) t c ≡ ctlz_loop w fuel (t / 2) (c + 1)
unfolding ctlz_loop
ctlz_loop_next w fuel t c h l = ground (arith, mod-eq_of_lt l)

ctlz_loop-Digits :
    (w k fuel t c : ℕ)
    → Digits t k
    → c + k ≤ w
    → k ≤ fuel
    → ctlz_loop w (suc fuel) t c ≡ some (w - (c + k))
ctlz_loop-Digits w zero fuel t c d l f =
    let z : t ≡ 0 = omega (arith, d.0) in
    let e : sub_word w w c ≡ w - (c + 0) =
      omega (arith, sub_word-le w w c (lt_pow w) (omega arith)) in
    ap (λ n. ctlz_loop w (suc fuel) n c) z ∙ ctlz_loop_end w fuel c ∙ ap some e
ctlz_loop-Digits w (suc k) zero t c d l f = absurd (omega arith)
ctlz_loop-Digits w (suc k) (suc fuel) t c d l f =
    let nz : t ≢ 0 = omega (arith, d.1, pow_step 2 k, lt_pow k) in
    ctlz_loop_next w (suc fuel) t c nz (omega (arith, l, lt_pow w))
    ∙ ctlz_loop-Digits w k fuel (t / 2) (c + 1) (Digits-half t k d) (omega arith) (omega arith)
    ∙ ap some (omega arith)

-- The number of zeros before the first digit.
pub ctlz-Digits : (w k x : ℕ) → Digits x k → k ≤ w → ctlz w x ≡ some (w - k)
unfolding ctlz
ctlz-Digits w k x d l =
    ctlz_loop-Digits w k w x 0 d (omega arith) l ∙ ap (λ n. some (w - n)) (omega arith)

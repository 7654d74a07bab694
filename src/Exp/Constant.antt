-- ===== src/Exp/Constant.antt =====
-- The constant of `Arith256::exp` against the power.
use native.Mathlib.Nat.{pow-zero, mod-eq_of_lt, mod-lt}
use native.Mathlib.Omega.{pow_step}
use evmbt.Prelude.{
  ℕ, zero, suc, ◌+◌, ◌*◌, ◌/◌, ◌%◌, ◌^◌, ◌<◌, ◌≡◌, ◌≢◌, ◌∙◌, sym, ap, some, Bool-cases, inl, inr,
  ◌==◌, eq_of_beq, ne_of_beq, arith,
}
use evmbt.Exp.Power.{square_step, odd_step}
use evmbt.Exp.Defs.{mul256, exp_loop, exp_const}

-- The power that the loop's variables stand for.
abbrev pub power : ℕ → ℕ → ℕ → ℕ
power r b e = (r * b ^ e) % 2 ^ 256

pub power_done : (r b e : ℕ) → r < 2 ^ 256 → e ≡ 0 → power r b e ≡ r
power_done r b e h z =
    ap (λ n. (r * b ^ n) % 2 ^ 256) z
    ∙ ap (λ x. (r * x) % 2 ^ 256) (pow-zero b)
    ∙ ap (λ x. x % 2 ^ 256) (omega arith)
    ∙ mod-eq_of_lt h

pub power_odd : (r b e : ℕ) → e % 2 ≡ 1 → power (mul256 r b) (mul256 b b) (e / 2) ≡ power r b e
power_odd r b e h =
    let half : suc (e / 2 + e / 2) ≡ e = omega arith in
    odd_step r b (e / 2) (2 ^ 256) ∙ ap (λ n. power r b n) half

pub power_even : (r b e : ℕ) → e % 2 ≡ 0 → power r (mul256 b b) (e / 2) ≡ power r b e
power_even r b e h =
    let half : e / 2 + e / 2 ≡ e = omega arith in
    square_step r b (e / 2) (2 ^ 256) ∙ ap (λ n. power r b n) half

pub half_lt : (e n : ℕ) → e < 2 ^ suc n → e / 2 < 2 ^ n
half_lt e n h = omega (arith, pow_step 2 n)

pub mul256-lt : (a b : ℕ) → mul256 a b < 2 ^ 256
mul256-lt a b = mod-lt (a * b) (omega arith)

exp_loop_end : (fuel e b r : ℕ) → e ≡ 0 → exp_loop (suc fuel) e b r ≡ some r
unfolding exp_loop
exp_loop_end fuel e b r h = ground arith

exp_loop_odd :
    (fuel e b r : ℕ)
    → e % 2 ≡ 1
    → exp_loop (suc fuel) e b r ≡ exp_loop fuel (e / 2) (mul256 b b) (mul256 r b)
unfolding exp_loop
exp_loop_odd fuel e b r h = ground arith

exp_loop_even :
    (fuel e b r : ℕ)
    → e ≢ 0
    → e % 2 ≡ 0
    → exp_loop (suc fuel) e b r ≡ exp_loop fuel (e / 2) (mul256 b b) r
unfolding exp_loop
exp_loop_even fuel e b r n h = ground arith

pub exp_loop-power :
    (n e b r : ℕ) → e < 2 ^ n → r < 2 ^ 256 → exp_loop (suc n) e b r ≡ some (power r b e)
exp_loop-power zero e b r h l =
    let z : e ≡ 0 = omega (arith, h) in
    exp_loop_end 0 e b r z ∙ ap some (sym (power_done r b e l z))
exp_loop-power (suc n) e b r h l = elim (Bool-cases (e == 0)) [
  | inl done ↦
      let z : e ≡ 0 = eq_of_beq e 0 done in
      exp_loop_end (suc n) e b r z ∙ ap some (sym (power_done r b e l z))
  | inr more ↦ elim (Bool-cases (e % 2 == 1)) [
    | inl odd ↦
        let o : e % 2 ≡ 1 = eq_of_beq (e % 2) 1 odd in
        exp_loop_odd (suc n) e b r o
        ∙ exp_loop-power n (e / 2) (mul256 b b) (mul256 r b) (half_lt e n h) (mul256-lt r b)
        ∙ ap some (power_odd r b e o)
    | inr even ↦
        let z : e ≢ 0 = ne_of_beq e 0 more in
        let o : e % 2 ≡ 0 = omega (arith, ne_of_beq (e % 2) 1 even) in
        exp_loop_even (suc n) e b r z o
        ∙ exp_loop-power n (e / 2) (mul256 b b) r (half_lt e n h) l
        ∙ ap some (power_even r b e o)
  ]
]

-- The compiler's constant is the power modulo 2^256, which the loop reaches for every word `e`.
pub exp_const-power : (b e : ℕ) → e < 2 ^ 256 → exp_const b e ≡ some (b ^ e % 2 ^ 256)
unfolding exp_const
exp_const-power b e h =
    exp_loop-power 256 e b 1 h (omega arith) ∙ ap (λ x. some (x % 2 ^ 256)) (omega arith)

-- ===== src/Exp/Emitted.antt =====
-- The emitted function `evm.exp` against the constant of `Arith256::exp`.
use evmbt.Prelude.{
  ℕ, zero, suc, ◌+◌, ◌-◌, ◌*◌, ◌/◌, ◌%◌, ◌^◌, ◌<◌, ◌≤◌, ◌≡◌, ◌≢◌, ◌∙◌, refl, sym, ap, some,
  Bool-cases, inl, inr, ◌==◌, eq_of_beq, ne_of_beq, arith,
}
use evmbt.Exp.Defs.{
  mul256, exp_const, header_block, body_block, update_block, continue_block, return_block, exp_step,
  exp_run, exp_func,
}
use evmbt.Exp.Constant.{
  power, mul256-lt, half_lt, power_odd, power_even, power_done, exp_loop-power,
}

exp_run_returned : (fuel r : ℕ) → exp_run fuel (return_block r) ≡ some r
unfolding exp_run
exp_run_returned zero r = refl
exp_run_returned (suc fuel) r = refl

exp_run_header :
    (fuel r b e : ℕ)
    → 0 < fuel
    → e ≢ 0
    → exp_run fuel (header_block r b e) ≡ exp_run (fuel - 1) (body_block r b e)
unfolding exp_run
exp_run_header zero r b e f h = absurd (omega arith)
exp_run_header (suc fuel) r b e f h =
    let n : suc fuel - 1 ≡ fuel = omega arith in rw n (ground arith)

exp_run_odd :
    (fuel r b e : ℕ)
    → 0 < fuel
    → e % 2 ≡ 1
    → exp_run fuel (body_block r b e) ≡ exp_run (fuel - 1) (update_block r b e)
unfolding exp_run
exp_run_odd zero r b e f h = absurd (omega arith)
exp_run_odd (suc fuel) r b e f h = let n : suc fuel - 1 ≡ fuel = omega arith in rw n (ground arith)

exp_run_even :
    (fuel r b e : ℕ)
    → 0 < fuel
    → e % 2 ≡ 0
    → exp_run fuel (body_block r b e) ≡ exp_run (fuel - 1) (continue_block r b e)
unfolding exp_run
exp_run_even zero r b e f h = absurd (omega arith)
exp_run_even (suc fuel) r b e f h = let n : suc fuel - 1 ≡ fuel = omega arith in rw n (ground arith)

exp_run_update :
    (fuel r b e : ℕ)
    → 0 < fuel
    → exp_run fuel (update_block r b e) ≡ exp_run (fuel - 1) (continue_block (mul256 r b) b e)
unfolding exp_run
exp_run_update zero r b e f = absurd (omega arith)
exp_run_update (suc fuel) r b e f = let n : suc fuel - 1 ≡ fuel = omega arith in rw n (ground arith)

exp_run_continue :
    (fuel r b e : ℕ)
    → 0 < fuel
    → exp_run fuel (continue_block r b e) ≡ exp_run (fuel - 1) (header_block r (mul256 b b) (e / 2))
unfolding exp_run
exp_run_continue zero r b e f = absurd (omega arith)
exp_run_continue (suc fuel) r b e f =
    let n : suc fuel - 1 ≡ fuel = omega arith in rw n (ground arith)

header_done : (r b e : ℕ) → e ≡ 0 → exp_step (header_block r b e) ≡ return_block r
unfolding exp_step
header_done r b e h = ground arith

exp_run_end : (fuel r b e : ℕ) → 0 < fuel → e ≡ 0 → exp_run fuel (header_block r b e) ≡ some r
unfolding exp_run
exp_run_end zero r b e f h = absurd (omega arith)
exp_run_end (suc fuel) r b e f h =
    ap (λ s. exp_run fuel s) (header_done r b e h) ∙ exp_run_returned fuel r

-- Three or four blocks make a round.
round_odd :
    (fuel r b e : ℕ)
    → 4 ≤ fuel
    → e % 2 ≡ 1
    → exp_run fuel (header_block r b e)
      ≡ exp_run (fuel - 4) (header_block (mul256 r b) (mul256 b b) (e / 2))
round_odd fuel r b e f o =
    exp_run_header fuel r b e (omega arith) (omega (arith, o))
    ∙ exp_run_odd (fuel - 1) r b e (omega arith) o
    ∙ exp_run_update (fuel - 1 - 1) r b e (omega arith)
    ∙ exp_run_continue (fuel - 1 - 1 - 1) (mul256 r b) b e (omega arith)
    ∙ ap (λ n. exp_run n (header_block (mul256 r b) (mul256 b b) (e / 2))) (omega arith)

round_even :
    (fuel r b e : ℕ)
    → 4 ≤ fuel
    → e ≢ 0
    → e % 2 ≡ 0
    → exp_run fuel (header_block r b e) ≡ exp_run (fuel - 3) (header_block r (mul256 b b) (e / 2))
round_even fuel r b e f z o =
    exp_run_header fuel r b e (omega arith) z
    ∙ exp_run_even (fuel - 1) r b e (omega arith) o
    ∙ exp_run_continue (fuel - 1 - 1) r b e (omega arith)
    ∙ ap (λ n. exp_run n (header_block r (mul256 b b) (e / 2))) (omega arith)

exp_run-power :
    (n fuel e b r : ℕ)
    → 4 * n + 1 ≤ fuel
    → e < 2 ^ n
    → r < 2 ^ 256
    → exp_run fuel (header_block r b e) ≡ some (power r b e)
exp_run-power zero fuel e b r f h l =
    let z : e ≡ 0 = omega (arith, h) in
    exp_run_end fuel r b e (omega arith) z ∙ ap some (sym (power_done r b e l z))
exp_run-power (suc n) fuel e b r f h l = elim (Bool-cases (e == 0)) [
  | inl done ↦
      let z : e ≡ 0 = eq_of_beq e 0 done in
      exp_run_end fuel r b e (omega arith) z ∙ ap some (sym (power_done r b e l z))
  | inr more ↦ elim (Bool-cases (e % 2 == 1)) [
    | inl odd ↦
        let o : e % 2 ≡ 1 = eq_of_beq (e % 2) 1 odd in
        round_odd fuel r b e (omega arith) o
        ∙ exp_run-power n (fuel - 4) (e / 2) (mul256 b b) (mul256 r b) (omega arith) (half_lt e n h)
            (mul256-lt r b)
        ∙ ap some (power_odd r b e o)
    | inr even ↦
        let o : e % 2 ≡ 0 = omega (arith, ne_of_beq (e % 2) 1 even) in
        round_even fuel r b e (omega arith) (ne_of_beq e 0 more) o
        ∙ exp_run-power n (fuel - 3) (e / 2) (mul256 b b) r (omega arith) (half_lt e n h) l
        ∙ ap some (power_even r b e o)
  ]
]

-- `evm.exp` returns for every word `exponent` below 2^256, and gives the constant that the compiler
-- would compute.
pub exp_func-exp_const :
    (base exponent : ℕ) → exponent < 2 ^ 256 → exp_func base exponent ≡ exp_const base exponent
unfolding exp_func exp_const
exp_func-exp_const base exponent h =
    exp_run-power 256 1026 exponent base 1 (omega arith) h (omega arith)
    ∙ sym (exp_loop-power 256 exponent base 1 h (omega arith))

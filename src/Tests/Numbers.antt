-- ===== src/Tests/Numbers.antt =====
-- Runs of the emitted arithmetic, and of the pass that calls it.
use evmbt.Prelude.{
  ℕ, ◌+◌, ◌-◌, ◌*◌, ◌/◌, ◌%◌, ◌^◌, ◌≡◌, refl, List, [], ◌∷◌, none, some, false, arith,
}
use evmbt.Lift.Machine.{signed_div, signed_rem}
use evmbt.Division.Defs.{udivrem, sdivrem}
use evmbt.Division.Unsigned.{udivrem-divides}
use evmbt.Division.Signed.{sdivrem-signed}
use evmbt.Division.Zero.{udivrem-zero}
use evmbt.Product.Defs.{mul_func}
use evmbt.Product.Correct.{mul_func-product}
use evmbt.SafeMath.Defs.{Outcome, reverted, safe_func}
use evmbt.SafeMath.Defs
use evmbt.SafeMath.Exact.{safe_func-exact}
use evmbt.Extend.Defs.{compile_signextend}
use evmbt.Extend.Correct.{compile_signextend-sign_extended}
use evmbt.Lowering.Defs.{Inst, binary, udiv_op, mul_op, other_op, run_on_function}
use evmbt.Lowering.Lowered.{BlocksLower, run_on_function-BlocksLower}

udivrem-divides_example : udivrem 256 200 7 ≡ some (200 / 7, 200 % 7)
udivrem-divides_example = udivrem-divides 256 200 7 (omega arith) (omega arith)

udivrem_run : udivrem 8 0xff 0x10 ≡ some (0x0f, 0x0f)
unfolding udivrem
udivrem_run = refl

udivrem-zero_example : udivrem 256 5 0 ≡ some (15, 5)
udivrem-zero_example = udivrem-zero 256 3 5 (omega arith, omega arith) (omega arith)

-- -7 by 2
sdivrem-signed_example :
    sdivrem (2 ^ 256 - 7) 2 ≡ some (signed_div 256 (2 ^ 256 - 7) 2, signed_rem 256 (2 ^ 256 - 7) 2)
sdivrem-signed_example =
    sdivrem-signed (2 ^ 256 - 7) 2 (omega arith) (omega arith) (λ e. omega (arith, e))

mul_func-product_example :
    mul_func 64 (2 ^ 255 + 3) (2 ^ 130 + 5) ≡ ((2 ^ 255 + 3) * (2 ^ 130 + 5)) % 2 ^ (4 * 64)
mul_func-product_example =
    mul_func-product 64 (2 ^ 255 + 3) (2 ^ 130 + 5) (omega arith) (omega arith)

safe_func-exact_example :
    (f : ℕ → ℕ → Outcome) × (safe_func Defs.mul_op ≡ some f) × (f (2 ^ 200) (2 ^ 100) ≡ reverted 0)
safe_func-exact_example =
    safe_func-exact Defs.mul_op (2 ^ 200) (2 ^ 100) tt (omega arith) (omega arith)

-- The byte 0xfe as a signed number.
compile_signextend-sign_extended_example :
    compile_signextend (0 ∷ 0x1fe ∷ 9 ∷ []) ≡ (2 ^ 256 - 2) ∷ 9 ∷ []
compile_signextend-sign_extended_example =
    compile_signextend-sign_extended 0 0x1fe (9 ∷ []) (omega arith)

compile_signextend_run : compile_signextend (31 ∷ 0xff ∷ []) ≡ 0xff ∷ []
unfolding compile_signextend
compile_signextend_run = refl

abbrev wide_blocks : List (List (Inst ℕ))
wide_blocks =
    (binary udiv_op 256 20 3 ∷ binary (other_op 1) 32 3 20 ∷ [])
    ∷ (binary mul_op 256 20 20 ∷ [])
    ∷ []

run_on_function-BlocksLower_example :
    BlocksLower (λ v. v) (λ n w a b. none) wide_blocks false (run_on_function wide_blocks)
run_on_function-BlocksLower_example =
    run_on_function-BlocksLower (λ v. v) (λ n w a b. none) wide_blocks
      (
        ((omega arith, omega arith), ((omega arith, omega arith), tt)),
        (((omega arith, omega arith), tt), tt),
      )

-- ===== src/Exp/Defs.antt =====
-- `Arith256::exp` of two constants, and the function `evm.exp` as a machine over its blocks.
use evmbt.Prelude.{ℕ, zero, suc, ◌*◌, ◌/◌, ◌%◌, ◌^◌, Option, none, some, ◌==◌, if◌then◌else◌}

-- The product of two words.
abbrev pub mul256 : ℕ → ℕ → ℕ
mul256 a b = (a * b) % 2 ^ 256

-- The loop of `exp`; `none` means that the fuel ran out.
unfoldable pub exp_loop : ℕ → ℕ → ℕ → ℕ → Option ℕ
exp_loop zero e b r = none
exp_loop (suc fuel) e b r =
    let rest = exp_loop fuel (e / 2) (mul256 b b) (if e % 2 == 1 then mul256 r b else r) in
    if e == 0 then some r else rest

-- `exp` of two constants: each round shifts one bit out of `e`.
unfoldable pub exp_const : ℕ → ℕ → Option ℕ
unfolding exp_loop
exp_const b e = exp_loop 257 e b 1

-- The blocks of `evm.exp`, each with the values that reach it. `continue_block` has `r1`.
pub data ExpBlock : Type 0 where
  header_block : ℕ → ℕ → ℕ → ExpBlock
  body_block : ℕ → ℕ → ℕ → ExpBlock
  update_block : ℕ → ℕ → ℕ → ExpBlock
  continue_block : ℕ → ℕ → ℕ → ExpBlock
  return_block : ℕ → ExpBlock

-- The branch at the end of a block.
unfoldable pub exp_step : ExpBlock → ExpBlock
exp_step (header_block r b e) = if e == 0 then return_block r else body_block r b e
exp_step (body_block r b e) = if e % 2 == 0 then continue_block r b e else update_block r b e
exp_step (update_block r b e) = continue_block (mul256 r b) b e
exp_step (continue_block r1 b e) = header_block r1 (mul256 b b) (e / 2)
exp_step (return_block r) = return_block r

-- The value that the function returns, when it does within the fuel.
unfoldable pub exp_run : ℕ → ExpBlock → Option ℕ
unfolding exp_step
exp_run fuel (return_block r) = some r
exp_run zero s = none
exp_run (suc fuel) s = exp_run fuel (exp_step s)

-- A call of `evm.exp`, from its entry block. A round passes at most four blocks.
unfoldable pub exp_func : ℕ → ℕ → Option ℕ
unfolding exp_run
exp_func base exponent = exp_run 1026 (header_block 1 base exponent)

-- ===== src/Exp.antt =====
-- `Arith256::exp` and `Arith256::getExpFunc` of evmtrans/Arith256.cpp: EXP of two constants is
-- computed by the compiler, any other by a function `evm.exp` that the compiler emits. Both are
-- square-and-multiply on 256-bit words.
mod Power
mod Defs
pub mod Constant
pub mod Emitted
unfoldable pub use Defs.{exp_const, exp_func}

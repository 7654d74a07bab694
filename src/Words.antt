-- ===== src/Words.antt =====
-- LLVM's instructions on integers of `w` bits, as numbers: for the functions that
-- evmtrans/Arith256.cpp and evmtrans/EEIModule.cpp emit block by block.
mod Powers
pub mod Fields
pub mod Defs
pub mod Bits
pub use Powers.{lt_pow, one-le_pow, pow_mono, pow_add}
pub use Defs.{add_word, sub_word, mul_word, shl_word, nuw_sub, sub_word-le}

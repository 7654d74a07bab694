-- ===== src/Division.antt =====
-- The functions of evmtrans/Arith256.cpp that LLVM's divisions of 256 and 512 bits become:
-- `createCTLZFunc`, `createUDivRemFunc` and the functions on top of it. A value is its number, a
-- function's blocks are a recursion on fuel, and `none` is a value without a meaning (an
-- instruction with `nuw` that wraps) or a lack of fuel.
pub mod Defs
pub mod Unsigned
pub mod Leading
pub mod Signed
pub mod Zero

-- ===== src/Lowering.antt =====
-- `LowerEVMPass` of evmtrans/Optimizer.cpp: the pass that turns the wide divisions and products of
-- a function's blocks into calls of the functions of Arith256.
pub mod Defs
pub mod Calls
pub mod Lowered

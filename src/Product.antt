-- ===== src/Product.antt =====
-- `Arith256::getMulFunc` of evmtrans/Arith256.cpp: the function that multiplies words of 256 or 128
-- bits by products of half the width.
pub mod Defs
pub mod Correct

-- ===== src/SafeMath.antt =====
-- The checked operations that evmtrans/Arith256.cpp emits for a patched contract, `safeAdd`,
-- `safeSub`, `safeMul` and `safeUDiv`, and the choice among them in `UseSafeMathPass` of
-- evmtrans/Optimizer.cpp. Which instructions the pass replaces, by their names and by `detectBug`,
-- is left out.
pub mod Defs
pub mod Exact

-- ===== src/Machine.antt =====
-- The EVMC instance of evmtrans/BinaryTrans.cpp: its map of compiled functions, `execute` and
-- `setOption`. The eWASM engine that it hands code to is a parameter. Locks, messages on the
-- console and LLVM's target machine are left out.
pub mod Defs
pub mod Failing
pub mod CodeId

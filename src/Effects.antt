-- ===== src/Effects.antt =====
-- The cases of `compileBasicBlock` (evmtrans/WASMCompiler.cpp) that reach beyond the stack: memory,
-- storage, the accounts, copies, calls, logs and the ends of a transaction.
pub mod Bytes
pub mod Monad
pub mod Cases
pub mod Calls
pub mod Dispatch
pub mod Stacks
pub mod Typed
pub mod Memory
pub mod Storage
pub mod Element
pub mod Code
pub mod Refused

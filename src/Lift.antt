-- ===== src/Lift.antt =====
-- The value opcodes of `WASMCompiler::compileBasicBlock` (evmtrans/WASMCompiler.cpp): what the
-- compiler builds for arithmetic, comparisons, bit operations and the stack opcodes. LLVM's
-- `IRBuilder` is an interface.
pub mod Machine
pub mod Interface
pub mod Cases
pub mod Defs
pub mod Evm
mod Bounds
pub mod Evaluate
pub mod Lawful
pub mod Denotes
mod Opcodes
mod Wide
pub mod Correct
pub mod Counts
pub mod Mixed
pub use Interface.{Builder, Semantics}

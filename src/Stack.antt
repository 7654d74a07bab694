-- ===== src/Stack.antt =====
-- `GlobalStack` of evmtrans/BasicBlock.cpp: the operand stack of the translated code, kept in LLVM
-- registers (`enableRegs`) or in a global array with a stack pointer.
pub mod Registers
pub mod Defs
pub mod Cells
pub mod Modes
pub use Defs.{Value, Memory, Call, push_call, pop_call, dup_call, swap_call}
unfoldable pub use Defs.{run, run_memory}

-- ===== src/Blocks.antt =====
-- `BasicBlock` (evmtrans/BasicBlock.h, BasicBlock.cpp) and the cut of bytecode into basic blocks,
-- `WASMCompiler::createBasicBlocks` (evmtrans/WASMCompiler.cpp). The LLVM block that a
-- `BasicBlock` holds is created empty and is left out; the edges of the control flow graph are
-- in the state of `Cfg`.
mod Depth
pub mod Defs
mod Rounds
pub mod Termination
pub mod Structure
pub mod Context
pub mod Targets
pub use Defs.{BasicBlock}
unfoldable pub use Defs.{create_basic_blocks}

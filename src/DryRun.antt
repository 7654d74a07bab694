-- ===== src/DryRun.antt =====
-- `dry_run_bb` of evmtrans/WASMCompiler.cpp: the walk over one block with a stack of known numbers.
mod Defs
mod Rounds
pub mod Termination
pub mod Known
pub mod Swaps
unfoldable pub use Defs.{dry_run_bb, dry_stack}

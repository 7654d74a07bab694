-- ===== src/Cfg.antt =====
-- `dry_run` of evmtrans/WASMCompiler.cpp: the depth-first walk over the blocks that finds the edges
-- of the control flow graph.
mod Defs
pub mod Edges
pub mod Termination
pub use Defs.{Edge, Visit, Search}
unfoldable pub use Defs.{dry_run}

-- ===== src/Split.antt =====
-- `splitCode` of evmtrans/WASMCompiler.cpp: where the deployment code ends and the runtime code
-- begins, and the `RETURN` of the deployment code.
mod Defs
pub mod Sound
pub use Defs.{Walk, Verdict, missing, found}
unfoldable pub use Defs.{split_code}

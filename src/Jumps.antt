-- ===== src/Jumps.antt =====
-- The JUMP and JUMPI cases of `compileBasicBlock`, the jump table and `WASMCompiler::resolveJumps`
-- (evmtrans/WASMCompiler.cpp). The code's blocks are numbered in order; the block behind the last
-- one is the compiler's `Test` block. The message logs and the metadata's own form are left out.
pub mod Defs
pub mod Table
pub mod Resolved

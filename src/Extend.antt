-- ===== src/Extend.antt =====
-- The case SIGNEXTEND of `compileBasicBlock` in evmtrans/WASMCompiler.cpp, on the words that its
-- two pops give.
pub mod Defs
mod High
pub mod Correct

-- ===== src/Frame.antt =====
-- What `compileMain` (evmtrans/WASMCompiler.cpp) does around a block that it compiles: it fetches
-- the values that the block needs from the operand stack in memory, compiles the block on a stack
-- of registers, and stores what is left. And the order in which it takes the blocks. The modes that
-- the constants `not_slim` and `no_ctx` switch off are left out, with `resolve_phi`, which only
-- they call.
pub mod Defs
pub mod Fetched
pub mod Block
pub mod Order
pub mod Walk
pub mod Covered

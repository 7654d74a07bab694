-- ===== src/Memcpy.antt =====
-- The emitted function `solidity.memcpy` of evmtrans/EEIModule.cpp. The linear memory is a function
-- from addresses to bytes, and addresses do not wrap.
pub mod Defs
pub mod Copied
pub mod Total

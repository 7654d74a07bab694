-- ===== src/Environment.antt =====
-- The cases of `compileBasicBlock` (evmtrans/WASMCompiler.cpp) that push a number of the
-- environment, and the conversion of byte order that EEIModule (evmtrans/EEIModule.cpp) emits. The
-- imported functions and LLVM's memory instructions are an interface; the debug metadata is left
-- out. A call of the emitted byte swap is modelled by its body.
pub mod Defs
pub mod Pushed
pub mod Mirror
pub mod Elements
pub mod Reverse
pub mod Convert

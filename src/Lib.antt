-- ===== src/Lib.antt =====
-- evmbt translates EVM bytecode to eWASM by way of LLVM's IR. This library models the core of the
-- translator, the directory evmtrans, and proves what its parts promise.
--
-- The parts, and the files that model them. `WASMCompiler::compileMain` (evmtrans/WASMCompiler.cpp)
-- splits deployment code from runtime code (Split), cuts the bytecode into basic blocks (Blocks, on
-- the walk over push data in Instruction), runs over the blocks with a stack of known numbers to find
-- the edges of the control flow graph (DryRun for one block, Cfg for the walk over the blocks),
-- compiles each block with an operand stack of LLVM values (Stack, Lift, Exp, Environment), and at
-- last gives each block its successors (Jumps).
--
-- Instruction: evmtrans/Instruction.h and Instruction.cpp. `Instruction`, `InstrMap`, `readPushData`,
-- `skipPushData`, `skipPushDataAndGetNext`. A `code_iterator` is an index into a list of bytes.
-- Blocks: `BasicBlock` with its constructor and `ctxDep` (evmtrans/BasicBlock.cpp),
-- `createBasicBlocks`, and the blocks that begin with a JUMPDEST.
-- Split: `splitCode`.
-- Stack: `GlobalStack` (evmtrans/BasicBlock.cpp), in registers (Registers) and in memory (Defs).
-- DryRun and Cfg: `dry_run_bb` and `dry_run`.
-- Exp: `Arith256::exp` and the function `evm.exp` (evmtrans/Arith256.cpp), block by block.
-- Lift: the cases of `compileBasicBlock` for value opcodes. LLVM's `IRBuilder` is the record
-- `Builder`; what LLVM's language reference says of its instructions is the record `Semantics`, and
-- Evaluate and Lawful give an evaluator that satisfies it. Evm has the opcodes as the yellow paper
-- states them. A value opcode whose result the builder folds to a constant is refused, where the
-- program's cast of it to an instruction asserts; Counts compares the cases with `InstrMap`.
-- Environment: the cases that push a number of the environment, and the emitted conversion of byte
-- order (evmtrans/EEIModule.cpp).
-- Division, Product, SafeMath: the other functions that evmtrans/Arith256.cpp emits, with a value for
-- its number: `evm.udivrem` and what stands on it, `evm.mul`, and the checked operations that
-- `UseSafeMathPass` (evmtrans/Optimizer.cpp) puts into a patched contract.
-- Lowering: `LowerEVMPass` (evmtrans/Optimizer.cpp), which calls the divisions and products.
-- Frame: what `compileMain` does around each block, and the order in which it compiles the blocks.
-- Extend: the case SIGNEXTEND of `compileBasicBlock`, with a value for each instruction that it emits.
-- Effects: the cases that reach the environment: BYTE, SHA3, memory, storage, accounts, copies,
-- creations, calls, logs and the ends of a transaction. Each is the emitted code run on values: a do
-- block over the operand stack, the linear memory and the state of the environment, which gives
-- `none` for an instruction that LLVM refuses to build, and for MSTORE8 of a constant. The imported
-- functions are the parameter `answer`; a variable that an alloca makes is modelled by its contents.
-- Memcpy: the emitted copy `solidity.memcpy` (evmtrans/EEIModule.cpp).
-- Machine: the EVMC instance (evmtrans/BinaryTrans.cpp), `execute` with its map of compiled
-- functions; the assertion on the host is `none`.
-- Words: LLVM's instructions on numbers, and the lemmas on powers of two and bit fields.
-- Jumps: the JUMP, JUMPI and JUMPDEST cases with the jump table, and `resolveJumps`. The block behind
-- the last one of the code is `Test`, from which control goes to the jump table.
-- Prelude: shared names and lemmas. Tests: the theorems at concrete inputs.
--
-- Bounds and fuel. Words have 256 bits and the wrap-around is written out, also for the `uint32_t`
-- counters of `ctxDep` and the 256-bit stack pointer. A loop over bytecode takes one round more than
-- there are bytes, since each round goes forward; the walk of `dry_run` takes two rounds for each
-- block and two more, since a block adds at most two visits; the walk of `compileMain` takes a round
-- for each edge of the graph and two more; the power takes one round for each bit of the exponent and
-- one more, and at most four blocks of the emitted function for each; the loops of `evm.udivrem` take
-- at most one round for each bit of the word and one more; the memory copy takes one for each byte.
-- These loops return `none` when they are out of fuel. The fuel of `ctxDep` is the number of bytes of
-- the block.
--
-- Not modelled: the modes of `compileMain` that its constants switch off, with `resolve_phi`; the
-- case EXP, which only calls the emitted power; the traps of the WASM engine on an address out of its
-- memory; the casts of results to instructions in BYTE, SIGNEXTEND and the cases that call the
-- environment but PC, whose results are taken for instructions; debug metadata and log messages; and the passes
-- over LLVM's IR but `LowerEVMPass` and the switch of `UseSafeMathPass` (Optimizer, Tainter), which walk LLVM's in-memory classes. Hera and the
-- EVMC headers are other projects' code, and the NEAR module and most of the EEI module declare
-- imports.
pub mod Prelude
pub mod Instruction
pub mod Blocks
pub mod Split
pub mod Stack
pub mod DryRun
pub mod Cfg
pub mod Exp
pub mod Words
pub mod Lift
pub mod Division
pub mod Product
pub mod SafeMath
pub mod Lowering
pub mod Extend
pub mod Effects
pub mod Memcpy
pub mod Frame
pub mod Machine
pub mod Environment
pub mod Jumps
pub mod Tests

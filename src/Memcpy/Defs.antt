-- ===== src/Memcpy/Defs.antt =====
-- `EEIModule::initMemcpy`: the blocks `loop` and `return` with their phis.
use evmbt.Prelude.{ℕ, zero, suc, ◌+◌, Option, none, some, ◌==◌, if◌then◌else◌}
use evmbt.Words.{sub_word}

abbrev pub store_byte : ℕ → ℕ → (ℕ → ℕ) → ℕ → ℕ
store_byte at value memory a = if a == at then value else memory a

-- The block `loop`, which runs before its test; `none` means that the fuel ran out.
unfoldable pub memcpy_loop : ℕ → ℕ → ℕ → ℕ → (ℕ → ℕ) → Option (ℕ → ℕ)
memcpy_loop zero src dst length memory = none
memcpy_loop (suc fuel) src dst length memory =
    let memory2 = store_byte dst (memory src) memory in
    let length2 = sub_word 32 length 1 in
    let rest = memcpy_loop fuel (src + 1) (dst + 1) length2 memory2 in
    if length2 == 0 then some memory2 else rest

-- A call of `solidity.memcpy`: a round for each byte.
unfoldable pub memcpy : ℕ → ℕ → ℕ → (ℕ → ℕ) → Option (ℕ → ℕ)
unfolding memcpy_loop
memcpy dst src length memory =
    let copy = memcpy_loop length src dst length memory in if length == 0 then some memory else copy

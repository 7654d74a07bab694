-- ===== src/Memcpy/Total.antt =====
-- The emitted copy returns for every length of 32 bits, also where the ranges overlap.
use evmbt.Prelude.{ℕ, zero, suc, ◌+◌, ◌<◌, ◌≤◌, ◌≡◌, ◌∙◌, ◌^◌, refl, some, beq_of_ne, arith}
use evmbt.Memcpy.Defs.{store_byte, memcpy_loop, memcpy}
use evmbt.Memcpy.Copied.{loop_next, loop_last}

loop_total :
    (n fuel src dst : ℕ) (memory : ℕ → ℕ)
    → suc n < 2 ^ 32
    → n ≤ fuel
    → (memory' : ℕ → ℕ) × (memcpy_loop (suc fuel) src dst (suc n) memory ≡ some memory')
loop_total zero fuel src dst memory h l = (_, loop_last fuel src dst memory)
loop_total (suc n) zero src dst memory h l = absurd (omega arith)
loop_total (suc n) (suc fuel) src dst memory h l =
    let later =
      loop_total n fuel (src + 1) (dst + 1) (store_byte dst (memory src) memory) (omega arith)
        (omega arith) in
    (later.0, loop_next (suc fuel) src dst n memory h ∙ later.1)

pub memcpy_total :
    (dst src length : ℕ) (memory : ℕ → ℕ)
    → length < 2 ^ 32
    → (memory' : ℕ → ℕ) × (memcpy dst src length memory ≡ some memory')
unfolding memcpy
memcpy_total dst src zero memory h = (memory, refl)
memcpy_total dst src (suc n) memory h =
    let copy = loop_total n n src dst memory h (omega arith) in
    (copy.0, rw (beq_of_ne (suc n) 0 (λ e. omega (arith, e))) copy.1)

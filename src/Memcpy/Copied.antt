-- ===== src/Memcpy/Copied.antt =====
-- What the emitted copy leaves in memory.
use evmbt.Prelude.{
  ℕ, zero, suc, ◌+◌, ◌-◌, ◌%◌, ◌^◌, ◌<◌, ◌≤◌, ◌≡◌, ◌≢◌, ◌⊎◌, ◌∙◌, refl, ap, some, inl, inr,
  beq_of_ne, beq_of_eq, arith,
}
use evmbt.Memcpy.Defs.{store_byte, memcpy_loop, memcpy}

-- The target does not begin inside the source.
abbrev pub Forward : ℕ → ℕ → ℕ → Type 0
Forward dst src length = (dst ≤ src) ⊎ (src + length ≤ dst)

-- The bytes from `src` on stand from `dst` on, and all others are what they were.
abbrev pub IsCopy : ℕ → ℕ → ℕ → (ℕ → ℕ) → (ℕ → ℕ) → Type 0
IsCopy dst src length memory memory' =
    ((i : ℕ) → i < length → memory' (dst + i) ≡ memory (src + i))
    × ((a : ℕ) → (a < dst) ⊎ (dst + length ≤ a) → memory' a ≡ memory a)

stored_other : (at v a : ℕ) (memory : ℕ → ℕ) → a ≢ at → store_byte at v memory a ≡ memory a
stored_other at v a memory h = rw (beq_of_ne a at h) refl

stored_same : (at v : ℕ) (memory : ℕ → ℕ) → store_byte at v memory at ≡ v
stored_same at v memory = rw (beq_of_eq at at refl) refl

pub loop_last :
    (fuel src dst : ℕ) (memory : ℕ → ℕ)
    → memcpy_loop (suc fuel) src dst 1 memory ≡ some (store_byte dst (memory src) memory)
unfolding memcpy_loop
loop_last fuel src dst memory = refl

pub loop_next :
    (fuel src dst n : ℕ) (memory : ℕ → ℕ)
    → suc (suc n) < 2 ^ 32
    → memcpy_loop (suc fuel) src dst (suc (suc n)) memory
      ≡ memcpy_loop fuel (src + 1) (dst + 1) (suc n) (store_byte dst (memory src) memory)
unfolding memcpy_loop
loop_next fuel src dst n memory h =
    let less : (suc (suc n) + 2 ^ 32 - 1) % 2 ^ 32 ≡ suc n = omega arith in
    rw (less, beq_of_ne (suc n) 0 (λ e. omega (arith, e))) refl

Forward-next : (dst src n : ℕ) → Forward dst src (suc n) → Forward (dst + 1) (src + 1) n
Forward-next dst src n (inl h) = inl (omega arith)
Forward-next dst src n (inr h) = inr (omega arith)

not_target : (dst src n i : ℕ) → Forward dst src n → i + 1 < n → src + 1 + i ≢ dst
not_target dst src n i (inl h) l e = omega arith
not_target dst src n i (inr h) l e = omega arith

outside_next : (a dst n : ℕ) → (a < dst) ⊎ (dst + suc n ≤ a) → (a < dst + 1) ⊎ (dst + 1 + n ≤ a)
outside_next a dst n (inl h) = inl (omega arith)
outside_next a dst n (inr h) = inr (omega arith)

outside_ne : (a dst n : ℕ) → (a < dst) ⊎ (dst + suc n ≤ a) → a ≢ dst
outside_ne a dst n (inl h) e = omega arith
outside_ne a dst n (inr h) e = omega arith

-- One byte, and a copy of the others.
IsCopy-next :
    (dst src n : ℕ) (memory memory' : ℕ → ℕ)
    → Forward dst src (suc n)
    → IsCopy (dst + 1) (src + 1) n (store_byte dst (memory src) memory) memory'
    → IsCopy dst src (suc n) memory memory'
IsCopy-next dst src n memory memory' f c = (
  copied,
  λ a o.
      c.1 a (outside_next a dst n o)
      ∙ stored_other dst (memory src) a memory (outside_ne a dst n o),
)
  where
    copied : (i : ℕ) → i < suc n → memory' (dst + i) ≡ memory (src + i)
    copied zero h =
        ap memory' {y = dst} (omega arith)
        ∙ c.1 dst (inl (omega arith))
        ∙ stored_same dst (memory src) memory
        ∙ ap memory {y = src + 0} (omega arith)
    copied (suc i) h =
        ap memory' {y = dst + 1 + i} (omega arith)
        ∙ c.0 i (omega arith)
        ∙ stored_other dst (memory src) (src + 1 + i) memory
            (not_target dst src (suc n) i f (omega arith))
        ∙ ap memory {y = src + suc i} (omega arith)

no_bytes : (dst src : ℕ) (memory : ℕ → ℕ) → IsCopy dst src 0 memory memory
no_bytes dst src memory = (λ i h. absurd (omega arith), λ a o. refl)

loop-IsCopy :
    (n fuel src dst : ℕ) (memory : ℕ → ℕ)
    → suc n < 2 ^ 32
    → n ≤ fuel
    → Forward dst src (suc n)
    → (memory' : ℕ → ℕ) × (memcpy_loop (suc fuel) src dst (suc n) memory ≡ some memory')
      × IsCopy dst src (suc n) memory memory'
loop-IsCopy zero fuel src dst memory h l f =
    let memory2 = store_byte dst (memory src) memory in
    (
      memory2,
      loop_last fuel src dst memory,
      IsCopy-next dst src 0 memory memory2 f (no_bytes (dst + 1) (src + 1) memory2),
    )
loop-IsCopy (suc n) zero src dst memory h l f = absurd (omega arith)
loop-IsCopy (suc n) (suc fuel) src dst memory h l f =
    let memory2 = store_byte dst (memory src) memory in
    let rest =
      loop-IsCopy n fuel (src + 1) (dst + 1) memory2 (omega arith) (omega arith)
        (Forward-next dst src (suc n) f) in
    (
      rest.0,
      loop_next (suc fuel) src dst n memory h ∙ rest.1,
      IsCopy-next dst src (suc n) memory rest.0 f rest.2,
    )

-- For every length of 32 bits and a target that does not begin inside the source, the emitted copy
-- returns, the target has the source's bytes afterwards, and no other byte changes.
pub memcpy-IsCopy :
    (dst src length : ℕ) (memory : ℕ → ℕ)
    → length < 2 ^ 32
    → Forward dst src length
    → (memory' : ℕ → ℕ) × (memcpy dst src length memory ≡ some memory')
      × IsCopy dst src length memory memory'
unfolding memcpy
memcpy-IsCopy dst src zero memory h f = (memory, refl, no_bytes dst src memory)
memcpy-IsCopy dst src (suc n) memory h f =
    let copy = loop-IsCopy n n src dst memory h (omega arith) f in
    (copy.0, rw (beq_of_ne (suc n) 0 (λ e. omega (arith, e))) copy.1, copy.2)

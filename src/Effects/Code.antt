-- ===== src/Effects/Code.antt =====
-- CODECOPY with the emitted copy and the global `evmCode`.
use native.Mathlib.Nat.{mod-eq_of_lt}
use evmbt.Prelude.{ℕ, ◌+◌, ◌%◌, ◌^◌, ◌<◌, ◌≤◌, ◌≡◌, ◌∙◌, ◌⊎◌, ap, List, ◌∷◌, Option, some, arith}
use evmbt.Stack.Defs.{Value}
use evmbt.Stack.Registers.{pop}
use evmbt.Memcpy.Defs.{memcpy}
use evmbt.Memcpy.Copied.{Forward, memcpy-IsCopy}
use evmbt.Effects.Bytes.{word256, pointer}
use evmbt.Effects.Monad.{State, World, ◌>>=◌, check, write_memory, pop_value}
use evmbt.Effects.Cases.{compile_codecopy}

-- What CODECOPY does with the memory that the copy leaves.
abbrev written : {H : Type 0} → List Value → World H → Option (ℕ → ℕ) → Option (Unit {0} × State H)
written rest w copy =
    (check copy >>= λ memory. write_memory (λ old. memory)) (record { stack = rest; world = w })

-- CODECOPY puts the bytes of the code that are asked for at the target, and changes no other byte:
-- for a range inside the code, a code that the linear memory has at `base`, and a target that does
-- not begin inside the range.
pub compile_codecopy-code :
    {H : Type 0} (code : ℕ → ℕ) (base size : ℕ) (dest : Value) (src length : ℕ) (rest : List Value)
    (w : World H)
    → base + size < 2 ^ 32
    → ((i : ℕ) → i < size → w.memory (base + i) ≡ code i)
    → src + length ≤ size
    → Forward (pointer dest) (base + src) length
    → (memory : ℕ → ℕ) × (compile_codecopy base
          (record { stack = dest ∷ word256 src ∷ word256 length ∷ rest; world = w })
        ≡ some (tt, record { stack = rest; world = record w { memory = memory } }))
      × ((i : ℕ) → i < length → memory (pointer dest + i) ≡ code (src + i))
      × ((a : ℕ) → (a < pointer dest) ⊎ (pointer dest + length ≤ a) → memory a ≡ w.memory a)
unfolding compile_codecopy pop_value pop
compile_codecopy-code code base size dest src length rest w hb hc hr f =
    let hl : length < 2 ^ 32 = omega arith in
    let copy = memcpy-IsCopy (pointer dest) (base + src) length w.memory hl f in
    let from : (base + src % 2 ^ 32) % 2 ^ 32 ≡ base + src = omega arith in
    let count : length % 2 ^ 32 ≡ length = mod-eq_of_lt hl in
    (
      copy.0,
      ap (λ p. written rest w (memcpy (pointer dest) p (length % 2 ^ 32) w.memory)) from
          ∙ ap (λ n. written rest w (memcpy (pointer dest) (base + src) n w.memory)) count
          ∙ ap (written rest w) copy.1,
      λ i h.
          copy.2.0 i h
          ∙ ap w.memory {x = base + src + i} {y = base + (src + i)} (omega arith)
          ∙ hc (src + i) (omega arith),
      copy.2.1,
    )

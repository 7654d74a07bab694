-- ===== src/Effects/Element.antt =====
-- The case BYTE against the bytes of a word.
use evmbt.Prelude.{
  ℕ, ◌-◌, ◌%◌, ◌^◌, ◌<◌, ◌≡◌, ◌∙◌, refl, ap, List, ◌∷◌, some, ltb, if◌then◌else◌, Bool-cases, inl,
  inr, arith,
}
use evmbt.Stack.Defs.{Value}
use evmbt.Stack.Registers.{push, pop}
use evmbt.Environment.Mirror.{byte}
use evmbt.Effects.Bytes.{word256, swapped}
use evmbt.Effects.Monad.{World, pop_value, push_value}
use evmbt.Effects.Cases.{compile_byte}
use evmbt.Effects.Memory.{byte-swapped}

chosen_byte :
    (i n : ℕ)
    → (if ltb i 32 then byte (i % 2 ^ 5) (swapped 32 n) else 0)
      ≡ (if ltb i 32 then byte (31 - i) n else 0)
chosen_byte i n = elim (Bool-cases (ltb i 32)) [
  | inl e ↦
      let l : i < 32 = ground arith in
      rw e
        (ap (λ j. byte j (swapped 32 n)) {x = i % 2 ^ 5} {y = i} (omega arith) ∙ byte-swapped i n l)
  | inr e ↦ rw e refl
]

-- The case BYTE gives the byte of the second word at the index, from the highest byte on, and 0
-- for an index above 31.
pub compile_byte-byte :
    {H : Type 0} (i n : ℕ) (rest : List Value) (w : World H)
    → compile_byte (record { stack = word256 i ∷ word256 n ∷ rest; world = w })
      ≡ some (
        tt,
        record { stack = word256 (if ltb i 32 then byte (31 - i) n else 0) ∷ rest; world = w },
      )
unfolding compile_byte pop_value push_value push pop
compile_byte-byte i n rest w =
    ap (λ b. some (tt, record { stack = word256 b ∷ rest; world = w })) (chosen_byte i n)

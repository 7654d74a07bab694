-- ===== src/Lift/Correct.antt =====
-- A run of value opcodes, compiled, against the EVM's.
use evmbt.Prelude.{
  true, none, not, ◌&&◌, ◌⊎◌, ℕ, zero, suc, ◌+◌, ◌-◌, ◌^◌, ◌<◌, ◌≡◌, refl, ap, subst, List, [], ◌∷◌,
  false, some, length, get_or, set, leb, ltb, arith, inl, inr, Bool-cases,
}
use evmbt.Instruction.{dup1_op, swap1_op}
use evmbt.Stack.Registers.{push, pop, dup, swap}
use evmbt.Lift.Interface.{Builder, Semantics}
use evmbt.Lift.Cases.{word, compile_pop, compile_dup, compile_swap}
use evmbt.Lift.Defs.{
  ValueInstruction, compile_push, casts, case_stack, all_cast, compile_values, add_ins, mul_ins,
  sub_ins, div_ins, sdiv_ins, mod_ins, smod_ins, addmod_ins, mulmod_ins, lt_ins, gt_ins, slt_ins,
  sgt_ins, eq_ins, iszero_ins, and_ins, or_ins, xor_ins, not_ins, shl_ins, shr_ins, sar_ins,
  pop_ins, push_ins, dup_ins, swap_ins,
}
use evmbt.Lift.Evm.{evm_value, Defined, Executes, finished, executes}
use evmbt.Lift.Denotes.{IsWord, Denotes}
use evmbt.Lift.Wide.{addmod-Denotes, mulmod-Denotes}
use evmbt.Lift.Opcodes.{
  add-Denotes, mul-Denotes, sub-Denotes, div-Denotes, sdiv-Denotes, mod-Denotes, smod-Denotes,
  lt-Denotes, gt-Denotes, slt-Denotes, sgt-Denotes, eq-Denotes, iszero-Denotes, and-Denotes,
  or-Denotes, xor-Denotes, not-Denotes, shl-Denotes, shr-Denotes, sar-Denotes,
}

module _ {Val : Type 0} {B : Builder Val} (S : Semantics B) where
  Denotes-length : (vs : List Val) (ws : List ℕ) → Denotes S vs ws → length vs ≡ length ws
  Denotes-length [] [] d = refl
  Denotes-length [] (w ∷ ws) d = absurd d
  Denotes-length (v ∷ vs) [] d = absurd d
  Denotes-length (v ∷ vs) (w ∷ ws) d = ap suc (Denotes-length vs ws d.1)

  Denotes-get :
      (vs : List Val) (ws : List ℕ) (i : ℕ) (z : Val)
      → Denotes S vs ws
      → i < length ws
      → IsWord S (get_or vs i z) (get_or ws i 0)
  Denotes-get vs [] i z d h = absurd (omega arith)
  Denotes-get [] (w ∷ ws) i z d h = absurd d
  Denotes-get (v ∷ vs) (w ∷ ws) zero z d h = d.0
  Denotes-get (v ∷ vs) (w ∷ ws) (suc i) z d h = Denotes-get vs ws i z d.1 (omega arith)

  Denotes-set :
      (vs : List Val) (ws : List ℕ) (i : ℕ) (v : Val) (w : ℕ)
      → Denotes S vs ws
      → IsWord S v w
      → Denotes S (set vs i v) (set ws i w)
  Denotes-set [] [] i v w d h = tt
  Denotes-set [] (y ∷ ws) i v w d h = absurd d
  Denotes-set (x ∷ vs) [] i v w d h = absurd d
  Denotes-set (x ∷ vs) (y ∷ ws) zero v w d h = (h, d.1)
  Denotes-set (x ∷ vs) (y ∷ ws) (suc i) v w d h = (d.0, Denotes-set vs ws i v w d.1 h)

  pop-Denotes :
      (vs : List Val) (ws ws' : List ℕ)
      → Denotes S vs ws
      → evm_value pop_ins ws ≡ some ws'
      → Denotes S (compile_pop B vs) ws'
  unfolding compile_pop pop evm_value
  pop-Denotes vs [] ws' d e = absurd (cc e)
  pop-Denotes [] (w ∷ ws) ws' d e = absurd d
  pop-Denotes (v ∷ vs) (w ∷ ws) ws' d e =
      let same : ws ≡ ws' = cc e in subst (λ x. Denotes S vs x) same d.1

  dup_words :
      (index : ℕ) (ws ws' : List ℕ)
      → evm_value (dup_ins index) ws ≡ some ws'
      → (index < length ws) × (get_or ws index 0 ∷ ws ≡ ws')
  unfolding evm_value
  dup_words index ws ws' e = elim (Bool-cases (ltb index (length ws))) [
    | inl h ↦ (ground arith, ground (arith, e))
    | inr h ↦ absurd (ground (arith, e))
  ]

  dup_values :
      (index : ℕ) (vs : List Val)
      → index < length vs
      → compile_dup B (dup1_op + index) vs ≡ get_or vs index (word B 0) ∷ vs
  unfolding compile_dup dup
  dup_values index vs h =
      let i : dup1_op + index - dup1_op ≡ index = omega arith in
      let inside : leb (length vs) index ≡ false = ground arith in rw (i, inside) refl

  dup-Denotes :
      (index : ℕ) (vs : List Val) (ws ws' : List ℕ)
      → Denotes S vs ws
      → evm_value (dup_ins index) ws ≡ some ws'
      → Denotes S (compile_dup B (dup1_op + index) vs) ws'
  dup-Denotes index vs ws ws' d e =
      let (h, same) = dup_words index ws ws' e in
      rw (← same, dup_values index vs (omega (arith, h, Denotes-length vs ws d)))
        (Denotes-get vs ws index (word B 0) d h, d)

  swap_words :
      (index : ℕ) (ws ws' : List ℕ)
      → evm_value (swap_ins index) ws ≡ some ws'
      → (index + 1 < length ws)
        × (set (set ws (index + 1) (get_or ws 0 0)) 0 (get_or ws (index + 1) 0) ≡ ws')
  unfolding evm_value
  swap_words index ws ws' e = elim (Bool-cases (ltb (index + 1) (length ws))) [
    | inl h ↦ (ground arith, ground (arith, e))
    | inr h ↦ absurd (ground (arith, e))
  ]

  swap_values :
      (index : ℕ) (vs : List Val)
      → index + 1 < length vs
      → compile_swap B (swap1_op + index) vs
        ≡ set (set vs (index + 1) (get_or vs 0 (word B 0))) 0 (get_or vs (index + 1) (word B 0))
  unfolding compile_swap swap
  swap_values index vs h =
      let i : swap1_op + index - swap1_op ≡ index = omega arith in
      let inside : leb (length vs) (index + 1) ≡ false = ground arith in rw (i, inside) refl

  swap-Denotes :
      (index : ℕ) (vs : List Val) (ws ws' : List ℕ)
      → Denotes S vs ws
      → evm_value (swap_ins index) ws ≡ some ws'
      → Denotes S (compile_swap B (swap1_op + index) vs) ws'
  swap-Denotes index vs ws ws' d e =
      let (h, same) = swap_words index ws ws' e in
      let z = word B 0 in
      rw (← same, swap_values index vs (omega (arith, h, Denotes-length vs ws d)))
        (Denotes-set _ _ 0 _ _
          (Denotes-set vs ws (index + 1) _ _ d (Denotes-get vs ws 0 z d (omega arith)))
          (Denotes-get vs ws (index + 1) z d h))

  push-Denotes :
      (value : ℕ) (vs : List Val) (ws ws' : List ℕ)
      → Denotes S vs ws
      → evm_value (push_ins value) ws ≡ some ws'
      → value < 2 ^ 256
      → Denotes S (compile_push B value vs) ws'
  unfolding compile_push push evm_value
  push-Denotes value vs ws ws' d e h =
      let same : value ∷ ws ≡ ws' = cc e in
      subst (λ x. Denotes S (word B value ∷ vs) x) same (S.const_lem 256 value h, d)

  -- One instruction.
  case_stack-Denotes :
      (ins : ValueInstruction) (vs : List Val) (ws ws' : List ℕ)
      → Denotes S vs ws
      → evm_value ins ws ≡ some ws'
      → Defined ins ws
      → Denotes S (case_stack B ins vs) ws'
  unfolding case_stack
  case_stack-Denotes add_ins vs ws ws' d e ok = add-Denotes S vs ws ws' d e
  case_stack-Denotes mul_ins vs ws ws' d e ok = mul-Denotes S vs ws ws' d e
  case_stack-Denotes sub_ins vs ws ws' d e ok = sub-Denotes S vs ws ws' d e
  case_stack-Denotes div_ins vs ws ws' d e ok = div-Denotes S vs ws ws' d e ok
  case_stack-Denotes sdiv_ins vs ws ws' d e ok = sdiv-Denotes S vs ws ws' d e ok
  case_stack-Denotes mod_ins vs ws ws' d e ok = mod-Denotes S vs ws ws' d e ok
  case_stack-Denotes smod_ins vs ws ws' d e ok = smod-Denotes S vs ws ws' d e ok
  case_stack-Denotes addmod_ins vs ws ws' d e ok = addmod-Denotes S vs ws ws' d e ok
  case_stack-Denotes mulmod_ins vs ws ws' d e ok = mulmod-Denotes S vs ws ws' d e ok
  case_stack-Denotes lt_ins vs ws ws' d e ok = lt-Denotes S vs ws ws' d e
  case_stack-Denotes gt_ins vs ws ws' d e ok = gt-Denotes S vs ws ws' d e
  case_stack-Denotes slt_ins vs ws ws' d e ok = slt-Denotes S vs ws ws' d e
  case_stack-Denotes sgt_ins vs ws ws' d e ok = sgt-Denotes S vs ws ws' d e
  case_stack-Denotes eq_ins vs ws ws' d e ok = eq-Denotes S vs ws ws' d e
  case_stack-Denotes iszero_ins vs ws ws' d e ok = iszero-Denotes S vs ws ws' d e
  case_stack-Denotes and_ins vs ws ws' d e ok = and-Denotes S vs ws ws' d e
  case_stack-Denotes or_ins vs ws ws' d e ok = or-Denotes S vs ws ws' d e
  case_stack-Denotes xor_ins vs ws ws' d e ok = xor-Denotes S vs ws ws' d e
  case_stack-Denotes not_ins vs ws ws' d e ok = not-Denotes S vs ws ws' d e
  case_stack-Denotes shl_ins vs ws ws' d e ok = shl-Denotes S vs ws ws' d e ok
  case_stack-Denotes shr_ins vs ws ws' d e ok = shr-Denotes S vs ws ws' d e ok
  case_stack-Denotes sar_ins vs ws ws' d e ok = sar-Denotes S vs ws ws' d e ok
  case_stack-Denotes pop_ins vs ws ws' d e ok = pop-Denotes vs ws ws' d e
  case_stack-Denotes (push_ins value) vs ws ws' d e ok = push-Denotes value vs ws ws' d e ok
  case_stack-Denotes (dup_ins index) vs ws ws' d e ok = dup-Denotes index vs ws ws' d e
  case_stack-Denotes (swap_ins index) vs ws ws' d e ok = swap-Denotes index vs ws ws' d e

  -- From a stack whose values denote the EVM's words, a run of value opcodes that the EVM executes,
  -- within what LLVM defines, is compiled to a stack whose values denote the words that the EVM
  -- leaves, if every result that is cast to an instruction is one; if one is not, it is refused.
  pub compile_values-Denotes :
      (code : List ValueInstruction) (vs : List Val) (ws ws' : List ℕ)
      → Denotes S vs ws
      → Executes code ws ws'
      → ((all_cast B code vs ≡ true)
          × (vs' : List Val) × (compile_values B code vs ≡ some vs')
          × Denotes S vs' ws')
        ⊎ ((all_cast B code vs ≡ false) × (compile_values B code vs ≡ none))
  unfolding compile_values all_cast
  compile_values-Denotes [] vs ws ws' d finished = inl (refl, vs, refl, d)
  compile_values-Denotes (ins ∷ code) vs ws ws' d (executes next e ok rest) =
      let stack = case_stack B ins vs in
      let refused = casts ins && not (B.is_instruction (pop (word B 0) stack).0) in
      let later =
        compile_values-Denotes code stack next ws' (case_stack-Denotes ins vs ws next d e ok)
          rest in
      elim (Bool-cases refused) [
        | inl bad ↦ inr (rw bad refl, rw bad refl)
        | inr fine ↦ elim later [
          | inl good ↦ inl (rw fine good.0, good.1, rw fine good.2, good.3)
          | inr bad ↦ inr (rw fine bad.0, rw fine bad.1)
        ]
      ]

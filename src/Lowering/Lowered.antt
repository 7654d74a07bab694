-- ===== src/Lowering/Lowered.antt =====
-- The function after `LowerEVMPass` against the function before it.
use evmbt.Prelude.{
  ℕ, ◌^◌, ◌<◌, ◌≡◌, ◌≢◌, arith, ◌∙◌, refl, ap, Bool, true, false, ◌||◌, Option, none, some, List,
  [], ◌∷◌, All,
}
use evmbt.Lowering.Defs.{
  Opcode, Callee, Inst, binary, call, callee, run_callee, replaced, lower_inst, lower_block,
  lower_blocks, run_on_function,
}
use evmbt.Lowering.Calls.{llvm_value, run_callee-llvm_value}

true-ne-false : true ≢ false
true-ne-false h = ground arith

or_false : (a b : Bool) → (a || b) ≡ false → (a ≡ false) × (b ≡ false)
or_false true b h = absurd (true-ne-false h)
or_false false b h = (refl, h)

-- No instruction that the pass would replace.
abbrev pub IsLow : {Val : Type 0} → Inst Val → Type 0
IsLow (binary opcode width a b) = callee width opcode ≡ none
IsLow (call func a b) = Unit

-- `R` holds of the elements at each position, and the lists have one length.
abbrev pub Pairwise {ℓ} : {A : Type ℓ} → (A → A → Type 0) → List A → List A → Type 0
Pairwise R [] [] = Unit
Pairwise R [] (y ∷ ys) = ⊥
Pairwise R (x ∷ xs) [] = ⊥
Pairwise R (x ∷ xs) (y ∷ ys) = R x y × Pairwise R xs ys

module _ {Val : Type 0} (env : Val → ℕ) (others : ℕ → ℕ → ℕ → ℕ → Option ℕ) where
  -- The number that an instruction gives, its operands standing for the numbers of `env`.
  abbrev pub value_of : Inst Val → Option ℕ
  value_of (binary opcode width a b) = llvm_value others width opcode (env a) (env b)
  value_of (call func a b) = run_callee func (env a) (env b)

  -- The operands fit the instruction's type.
  abbrev pub IsTyped : Inst Val → Type 0
  IsTyped (binary opcode width a b) = (env a < 2 ^ width) × (env b < 2 ^ width)
  IsTyped (call func a b) = Unit

  -- What is defined stays defined, with the same number.
  abbrev pub Refines : Inst Val → Inst Val → Type 0
  Refines i j = (n : ℕ) → value_of i ≡ some n → value_of j ≡ some n

  -- What the pass is to do with an instruction: refine it, leave nothing to lower, and say so
  -- where it changes something.
  abbrev pub LowersTo : Inst Val → Inst Val × Bool → Type 0
  LowersTo i lowered = Refines i lowered.0 × IsLow lowered.0 × (lowered.1 ≡ false → lowered.0 ≡ i)

  replaced-LowersTo :
      (op : Opcode) (w : ℕ) (a b : Val) (o : Option Callee)
      → IsTyped (binary op w a b)
      → callee w op ≡ o
      → LowersTo (binary op w a b) (replaced o op w a b)
  unfolding replaced
  replaced-LowersTo op w a b none t e = (λ n h. h, e, λ h. refl)
  replaced-LowersTo op w a b (some f) t e = (
    λ n h. run_callee-llvm_value others w op f (env a) (env b) n e t.0 t.1 h,
    tt,
    λ h. absurd (true-ne-false h),
  )

  lower_inst-LowersTo : (i : Inst Val) → IsTyped i → LowersTo i (lower_inst i)
  unfolding lower_inst
  lower_inst-LowersTo (binary op w a b) t = replaced-LowersTo op w a b (callee w op) t refl
  lower_inst-LowersTo (call f a b) t = (λ n h. h, tt, λ h. refl)

  -- The same for a block, with the flag before it.
  abbrev pub BlockLowers : List (Inst Val) → Bool → List (Inst Val) × Bool → Type 0
  BlockLowers block modified lowered =
      Pairwise Refines block lowered.0
      × All IsLow lowered.0
      × (lowered.1 ≡ false → (modified ≡ false) × (lowered.0 ≡ block))

  lower_block-BlockLowers :
      (block : List (Inst Val)) (modified : Bool)
      → All IsTyped block
      → BlockLowers block modified (lower_block block modified)
  unfolding lower_block
  lower_block-BlockLowers [] modified t = (tt, tt, λ h. (h, refl))
  lower_block-BlockLowers (i ∷ is) modified t =
      let first = lower_inst-LowersTo i t.0 in
      let rest = lower_block-BlockLowers is (modified || (lower_inst i).1) t.1 in
      (
        (first.0, rest.0),
        (first.1, rest.1),
        λ h.
            let r = rest.2 h in
            let o = or_false modified (lower_inst i).1 r.0 in
            (
              o.0,
              ap (λ x. x ∷ (lower_block is (modified || (lower_inst i).1)).0) (first.2 o.1)
                  ∙ ap (λ xs. i ∷ xs) r.1,
            ),
      )

  abbrev pub BlocksLower : List (List (Inst Val)) → Bool → List (List (Inst Val)) × Bool → Type 0
  BlocksLower blocks modified lowered =
      Pairwise (Pairwise Refines) blocks lowered.0
      × All (All IsLow) lowered.0
      × (lowered.1 ≡ false → (modified ≡ false) × (lowered.0 ≡ blocks))

  lower_blocks-BlocksLower :
      (blocks : List (List (Inst Val))) (modified : Bool)
      → All (All IsTyped) blocks
      → BlocksLower blocks modified (lower_blocks blocks modified)
  unfolding lower_blocks
  lower_blocks-BlocksLower [] modified t = (tt, tt, λ h. (h, refl))
  lower_blocks-BlocksLower (b ∷ bs) modified t =
      let first = lower_block-BlockLowers b modified t.0 in
      let rest = lower_blocks-BlocksLower bs (lower_block b modified).1 t.1 in
      (
        (first.0, rest.0),
        (first.1, rest.1),
        λ h.
            let r = rest.2 h in
            let o = first.2 r.0 in
            (
              o.0,
              ap (λ x. x ∷ (lower_blocks bs (lower_block b modified).1).0) o.1
                  ∙ ap (λ xs. b ∷ xs) r.1,
            ),
      )

  -- On a function whose operands fit their types, the pass keeps every block and every instruction
  -- in its place, with the number that LLVM defines for it; it leaves no wide division or product
  -- that it knows; and where it does not report a change there is none.
  pub run_on_function-BlocksLower :
      (blocks : List (List (Inst Val)))
      → All (All IsTyped) blocks
      → BlocksLower blocks false (run_on_function blocks)
  unfolding run_on_function
  run_on_function-BlocksLower blocks t = lower_blocks-BlocksLower blocks false t

-- ===== src/DryRun/Known.antt =====
-- The stack of `dry_run_bb` against the machine's, on code without SWAPs.
use evmbt.Prelude.{
  ℕ, zero, suc, ◌+◌, ◌-◌, ◌<◌, ◌≤◌, ◌≡◌, ◌∙◌, refl, ap, ◌⊎◌, inl, inr, List, [], ◌∷◌, ◌++◌, true,
  false, Option, some, length, get_or, drop, replicate, leb, arith,
}
use evmbt.Instruction.{
  byte_at, is_push, read_push_data, skip_push_data_and_get_next, stack_out, stack_in, stop_op,
  jump_op, jumpi_op,
}
use evmbt.Instruction.Decode.{next_bounds}
use evmbt.DryRun.Defs.{
  balance_out, balanced_stk, dry_dup, is_balanced, is_exit, dry_stack, dry_step, dry_loop,
  dry_run_bb,
}
use evmbt.DryRun.Rounds.{
  is_dup, low_word, dry_loop_end, dry_loop_next, dry_loop_exit, dry_step_push, dry_step_plain,
  dry_step_exit, dry_stack_dup, dry_stack_leave, dry_stack_balanced,
}

-- An entry of the dry run: 0 for unknown, or the number that the machine has there.
abbrev pub Entry : ℕ → ℕ → Type 0
Entry d c = (d ≡ 0) ⊎ (d ≡ c)

-- The dry run's stack has the machine's height, and its entries.
abbrev pub Known : List ℕ → List ℕ → Type 0
Known [] [] = Unit
Known [] (c ∷ cs) = ⊥
Known (d ∷ ds) [] = ⊥
Known (d ∷ ds) (c ∷ cs) = Entry d c × Known ds cs

-- The machine goes from an instruction and a stack to `it'` and `stack'`, inside the block. An
-- instruction that is not a PUSH or a DUP puts any numbers in the place of those that it takes.
pub data Runs (code : List ℕ) (end it' : ℕ) (stack' : List ℕ) : ℕ → List ℕ → Type 0 where
  arrived : Runs code end it' stack' it' stack'
  pushes :
      {it : ℕ} {stack : List ℕ}
      → it < end
      → is_push (byte_at code it) ≡ true
      → Runs code end it' stack'
          (skip_push_data_and_get_next code it end)
          ((read_push_data code it end).0 ∷ stack)
      → Runs code end it' stack' it stack
  dups :
      {it : ℕ} {stack : List ℕ}
      → it < end
      → is_dup (byte_at code it) ≡ true
      → byte_at code it - 0x80 < length stack
      → Runs code end it' stack' (it + 1) (get_or stack (byte_at code it - 0x80) 0 ∷ stack)
      → Runs code end it' stack' it stack
  computes :
      {it : ℕ} {stack : List ℕ} (results : List ℕ)
      → it < end
      → is_balanced (byte_at code it) ≡ true
      → is_exit (byte_at code it) ≡ false
      → stack_out (byte_at code it) ≤ length stack
      → length results ≡ stack_in (byte_at code it)
      → Runs code end it' stack' (it + 1) (results ++ drop (stack_out (byte_at code it)) stack)
      → Runs code end it' stack' it stack

-- The block ends, or its last instruction is a STOP or a jump that is not yet made.
abbrev pub Stops : List ℕ → ℕ → ℕ → Type 0
Stops code end it =
    (it ≡ end)
    ⊎ ((it < end)
        × ((byte_at code it ≡ stop_op)
            ⊎ ((byte_at code it ≡ jump_op) ⊎ (byte_at code it ≡ jumpi_op))))

Known-length : (ds cs : List ℕ) → Known ds cs → length ds ≡ length cs
Known-length [] [] k = refl
Known-length [] (c ∷ cs) k = absurd k
Known-length (d ∷ ds) [] k = absurd k
Known-length (d ∷ ds) (c ∷ cs) k = omega (arith, Known-length ds cs k.1)

Known-get : (ds cs : List ℕ) (i : ℕ) → Known ds cs → Entry (get_or ds i 0) (get_or cs i 0)
Known-get [] [] i k = inl refl
Known-get [] (c ∷ cs) i k = absurd k
Known-get (d ∷ ds) [] i k = absurd k
Known-get (d ∷ ds) (c ∷ cs) zero k = k.0
Known-get (d ∷ ds) (c ∷ cs) (suc i) k = Known-get ds cs i k.1

Known-results :
    (n : ℕ) (results ds cs : List ℕ)
    → length results ≡ n
    → Known ds cs
    → Known (replicate n 0 ++ ds) (results ++ cs)
Known-results zero [] ds cs e k = k
Known-results zero (r ∷ results) ds cs e k = absurd (omega (arith, e))
Known-results (suc n) [] ds cs e k = absurd (omega (arith, e))
Known-results (suc n) (r ∷ results) ds cs e k =
    (inl refl, Known-results n results ds cs (omega (arith, e)) k)

Known-empty : (n : ℕ) → Known (balance_out n []) []
unfolding balance_out
Known-empty zero = tt
Known-empty (suc n) = Known-empty n

Known-drop : (n : ℕ) (ds cs : List ℕ) → Known ds cs → Known (balance_out n ds) (drop n cs)
unfolding balance_out
Known-drop zero ds cs k = k
Known-drop (suc n) [] [] k = Known-empty n
Known-drop (suc n) [] (c ∷ cs) k = absurd k
Known-drop (suc n) (d ∷ ds) [] k = absurd k
Known-drop (suc n) (d ∷ ds) (c ∷ cs) k = Known-drop n ds cs k.1

low_word-Entry : (value : ℕ) → Entry (low_word value) value
low_word-Entry value = ground arith

dry_dup-Known :
    (op : ℕ) (ds cs : List ℕ)
    → is_dup op ≡ true
    → Known ds cs
    → op - 0x80 < length cs
    → Known (dry_dup (op - 0x7f) ds) (get_or cs (op - 0x80) 0 ∷ cs)
unfolding dry_dup
dry_dup-Known op ds cs h k l =
    let len : length ds ≡ length cs = Known-length ds cs k in
    let same : op - 0x7f - 1 ≡ op - 0x80 = omega arith in
    let deep : leb (op - 0x7f) (length ds) ≡ true = ground arith in
    rw (deep, same) (Known-get ds cs (op - 0x80) k, k)

-- Where the machine stops, the loop stops too, and leaves the stack as it is.
dry_loop-Stops :
    (fuel : ℕ) (code : List ℕ) (end it : ℕ) (ds : List ℕ)
    → Stops code end it
    → dry_loop (suc fuel) code end it ds ≡ some ds
dry_loop-Stops fuel code end it ds (inl e) = rw e (dry_loop_end fuel code end ds)
dry_loop-Stops fuel code end it ds (inr (h, op)) =
    let p : is_push (byte_at code it) ≡ false = ground arith in
    let x : is_exit (byte_at code it) ≡ true = ground arith in
    let step = dry_step_exit code end it ds p x in
    cc (
      dry_loop_exit fuel code end it ds h (ap (λ d. d.go) step),
      ap (λ d. d.stack) step,
      dry_stack_leave (byte_at code it) ds op,
    )

-- The loop after a round with the state `d`.
dry_loop_after :
    (fuel : ℕ) (code : List ℕ) (end it : ℕ) (ds ds' : List ℕ) (it' : ℕ)
    → it < end
    → dry_step code end it ds ≡ record { stack = ds'; it = it'; go = true }
    → dry_loop (suc fuel) code end it ds ≡ dry_loop fuel code end it' ds'
dry_loop_after fuel code end it ds ds' it' h e =
    cc (
      dry_loop_next fuel code end it ds h (ap (λ d. d.go) e),
      ap (λ d. d.it) e,
      ap (λ d. d.stack) e,
    )

-- The loop's result, when the machine's stack at the end is `stack'`.
abbrev Knows : Option (List ℕ) → List ℕ → Type 0
Knows r stack' = (ds : List ℕ) × (r ≡ some ds) × Known ds stack'

dry_loop-Knows :
    (fuel : ℕ) (code : List ℕ) (end it' : ℕ) (stack' : List ℕ) (it : ℕ) (ds stack : List ℕ)
    → Runs code end it' stack' it stack
    → Stops code end it'
    → it ≤ end
    → end - it < fuel
    → Known ds stack
    → Knows (dry_loop fuel code end it ds) stack'
dry_loop-Knows zero code end it' stack' it ds stack r s b h k = absurd (omega arith)
dry_loop-Knows (suc fuel) code end it' stack' it ds stack arrived s b h k =
    (ds, dry_loop-Stops fuel code end it ds s, k)
dry_loop-Knows (suc fuel) code end it' stack' it ds stack (pushes lt p r) s b h k =
    let value = (read_push_data code it end).0 in
    let n = next_bounds code it end lt in
    let (ds', e, k') =
      dry_loop-Knows fuel code end it' stack' (skip_push_data_and_get_next code it end)
        (low_word value ∷ ds) (value ∷ stack) r s (omega (arith, n)) (omega (arith, n))
        (low_word-Entry value, k) in
    (ds', dry_loop_after fuel code end it ds _ _ lt (dry_step_push code end it ds lt p) ∙ e, k')
dry_loop-Knows (suc fuel) code end it' stack' it ds stack (dups lt d l r) s b h k =
    let op = byte_at code it in
    let p : is_push op ≡ false = ground arith in
    let x : is_exit op ≡ false = ground arith in
    let step = dry_step_plain code end it ds p x in
    let (ds', e, k') =
      dry_loop-Knows fuel code end it' stack' (it + 1) (dry_stack op ds)
        (get_or stack (op - 0x80) 0 ∷ stack) r s (omega arith) (omega arith)
        (rw (dry_stack_dup op ds d) (dry_dup-Known op ds stack d k l)) in
    (ds', dry_loop_after fuel code end it ds _ _ lt step ∙ e, k')
dry_loop-Knows (suc fuel) code end it' stack' it ds stack (computes results lt b' x o n r) s b h k =
    let op = byte_at code it in
    let p : is_push op ≡ false = ground arith in
    let step = dry_step_plain code end it ds p x in
    let (ds', e, k') =
      dry_loop-Knows fuel code end it' stack' (it + 1) (dry_stack op ds)
        (results ++ drop (stack_out op) stack) r s (omega arith) (omega arith)
        (rw (dry_stack_balanced op ds b' x) (
          unfold balanced_stk in
          Known-results (stack_in op) results _ _ n (Known-drop (stack_out op) ds stack k))) in
    (ds', dry_loop_after fuel code end it ds _ _ lt step ∙ e, k')

-- When the machine runs a block without SWAPs up to its end or its jump, from a stack whose
-- entries the dry run knows, `dry_run_bb` returns, and then its stack has the machine's height and
-- each entry of it is 0 or the machine's number there; so is the jump target on top.
pub dry_run_bb-Known :
    (code : List ℕ) (begin end : ℕ) (ds stack : List ℕ) (it' : ℕ) (stack' : List ℕ)
    → begin ≤ end
    → Known ds stack
    → Runs code end it' stack' begin stack
    → Stops code end it'
    → (ds' : List ℕ) × (dry_run_bb code begin end ds ≡ some ds') × Known ds' stack'
unfolding dry_run_bb
dry_run_bb-Known code begin end ds stack it' stack' b k r s =
    dry_loop-Knows (suc (end - begin)) code end it' stack' begin ds stack r s b (omega arith) k

-- ===== src/DryRun/Rounds.antt =====
-- The rounds of the loop of `dry_run_bb`, one equation for each kind.
use evmbt.Prelude.{
  ℕ, suc, ◌+◌, ◌-◌, ◌^◌, ◌<◌, ◌≡◌, ◌⊎◌, inl, inr, List, [], ◌∷◌, Bool, true, false, ◌&&◌, some, ltb,
  leb, ◌==◌, if◌then◌else◌, arith, Bool-cases, eq_of_beq,
}
use evmbt.Instruction.{
  byte_at, is_push, read_push_data, skip_push_data_and_get_next, stack_out, stack_in, stop_op,
  pop_op, jump_op, jumpi_op, dup1_op, dup16_op,
}
use evmbt.Instruction.Decode.{push_iterators_agree}
use evmbt.DryRun.Defs.{
  balance_out, balanced_stk, dry_pop, dry_dup, is_balanced, is_exit, dry_stack, dry_step, dry_loop,
}

-- DUP1 to DUP16.
abbrev pub is_dup : ℕ → Bool
is_dup op = leb dup1_op op && leb op dup16_op

pub dry_loop_end :
    (fuel : ℕ) (code : List ℕ) (end : ℕ) (stack : List ℕ)
    → dry_loop (suc fuel) code end end stack ≡ some stack
unfolding dry_loop
dry_loop_end fuel code end stack = ground arith

pub dry_loop_next :
    (fuel : ℕ) (code : List ℕ) (end it : ℕ) (stack : List ℕ)
    → it < end
    → (dry_step code end it stack).go ≡ true
    → dry_loop (suc fuel) code end it stack
      ≡ dry_loop fuel code end (dry_step code end it stack).it (dry_step code end it stack).stack
unfolding dry_loop
dry_loop_next fuel code end it stack h g = ground arith

pub dry_loop_exit :
    (fuel : ℕ) (code : List ℕ) (end it : ℕ) (stack : List ℕ)
    → it < end
    → (dry_step code end it stack).go ≡ false
    → dry_loop (suc fuel) code end it stack ≡ some (dry_step code end it stack).stack
unfolding dry_loop
dry_loop_exit fuel code end it stack h g = ground arith

-- The number that a PUSH leaves: 0 when it has more than 64 bits.
abbrev pub low_word : ℕ → ℕ
low_word value = if ltb value (2 ^ 64) then value else 0

pub dry_step_push :
    (code : List ℕ) (end it : ℕ) (stack : List ℕ)
    → it < end
    → is_push (byte_at code it) ≡ true
    → dry_step code end it stack ≡ record {
      stack = low_word (read_push_data code it end).0 ∷ stack;
      it = skip_push_data_and_get_next code it end;
      go = true;
    }
unfolding dry_step
dry_step_push code end it stack h p = ground (arith, push_iterators_agree code it end h p)

pub dry_step_plain :
    (code : List ℕ) (end it : ℕ) (stack : List ℕ)
    → is_push (byte_at code it) ≡ false
    → is_exit (byte_at code it) ≡ false
    → dry_step code end it stack
      ≡ record { stack = dry_stack (byte_at code it) stack; it = it + 1; go = true }
unfolding dry_step
dry_step_plain code end it stack p e = ground arith

pub dry_step_exit :
    (code : List ℕ) (end it : ℕ) (stack : List ℕ)
    → is_push (byte_at code it) ≡ false
    → is_exit (byte_at code it) ≡ true
    → dry_step code end it stack
      ≡ record { stack = dry_stack (byte_at code it) stack; it = it + 1; go = false }
unfolding dry_step
dry_step_exit code end it stack p e = ground arith

pub dry_stack_dup :
    (op : ℕ) (stack : List ℕ) → is_dup op ≡ true → dry_stack op stack ≡ dry_dup (op - 0x7f) stack
unfolding dry_stack
dry_stack_dup op stack h = ground arith

pub dry_stack_leave :
    (op : ℕ) (stack : List ℕ)
    → (op ≡ stop_op) ⊎ ((op ≡ jump_op) ⊎ (op ≡ jumpi_op))
    → dry_stack op stack ≡ stack
unfolding dry_stack
dry_stack_leave op stack h = ground arith

dry_pop_balanced : (stack : List ℕ) → dry_pop stack ≡ balanced_stk 1 0 stack
unfolding dry_pop balanced_stk balance_out
dry_pop_balanced [] = ground arith
dry_pop_balanced (x ∷ stack) = ground arith

pub dry_stack_balanced :
    (op : ℕ) (stack : List ℕ)
    → is_balanced op ≡ true
    → is_exit op ≡ false
    → dry_stack op stack ≡ balanced_stk (stack_out op) (stack_in op) stack
unfolding dry_stack stack_in stack_out
dry_stack_balanced op stack b e = elim (Bool-cases (op == pop_op)) [
  | inl pop ↦ let eq : op ≡ pop_op = eq_of_beq op pop_op pop in rw eq (dry_pop_balanced stack)
  | inr other ↦ ground arith
]

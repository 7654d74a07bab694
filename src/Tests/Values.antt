-- ===== src/Tests/Values.antt =====
-- Runs of the compiled value opcodes, of EXP and of resolved jumps, on the evaluator.
use evmbt.Prelude.{
  ◌⊎◌, if◌then◌else◌, false, zero, suc, inl, inr, ap, get_elem?, ℕ, ◌*◌, ◌%◌, ◌^◌, ◌≡◌, refl, List,
  [], ◌∷◌, true, false, none, some, arith,
}
use evmbt.Instruction.{stack_in, stack_out, skip_push_data_and_get_next}
use evmbt.Stack.Registers.{pop}
use evmbt.Exp.{exp_const, exp_func}
use evmbt.Exp.Constant.{exp_const-power}
use evmbt.Exp.Emitted.{exp_func-exp_const}
use evmbt.Lift.Evaluate.{Evaluated, evaluator}
use evmbt.Lift.Lawful.{evaluator-Semantics, evaluated}
use evmbt.Lift.Cases.{zero_word, compile_mul}
use evmbt.Lift.Defs.{
  ValueInstruction, all_cast, case_stack, compile_values, sub_ins, div_ins, push_ins,
}
use evmbt.Lift.Evm.{evm_value, Executes, finished, executes}
use evmbt.Lift.Denotes.{IsWord, Denotes}
use evmbt.Lift.Correct.{compile_values-Denotes}
use evmbt.Lift.Mixed.{compile_mul-mixed}
use evmbt.Blocks.{BasicBlock, create_basic_blocks}
use evmbt.Jumps.Defs.{Destination, constant, computed, switch_cases}
use evmbt.Jumps.Table.{Listed, IsOrder, switch_cases-valid_jumpdests}
use evmbt.Blocks.Targets.{valid_jumpdests}

exp_const-power_example : exp_const 3 5 ≡ some (3 ^ 5 % 2 ^ 256)
exp_const-power_example = exp_const-power 3 5 (omega arith)

exp_func-exp_const_example : exp_func 3 5 ≡ exp_const 3 5
exp_func-exp_const_example = exp_func-exp_const 3 5 (omega arith)

-- DIV, PUSH 10, SUB on 20 and 3 that are no constants.
abbrev program : List ValueInstruction
program = div_ins ∷ push_ins 10 ∷ sub_ins ∷ []

abbrev variable : ℕ → Evaluated
variable n = record { bits = 256; number = some n; constant = false }

program_run : Executes program (20 ∷ 3 ∷ []) (4 ∷ [])
unfolding evm_value
program_run =
    executes (6 ∷ []) refl (λ e. omega arith)
      (executes (10 ∷ 6 ∷ []) refl (omega arith) (executes (4 ∷ []) refl tt finished))

compile_values-Denotes_example :
    ((all_cast evaluator program (variable 20 ∷ variable 3 ∷ []) ≡ true)
      × (vs' : List Evaluated) × (compile_values evaluator program (variable 20 ∷ variable 3 ∷ [])
          ≡ some vs')
      × Denotes evaluator-Semantics vs' (4 ∷ []))
    ⊎ ((all_cast evaluator program (variable 20 ∷ variable 3 ∷ []) ≡ false)
        × (compile_values evaluator program (variable 20 ∷ variable 3 ∷ []) ≡ none))
compile_values-Denotes_example =
    compile_values-Denotes evaluator-Semantics program (variable 20 ∷ variable 3 ∷ []) (20 ∷ 3 ∷ [])
      (4 ∷ []) ((evaluated 256 20 (omega arith)), ((evaluated 256 3 (omega arith)), tt)) program_run

-- The case that it exercises, and a folded division, which is refused.
program_cast : all_cast evaluator program (variable 20 ∷ variable 3 ∷ []) ≡ true
unfolding all_cast case_stack
program_cast = refl

folded_run : compile_values evaluator (push_ins 3 ∷ push_ins 20 ∷ div_ins ∷ []) [] ≡ none
unfolding compile_values
folded_run = refl

-- The value of CALLVALUE has 128 bits.
abbrev call_value : Evaluated
call_value = record { bits = 128; number = some 3; constant = false }

abbrev price : Evaluated
price = record { bits = 256; number = some 5; constant = false }

compile_mul-mixed_example :
    IsWord evaluator-Semantics
      (pop (zero_word evaluator) (compile_mul evaluator (call_value ∷ price ∷ []))).0
      ((3 * 3) % 2 ^ 256)
compile_mul-mixed_example =
    compile_mul-mixed evaluator-Semantics call_value price [] 128 256 3 5
      (evaluated 128 3 (omega arith)) (evaluated 256 5 (omega arith)) (λ e. omega (arith, e))
      (omega arith)

-- PUSH1 4 JUMP INVALID JUMPDEST STOP
abbrev hop : List ℕ
hop = 0x60 ∷ 0x04 ∷ 0x56 ∷ 0xfe ∷ 0x5b ∷ 0x00 ∷ []

abbrev hop_blocks : List BasicBlock
hop_blocks =
    record { first_instr_idx = 0; begin = 0; end = 3; stk_in = 0; stk_out = 0 }
    ∷ record { first_instr_idx = 4; begin = 4; end = 6; stk_in = 0; stk_out = 0 }
    ∷ []

hop_cut : create_basic_blocks hop ≡ some hop_blocks
unfolding create_basic_blocks skip_push_data_and_get_next stack_in stack_out
hop_cut = refl

abbrev known : Evaluated → Destination
known v = elim v.number [ some n ↦ if v.constant then constant n else computed | none ↦ computed ]

abbrev four : List Evaluated
four = record { bits = 256; number = some 4; constant = true } ∷ []

-- The blocks of `hop` in the order in which they are compiled.
abbrev hop_calls : List (ℕ × BasicBlock)
hop_calls =
    (1, record { first_instr_idx = 4; begin = 4; end = 6; stk_in = 0; stk_out = 0 })
    ∷ (0, record { first_instr_idx = 0; begin = 0; end = 3; stk_in = 0; stk_out = 0 })
    ∷ []

hop_calls-Listed :
    (i : ℕ) (bb : BasicBlock) → get_elem? hop_blocks i ≡ some bb → Listed (i, bb) hop_calls
hop_calls-Listed zero bb e = inr (inl (ap (λ b. (0, b)) (cc e)))
hop_calls-Listed (suc zero) bb e = inl (ap (λ b. (1, b)) (cc e))
hop_calls-Listed (suc (suc i)) bb e = absurd (cc e)

hop_calls-IsOrder : IsOrder hop_blocks hop_calls
hop_calls-IsOrder = ((refl, (refl, tt)), hop_calls-Listed)

switch_cases-valid_jumpdests_example :
    (((i : ℕ) × Listed (4, i) (switch_cases hop hop_calls)) → Listed 4 (valid_jumpdests hop))
    × (Listed 4 (valid_jumpdests hop) → (i : ℕ) × Listed (4, i) (switch_cases hop hop_calls))
switch_cases-valid_jumpdests_example =
    switch_cases-valid_jumpdests hop hop_blocks hop_calls hop_cut hop_calls-IsOrder 4

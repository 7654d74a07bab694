-- ===== src/DryRun/Termination.antt =====
-- The fuel of `dry_run_bb`.
use evmbt.Prelude.{
  ℕ, zero, suc, ◌-◌, ◌<◌, ◌≤◌, ◌≡◌, ◌∙◌, List, some, ap, arith, Bool-cases, inl, inr, ◌==◌,
  eq_of_beq, ne_of_beq,
}
use evmbt.Instruction.{byte_at, is_push}
use evmbt.Instruction.Decode.{next_bounds}
use evmbt.DryRun.Defs.{dry_step, dry_loop, dry_run_bb, is_exit}
use evmbt.DryRun.Rounds.{
  dry_loop_end, dry_loop_next, dry_loop_exit, dry_step_push, dry_step_plain, dry_step_exit,
}

it-dry_step :
    (code : List ℕ) (end it : ℕ) (stack : List ℕ)
    → it < end
    → (it < (dry_step code end it stack).it) × ((dry_step code end it stack).it ≤ end)
it-dry_step code end it stack h = elim (Bool-cases (is_push (byte_at code it))) [
  | inl p ↦
      omega (arith, next_bounds code it end h, ap (λ d. d.it) (dry_step_push code end it stack h p))
  | inr p ↦ elim (Bool-cases (is_exit (byte_at code it))) [
    | inl x ↦ omega (arith, ap (λ d. d.it) (dry_step_exit code end it stack p x))
    | inr x ↦ omega (arith, ap (λ d. d.it) (dry_step_plain code end it stack p x))
  ]
]

dry_loop_total :
    (fuel : ℕ) (code : List ℕ) (end it : ℕ) (stack : List ℕ)
    → it ≤ end
    → end - it < fuel
    → (ds : List ℕ) × (dry_loop fuel code end it stack ≡ some ds)
dry_loop_total zero code end it stack b h = absurd (omega arith)
dry_loop_total (suc fuel) code end it stack b h = elim (Bool-cases (it == end)) [
  | inl at_end ↦
      let e : it ≡ end = eq_of_beq it end at_end in (stack, rw e (dry_loop_end fuel code end stack))
  | inr inside ↦
      let lt : it < end = omega (arith, ne_of_beq it end inside) in
      let d = dry_step code end it stack in
      elim (Bool-cases d.go) [
        | inr stop ↦ (d.stack, dry_loop_exit fuel code end it stack lt stop)
        | inl on ↦
            let n = it-dry_step code end it stack lt in
            let (ds, e) =
              dry_loop_total fuel code end d.it d.stack (omega (arith, n)) (omega (arith, n)) in
            (ds, dry_loop_next fuel code end it stack lt on ∙ e)
      ]
]

-- `dry_run_bb` returns on every block that does not end before it begins, and on every stack.
pub dry_run_bb_total :
    (code : List ℕ) (begin end : ℕ) (stack : List ℕ)
    → begin ≤ end
    → (ds : List ℕ) × (dry_run_bb code begin end stack ≡ some ds)
unfolding dry_run_bb
dry_run_bb_total code begin end stack b =
    dry_loop_total (suc (end - begin)) code end begin stack b (omega arith)

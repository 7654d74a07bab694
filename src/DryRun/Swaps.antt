-- ===== src/DryRun/Swaps.antt =====
-- SWAPn in `dry_run_bb` against `GlobalStack::swap`.
use evmbt.Prelude.{
  ℕ, suc, ◌+◌, ◌-◌, ◌<◌, ◌≡◌, ◌∙◌, refl, sym, ap, List, [], ◌∷◌, length, get_or, set, arith,
}
use evmbt.Instruction.{swap1_op}
use evmbt.Stack.Registers.{swap}
use evmbt.DryRun.Defs.{dry_swap, dry_stack}

dry_stack_swap : (n : ℕ) (ds : List ℕ) → n < 16 → dry_stack (swap1_op + n) ds ≡ dry_swap (n + 2) ds
unfolding dry_stack
dry_stack_swap n ds h =
    let depth : swap1_op + n - 0x8e ≡ n + 2 = omega arith in ground (arith, depth)

dry_swap-in :
    (d : ℕ) (ds : List ℕ)
    → d < length ds
    → dry_swap d ds ≡ set (set ds 0 (get_or ds d 0)) d (get_or ds 0 0)
unfolding dry_swap
dry_swap-in d ds h = ground arith

swap-in_range :
    (i : ℕ) (ds : List ℕ)
    → i + 1 < length ds
    → swap 0 i ds ≡ set (set ds (i + 1) (get_or ds 0 0)) 0 (get_or ds (i + 1) 0)
unfolding swap
swap-in_range i ds h = ground arith

-- The two writes can be made in either order.
set-set : (ds : List ℕ) (d a b : ℕ) → set (set ds 0 a) (suc d) b ≡ set (set ds (suc d) b) 0 a
set-set [] d a b = refl
set-set (x ∷ ds) d a b = refl

-- For n below 16, on a stack of more than n + 2 items, the dry run of the opcode SWAP1 + n exchanges
-- the items that `GlobalStack::swap` exchanges for the index n + 1.
pub dry_stack-swap :
    (n : ℕ) (ds : List ℕ)
    → n < 16
    → n + 2 < length ds
    → dry_stack (swap1_op + n) ds ≡ swap 0 (n + 1) ds
dry_stack-swap n ds h l =
    let next : n + 2 ≡ suc (n + 1) = omega arith in
    let same : n + 1 + 1 ≡ suc (n + 1) = omega arith in
    dry_stack_swap n ds h
    ∙ dry_swap-in (n + 2) ds l
    ∙ ap (λ d. set (set ds 0 (get_or ds d 0)) d (get_or ds 0 0)) next
    ∙ set-set ds (n + 1) (get_or ds (suc (n + 1)) 0) (get_or ds 0 0)
    ∙ sym (
        swap-in_range (n + 1) ds (omega arith)
        ∙ ap (λ d. set (set ds d (get_or ds 0 0)) 0 (get_or ds d 0)) same)

-- ===== src/Stack/Modes.antt =====
-- Sequences of calls of `GlobalStack` in both modes.
use evmbt.Prelude.{
  ℕ, ◌+◌, ◌-◌, ◌^◌, ◌<◌, ◌≡◌, refl, sym, subst, ◌∙◌, List, [], ◌∷◌, length, map, arith, set,
  length-set,
}
use evmbt.Stack.Registers.{push, pop, dup, swap}
use evmbt.Stack.Defs.{
  int256, Value, Memory, push_memory, pop_memory, dup_memory, swap_memory, Call, push_call,
  pop_call, dup_call, swap_call, run, run_memory,
}
use evmbt.Stack.Cells.{
  item, Represents, push-Represents, pop-Represents, dup-Represents, swap-in, swap-Represents,
}

-- With `n` elements and the pointer at `sp`, the calls never reach below the stack's bottom, nor
-- past the last cell that 256 bits address.
abbrev pub Fits : List Call → ℕ → ℕ → Type 0
Fits [] n sp = Unit
Fits (push_call v ∷ calls) n sp = (sp + 1 < 2 ^ 256) × Fits calls (n + 1) (sp + 1)
Fits (pop_call ∷ calls) n sp = (0 < n) × Fits calls (n - 1) (sp - 1)
Fits (dup_call i ∷ calls) n sp = (i < n) × (sp + 1 < 2 ^ 256) × Fits calls (n + 1) (sp + 1)
Fits (swap_call i ∷ calls) n sp = (i + 1 < n) × Fits calls n sp

-- `Fits` at the numbers of the next state.
Fits-at :
    (calls : List Call) (n n' sp sp' : ℕ) → n ≡ n' → sp ≡ sp' → Fits calls n sp → Fits calls n' sp'
Fits-at calls n n' sp sp' e d f = subst (λ s. Fits calls n' s) d (subst (λ k. Fits calls k sp) e f)

sp-push : (v : Value) (m : Memory) → m.sp + 1 < 2 ^ 256 → m.sp + 1 ≡ (push_memory v m).sp
unfolding push_memory
sp-push v m h = omega arith

sp-dup : (i : ℕ) (m : Memory) → m.sp + 1 < 2 ^ 256 → m.sp + 1 ≡ (dup_memory i m).sp
unfolding dup_memory push_memory
sp-dup i m h = omega arith

sp-pop : (m : Memory) → 0 < m.sp → m.sp < 2 ^ 256 → m.sp - 1 ≡ (pop_memory m).1.sp
unfolding pop_memory
sp-pop m h k = omega arith

sp-swap : (i : ℕ) (m : Memory) → m.sp ≡ (swap_memory i m).sp
unfolding swap_memory
sp-swap i m = refl

pub length-dup : (i : ℕ) (l : List Value) → length l + 1 ≡ length (dup (int256 0) i l)
unfolding dup
length-dup i l = ground arith

pub length-swap :
    (i : ℕ) (l : List Value) → i + 1 < length l → length l ≡ length (swap (int256 0) i l)
length-swap i l h = rw (swap-in l i h) (
    sym
      (length-set (set l (i + 1) (item l 0)) 0 (item l (i + 1)) ∙ length-set l (i + 1) (item l 0)))

abbrev words : List Value → List ℕ
words vs = map (λ v. v.word) vs

-- What the two modes return and leave behind.
abbrev pub Agree : List Value × List Value → List Value × Memory → Type 0
Agree regs memory = (words regs.0 ≡ words memory.0) × Represents memory.1 regs.1

-- From a memory that represents the registers, calls that stay within the stack pop the same
-- numbers in both modes, and the memory that they leave represents the registers that they leave.
pub run-Agree :
    (calls : List Call) (l : List Value) (m : Memory)
    → Represents m l
    → Fits calls (length l) m.sp
    → Agree (run calls l) (run_memory calls m)
unfolding run run_memory
run-Agree [] l m r f = (refl, r)
run-Agree (push_call v ∷ calls) l m r f =
    run-Agree calls (push v l) (push_memory v m) (push-Represents m l v v refl r f.0) (
      unfold push in
      Fits-at calls (length l + 1) _ (m.sp + 1) _ (omega arith) (sp-push v m f.0) f.1)
run-Agree (pop_call ∷ calls) [] m r f = absurd (omega (arith, f.0))
run-Agree (pop_call ∷ calls) (v ∷ l) m r f =
    let p = pop-Represents m v l r in
    let rest = run-Agree calls l (pop_memory m).1 p.1 (
      Fits-at calls (length (v ∷ l) - 1) _ (m.sp - 1) _ (omega arith)
        (sp-pop m (omega (arith, r.room)) r.fits) f.1) in
    unfold pop in (cc (rest.0, p.0), rest.1)
run-Agree (dup_call i ∷ calls) l m r f =
    run-Agree calls (dup (int256 0) i l) (dup_memory i m) (dup-Represents m l i r f.0 f.1)
      (Fits-at calls (length l + 1) _ (m.sp + 1) _ (length-dup i l) (sp-dup i m f.1) f.2)
run-Agree (swap_call i ∷ calls) l m r f =
    run-Agree calls (swap (int256 0) i l) (swap_memory i m) (swap-Represents m l i r f.0)
      (Fits-at calls (length l) _ m.sp _ (length-swap i l f.0) (sp-swap i m) f.1)

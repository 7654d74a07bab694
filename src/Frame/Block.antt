-- ===== src/Frame/Block.antt =====
-- A block that runs on its frame against the same calls on the operand stack in memory.
use evmbt.Prelude.{
  ℕ, zero, suc, ◌+◌, ◌-◌, ◌^◌, ◌<◌, ◌≤◌, ◌≡◌, ◌∙◌, refl, sym, ap, subst, List, [], ◌∷◌, ◌++◌, true,
  length, length-append, take, drop, set, length-set, length-take, arith,
}
use evmbt.Stack.Registers.{push, pop, dup, swap}
use evmbt.Stack.Defs.{
  Value, int256, Memory, Call, push_call, pop_call, dup_call, swap_call, run, run_memory,
}
use evmbt.Stack.Cells.{item, Represents, swap-in, dup-in}
use evmbt.Stack.Modes.{Fits, run-Agree, length-dup, length-swap}
use evmbt.Frame.Defs.{reuses, fetch, run_block}
use evmbt.Frame.Fetched.{
  words, length-words, Represents-words, words-append, OnTop, fetch-Represents, fetch-sp,
  store_items-Represents,
}

-- The calls never reach below the upper `n` elements.
abbrev pub Within : List Call → ℕ → Type 0
Within [] n = Unit
Within (push_call v ∷ calls) n = Within calls (n + 1)
Within (pop_call ∷ calls) n = (0 < n) × Within calls (n - 1)
Within (dup_call i ∷ calls) n = (i < n) × Within calls (n + 1)
Within (swap_call i ∷ calls) n = (i + 1 < n) × Within calls n

-- With elements below and room above, they fit a stack in memory.
Within-Fits :
    (calls : List Call) (n k sp : ℕ)
    → Within calls n
    → n ≤ k
    → sp + length calls < 2 ^ 256
    → Fits calls k sp
Within-Fits [] n k sp w h r = tt
Within-Fits (push_call v ∷ calls) n k sp w h r =
    (omega arith, Within-Fits calls (n + 1) (k + 1) (sp + 1) w (omega arith) (omega arith))
Within-Fits (pop_call ∷ calls) n k sp w h r =
    (omega (arith, w.0), Within-Fits calls (n - 1) (k - 1) (sp - 1) w.1 (omega arith) (omega arith))
Within-Fits (dup_call i ∷ calls) n k sp w h r = (
  omega (arith, w.0),
  omega arith,
  Within-Fits calls (n + 1) (k + 1) (sp + 1) w.1 (omega arith) (omega arith),
)
Within-Fits (swap_call i ∷ calls) n k sp w h r =
    (omega (arith, w.0), Within-Fits calls n k sp w.1 h (omega arith))

item-append : (l r : List Value) (i : ℕ) → i < length l → item (l ++ r) i ≡ item l i
item-append [] r i h = absurd (omega arith)
item-append (v ∷ l) r zero h = refl
item-append (v ∷ l) r (suc i) h = item-append l r i (omega arith)

set-append :
    (l r : List Value) (i : ℕ) (v : Value) → i < length l → set (l ++ r) i v ≡ set l i v ++ r
set-append [] r i v h = absurd (omega arith)
set-append (x ∷ l) r zero v h = refl
set-append (x ∷ l) r (suc i) v h = ap (λ k. x ∷ k) (set-append l r i v (omega arith))

dup-append :
    (l r : List Value) (i : ℕ) → i < length l → dup (int256 0) i (l ++ r) ≡ dup (int256 0) i l ++ r
dup-append l r i h =
    dup-in (l ++ r) i (omega (arith, length-append l r))
    ∙ ap (λ v. push v (l ++ r)) (item-append l r i h)
    ∙ (unfold push in ap (λ k. k ++ r) (sym (dup-in l i h)))

swap-append :
    (l r : List Value) (i : ℕ)
    → i + 1 < length l
    → swap (int256 0) i (l ++ r) ≡ swap (int256 0) i l ++ r
swap-append l r i h =
    let top = item l 0 in
    let below = item l (i + 1) in
    swap-in (l ++ r) i (omega (arith, length-append l r))
    ∙ ap (λ v. set (set (l ++ r) (i + 1) v) 0 (item (l ++ r) (i + 1)))
        (item-append l r 0 (omega arith))
    ∙ ap (λ v. set (set (l ++ r) (i + 1) top) 0 v) (item-append l r (i + 1) h)
    ∙ ap (λ k. set k 0 below) (set-append l r (i + 1) top h)
    ∙ set-append (set l (i + 1) top) r 0 below (omega (arith, length-set l (i + 1) top))
    ∙ ap (λ k. k ++ r) (sym (swap-in l i h))

-- The calls leave what lies below alone.
run-append :
    (calls : List Call) (l r : List Value)
    → Within calls (length l)
    → run calls (l ++ r) ≡ ((run calls l).0, (run calls l).1 ++ r)
unfolding run
run-append [] l r w = refl
run-append (push_call v ∷ calls) l r w =
    unfold push in
    run-append calls (v ∷ l) r (subst (λ n. Within calls n) {x = length l + 1} (omega arith) w)
run-append (pop_call ∷ calls) [] r w = absurd (omega (arith, w.0))
run-append (pop_call ∷ calls) (v ∷ l) r w =
    unfold pop in
    let rest =
      run-append calls l r
        (subst (λ n. Within calls n) {x = suc (length l) - 1} (omega arith) w.1) in
    ap (λ p. (v ∷ p.0, p.1)) rest
run-append (dup_call i ∷ calls) l r w =
    ap (λ k. run calls k) (dup-append l r i w.0)
    ∙ run-append calls (dup (int256 0) i l) r (subst (λ n. Within calls n) (length-dup i l) w.1)
run-append (swap_call i ∷ calls) l r w =
    ap (λ k. run calls k) (swap-append l r i w.0)
    ∙ run-append calls (swap (int256 0) i l) r
        (subst (λ n. Within calls n) (length-swap i l w.0) w.1)

length-run :
    (calls : List Call) (l : List Value)
    → Within calls (length l)
    → length (run calls l).1 ≤ length l + length calls
unfolding run
length-run [] l w = omega arith
length-run (push_call v ∷ calls) l w =
    unfold push in
    omega (
      arith,
      length-run calls (v ∷ l) (subst (λ n. Within calls n) {x = length l + 1} (omega arith) w),
    )
length-run (pop_call ∷ calls) [] w = absurd (omega (arith, w.0))
length-run (pop_call ∷ calls) (v ∷ l) w =
    unfold pop in
    omega (
      arith,
      length-run calls l (subst (λ n. Within calls n) {x = suc (length l) - 1} (omega arith) w.1),
    )
length-run (dup_call i ∷ calls) l w = omega (
  arith,
  length-run calls (dup (int256 0) i l) (subst (λ n. Within calls n) (length-dup i l) w.1),
  length-dup i l,
)
length-run (swap_call i ∷ calls) l w = omega (
  arith,
  length-run calls (swap (int256 0) i l) (subst (λ n. Within calls n) (length-swap i l w.0) w.1),
  length-swap i l w.0,
)

take-drop : (n : ℕ) (l : List Value) → take n l ++ drop n l ≡ l
take-drop zero l = refl
take-drop (suc n) [] = refl
take-drop (suc n) (v ∷ l) = ap (λ k. v ∷ k) (take-drop n l)

-- A local stack with the upper numbers, over the others, has the numbers of the whole.
whole_words :
    (n : ℕ) (k l : List Value) → words k ≡ words (take n l) → words l ≡ words (k ++ drop n l)
whole_words n k l e =
    ap words (sym (take-drop n l))
    ∙ words-append (take n l) (drop n l)
    ∙ ap (λ ws. ws ++ words (drop n l)) (sym e)
    ∙ sym (words-append k (drop n l))

take-words : (l k : List Value) → words l ≡ take (length l) (words (l ++ k))
take-words [] k = refl
take-words (v ∷ l) k = ap (λ ws. v.word ∷ ws) (take-words l k)

length_of_words : (l k : List Value) → words l ≡ words k → length l ≡ length k
length_of_words l k e = sym (length-words l) ∙ ap length e ∙ length-words k

-- The two memories hold one stack, with `view` on top.
abbrev pub SameStack : List Value → Memory → Memory → Type 0
SameStack view m m' = (t : List Value) × Represents m t × Represents m' t × OnTop view t

-- A block whose calls stay within the `stk_in` values that it fetches, on a memory whose 512 cells
-- have room for them, pops the numbers and leaves the stack of the same calls in the memory mode; and the
-- values that it hands on are the upper ones of that stack. A block that takes over values does so
-- where they are the upper ones of the stack that it finds.
pub run_block-run_memory :
    (first : ℕ) (froms : List ℕ) (stk_in : ℕ) (pstack l : List Value) (calls : List Call)
    (m : Memory)
    → Represents m l
    → stk_in ≤ length l
    → (reuses first froms pstack ≡ true → OnTop pstack l)
    → Within calls stk_in
    → m.sp + length calls < 512
    → (words (run_block first froms stk_in pstack calls m).0 ≡ words (run_memory calls m).0)
      × SameStack
          (run_block first froms stk_in pstack calls m).1
          (run_block first froms stk_in pstack calls m).2
          (run_memory calls m).1
unfolding run_block
run_block-run_memory first froms n pstack l calls m r h t w room =
    let reuse = reuses first froms pstack in
    let f = fetch-Represents n reuse pstack l m r h t in
    let m_local = (fetch n reuse pstack m).0 in
    let m' = (fetch n reuse pstack m).1 in
    let rest = drop n l in
    let size : length m_local ≡ n =
      length_of_words m_local (take n l) f.0 ∙ length-take n l ∙ omega arith in
    let inside : Within calls (length m_local) = subst (λ k. Within calls k) (sym size) w in
    let same = whole_words n m_local l f.0 in
    let longer : n ≤ length (m_local ++ rest) = omega (arith, length-append m_local rest, size) in
    let agree =
      run-Agree calls (m_local ++ rest) m (Represents-words m l (m_local ++ rest) same r)
        (Within-Fits calls n (length (m_local ++ rest)) m.sp w longer (omega (arith, room))) in
    let split = run-append calls m_local rest inside in
    let view = (run calls m_local).1 in
    let low = fetch-sp n reuse pstack m (omega (arith, r.room)) r.fits in
    let space : m'.sp + length view < 2 ^ 256 =
      omega (arith, low, length-run calls m_local inside, size, r.room) in
    (
      ap (λ p. words p.0) (sym split) ∙ agree.0,
      (
        view ++ rest,
        (store_items-Represents view rest m' space f.1).0,
        subst (λ p. Represents (run_memory calls m).1 p.1) split agree.1,
        (omega (arith, length-append view rest), take-words view rest),
      ),
    )

-- ===== src/Stack/Cells.antt =====
-- One call of `GlobalStack` in both modes.
use evmbt.Prelude.{
  ℕ, zero, suc, ◌+◌, ◌-◌, ◌%◌, ◌^◌, ◌≤◌, ◌<◌, ◌≡◌, ◌≢◌, refl, subst, ◌∙◌, List, [], ◌∷◌, length,
  arith, get_or, set, length-set, ◌==◌, Bool-cases, inl, inr, eq_of_beq, ne_of_beq,
}
use evmbt.Stack.Registers.{push, dup, swap}
use evmbt.Stack.Defs.{
  Value, int256, Memory, store, get_ptr, widen, push_memory, pop_memory, dup_memory, swap_memory,
}

-- The element at `i` of the register mode's stack.
abbrev pub item : List Value → ℕ → Value
item l i = get_or l i (int256 0)

-- The cells below the stack pointer hold the registers' numbers, the top first.
pub record Represents (m : Memory) (l : List Value) : Type 0 where
  pub room : length l ≤ m.sp
  pub fits : m.sp < 2 ^ 256
  pub cells : (i : ℕ) → i < length l → (m.stk (m.sp - i)).word ≡ (item l i).word

word-widen : (v : Value) → (widen v).word ≡ v.word
word-widen v = ground arith

get_ptr_in : (m : Memory) (idx : ℕ) → m.sp < 2 ^ 256 → idx ≤ m.sp → get_ptr m idx ≡ m.sp - idx
unfolding get_ptr
get_ptr_in m idx h k = ground arith

store_same : (at : ℕ) (v : Value) (stk : ℕ → Value) → store at v stk at ≡ v
unfolding store
store_same at v stk = ground arith

store_other : (at i : ℕ) (v : Value) (stk : ℕ → Value) → i ≢ at → store at v stk i ≡ stk i
unfolding store
store_other at i v stk h = ground arith

get_or-set_same : (l : List Value) (i : ℕ) (v d : Value) → i < length l → get_or (set l i v) i d ≡ v
get_or-set_same [] i v d h = absurd (omega arith)
get_or-set_same (x ∷ l) zero v d h = refl
get_or-set_same (x ∷ l) (suc i) v d h = get_or-set_same l i v d (omega arith)

get_or-set_other :
    (l : List Value) (i j : ℕ) (v d : Value) → i ≢ j → get_or (set l i v) j d ≡ get_or l j d
get_or-set_other [] i j v d h = refl
get_or-set_other (x ∷ l) zero zero v d h = absurd (omega arith)
get_or-set_other (x ∷ l) zero (suc j) v d h = refl
get_or-set_other (x ∷ l) (suc i) zero v d h = refl
get_or-set_other (x ∷ l) (suc i) (suc j) v d h = get_or-set_other l i j v d (omega arith)

push_cells :
    (m : Memory) (l : List Value) (v w : Value)
    → w.word ≡ v.word
    → Represents m l
    → (i : ℕ) → i < suc (length l)
    → (store (m.sp + 1) (widen w) m.stk (m.sp + 1 - i)).word ≡ (item (v ∷ l) i).word
push_cells m l v w e r zero h =
    let top : m.sp + 1 - 0 ≡ m.sp + 1 = omega arith in
    rw (top, store_same (m.sp + 1) (widen w) m.stk) (word-widen w ∙ e)
push_cells m l v w e r (suc i) h =
    let below : m.sp + 1 - suc i ≡ m.sp - i = omega arith in
    rw (below, store_other (m.sp + 1) (m.sp - i) (widen w) m.stk (omega (arith, r.room)))
      (r.cells i (omega arith))

pub push-Represents :
    (m : Memory) (l : List Value) (v w : Value)
    → w.word ≡ v.word
    → Represents m l
    → m.sp + 1 < 2 ^ 256
    → Represents (push_memory w m) (push v l)
unfolding push_memory push get_ptr
push-Represents m l v w e r h =
    let up : (m.sp + 1) % 2 ^ 256 ≡ m.sp + 1 = omega arith in
    record {
      room = rw up (omega (arith, r.room));
      fits = omega arith;
      cells = rw up (λ i k. push_cells m l v w e r i k);
    }

pop_cells :
    (m : Memory) (v : Value) (l : List Value)
    → Represents m (v ∷ l)
    → (i : ℕ) → i < length l
    → (m.stk (m.sp - 1 - i)).word ≡ (item l i).word
pop_cells m v l r i h =
    let below : m.sp - 1 - i ≡ m.sp - suc i = omega arith in
    rw below (r.cells (suc i) (omega arith))

pub pop-Represents :
    (m : Memory) (v : Value) (l : List Value)
    → Represents m (v ∷ l)
    → ((pop_memory m).0.word ≡ v.word) × Represents (pop_memory m).1 l
unfolding pop_memory get_ptr
pop-Represents m v l r =
    let down : (m.sp + 2 ^ 256 - 1) % 2 ^ 256 ≡ m.sp - 1 = omega (arith, r.room, r.fits) in
    let top : m.sp - 0 ≡ m.sp = omega arith in
    (
      subst (λ i. (m.stk i).word ≡ v.word) top (r.cells 0 (omega arith)),
      record {
        room = rw down (omega (arith, r.room));
        fits = omega arith;
        cells = rw down (λ i h. pop_cells m v l r i h);
      },
    )

pub dup-in : (l : List Value) (i : ℕ) → i < length l → dup (int256 0) i l ≡ push (item l i) l
unfolding dup push
dup-in l i h = ground arith

pub dup-Represents :
    (m : Memory) (l : List Value) (i : ℕ)
    → Represents m l
    → i < length l
    → m.sp + 1 < 2 ^ 256
    → Represents (dup_memory i m) (dup (int256 0) i l)
unfolding dup_memory
dup-Represents m l i r h f =
    rw (dup-in l i h, get_ptr_in m i r.fits (omega (arith, r.room)))
      (push-Represents m l (item l i) (m.stk (m.sp - i)) (r.cells i h) r f)

pub swap-in :
    (l : List Value) (i : ℕ)
    → i + 1 < length l
    → swap (int256 0) i l ≡ set (set l (i + 1) (item l 0)) 0 (item l (i + 1))
unfolding swap
swap-in l i h = ground arith

-- The cells of `swap`: the two that change, and the others.
swap_cells :
    (m : Memory) (l : List Value) (n : ℕ)
    → Represents m l
    → 0 < n
    → n < length l
    → (j : ℕ) → j < length l
    → (store (m.sp - n) (m.stk m.sp) (store m.sp (m.stk (m.sp - n)) m.stk) (m.sp - j)).word
      ≡ (item (set (set l n (item l 0)) 0 (item l n)) j).word
swap_cells m l n r p h j k =
    let top : m.sp - 0 ≡ m.sp = omega arith in
    let tops : (m.stk m.sp).word ≡ (item l 0).word =
      subst (λ i. (m.stk i).word ≡ (item l 0).word) top (r.cells 0 (omega arith)) in
    let len : length (set l n (item l 0)) ≡ length l = length-set l n (item l 0) in
    elim (Bool-cases (j == n)) [
      | inl at ↦
          let e : j ≡ n = eq_of_beq j n at in
          rw
            (
              e,
              store_same,
              get_or-set_other (set l n (item l 0)) 0 n (item l n) (int256 0) (omega arith),
              get_or-set_same l n (item l 0) (int256 0) h,
            )
            tops
      | inr other ↦
          let ne : j ≢ n = ne_of_beq j n other in
          rw
            (store_other (m.sp - n) (m.sp - j) (m.stk m.sp) (store m.sp (m.stk (m.sp - n)) m.stk)
              (omega (arith, r.room)))
            (elim (Bool-cases (j == 0)) [
              | inl first ↦
                  let e : j ≡ 0 = eq_of_beq j 0 first in
                  rw
                    (
                      e,
                      top,
                      store_same,
                      get_or-set_same (set l n (item l 0)) 0 (item l n) (int256 0) (omega arith),
                    )
                    (r.cells n h)
              | inr below ↦
                  let nz : j ≢ 0 = ne_of_beq j 0 below in
                  rw
                    (
                      store_other m.sp (m.sp - j) (m.stk (m.sp - n)) m.stk (omega (arith, r.room)),
                      get_or-set_other (set l n (item l 0)) 0 j (item l n) (int256 0) (omega arith),
                      get_or-set_other l n j (item l 0) (int256 0) (omega arith),
                    )
                    (r.cells j k)
            ])
    ]

pub swap-Represents :
    (m : Memory) (l : List Value) (i : ℕ)
    → Represents m l
    → i + 1 < length l
    → Represents (swap_memory i m) (swap (int256 0) i l)
unfolding swap_memory
swap-Represents m l i r h =
    let len : length (set (set l (i + 1) (item l 0)) 0 (item l (i + 1))) ≡ length l =
      length-set (set l (i + 1) (item l 0)) 0 (item l (i + 1)) ∙ length-set l (i + 1) (item l 0) in
    rw (swap-in l i h, get_ptr_in m (i + 1) r.fits (omega (arith, r.room)))
      (record {
        room = rw len r.room;
        fits = r.fits;
        cells = rw len (λ j k. swap_cells m l (i + 1) r (omega arith) h j k);
      })

-- ===== src/Frame/Fetched.antt =====
-- What a block finds on its local stack.
use evmbt.Prelude.{
  ℕ, zero, suc, ◌+◌, ◌-◌, ◌%◌, ◌^◌, ◌<◌, ◌≤◌, ◌≡◌, ◌∙◌, refl, sym, ap, subst, List, [], ◌∷◌, ◌++◌,
  map, Bool, true, false, length, take, drop, get_or, length-take, length-drop, min, arith,
}
use evmbt.Stack.Registers.{push}
use evmbt.Stack.Defs.{Value, Memory, pop_memory}
use evmbt.Stack.Cells.{item, Represents, push-Represents, pop-Represents}
use evmbt.Frame.Defs.{pop_items, take_over, push_items, fetch, store_items}

abbrev pub words : List Value → List ℕ
words l = map (λ v. v.word) l

-- Only the numbers of a stack matter to the memory.
pub length-words : (l : List Value) → length (words l) ≡ length l
length-words [] = refl
length-words (v ∷ l) = ap suc (length-words l)

item-words : (l : List Value) (i : ℕ) → i < length l → (item l i).word ≡ get_or (words l) i 0
item-words [] i h = absurd (omega arith)
item-words (v ∷ l) zero h = refl
item-words (v ∷ l) (suc i) h = item-words l i (omega arith)

pub Represents-words :
    (m : Memory) (l k : List Value) → words l ≡ words k → Represents m l → Represents m k
Represents-words m l k e r =
    let len : length l ≡ length k = sym (length-words l) ∙ ap length e ∙ length-words k in
    record {
      room = omega (arith, r.room);
      fits = r.fits;
      cells = λ i h.
          let same = ap (λ ws. get_or ws i 0) e in
          omega
            (arith, r.cells i (omega arith), item-words l i (omega arith), item-words k i h, same);
    }

item-drop : (n i : ℕ) (l : List Value) → item (drop n l) i ≡ item l (n + i)
item-drop zero i l = ap (λ k. item l k) (omega arith)
item-drop (suc n) i [] = refl
item-drop (suc n) i (v ∷ l) =
    item-drop n i l ∙ ap (λ k. item (v ∷ l) k) {x = suc (n + i)} (omega arith)

-- A pointer that goes down by `n` leaves `n` elements behind.
lower-Represents :
    (m : Memory) (l : List Value) (n : ℕ)
    → n ≤ length l
    → Represents m l
    → Represents (record m { sp = (m.sp + 2 ^ 256 - n % 2 ^ 256) % 2 ^ 256 }) (drop n l)
lower-Represents m l n h r =
    let down : (m.sp + 2 ^ 256 - n % 2 ^ 256) % 2 ^ 256 ≡ m.sp - n =
      omega (arith, r.room, r.fits) in
    record {
      room = rw down (omega (arith, r.room, length-drop n l));
      fits = omega arith;
      cells = λ i k.
          let inside : n + i < length l = omega (arith, length-drop n l) in
          let below : m.sp - n - i ≡ m.sp - (n + i) = omega arith in
          rw (down, below, item-drop n i l) (r.cells (n + i) inside);
    }

-- `n` pops give the upper `n` numbers.
pub pop_items-Represents :
    (n : ℕ) (m : Memory) (l : List Value)
    → n ≤ length l
    → Represents m l
    → (words (pop_items n m).0 ≡ words (take n l)) × Represents (pop_items n m).1 (drop n l)
unfolding pop_items
pop_items-Represents zero m l h r = (refl, r)
pop_items-Represents (suc n) m [] h r = absurd (omega arith)
pop_items-Represents (suc n) m (v ∷ l) h r =
    let p = pop-Represents m v l r in
    let rest = pop_items-Represents n (pop_memory m).1 l (omega arith) p.1 in
    (
      ap (λ k. k ∷ words (pop_items n (pop_memory m).1).0) p.0 ∙ ap (λ ws. v.word ∷ ws) rest.0,
      rest.1,
    )

-- Storing a local stack puts it on top of the memory's.
pub store_items-Represents :
    (view l : List Value) (m : Memory)
    → m.sp + length view < 2 ^ 256
    → Represents m l
    → Represents (store_items view m) (view ++ l) × ((store_items view m).sp ≡ m.sp + length view)
unfolding store_items push
store_items-Represents [] l m h r = (r, omega arith)
store_items-Represents (v ∷ view) l m h r =
    let rest = store_items-Represents view l m (omega arith) r in
    (
      push-Represents (store_items view m) (view ++ l) v v refl rest.0 (omega (arith, rest.1)),
      omega (arith, rest.1),
    )

push_items-append : (l k : List Value) → push_items l k ≡ l ++ k
unfolding push_items push
push_items-append [] k = refl
push_items-append (v ∷ l) k = ap (λ r. v ∷ r) (push_items-append l k)

append_nil : (l : List Value) → l ++ [] ≡ l
append_nil [] = refl
append_nil (v ∷ l) = ap (λ r. v ∷ r) (append_nil l)

pub words-append : (l k : List Value) → words (l ++ k) ≡ words l ++ words k
words-append [] k = refl
words-append (v ∷ l) k = ap (λ r. v.word ∷ r) (words-append l k)

words-take : (n : ℕ) (l : List Value) → words (take n l) ≡ take n (words l)
words-take zero l = refl
words-take (suc n) [] = refl
words-take (suc n) (v ∷ l) = ap (λ r. v.word ∷ r) (words-take n l)

take_nil : (n : ℕ) → take {A = Value} n [] ≡ []
take_nil zero = refl
take_nil (suc n) = refl

drop_nil : (n : ℕ) → drop {A = Value} n [] ≡ []
drop_nil zero = refl
drop_nil (suc n) = refl

-- `k` elements and the `j` behind them.
take_then : (k j : ℕ) (l : List Value) → take k l ++ take j (drop k l) ≡ take (k + j) l
take_then zero j l = ap (λ n. take n l) (omega arith)
take_then (suc k) zero [] = sym (take_nil (suc k + 0))
take_then (suc k) (suc j) [] = sym (take_nil (suc k + suc j))
take_then (suc k) j (v ∷ l) =
    ap (λ r. v ∷ r) (take_then k j l) ∙ ap (λ n. take n (v ∷ l)) {x = suc (k + j)} (omega arith)

drop_then : (k j : ℕ) (l : List Value) → drop j (drop k l) ≡ drop (k + j) l
drop_then zero j l = ap (λ n. drop n l) (omega arith)
drop_then (suc k) zero [] = sym (drop_nil (suc k + 0))
drop_then (suc k) (suc j) [] = sym (drop_nil (suc k + suc j))
drop_then (suc k) j (v ∷ l) =
    drop_then k j l ∙ ap (λ n. drop n (v ∷ l)) {x = suc (k + j)} (omega arith)

take-min : (n p : ℕ) (ws : List ℕ) → take n (take p ws) ≡ take (min n p) ws
take-min zero p ws = ap (λ k. take k ws) {x = 0} (omega arith)
take-min (suc n) zero ws = ap (λ k. take k ws) {x = 0} (omega arith)
take-min (suc n) (suc p) [] = ap (λ k. take k []) {x = suc (min n p)} (omega arith)
take-min (suc n) (suc p) (w ∷ ws) =
    ap (λ r. w ∷ r) (take-min n p ws) ∙ ap (λ k. take k (w ∷ ws)) {x = suc (min n p)} (omega arith)

-- The values of `pstack` are the upper numbers of a stack.
abbrev pub OnTop : List Value → List Value → Type 0
OnTop pstack l = (length pstack ≤ length l) × (words pstack ≡ take (length pstack) (words l))

taken-OnTop :
    (n : ℕ) (pstack l : List Value)
    → OnTop pstack l
    → words (take n pstack) ≡ words (take (length (take n pstack)) l)
taken-OnTop n pstack l t =
    let size : min n (length pstack) ≡ length (take n pstack) = sym (length-take n pstack) in
    words-take n pstack
    ∙ ap (λ ws. take n ws) t.1
    ∙ take-min n (length pstack) (words l)
    ∙ ap (λ k. take k (words l)) size
    ∙ sym (words-take (length (take n pstack)) l)

-- The values at hand, and as many pops as are missing.
pop_missing :
    (n : ℕ) (dep l : List Value) (m : Memory)
    → n ≤ length l
    → length dep ≤ n
    → words dep ≡ words (take (length dep) l)
    → Represents m (drop (length dep) l)
    → (words (dep ++ (pop_items (n - length dep) m).0) ≡ words (take n l))
      × Represents (pop_items (n - length dep) m).1 (drop n l)
pop_missing n dep l m h k e r =
    let d = length dep in
    let whole : d + (n - d) ≡ n = omega arith in
    let p = pop_items-Represents (n - d) m (drop d l) (omega (arith, length-drop d l)) r in
    (
      words-append dep (pop_items (n - d) m).0
          ∙ ap (λ ws. ws ++ words (pop_items (n - d) m).0) e
          ∙ ap (λ ws. words (take d l) ++ ws) p.0
          ∙ sym (words-append (take d l) (take (n - d) (drop d l)))
          ∙ ap words (take_then d (n - d) l ∙ ap (λ j. take j l) whole),
      subst (λ k. Represents (pop_items (n - d) m).1 k)
          (drop_then d (n - d) l ∙ ap (λ j. drop j l) whole) p.1,
    )

-- Before a block is compiled its local stack has the upper `stk_in` numbers of the operand stack,
-- and the memory has the others.
pub fetch-Represents :
    (stk_in : ℕ) (reuse : Bool) (pstack l : List Value) (m : Memory)
    → Represents m l
    → stk_in ≤ length l
    → (reuse ≡ true → OnTop pstack l)
    → (words (fetch stk_in reuse pstack m).0 ≡ words (take stk_in l))
      × Represents (fetch stk_in reuse pstack m).1 (drop stk_in l)
unfolding fetch take_over
fetch-Represents n false pstack l m r h t =
    let p = pop_missing n [] l m h (omega arith) refl r in
    (ap words (push_items-append _ [] ∙ append_nil _) ∙ p.0, p.1)
fetch-Represents n true pstack l m r h t =
    let top = t refl in
    let dep = take n pstack in
    let size = length-take n pstack in
    let low = lower-Represents m l (length dep) (omega (arith, size, top.0)) r in
    let p = pop_missing n dep l _ h (omega (arith, size)) (taken-OnTop n pstack l top) low in
    (ap words (push_items-append _ [] ∙ append_nil _) ∙ p.0, p.1)

pop_items-sp : (n : ℕ) (m : Memory) → n ≤ m.sp → m.sp < 2 ^ 256 → (pop_items n m).1.sp ≡ m.sp - n
unfolding pop_items pop_memory
pop_items-sp zero m h k = omega arith
pop_items-sp (suc n) m h k =
    let m' = (pop_memory m).1 in
    let down : m'.sp ≡ m.sp - 1 = omega arith in
    pop_items-sp n m' (omega (arith, down)) (omega (arith, down)) ∙ omega (arith, down)

pub fetch-sp :
    (stk_in : ℕ) (reuse : Bool) (pstack : List Value) (m : Memory)
    → stk_in ≤ m.sp
    → m.sp < 2 ^ 256
    → (fetch stk_in reuse pstack m).1.sp ≡ m.sp - stk_in
unfolding fetch take_over
fetch-sp n false pstack m h k = pop_items-sp (n - 0) m (omega arith) k ∙ omega arith
fetch-sp n true pstack m h k =
    let d = length (take n pstack) in
    let small : d ≤ n = omega (arith, length-take n pstack) in
    let down : (m.sp + 2 ^ 256 - d % 2 ^ 256) % 2 ^ 256 ≡ m.sp - d = omega arith in
    pop_items-sp (n - d) _ (omega (arith, down)) (omega (arith, down)) ∙ omega (arith, down)

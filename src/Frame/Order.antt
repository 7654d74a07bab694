-- ===== src/Frame/Order.antt =====
-- The order in which `compileMain` compiles the blocks: a walk over the control flow graph from
-- block 0 on, and then the blocks that the walk has not met. A block is its index in `blocks`;
-- `none` is the null pointer that stands for a block that does not exist.
use evmbt.Prelude.{
  ℕ, zero, suc, ◌+◌, List, [], ◌∷◌, ◌++◌, map, Bool, true, false, Option, none, some, length, ◌==◌,
  ◌>>=◌, if◌then◌else◌,
}

abbrev pub same_block : Option ℕ → Option ℕ → Bool
same_block none none = true
same_block none (some j) = false
same_block (some i) none = false
same_block (some i) (some j) = i == j

-- `visited.find(pbb) != visited.end()`
unfoldable pub is_visited : List (Option ℕ) → Option ℕ → Bool
is_visited [] b = false
is_visited (v ∷ vs) b = if same_block v b then true else is_visited vs b

-- A call of `compileBasicBlock`: the block, and the values of the block before it.
pub record Compiled (A : Type 0) : Type 0 where
  pub block : ℕ
  pub pstack : List A

-- An element of `waitingBlocks`.
pub record Waiting (A : Type 0) : Type 0 where
  pub pbb : Option ℕ
  pub values : List A

-- `view` gives the local stack that a block leaves, by the values it gets; `bbs_to` the edges.
module _ {A : Type 0} (view : ℕ → List A → List A) (bbs_to : ℕ → List (Option ℕ)) where
  abbrev pub wait_for : List A → Option ℕ → Waiting A
  wait_for vs b = record { pbb = b; values = vs }

  -- The loop over `waitingBlocks`: the calls, and the blocks that are visited at its end.
  unfoldable pub walk_loop :
      ℕ → List (Waiting A) → List (Option ℕ) → Option (List (Compiled A) × List (Option ℕ))
  unfolding is_visited
  walk_loop zero queue visited = none
  walk_loop (suc fuel) [] visited = some ([], visited)
  walk_loop (suc fuel) (w ∷ queue) visited =
      let again = walk_loop fuel queue visited in
      let nowhere = walk_loop fuel queue (none ∷ visited) in
      let compile = λ (i : ℕ). (do
        rest ←
            walk_loop fuel (queue ++ map (wait_for (view i w.values)) (bbs_to i)) (some i ∷ visited)
        some (record { block = i; pstack = w.values } ∷ rest.0, rest.1)) in
      if is_visited visited w.pbb
      then again
      else (elim w.pbb [ none ↦ nowhere | some i ↦ compile i ])

  -- The loop over the blocks from `idx` on, `n` of them, that the walk has not visited.
  unfoldable pub rest_loop : ℕ → ℕ → List (Option ℕ) → List (Compiled A)
  unfolding is_visited
  rest_loop zero idx visited = []
  rest_loop (suc n) idx visited =
      let rest = rest_loop n (suc idx) visited in
      if is_visited visited (some idx) then rest else record { block = idx; pstack = [] } ∷ rest

  -- The edges of the first `n` blocks.
  unfoldable pub edge_count : ℕ → ℕ
  edge_count zero = 0
  edge_count (suc n) = edge_count n + length (bbs_to n)

  -- All calls of `compileBasicBlock`, for `n` blocks. The walk takes a round for block 0 and for
  -- each edge, and one to find the queue empty.
  unfoldable pub compile_order : ℕ → Option (List (Compiled A))
  unfolding walk_loop rest_loop edge_count
  compile_order n = do
    walk ← walk_loop (2 + edge_count n) (wait_for [] (some 0) ∷ []) []
    some (walk.0 ++ rest_loop n 0 walk.1)

-- ===== src/Cfg/Defs.antt =====
-- The depth-first walk of `dry_run`.
use evmbt.Prelude.{
  ℕ, zero, suc, ◌+◌, ◌-◌, ◌*◌, List, [], ◌∷◌, ◌++◌, Bool, true, false, Option, none, some, length,
  get_or, ◌==◌, if◌then◌else◌,
}
use evmbt.Instruction.{byte_at, jump_op, jumpi_op, jumpdest_op, invalid_op}
use evmbt.Blocks.{BasicBlock}
use evmbt.DryRun.{dry_run_bb}

-- One element of `bbs_to` of the block that begins at `source`; `none` is the null pointer. The
-- elements of `bbs_from` of a block are the sources of the edges to it, in the same order.
pub record Edge : Type 0 where
  pub source : ℕ
  pub target : Option ℕ

-- A block to visit, with the stack to visit it with.
pub record Visit : Type 0 where
  pub block : BasicBlock
  pub stack : List ℕ

-- The variables of the loop; the back of `dfs` is the head of the list.
pub record Search : Type 0 where
  pub dfs : List Visit
  pub visited : List ℕ
  pub edges : List Edge

-- `idxMap.find`: a later block with the same index replaces an earlier one.
unfoldable pub find_block : List BasicBlock → ℕ → Option BasicBlock
find_block [] pc = none
find_block (bb ∷ bbs) pc = elim (find_block bbs pc) [
  | some later ↦ some later
  | none ↦ if bb.first_instr_idx == pc then some bb else none
]

-- `visited.find`
unfoldable pub was_visited : List ℕ → ℕ → Bool
was_visited [] idx = false
was_visited (v ∷ vs) idx = if v == idx then true else was_visited vs idx

abbrev pub back : List ℕ → ℕ
back stack = get_or stack 0 0

abbrev pub pop_back : List ℕ → List ℕ
pop_back [] = []
pop_back (x ∷ stack) = stack

-- A block that `find` gave, if there is one and the test on its first byte holds.
abbrev pub keep_if : (BasicBlock → Bool) → Option BasicBlock → Option BasicBlock
keep_if test none = none
keep_if test (some bb) = if test bb then some bb else none

abbrev pub lands : List ℕ → BasicBlock → Bool
lands code bb = byte_at code bb.begin == jumpdest_op

abbrev pub falls : List ℕ → BasicBlock → Bool
falls code bb = if byte_at code bb.begin == invalid_op then false else true

-- An edge to a block, which is then also to be visited, or to nowhere.
unfoldable pub add_edge : ℕ → List ℕ → Option BasicBlock → Search → Search
add_edge source stack none s = record s {
  edges = s.edges ++ record { source = source; target = none } ∷ [];
}
add_edge source stack (some bb) s = record s {
  dfs = record { block = bb; stack = stack } ∷ s.dfs;
  edges = s.edges ++ record { source = source; target = some bb.first_instr_idx } ∷ [];
}

-- The last byte of the block, which may be push data.
abbrev pub terminator : List ℕ → BasicBlock → ℕ
terminator code bb = byte_at code (bb.end - 1)

abbrev pub terminator_idx : BasicBlock → ℕ
terminator_idx bb = bb.first_instr_idx + bb.end - bb.begin - 1

-- The rest of the body after `dry_run_bb`, which left `stack`.
unfoldable pub leave : List ℕ → List BasicBlock → BasicBlock → List ℕ → Search → Search
unfolding add_edge find_block
leave code blocks bb stack s =
    let op = terminator code bb in
    let jump = keep_if (lands code) (find_block blocks (back stack)) in
    let fallout = keep_if (falls code) (find_block blocks (terminator_idx bb + 1)) in
    let after_jump = pop_back stack in
    let after_jumpi = pop_back (pop_back stack) in
    if op == jump_op
    then add_edge bb.first_instr_idx after_jump jump s
    else if op == jumpi_op
    then add_edge bb.first_instr_idx after_jumpi jump
        (add_edge bb.first_instr_idx after_jumpi fallout s)
    else s

-- The body of the loop for the visit that it takes off `dfs`, which leaves `s`.
unfoldable pub visit : List ℕ → List BasicBlock → Visit → Search → Option Search
unfolding leave was_visited
visit code blocks v s =
    let bb = v.block in
    let marked = record s { visited = bb.first_instr_idx ∷ s.visited } in
    if was_visited s.visited bb.first_instr_idx
    then some s
    else elim (dry_run_bb code bb.begin bb.end v.stack) [
      | none ↦ none
      | some stack ↦ some (leave code blocks bb stack marked)
    ]

-- The loop; `none` means that the fuel ran out.
unfoldable pub search_loop : ℕ → List ℕ → List BasicBlock → Search → Option Search
unfolding visit
search_loop zero code blocks s = none
search_loop (suc fuel) code blocks s = elim s.dfs [
  | [] ↦ some s
  | v ∷ vs ↦ elim (visit code blocks v (record s { dfs = vs })) [
    | none ↦ none
    | some next ↦ search_loop fuel code blocks next
  ]
]

-- The edges that the loop leaves in the blocks.
abbrev pub edges_of : Option Search → Option (List Edge)
edges_of none = none
edges_of (some s) = some s.edges

-- `dry_run` from the first of the blocks. Each round takes a visit, and each block adds at most
-- two.
unfoldable pub dry_run : List ℕ → BasicBlock → List BasicBlock → Option (List Edge)
unfolding search_loop
dry_run code first rest =
    let blocks = first ∷ rest in
    let start : Search = record {
      dfs = record { block = first; stack = [] } ∷ [];
      visited = [];
      edges = [];
    } in
    edges_of (search_loop (2 + 2 * length blocks) code blocks start)

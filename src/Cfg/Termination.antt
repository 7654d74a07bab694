-- ===== src/Cfg/Termination.antt =====
-- The rounds of `dry_run`, the work that is left, and its edges.
use evmbt.Prelude.{
  ℕ, zero, suc, ◌+◌, ◌*◌, ◌<◌, ◌≤◌, ◌≡◌, ◌∙◌, sym, ap, subst, refl, List-cases, inl, inr, List, [],
  ◌∷◌, true, false, Option, some, length, if◌then◌else◌, arith, All, Bool-cases,
}
use evmbt.Blocks.{BasicBlock}
use evmbt.DryRun.{dry_run_bb}
use evmbt.DryRun.Termination.{dry_run_bb_total}
use evmbt.Cfg.Defs.{Edge, Visit, Search, was_visited, leave, visit, search_loop, edges_of, dry_run}
use evmbt.Cfg.Edges.{Among, EdgeOk, Inv, leave-Inv, leave_grows}

-- How many blocks have not been visited.
abbrev fresh : List BasicBlock → List ℕ → ℕ
fresh [] visited = 0
fresh (bb ∷ blocks) visited =
    if was_visited visited bb.first_instr_idx
    then fresh blocks visited
    else suc (fresh blocks visited)

-- Each round lowers this number, since a block's first visit adds two visits at most.
abbrev work : List BasicBlock → Search → ℕ
work blocks s = length s.dfs + 2 * fresh blocks s.visited

visited-cons :
    (visited : List ℕ) (i j : ℕ) → was_visited visited j ≡ true → was_visited (i ∷ visited) j ≡ true
unfolding was_visited
visited-cons visited i j h = ground (arith, h)

visited_here : (visited : List ℕ) (i : ℕ) → was_visited (i ∷ visited) i ≡ true
unfolding was_visited
visited_here visited i = ground arith

fresh_mono :
    (blocks : List BasicBlock) (visited : List ℕ) (i : ℕ)
    → fresh blocks (i ∷ visited) ≤ fresh blocks visited
fresh_mono [] visited i = omega arith
fresh_mono (bb ∷ blocks) visited i = elim (Bool-cases (was_visited visited bb.first_instr_idx)) [
  | inl old ↦ rw (old, visited-cons visited i bb.first_instr_idx old) (fresh_mono blocks visited i)
  | inr new ↦ rw new (elim (Bool-cases (was_visited (i ∷ visited) bb.first_instr_idx)) [
    | inl h ↦ rw h (omega (arith, fresh_mono blocks visited i))
    | inr h ↦ rw h (omega (arith, fresh_mono blocks visited i))
  ])
]

-- A first visit leaves one block fewer.
fresh-visit :
    (blocks : List BasicBlock) (visited : List ℕ) (bb : BasicBlock)
    → Among blocks bb
    → was_visited visited bb.first_instr_idx ≡ false
    → fresh blocks (bb.first_instr_idx ∷ visited) < fresh blocks visited
fresh-visit [] visited bb m new = absurd m
fresh-visit (x ∷ blocks) visited bb (inl here) new =
    let i : x.first_instr_idx ≡ bb.first_instr_idx = ap (λ b. b.first_instr_idx) here in
    rw (i, new, visited_here visited bb.first_instr_idx)
      (omega (arith, fresh_mono blocks visited bb.first_instr_idx))
fresh-visit (x ∷ blocks) visited bb (inr m) new =
    let ih = fresh-visit blocks visited bb m new in
    elim (Bool-cases (was_visited visited x.first_instr_idx)) [
      | inl old ↦ rw (old, visited-cons visited bb.first_instr_idx x.first_instr_idx old) ih
      | inr other ↦
          rw other
            (elim (Bool-cases (was_visited (bb.first_instr_idx ∷ visited) x.first_instr_idx)) [
              | inl h ↦ rw h (omega (arith, ih))
              | inr h ↦ rw h (omega (arith, ih))
            ])
    ]

abbrev Forward : BasicBlock → Type 0
Forward bb = bb.begin ≤ bb.end

Among-Forward :
    (blocks : List BasicBlock) (bb : BasicBlock) → All Forward blocks → Among blocks bb → Forward bb
Among-Forward [] bb f m = absurd m
Among-Forward (x ∷ blocks) bb f (inl here) = subst Forward here f.0
Among-Forward (x ∷ blocks) bb f (inr m) = Among-Forward blocks bb f.1 m

visit_again :
    (code : List ℕ) (blocks : List BasicBlock) (v : Visit) (s : Search)
    → was_visited s.visited v.block.first_instr_idx ≡ true
    → visit code blocks v s ≡ some s
unfolding visit
visit_again code blocks v s h = ground (arith, h)

visit_first :
    (code : List ℕ) (blocks : List BasicBlock) (v : Visit) (s : Search) (stack : List ℕ)
    → was_visited s.visited v.block.first_instr_idx ≡ false
    → dry_run_bb code v.block.begin v.block.end v.stack ≡ some stack
    → visit code blocks v s
      ≡ some (
          leave code blocks v.block stack
            (record s { visited = v.block.first_instr_idx ∷ s.visited }))
unfolding visit
visit_first code blocks v s stack h e = ground (arith, h, e)

-- A visit returns, keeps the invariant and lowers the work.
visit-Inv :
    (code : List ℕ) (blocks : List BasicBlock) (v : Visit) (s : Search)
    → All Forward blocks
    → Among blocks v.block
    → Inv code blocks s
    → (next : Search) × (visit code blocks v s ≡ some next)
      × Inv code blocks next
      × (work blocks next < work blocks s + 1)
visit-Inv code blocks v s f m i =
    elim (Bool-cases (was_visited s.visited v.block.first_instr_idx)) [
      | inl old ↦ (s, visit_again code blocks v s old, i, omega arith)
      | inr new ↦
          let bb = v.block in
          let (stack, e) =
            dry_run_bb_total code bb.begin bb.end v.stack (Among-Forward blocks bb f m) in
          let marked : Search = record s { visited = bb.first_instr_idx ∷ s.visited } in
          let marked_ok : Inv code blocks marked = record {
            among = i.among;
            edges_ok = i.edges_ok;
          } in
          let g = leave_grows code blocks bb stack marked in
          let next = leave code blocks bb stack marked in
          let fewer : fresh blocks next.visited < fresh blocks s.visited =
            subst (λ vs. fresh blocks vs < fresh blocks s.visited) (sym g.1)
              (fresh-visit blocks s.visited bb m new) in
          (
            next,
            visit_first code blocks v s stack new e,
            leave-Inv code blocks bb stack marked m marked_ok,
            omega (arith, g.0, fewer),
          )
    ]

search_loop_end :
    (fuel : ℕ) (code : List ℕ) (blocks : List BasicBlock) (s : Search)
    → s.dfs ≡ []
    → search_loop (suc fuel) code blocks s ≡ some s
unfolding search_loop
search_loop_end fuel code blocks s e = ground (arith, e)

search_loop_next :
    (fuel : ℕ) (code : List ℕ) (blocks : List BasicBlock) (s : Search) (v : Visit) (vs : List Visit)
    (next : Search)
    → s.dfs ≡ v ∷ vs
    → visit code blocks v (record s { dfs = vs }) ≡ some next
    → search_loop (suc fuel) code blocks s ≡ search_loop fuel code blocks next
unfolding search_loop
search_loop_next fuel code blocks s v vs next e h = ground (arith, e, h)

abbrev Ends : List ℕ → List BasicBlock → Option Search → Type 0
Ends code blocks o = (s : Search) × (o ≡ some s) × Inv code blocks s

search_loop-Ends :
    (fuel : ℕ) (code : List ℕ) (blocks : List BasicBlock) (s : Search)
    → All Forward blocks
    → Inv code blocks s
    → work blocks s < fuel
    → Ends code blocks (search_loop fuel code blocks s)
search_loop-Ends zero code blocks s f i h = absurd (omega arith)
search_loop-Ends (suc fuel) code blocks s f i h = elim (List-cases s.dfs) [
  | inl none_left ↦ (s, search_loop_end fuel code blocks s none_left, i)
  | inr (v, vs, e) ↦
      let all : All (λ v. Among blocks v.block) (v ∷ vs) =
        subst (All (λ v. Among blocks v.block)) e i.among in
      let rest : Search = record s { dfs = vs } in
      let rest_ok : Inv code blocks rest = record { among = all.1; edges_ok = i.edges_ok } in
      let (next, run, next_ok, less) = visit-Inv code blocks v rest f all.0 rest_ok in
      let len : length s.dfs ≡ suc (length vs) = ap length e in
      let (end, run', end_ok) =
        search_loop-Ends fuel code blocks next f next_ok (omega (arith, less, len)) in
      (end, search_loop_next fuel code blocks s v vs next e run ∙ run', end_ok)
]

fresh-length : (blocks : List BasicBlock) → fresh blocks [] ≤ length blocks
unfolding was_visited
fresh-length [] = omega arith
fresh-length (bb ∷ blocks) = omega (arith, fresh-length blocks)

-- `dry_run` returns on blocks that do not end before they begin. Each edge that it adds to a block
-- runs between two of the blocks: from one whose last byte is 0x56 or 0x57 to one that begins with a
-- JUMPDEST, or from one whose last byte is 0x57 to the one that begins behind it. That byte may be
-- push data in place of a JUMP or a JUMPI.
pub dry_run-IsEdge :
    (code : List ℕ) (first : BasicBlock) (rest : List BasicBlock)
    → All (λ bb. bb.begin ≤ bb.end) (first ∷ rest)
    → (edges : List Edge) × (dry_run code first rest ≡ some edges)
      × All (λ e. EdgeOk code (first ∷ rest) e.source e.target) edges
unfolding dry_run
dry_run-IsEdge code first rest f =
    let blocks = first ∷ rest in
    let start : Search = record {
      dfs = record { block = first; stack = [] } ∷ [];
      visited = [];
      edges = [];
    } in
    let start_ok : Inv code blocks start = record { among = (inl refl, tt); edges_ok = tt } in
    let (s, run, ok) =
      search_loop-Ends (2 + 2 * length blocks) code blocks start f start_ok
        (omega (arith, fresh-length blocks)) in
    (s.edges, ap edges_of run, ok.edges_ok)

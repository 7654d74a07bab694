-- ===== src/Cfg/Edges.antt =====
-- The edges that `dry_run` adds, and the visits that they add.
use evmbt.Prelude.{
  ℕ, ◌+◌, ◌≤◌, ◌≡◌, ◌∙◌, refl, ◌⊎◌, inl, inr, List, [], ◌∷◌, Bool, true, false, Option, none, some,
  length, ◌==◌, arith, All, All-append, Bool-cases, Option-cases, eq_of_beq,
}
use evmbt.Instruction.{byte_at, jump_op, jumpi_op, jumpdest_op}
use evmbt.Blocks.{BasicBlock}
use evmbt.Cfg.Defs.{
  Search, find_block, back, pop_back, keep_if, lands, falls, add_edge, terminator, terminator_idx,
  leave,
}

-- A member of a list of blocks.
abbrev pub Among : List BasicBlock → BasicBlock → Type 0
Among [] bb = ⊥
Among (x ∷ blocks) bb = (x ≡ bb) ⊎ Among blocks bb

find_block-cons :
    (x : BasicBlock) (blocks : List BasicBlock) (pc : ℕ) (bb : BasicBlock)
    → find_block (x ∷ blocks) pc ≡ some bb
    → (find_block blocks pc ≡ some bb) ⊎ ((x.first_instr_idx ≡ pc) × (x ≡ bb))
unfolding find_block
find_block-cons x blocks pc bb e = ground arith

-- `find` gives a block of the list, with the index that it looks for.
pub find_block-Among :
    (blocks : List BasicBlock) (pc : ℕ) (bb : BasicBlock)
    → find_block blocks pc ≡ some bb
    → Among blocks bb × (bb.first_instr_idx ≡ pc)
find_block-Among [] pc bb e = unfold find_block in absurd (cc e)
find_block-Among (x ∷ blocks) pc bb e = elim (find_block-cons x blocks pc bb e) [
  | inl later ↦ let (m, i) = find_block-Among blocks pc bb later in (inr m, i)
  | inr here ↦ (inl here.1, cc (here.0, here.1))
]

-- How control goes from `a` to `b`: by a jump to a JUMPDEST, or behind a JUMPI.
abbrev pub Follows : List ℕ → BasicBlock → BasicBlock → Type 0
Follows code a b =
    (((terminator code a ≡ jump_op) ⊎ (terminator code a ≡ jumpi_op))
      × (byte_at code b.begin ≡ jumpdest_op))
    ⊎ ((terminator code a ≡ jumpi_op) × (b.first_instr_idx ≡ terminator_idx a + 1))

-- The ends of an edge to a block are blocks of the list, and control can go along it.
pub record IsEdge (code : List ℕ) (blocks : List BasicBlock) (source target : ℕ) : Type 0 where
  pub a : BasicBlock
  pub b : BasicBlock
  pub a_among : Among blocks a
  pub b_among : Among blocks b
  pub a_source : a.first_instr_idx ≡ source
  pub b_target : b.first_instr_idx ≡ target
  pub follows : Follows code a b

abbrev pub EdgeOk : List ℕ → List BasicBlock → ℕ → Option ℕ → Type 0
EdgeOk code blocks source none = Unit
EdgeOk code blocks source (some target) = IsEdge code blocks source target

-- What the loop keeps: the blocks to visit are of the list, and so are the ends of the edges.
pub record Inv (code : List ℕ) (blocks : List BasicBlock) (s : Search) : Type 0 where
  pub among : All (λ v. Among blocks v.block) s.dfs
  pub edges_ok : All (λ e. EdgeOk code blocks e.source e.target) s.edges

-- A new edge's block, if it has one.
abbrev NewEdge : List ℕ → List BasicBlock → BasicBlock → Option BasicBlock → Type 0
NewEdge code blocks a none = Unit
NewEdge code blocks a (some b) = Among blocks b × Follows code a b

add_edge-Inv :
    (code : List ℕ) (blocks : List BasicBlock) (a : BasicBlock) (stack : List ℕ)
    (o : Option BasicBlock) (s : Search)
    → Among blocks a
    → NewEdge code blocks a o
    → Inv code blocks s
    → Inv code blocks (add_edge a.first_instr_idx stack o s)
unfolding add_edge
add_edge-Inv code blocks a stack none s m n v = record {
  among = v.among;
  edges_ok = All-append (λ e. EdgeOk code blocks e.source e.target) s.edges _ v.edges_ok (tt, tt);
}
add_edge-Inv code blocks a stack (some b) s m n v = record {
  among = (n.0, v.among);
  edges_ok =
      All-append (λ e. EdgeOk code blocks e.source e.target) s.edges _ v.edges_ok
        (
          record {
            a = a;
            b = b;
            a_among = m;
            b_among = n.0;
            a_source = refl;
            b_target = refl;
            follows = n.1;
          },
          tt,
        );
}

keep_if-some :
    (test : BasicBlock → Bool) (o : Option BasicBlock) (b : BasicBlock)
    → keep_if test o ≡ some b
    → (o ≡ some b) × (test b ≡ true)
keep_if-some test none b e = absurd (cc e)
keep_if-some test (some x) b e = ground (arith, e)

jump_NewEdge :
    (code : List ℕ) (blocks : List BasicBlock) (a : BasicBlock) (pc : ℕ)
    → (terminator code a ≡ jump_op) ⊎ (terminator code a ≡ jumpi_op)
    → NewEdge code blocks a (keep_if (lands code) (find_block blocks pc))
jump_NewEdge code blocks a pc op =
    let o = keep_if (lands code) (find_block blocks pc) in
    elim (Option-cases o) [
      | inl nowhere ↦ rw nowhere tt
      | inr (b, e) ↦
          let (f, t) = keep_if-some (lands code) (find_block blocks pc) b e in
          let (m, i) = find_block-Among blocks pc b f in rw e (m, inl (op, eq_of_beq _ _ t))
    ]

fallout_NewEdge :
    (code : List ℕ) (blocks : List BasicBlock) (a : BasicBlock)
    → terminator code a ≡ jumpi_op
    → NewEdge code blocks a (keep_if (falls code) (find_block blocks (terminator_idx a + 1)))
fallout_NewEdge code blocks a op =
    let pc = terminator_idx a + 1 in
    let o = keep_if (falls code) (find_block blocks pc) in
    elim (Option-cases o) [
      | inl nowhere ↦ rw nowhere tt
      | inr (b, e) ↦
          let (f, t) = keep_if-some (falls code) (find_block blocks pc) b e in
          let (m, i) = find_block-Among blocks pc b f in rw e (m, inr (op, i))
    ]

-- The three ways to leave a block.
module _ (code : List ℕ) (blocks : List BasicBlock) (bb : BasicBlock) (stack : List ℕ)
    (s : Search) where
  abbrev jump_target : Option BasicBlock
  jump_target = keep_if (lands code) (find_block blocks (back stack))

  abbrev fallout_target : Option BasicBlock
  fallout_target = keep_if (falls code) (find_block blocks (terminator_idx bb + 1))

  leave_jump :
      (terminator code bb == jump_op) ≡ true
      → leave code blocks bb stack s ≡ add_edge bb.first_instr_idx (pop_back stack) jump_target s
  unfolding leave
  leave_jump e = ground arith

  leave_jumpi :
      (terminator code bb == jumpi_op) ≡ true
      → leave code blocks bb stack s
        ≡ add_edge bb.first_instr_idx
            (pop_back (pop_back stack))
            jump_target
            (add_edge bb.first_instr_idx (pop_back (pop_back stack)) fallout_target s)
  unfolding leave
  leave_jumpi e = ground arith

  leave_other :
      (terminator code bb == jump_op) ≡ false
      → (terminator code bb == jumpi_op) ≡ false
      → leave code blocks bb stack s ≡ s
  unfolding leave
  leave_other e f = ground arith

pub leave-Inv :
    (code : List ℕ) (blocks : List BasicBlock) (bb : BasicBlock) (stack : List ℕ) (s : Search)
    → Among blocks bb
    → Inv code blocks s
    → Inv code blocks (leave code blocks bb stack s)
leave-Inv code blocks bb stack s m v = elim (Bool-cases (terminator code bb == jump_op)) [
  | inl jump ↦ rw (leave_jump code blocks bb stack s jump) (
      add_edge-Inv code blocks bb _ _ s m
        (jump_NewEdge code blocks bb (back stack) (inl (eq_of_beq _ _ jump))) v)
  | inr no_jump ↦ elim (Bool-cases (terminator code bb == jumpi_op)) [
    | inr other ↦ rw (leave_other code blocks bb stack s no_jump other) v
    | inl jumpi ↦
        let op = eq_of_beq (terminator code bb) jumpi_op jumpi in
        rw (leave_jumpi code blocks bb stack s jumpi) (
          add_edge-Inv code blocks bb _ _ _ m (jump_NewEdge code blocks bb (back stack) (inr op))
            (add_edge-Inv code blocks bb _ _ s m (fallout_NewEdge code blocks bb op) v))
  ]
]

-- An edge adds at most one visit.
add_edge_grows :
    (source : ℕ) (stack : List ℕ) (o : Option BasicBlock) (s : Search)
    → (length (add_edge source stack o s).dfs ≤ length s.dfs + 1)
      × ((add_edge source stack o s).visited ≡ s.visited)
unfolding add_edge
add_edge_grows source stack none s = (omega arith, refl)
add_edge_grows source stack (some bb) s = (omega arith, refl)

-- Leaving a block adds at most two.
pub leave_grows :
    (code : List ℕ) (blocks : List BasicBlock) (bb : BasicBlock) (stack : List ℕ) (s : Search)
    → (length (leave code blocks bb stack s).dfs ≤ length s.dfs + 2)
      × ((leave code blocks bb stack s).visited ≡ s.visited)
leave_grows code blocks bb stack s = elim (Bool-cases (terminator code bb == jump_op)) [
  | inl jump ↦
      let g =
        add_edge_grows bb.first_instr_idx (pop_back stack) (jump_target code blocks bb stack s) s in
      rw (leave_jump code blocks bb stack s jump) (omega (arith, g.0), g.1)
  | inr no_jump ↦ elim (Bool-cases (terminator code bb == jumpi_op)) [
    | inr other ↦ rw (leave_other code blocks bb stack s no_jump other) (omega arith, refl)
    | inl jumpi ↦
        let rest = pop_back (pop_back stack) in
        let g = add_edge_grows bb.first_instr_idx rest (fallout_target code blocks bb stack s) s in
        let h =
          add_edge_grows bb.first_instr_idx rest (jump_target code blocks bb stack s)
            (add_edge bb.first_instr_idx rest (fallout_target code blocks bb stack s) s) in
        rw (leave_jumpi code blocks bb stack s jumpi) (omega (arith, g.0, h.0), h.1 ∙ g.1)
  ]
]

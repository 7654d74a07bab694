-- ===== src/Blocks/Structure.antt =====
-- The blocks of `createBasicBlocks` against runs of whole instructions.
use evmbt.Prelude.{
  ℕ, zero, suc, ◌<◌, ◌≤◌, ◌≡◌, ◌≢◌, ◌⊎◌, ◌∙◌, refl, sym, List, [], ◌∷◌, ◌++◌, true, false, some,
  length, arith, ◌==◌, Bool-cases, inl, inr, ne_of_beq, eq_of_beq, All, All-append, All-map,
}
use evmbt.Instruction.{
  byte_at, stop_op, jump_op, jumpi_op, jumpdest_op, return_op, revert_op, suicide_op,
  skip_push_data_and_get_next,
}
use evmbt.Instruction.Boundary.{Boundary, entry, after}
use evmbt.Instruction.Decode.{next_bounds}
use evmbt.Blocks.Defs.{
  BasicBlock, basic_block, Scan, is_end, scan_live, scan_step, scan_loop, start_scan,
  create_basic_blocks,
}
use evmbt.Blocks.Rounds.{
  scan_live-cut, scan_live-go, scan_step_live, scan_step_revive, scan_step_dead, scan_loop_end,
  scan_loop_next,
}

-- An opcode that neither stops nor jumps.
abbrev pub IsStraight : ℕ → Type 0
IsStraight op =
    (op ≢ jump_op)
    × (op ≢ jumpi_op)
    × (op ≢ return_op)
    × (op ≢ revert_op)
    × (op ≢ stop_op)
    × (op ≢ suicide_op)

-- From `b` the straight instructions lead to `i`, and none behind the first is a JUMPDEST.
pub data Run (code : List ℕ) (b : ℕ) : ℕ → Type 0 where
  here : Run code b b
  more :
      {i j : ℕ}
      → Run code b i
      → i < length code
      → IsStraight (byte_at code i)
      → j ≡ skip_push_data_and_get_next code i (length code)
      → byte_at code j ≢ jumpdest_op
      → Run code b j

-- Whole instructions from an instruction's begin on, the last of which, and only it, may stop or
-- jump; the block ends there, at the end of the code or before a JUMPDEST.
pub record IsBlock (code : List ℕ) (bb : BasicBlock) : Type 0 where
  pub last : ℕ
  pub starts : Boundary code bb.begin
  pub run : Run code bb.begin last
  pub inside : last < length code
  pub ends : bb.end ≡ skip_push_data_and_get_next code last (length code)
  pub reason :
      ¬ (IsStraight (byte_at code last))
      ⊎ ((bb.end ≡ length code) ⊎ (byte_at code bb.end ≡ jumpdest_op))
  pub index : bb.first_instr_idx ≡ bb.begin

-- The blocks come in the order of the code, from `lo` on, and do not overlap.
abbrev pub Chained : ℕ → List BasicBlock → Type 0
Chained lo [] = Unit
Chained lo (bb ∷ bbs) = (lo ≤ bb.begin) × (bb.begin < bb.end) × Chained bb.end bbs

abbrev Below : ℕ → BasicBlock → Type 0
Below hi bb = bb.end ≤ hi

Chained-snoc :
    (lo : ℕ) (bbs : List BasicBlock) (bb : BasicBlock)
    → Chained lo bbs
    → All (Below bb.begin) bbs
    → lo ≤ bb.begin
    → bb.begin < bb.end
    → Chained lo (bbs ++ bb ∷ [])
Chained-snoc lo [] bb c b l p = (l, p, tt)
Chained-snoc lo (x ∷ xs) bb c b l p = (c.0, c.1, Chained-snoc x.end xs bb c.2 b.1 b.0 p)

Run-le : {code : List ℕ} {b i : ℕ} → Run code b i → b ≤ i
Run-le here = omega arith
Run-le {code} (more {i} {j} r h st e d) =
    omega (arith, Run-le r, next_bounds code i (length code) h)

-- What the loop knows at the head of each round.
record Inv (code : List ℕ) (s : Scan) : Type 0 where
  inside : s.curr ≤ length code
  low : s.begin ≤ s.curr
  at : Boundary code s.curr
  alive : s.is_dead ≡ false → Run code s.begin s.curr × Boundary code s.begin
  blocks_ok : All (IsBlock code) s.blocks
  chained : Chained 0 s.blocks
  below : All (Below s.begin) s.blocks

is_end-false :
    (code : List ℕ) (op j : ℕ)
    → is_end code op j ≡ false
    → IsStraight op × (byte_at code j ≢ jumpdest_op)
is_end-false code op j h = (
  (ground arith, ground arith, ground arith, ground arith, ground arith, ground arith),
  ground arith,
)

is_end-true :
    (code : List ℕ) (op j : ℕ)
    → is_end code op j ≡ true
    → ¬ (IsStraight op) ⊎ ((j ≡ length code) ⊎ (byte_at code j ≡ jumpdest_op))
is_end-true code op j h = ground arith

cut_IsBlock :
    (code : List ℕ) (curr begin : ℕ)
    → curr < length code
    → Run code begin curr
    → Boundary code begin
    → let j = skip_push_data_and_get_next code curr (length code) in
      is_end code (byte_at code curr) j ≡ true → IsBlock code (basic_block code begin begin j)
unfolding basic_block
cut_IsBlock code curr begin h run starts e = record {
  last = curr;
  starts = starts;
  run = run;
  inside = h;
  ends = refl;
  reason = is_end-true code (byte_at code curr) _ e;
  index = refl;
}

Below-mono : (lo hi : ℕ) → lo ≤ hi → (bb : BasicBlock) → Below lo bb → Below hi bb
Below-mono lo hi h bb b = omega arith

-- A round at an instruction of a live block.
scan_live-Inv :
    (code : List ℕ) (curr begin : ℕ) (blocks : List BasicBlock)
    → curr < length code
    → Boundary code curr
    → Run code begin curr
    → Boundary code begin
    → All (IsBlock code) blocks
    → Chained 0 blocks
    → All (Below begin) blocks
    → Inv code (scan_live code curr begin blocks)
scan_live-Inv code curr begin blocks h at run starts ok chained below =
    let j = skip_push_data_and_get_next code curr (length code) in
    let bounds : (curr < j) × (j ≤ length code) = next_bounds code curr (length code) h in
    let low : begin ≤ curr = Run-le run in
    let at_j : Boundary code j = after at h refl in
    elim (Bool-cases (is_end code (byte_at code curr) j)) [
      | inl cut ↦
          let bb = basic_block code begin begin j in
          let bb_below : All (Below j) (bb ∷ []) = (unfold basic_block in omega arith, tt) in
          rw (scan_live-cut code curr begin blocks cut) (record {
            inside = bounds.1;
            low = omega arith;
            at = at_j;
            alive = λ e. (here, at_j);
            blocks_ok =
                All-append (IsBlock code) blocks (bb ∷ []) ok
                  (cut_IsBlock code curr begin h run starts cut, tt);
            chained =
                Chained-snoc 0 blocks bb chained (unfold basic_block in below) (omega arith)
                  (unfold basic_block in omega arith);
            below =
                All-append (Below j) blocks (bb ∷ [])
                  (All-map (Below begin) (Below j) blocks (Below-mono begin j (omega arith)) below)
                  bb_below;
          })
      | inr go ↦
          let st = is_end-false code (byte_at code curr) j go in
          rw (scan_live-go code curr begin blocks go) (record {
            inside = bounds.1;
            low = omega arith;
            at = at_j;
            alive = λ e. (more run h st.0 refl st.1, starts);
            blocks_ok = ok;
            chained = chained;
            below = below;
          })
    ]

scan_step-Inv :
    (code : List ℕ) (s : Scan) → s.curr < length code → Inv code s → Inv code (scan_step code s)
scan_step-Inv code s h v = elim (Bool-cases s.is_dead) [
  | inr live ↦ rw (scan_step_live code s live) (
      scan_live-Inv code s.curr s.begin s.blocks h v.at (v.alive live).0 (v.alive live).1
        v.blocks_ok v.chained v.below)
  | inl dead ↦ elim (Bool-cases (byte_at code s.curr == jumpdest_op)) [
    | inl dest ↦ rw (scan_step_revive code s dead dest) (
        scan_live-Inv code s.curr s.curr s.blocks h v.at here v.at v.blocks_ok v.chained (
          All-map (Below s.begin) (Below s.curr) s.blocks (Below-mono s.begin s.curr v.low)
            v.below))
    | inr skipped ↦
        let j = skip_push_data_and_get_next code s.curr (length code) in
        let bounds : (s.curr < j) × (j ≤ length code) = next_bounds code s.curr (length code) h in
        rw (scan_step_dead code s dead skipped) (record {
          inside = bounds.1;
          low = omega (arith, v.low);
          at = after v.at h refl;
          alive = λ e. cc (dead, e);
          blocks_ok = v.blocks_ok;
          chained = v.chained;
          below = v.below;
        })
  ]
]

abbrev WellCut : List ℕ → List BasicBlock → Type 0
WellCut code blocks = All (IsBlock code) blocks × Chained 0 blocks

scan_loop-WellCut :
    (fuel : ℕ) (code : List ℕ) (s : Scan) (blocks : List BasicBlock)
    → Inv code s
    → scan_loop fuel code s ≡ some blocks
    → WellCut code blocks
scan_loop-WellCut zero code s blocks v e = unfold scan_loop in cc
scan_loop-WellCut (suc fuel) code s blocks v e = elim (Bool-cases (s.curr == length code)) [
  | inl at_end ↦
      let same : s.blocks ≡ blocks = cc (scan_loop_end fuel code s (eq_of_beq _ _ at_end)) in
      rw (← same) (v.blocks_ok, v.chained)
  | inr inside ↦
      let lt : s.curr < length code =
        omega (arith, v.inside, ne_of_beq s.curr (length code) inside) in
      scan_loop-WellCut fuel code (scan_step code s) blocks (scan_step-Inv code s lt v)
        (sym (scan_loop_next fuel code s lt) ∙ e)
]

start-Inv : (code : List ℕ) → Inv code start_scan
start-Inv code = record {
  inside = omega arith;
  low = omega arith;
  at = entry;
  alive = λ e. (here, entry);
  blocks_ok = tt;
  chained = tt;
  below = tt;
}

-- Every block of the result is a run of whole instructions that only its last instruction leaves,
-- and the blocks come in the order of the code without overlap.
pub create_basic_blocks-WellCut :
    (code : List ℕ) (blocks : List BasicBlock)
    → create_basic_blocks code ≡ some blocks
    → All (IsBlock code) blocks × Chained 0 blocks
unfolding create_basic_blocks
create_basic_blocks-WellCut code blocks e =
    scan_loop-WellCut (suc (length code)) code start_scan blocks (start-Inv code) e

-- ===== src/Blocks/Targets.antt =====
-- The blocks that begin with a JUMPDEST against the code's valid jump destinations.
use mathlib.Core.List.{append-nil, append_assoc}
use evmbt.Prelude.{
  ℕ, zero, suc, ◌<◌, ◌≤◌, ◌≡◌, ◌≢◌, ◌⊎◌, ◌∙◌, refl, sym, ap, List, [], ◌∷◌, ◌++◌, Bool, true, false,
  some, length, arith, ◌==◌, if◌then◌else◌, Bool-cases, inl, inr, ne_of_beq, eq_of_beq,
}
use evmbt.Instruction.{byte_at, jumpdest_op, skip_push_data_and_get_next}
use evmbt.Instruction.Decode.{next_bounds}
use evmbt.Blocks.Defs.{
  BasicBlock, basic_block, Scan, is_halt, is_end, scan_live, scan_step, scan_loop, start_scan,
  create_basic_blocks,
}
use evmbt.Blocks.Rounds.{
  curr-scan_step, scan_loop_end, scan_loop_next, scan_live-cut, scan_live-go, scan_step_live,
  scan_step_revive, scan_step_dead,
}

-- The places of the JUMPDESTs that begin a block, in the order of the blocks. The cases of the jump
-- table, in the order in which the blocks are compiled, are in Jumps.
unfoldable pub jump_table : List ℕ → List BasicBlock → List ℕ
jump_table code [] = []
jump_table code (bb ∷ blocks) =
    let rest = jump_table code blocks in
    if byte_at code bb.begin == jumpdest_op then bb.first_instr_idx ∷ rest else rest

abbrev dest_of : List ℕ → ℕ → List ℕ
dest_of code i = if byte_at code i == jumpdest_op then i ∷ [] else []

-- The JUMPDEST instructions from `i` on, in order.
pub jumpdests_from : ℕ → List ℕ → ℕ → List ℕ
jumpdests_from zero code i = []
jumpdests_from (suc fuel) code i =
    let rest = jumpdests_from fuel code (skip_push_data_and_get_next code i (length code)) in
    if i == length code then [] else dest_of code i ++ rest

-- The valid jump destinations of the code: the JUMPDEST bytes that are no push data.
pub valid_jumpdests : List ℕ → List ℕ
valid_jumpdests code = jumpdests_from (suc (length code)) code 0

jump_table-snoc :
    (code : List ℕ) (blocks : List BasicBlock) (begin end : ℕ)
    → jump_table code (blocks ++ basic_block code begin begin end ∷ [])
      ≡ jump_table code blocks ++ dest_of code begin
unfolding jump_table basic_block
jump_table-snoc code [] begin end = ground arith
jump_table-snoc code (bb ∷ blocks) begin end = ground (arith, jump_table-snoc code blocks begin end)

-- The destination of the block that is open.
abbrev pending : List ℕ → Bool → ℕ → ℕ → List ℕ
pending code dead begin curr = if dead then [] else if begin == curr then [] else dest_of code begin

-- Within an open block no JUMPDEST comes, and the code does not end.
record Open (code : List ℕ) (begin curr : ℕ) : Type 0 where
  low : begin ≤ curr
  quiet : (begin ≡ curr) ⊎ ((byte_at code curr ≢ jumpdest_op) × (curr ≢ length code))

abbrev found : List ℕ → Scan → List ℕ
found code s = jump_table code s.blocks ++ pending code s.is_dead s.begin s.curr

live_pending :
    (code : List ℕ) (begin curr : ℕ)
    → Open code begin curr
    → dest_of code begin ≡ pending code false begin curr ++ dest_of code curr
live_pending code begin curr o = ground (arith, append-nil (dest_of code begin))

-- What a round must do: keep the open block quiet and account for one instruction.
abbrev Counts : List ℕ → List ℕ → ℕ → Scan → Type 0
Counts code before curr s =
    (s.is_dead ≡ false → Open code s.begin s.curr) × (found code s ≡ before ++ dest_of code curr)

go_quiet :
    (code : List ℕ) (op j : ℕ)
    → is_end code op j ≡ false
    → (byte_at code j ≢ jumpdest_op) × (j ≢ length code) × (is_halt op ≡ false)
go_quiet code op j h = (ground arith, ground arith, ground arith)

closed_pending : (code : List ℕ) (dead : Bool) (j : ℕ) → pending code dead j j ≡ []
closed_pending code dead j = ground arith

open_pending :
    (code : List ℕ) (dead : Bool) (begin j : ℕ)
    → dead ≡ false
    → begin < j
    → pending code dead begin j ≡ dest_of code begin
open_pending code dead begin j e h = ground arith

scan_live-Counts :
    (code : List ℕ) (curr begin : ℕ) (blocks : List BasicBlock)
    → curr < length code
    → Open code begin curr
    → Counts code
        (jump_table code blocks ++ pending code false begin curr)
        curr
        (scan_live code curr begin blocks)
scan_live-Counts code curr begin blocks h o =
    let j = skip_push_data_and_get_next code curr (length code) in
    let bounds : (curr < j) × (j ≤ length code) = next_bounds code curr (length code) h in
    let halt = is_halt (byte_at code curr) in
    let table = jump_table code blocks in
    let regroup = append_assoc table (pending code false begin curr) (dest_of code curr) in
    elim (Bool-cases (is_end code (byte_at code curr) j)) [
      | inl cut ↦ rw (scan_live-cut code curr begin blocks cut) (
        (λ e. record { low = omega arith; quiet = inl refl }),
        cc (
          closed_pending code halt j,
          append-nil (jump_table code (blocks ++ basic_block code begin begin j ∷ [])),
          jump_table-snoc code blocks begin j,
          live_pending code begin curr o,
          regroup,
        ),
      )
      | inr go ↦
          let q = go_quiet code (byte_at code curr) j go in
          rw (scan_live-go code curr begin blocks go) (
            (λ e. record { low = omega (arith, o.low); quiet = inr (q.0, q.1) }),
            cc (
              open_pending code halt begin j q.2 (omega (arith, o.low)),
              live_pending code begin curr o,
              regroup,
            ),
          )
    ]

dest_of_none :
    (code : List ℕ) (i : ℕ) → (byte_at code i == jumpdest_op) ≡ false → dest_of code i ≡ []
dest_of_none code i e = ground arith

found_dead :
    (code : List ℕ) (s : Scan) (begin curr : ℕ)
    → s.is_dead ≡ true
    → jump_table code s.blocks ++ pending code s.is_dead begin curr ≡ jump_table code s.blocks
found_dead code s begin curr e = rw e (append-nil _)

scan_step-Counts :
    (code : List ℕ) (s : Scan)
    → s.curr < length code
    → (s.is_dead ≡ false → Open code s.begin s.curr)
    → Counts code (found code s) s.curr (scan_step code s)
scan_step-Counts code s h o = elim (Bool-cases s.is_dead) [
  | inr live ↦
      rw (scan_step_live code s live, live)
        (scan_live-Counts code s.curr s.begin s.blocks h (o live))
  | inl dead ↦ elim (Bool-cases (byte_at code s.curr == jumpdest_op)) [
    | inl dest ↦
        let table = jump_table code s.blocks in
        let same : found code s ≡ table ++ pending code false s.curr s.curr =
          found_dead code s s.begin s.curr dead
          ∙ sym (ap (◌++◌ table) (closed_pending code false s.curr) ∙ append-nil table) in
        rw (scan_step_revive code s dead dest, same)
          (scan_live-Counts code s.curr s.curr s.blocks h
            (record { low = omega arith; quiet = inl refl }))
    | inr skipped ↦
        let j = skip_push_data_and_get_next code s.curr (length code) in
        rw (scan_step_dead code s dead skipped) (
          (λ e. cc (dead, e)),
          cc (
            found_dead code s s.begin j dead,
            found_dead code s s.begin s.curr dead,
            dest_of_none code s.curr skipped,
            append-nil (found code s),
          ),
        )
  ]
]

found_end :
    (code : List ℕ) (s : Scan)
    → s.curr ≡ length code
    → (s.is_dead ≡ false → Open code s.begin s.curr)
    → found code s ≡ jump_table code s.blocks
found_end code s e o = elim (Bool-cases s.is_dead) [
  | inl dead ↦ found_dead code s s.begin s.curr dead
  | inr live ↦
      let shut : pending code s.is_dead s.begin s.curr ≡ [] = ground (arith, o live) in
      rw shut (append-nil _)
]

jumpdests_end :
    (fuel : ℕ) (code : List ℕ) (i : ℕ) → i ≡ length code → jumpdests_from (suc fuel) code i ≡ []
unfolding jumpdests_from
jumpdests_end fuel code i e = ground arith

jumpdests_next :
    (fuel : ℕ) (code : List ℕ) (i : ℕ)
    → i < length code
    → jumpdests_from (suc fuel) code i
      ≡ dest_of code i
        ++ jumpdests_from fuel code (skip_push_data_and_get_next code i (length code))
unfolding jumpdests_from
jumpdests_next fuel code i e = ground arith

scan_loop-jump_table :
    (fuel : ℕ) (code : List ℕ) (s : Scan) (blocks : List BasicBlock)
    → s.curr ≤ length code
    → (s.is_dead ≡ false → Open code s.begin s.curr)
    → scan_loop fuel code s ≡ some blocks
    → jump_table code blocks ≡ found code s ++ jumpdests_from fuel code s.curr
scan_loop-jump_table zero code s blocks b o e = unfold scan_loop in cc
scan_loop-jump_table (suc fuel) code s blocks b o e = elim (Bool-cases (s.curr == length code)) [
  | inl at_end ↦
      let eq : s.curr ≡ length code = eq_of_beq _ _ at_end in
      cc (
        scan_loop_end fuel code s eq,
        found_end code s eq o,
        jumpdests_end fuel code s.curr eq,
        append-nil (jump_table code s.blocks),
      )
  | inr inside ↦
      let lt : s.curr < length code = omega (arith, ne_of_beq s.curr (length code) inside) in
      let c = scan_step-Counts code s lt o in
      let j = skip_push_data_and_get_next code s.curr (length code) in
      let ih =
        scan_loop-jump_table fuel code (scan_step code s) blocks
          (omega (arith, curr-scan_step code s, next_bounds code s.curr (length code) lt)) c.0
          (sym (scan_loop_next fuel code s lt) ∙ e) in
      cc (
        ih,
        c.1,
        curr-scan_step code s,
        jumpdests_next fuel code s.curr lt,
        append_assoc (found code s) (dest_of code s.curr) (jumpdests_from fuel code j),
      )
]

-- The blocks that begin with a JUMPDEST begin at exactly the code's valid jump destinations, in order.
pub jump_table-valid_jumpdests :
    (code : List ℕ) (blocks : List BasicBlock)
    → create_basic_blocks code ≡ some blocks
    → jump_table code blocks ≡ valid_jumpdests code
unfolding create_basic_blocks valid_jumpdests jump_table
jump_table-valid_jumpdests code blocks e =
    scan_loop-jump_table (suc (length code)) code start_scan blocks (omega arith)
      (λ e. record { low = omega arith; quiet = inl refl }) e

-- ===== src/Jumps/Table.antt =====
-- The cases of the jump table against the code's valid jump destinations.
use evmbt.Prelude.{
  ℕ, zero, suc, ◌≡◌, ◌≢◌, refl, sym, ap, subst, ◌⊎◌, inl, inr, List, [], ◌∷◌, some, get_elem?, ◌==◌,
  if◌then◌else◌, All, Bool-cases, eq_of_beq, ne_of_beq, beq_of_eq, ◌∙◌,
}
use evmbt.Instruction.{byte_at, jumpdest_op}
use evmbt.Blocks.{BasicBlock, create_basic_blocks}
use evmbt.Blocks.Targets.{jump_table, valid_jumpdests, jump_table-valid_jumpdests}
use evmbt.Jumps.Defs.{code_block, abort_block, switch_cases, case_successor}

-- The list holds the element.
abbrev pub Listed : {A : Type 0} → A → List A → Type 0
Listed a [] = ⊥
Listed a (x ∷ xs) = (x ≡ a) ⊎ Listed a xs

Listed-All : {A : Type 0} (P : A → Type 0) (a : A) (xs : List A) → All P xs → Listed a xs → P a
Listed-All P a [] h l = absurd l
Listed-All P a (x ∷ xs) h (inl e) = subst P e h.0
Listed-All P a (x ∷ xs) h (inr l) = Listed-All P a xs h.1 l

pub All-unlisted : (d : ℕ) (xs : List ℕ) → ¬ Listed d xs → All (λ x. x ≢ d) xs
All-unlisted d [] h = tt
All-unlisted d (x ∷ xs) h = (λ e. h (inl e), All-unlisted d xs (λ l. h (inr l)))

-- The calls of `compileBasicBlock`: every block, with its number.
abbrev pub IsOrder : List BasicBlock → List (ℕ × BasicBlock) → Type 0
IsOrder blocks calls =
    All (λ (c : ℕ × BasicBlock). get_elem? blocks c.0 ≡ some c.1) calls
    × ((i : ℕ) (bb : BasicBlock) → get_elem? blocks i ≡ some bb → Listed (i, bb) calls)

-- The block begins with the JUMPDEST at `d`.
abbrev pub IsTarget : List ℕ → ℕ → BasicBlock → Type 0
IsTarget code d bb = (bb.first_instr_idx ≡ d) × (byte_at code bb.begin ≡ jumpdest_op)

table_block :
    (code : List ℕ) (blocks : List BasicBlock) (d : ℕ)
    → Listed d (jump_table code blocks)
    → (i : ℕ) × (bb : BasicBlock) × (get_elem? blocks i ≡ some bb) × IsTarget code d bb
unfolding jump_table
table_block code [] d l = absurd l
table_block code (bb ∷ blocks) d l = elim (Bool-cases (byte_at code bb.begin == jumpdest_op)) [
  | inl dest ↦
      let l' : Listed d (bb.first_instr_idx ∷ jump_table code blocks) =
        subst
          (λ b.
            Listed d
              (if b then bb.first_instr_idx ∷ jump_table code blocks else jump_table code blocks))
          dest l in
      elim l' [
        | inl here ↦ (0, bb, refl, (here, eq_of_beq _ _ dest))
        | inr later ↦ let r = table_block code blocks d later in (suc r.0, r.1, r.2, r.3)
      ]
  | inr other ↦
      let r = table_block code blocks d (subst (λ t. Listed d t) (rw other refl) l) in
      (suc r.0, r.1, r.2, r.3)
]

block_table :
    (code : List ℕ) (blocks : List BasicBlock) (d i : ℕ) (bb : BasicBlock)
    → get_elem? blocks i ≡ some bb
    → IsTarget code d bb
    → Listed d (jump_table code blocks)
unfolding jump_table
block_table code [] d zero bb e t = absurd (cc e)
block_table code [] d (suc i) bb e t = absurd (cc e)
block_table code (b ∷ blocks) d zero bb e t =
    let same : b ≡ bb = cc e in
    let dest = beq_of_eq _ _ (ap (λ x. byte_at code x.begin) same ∙ t.1) in
    rw dest (inl (ap (λ x. x.first_instr_idx) same ∙ t.0))
block_table code (b ∷ blocks) d (suc i) bb e t =
    let rest = block_table code blocks d i bb e t in
    elim (Bool-cases (byte_at code b.begin == jumpdest_op)) [
      | inl dest ↦ rw dest (inr rest)
      | inr other ↦ rw other rest
    ]

number_of :
    {k j d i : ℕ} {bb : BasicBlock}
    → ◌≡◌ {A = ℕ × ℕ} (k, j) (d, i)
    → ◌≡◌ {A = ℕ × BasicBlock} (j, bb) (i, bb)
number_of {bb = bb} e =
    ap (λ (n : ℕ). let q : ℕ × BasicBlock = (n, bb) in q) (ap (λ (p : ℕ × ℕ). p.1) e)

case_block :
    (code : List ℕ) (calls : List (ℕ × BasicBlock)) (d i : ℕ)
    → Listed (d, i) (switch_cases code calls)
    → (bb : BasicBlock) × Listed (i, bb) calls × IsTarget code d bb
unfolding switch_cases
case_block code [] d i l = absurd l
case_block code ((j, bb) ∷ calls) d i l = elim (Bool-cases (byte_at code bb.begin == jumpdest_op)) [
  | inl dest ↦
      let rest = switch_cases code calls in
      let l' : Listed (d, i) ((bb.first_instr_idx, j) ∷ rest) =
        subst (λ b. Listed (d, i) (if b then (bb.first_instr_idx, j) ∷ rest else rest)) dest l in
      elim l' [
        | inl here ↦ (bb, inl (number_of here), (ap (λ p. p.0) here, eq_of_beq _ _ dest))
        | inr later ↦ let r = case_block code calls d i later in (r.0, inr r.1, r.2)
      ]
  | inr other ↦
      let rest = switch_cases code calls in
      let l' : Listed (d, i) rest =
        subst (λ b. Listed (d, i) (if b then (bb.first_instr_idx, j) ∷ rest else rest)) other l in
      let r = case_block code calls d i l' in (r.0, inr r.1, r.2)
]

block_case :
    (code : List ℕ) (calls : List (ℕ × BasicBlock)) (d i : ℕ) (bb : BasicBlock)
    → Listed (i, bb) calls
    → IsTarget code d bb
    → Listed (d, i) (switch_cases code calls)
unfolding switch_cases
block_case code [] d i bb l t = absurd l
block_case code ((j, b) ∷ calls) d i bb l t =
    elim (Bool-cases (byte_at code b.begin == jumpdest_op)) [
      | inl dest ↦ elim l [
        | inl e ↦ rw dest (inl (ap (λ p. (p.1.first_instr_idx, p.0)) e ∙ ap (λ k. (k, i)) t.0))
        | inr later ↦ rw dest (inr (block_case code calls d i bb later t))
      ]
      | inr other ↦ elim l [
        | inl e ↦
            let op = ap (λ p. byte_at code p.1.begin) e ∙ t.1 in absurd (ne_of_beq _ _ other op)
        | inr later ↦ rw other (block_case code calls d i bb later t)
      ]
    ]

-- What `findCaseValue` finds: a case of the number, or none.
pub case_successor-Listed :
    (cases : List (ℕ × ℕ)) (d : ℕ)
    → ((i : ℕ) × (case_successor cases d ≡ code_block i) × Listed (d, i) cases)
      ⊎ ((case_successor cases d ≡ abort_block) × ((i : ℕ) → ¬ Listed (d, i) cases))
unfolding case_successor
case_successor-Listed [] d = inr (refl, λ i l. l)
case_successor-Listed ((k, j) ∷ cases) d = elim (Bool-cases (k == d)) [
  | inl here ↦ inl (j, rw here refl, inl (ap (λ n. (n, j)) (eq_of_beq k d here)))
  | inr other ↦ elim (case_successor-Listed cases d) [
    | inl found ↦ inl (found.0, rw other found.1, inr found.2)
    | inr missing ↦ inr (
      rw other missing.0,
      λ i l. elim l [
        | inl e ↦ ne_of_beq k d other (ap (λ p. p.0) e)
        | inr later ↦ missing.1 i later
      ],
    )
  ]
]

module _ (code : List ℕ) (blocks : List BasicBlock) (calls : List (ℕ × BasicBlock))
    (c : create_basic_blocks code ≡ some blocks) (o : IsOrder blocks calls) where
  -- The block of a case.
  pub case-IsTarget :
      (d i : ℕ)
      → Listed (d, i) (switch_cases code calls)
      → (bb : BasicBlock) × (get_elem? blocks i ≡ some bb) × IsTarget code d bb
  case-IsTarget d i l =
      let r = case_block code calls d i l in
      (
        r.0,
        Listed-All (λ (p : ℕ × BasicBlock). get_elem? blocks p.0 ≡ some p.1) (i, r.0) calls o.0 r.1,
        r.2,
      )

  -- In whatever order the blocks are compiled, each of them at least once, the numbers that have a
  -- case in the jump table are exactly the code's valid jump destinations.
  pub switch_cases-valid_jumpdests :
      (d : ℕ)
      → (((i : ℕ) × Listed (d, i) (switch_cases code calls)) → Listed d (valid_jumpdests code))
        × (Listed d (valid_jumpdests code) → (i : ℕ) × Listed (d, i) (switch_cases code calls))
  switch_cases-valid_jumpdests d =
      let same = jump_table-valid_jumpdests code blocks c in
      (
        λ (i, l).
            let r = case-IsTarget d i l in
            subst (λ t. Listed d t) same (block_table code blocks d i r.0 r.1 r.2),
        λ l.
            let r = table_block code blocks d (subst (λ t. Listed d t) (sym same) l) in
            (r.0, block_case code calls d r.0 r.1 (o.1 r.0 r.1 r.2) r.3),
      )

-- ===== src/Split/Sound.antt =====
-- The split point of `splitCode` against the instructions of the code.
use evmbt.Prelude.{
  ℕ, zero, suc, ◌-◌, ◌<◌, ◌≤◌, ◌≡◌, refl, List, true, false, Option, none, some, length, arith,
  ◌==◌, Bool-cases, inl, inr, ne_of_beq, eq_of_beq,
}
use evmbt.Instruction.{byte_at, codecopy_op, return_op, push1_op, skip_push_data_and_get_next}
use evmbt.Instruction.Decode.{next_bounds}
use evmbt.Instruction.Boundary.{Boundary, entry, after}
use evmbt.Split.Defs.{
  Walk, Verdict, missing, found, walk_step, splits_here, walk_loop, start_walk, split_code,
}

curr-walk_step :
    (code : List ℕ) (w : Walk)
    → (walk_step code w).curr ≡ skip_push_data_and_get_next code w.curr (length code)
unfolding walk_step
curr-walk_step code w = ground arith

-- An instruction of the code with opcode `op`, before `limit`.
pub record Occurs (code : List ℕ) (op limit at : ℕ) : Type 0 where
  pub boundary : Boundary code at
  pub opcode : byte_at code at ≡ op
  pub before : at < limit

-- A RETURN behind a CODECOPY.
pub record DeployReturn (code : List ℕ) (limit return_pc : ℕ) : Type 0 where
  pub copy_pc : ℕ
  pub copy : Occurs code codecopy_op return_pc copy_pc
  pub return : Occurs code return_op limit return_pc

record Inv (code : List ℕ) (w : Walk) : Type 0 where
  inside : w.curr ≤ length code
  at : Boundary code w.curr
  copied : w.exist_code_copy ≡ true → (pc : ℕ) × Occurs code codecopy_op w.curr pc
  returned : w.exist_return ≡ true → DeployReturn code w.curr w.return_pc

-- What a verdict says of the code.
abbrev pub IsSplit : List ℕ → Option Verdict → Type 0
IsSplit code none = ⊥
IsSplit code (some (missing return_pc)) = Unit
IsSplit code (some (found at return_pc)) =
    (at < length code)
    × Boundary code at
    × (byte_at code at ≡ push1_op)
    × DeployReturn code at return_pc

Occurs-weaken :
    {code : List ℕ} {op at : ℕ} (lo hi : ℕ) → lo ≤ hi → Occurs code op lo at → Occurs code op hi at
Occurs-weaken lo hi h o = record {
  boundary = o.boundary;
  opcode = o.opcode;
  before = omega (arith, o.before);
}

DeployReturn-weaken :
    {code : List ℕ} {pc : ℕ} (lo hi : ℕ)
    → lo ≤ hi
    → DeployReturn code lo pc
    → DeployReturn code hi pc
DeployReturn-weaken lo hi h d = record {
  copy_pc = d.copy_pc;
  copy = d.copy;
  return = Occurs-weaken lo hi h d.return;
}

-- The four kinds of rounds.
module _ (code : List ℕ) (w : Walk) where
  abbrev next : ℕ
  next = skip_push_data_and_get_next code w.curr (length code)

  walk_step_copy :
      (byte_at code w.curr == codecopy_op) ≡ true
      → walk_step code w ≡ record w { curr = next; exist_code_copy = true }
  unfolding walk_step
  walk_step_copy h = ground arith

  walk_step_return :
      (byte_at code w.curr == return_op) ≡ true
      → w.exist_code_copy ≡ true
      → walk_step code w ≡ record w { curr = next; exist_return = true; return_pc = w.curr }
  unfolding walk_step
  walk_step_return h c = ground arith

  walk_step_early :
      (byte_at code w.curr == return_op) ≡ true
      → w.exist_code_copy ≡ false
      → walk_step code w ≡ record w { curr = next }
  unfolding walk_step
  walk_step_early h c = ground arith

  walk_step_other :
      (byte_at code w.curr == codecopy_op) ≡ false
      → (byte_at code w.curr == return_op) ≡ false
      → walk_step code w ≡ record w { curr = next }
  unfolding walk_step
  walk_step_other h c = ground arith

-- What earlier rounds found stays found.
walk_step_keep :
    (code : List ℕ) (w : Walk)
    → w.curr < length code
    → Inv code w
    → Inv code (record w { curr = skip_push_data_and_get_next code w.curr (length code) })
walk_step_keep code w h v =
    let j = skip_push_data_and_get_next code w.curr (length code) in
    let bounds : (w.curr < j) × (j ≤ length code) = next_bounds code w.curr (length code) h in
    let le : w.curr ≤ j = omega arith in
    record {
      inside = bounds.1;
      at = after v.at h refl;
      copied = λ e. let (pc, o) = v.copied e in (pc, Occurs-weaken w.curr j le o);
      returned = λ e. DeployReturn-weaken w.curr j le (v.returned e);
    }

walk_step-Inv :
    (code : List ℕ) (w : Walk) → w.curr < length code → Inv code w → Inv code (walk_step code w)
walk_step-Inv code w h v =
    let j = skip_push_data_and_get_next code w.curr (length code) in
    let bounds : (w.curr < j) × (j ≤ length code) = next_bounds code w.curr (length code) h in
    let keep = walk_step_keep code w h v in
    elim (Bool-cases (byte_at code w.curr == codecopy_op)) [
      | inl copy ↦ rw (walk_step_copy code w copy) (record {
        inside = keep.inside;
        at = keep.at;
        copied = λ e.
            (w.curr, record { boundary = v.at; opcode = eq_of_beq _ _ copy; before = bounds.0 });
        returned = keep.returned;
      })
      | inr no_copy ↦ elim (Bool-cases (byte_at code w.curr == return_op)) [
        | inr other ↦ rw (walk_step_other code w no_copy other) keep
        | inl ret ↦ elim (Bool-cases w.exist_code_copy) [
          | inr early ↦ rw (walk_step_early code w ret early) keep
          | inl copied ↦
              let (pc, o) = v.copied copied in
              rw (walk_step_return code w ret copied) (record {
                inside = keep.inside;
                at = keep.at;
                copied = keep.copied;
                returned = λ e. record {
                  copy_pc = pc;
                  copy = o;
                  return = record {
                    boundary = v.at;
                    opcode = eq_of_beq _ _ ret;
                    before = bounds.0;
                  };
                };
              })
        ]
      ]
    ]

walk_loop_end :
    (fuel : ℕ) (code : List ℕ) (w : Walk)
    → w.curr ≡ length code
    → walk_loop (suc fuel) code w ≡ some (missing w.return_pc)
unfolding walk_loop
walk_loop_end fuel code w h = ground arith

walk_loop_split :
    (fuel : ℕ) (code : List ℕ) (w : Walk)
    → w.curr < length code
    → splits_here code w ≡ true
    → walk_loop (suc fuel) code w ≡ some (found w.curr w.return_pc)
unfolding walk_loop
walk_loop_split fuel code w h s = ground arith

walk_loop_next :
    (fuel : ℕ) (code : List ℕ) (w : Walk)
    → w.curr < length code
    → splits_here code w ≡ false
    → walk_loop (suc fuel) code w ≡ walk_loop fuel code (walk_step code w)
unfolding walk_loop
walk_loop_next fuel code w h s = ground arith

splits_here-true :
    (code : List ℕ) (w : Walk)
    → splits_here code w ≡ true
    → (byte_at code w.curr ≡ push1_op) × (w.exist_return ≡ true)
splits_here-true code w h = ground arith

walk_loop-IsSplit :
    (fuel : ℕ) (code : List ℕ) (w : Walk)
    → Inv code w
    → length code - w.curr < fuel
    → IsSplit code (walk_loop fuel code w)
walk_loop-IsSplit zero code w v h = absurd (omega arith)
walk_loop-IsSplit (suc fuel) code w v h = elim (Bool-cases (w.curr == length code)) [
  | inl at_end ↦ rw (walk_loop_end fuel code w (eq_of_beq _ _ at_end)) tt
  | inr inside ↦
      let lt : w.curr < length code =
        omega (arith, v.inside, ne_of_beq w.curr (length code) inside) in
      elim (Bool-cases (splits_here code w)) [
        | inl here ↦
            let (op, r) = splits_here-true code w here in
            rw (walk_loop_split fuel code w lt here) (lt, v.at, op, v.returned r)
        | inr on ↦ rw (walk_loop_next fuel code w lt on) (
            walk_loop-IsSplit fuel code (walk_step code w) (walk_step-Inv code w lt v)
              (omega (arith, curr-walk_step code w, next_bounds code w.curr (length code) lt)))
      ]
]

-- `splitCode` returns on every code. The split point that it returns, when it is not -1, is a
-- PUSH1 at an instruction's begin inside the code, and `RETURNPC` is then a RETURN before it, with a
-- CODECOPY before that, both at an instruction's begin.
pub split_code-IsSplit : (code : List ℕ) (return_pc : ℕ) → IsSplit code (split_code code return_pc)
unfolding split_code
split_code-IsSplit code return_pc =
    walk_loop-IsSplit (suc (length code)) code (start_walk return_pc)
      (record {
        inside = omega arith;
        at = entry;
        copied = λ e. absurd (cc e);
        returned = λ e. absurd (cc e);
      })
      (omega arith)

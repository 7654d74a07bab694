-- ===== src/Lift/Interface.antt =====
-- The interface of LLVM's `IRBuilder`, and what LLVM's language reference says of the
-- instructions that it builds.
use Prim.Native.Nat.{bit_and, bit_or, bit_xor}
use evmbt.Prelude.{
  ℕ, ◌+◌, ◌-◌, ◌*◌, ◌/◌, ◌%◌, ◌^◌, ◌<◌, ◌≤◌, ◌≡◌, ◌≢◌, Bool, not, ltb, ◌==◌, if◌then◌else◌,
}
use evmbt.Lift.Machine.{bit, signed_lt, signed_div, signed_rem, signed_shift}

-- The methods that the value opcodes call, on values of type `Val`.
pub record Builder (Val : Type 0) : Type 0 where
  -- `getType()`, the width of an integer type.
  pub width : Val → ℕ
  -- `isa<Instruction>`, which a constant that the builder folds is not.
  pub is_instruction : Val → Bool
  -- `ConstantInt::get`, with a width and a number.
  pub const : ℕ → ℕ → Val
  pub zext : Val → ℕ → Val
  pub trunc : Val → ℕ → Val
  pub add : Val → Val → Val
  pub sub : Val → Val → Val
  pub mul : Val → Val → Val
  pub nuw_add : Val → Val → Val
  pub nuw_mul : Val → Val → Val
  pub udiv : Val → Val → Val
  pub sdiv : Val → Val → Val
  pub urem : Val → Val → Val
  pub srem : Val → Val → Val
  pub and : Val → Val → Val
  pub or : Val → Val → Val
  pub xor : Val → Val → Val
  pub not : Val → Val
  pub shl : Val → Val → Val
  pub lshr : Val → Val → Val
  pub ashr : Val → Val → Val
  pub icmp_eq : Val → Val → Val
  pub icmp_ne : Val → Val → Val
  pub icmp_ult : Val → Val → Val
  pub icmp_ugt : Val → Val → Val
  pub icmp_slt : Val → Val → Val
  pub icmp_sgt : Val → Val → Val
  pub select : Val → Val → Val → Val

-- A binary instruction that is defined where `ok` holds of its operands, and then gives `f` of them
-- at the width `out` of theirs.
abbrev pub Binary :
    {Val : Type 0}
    → (Val → ℕ → ℕ → Type 0)
    → (Val → Val → Val)
    → (ℕ → ℕ)
    → (ℕ → ℕ → ℕ → Type 0)
    → (ℕ → ℕ → ℕ → ℕ)
    → Type 0
Binary {Val = Val} Is op out ok f =
    (a b : Val) (w m n : ℕ) → Is a w m → Is b w n → ok w m n → Is (op a b) (out w) (f w m n)

abbrev pub same : ℕ → ℕ
same w = w

abbrev pub i1 : ℕ → ℕ
i1 w = 1

abbrev pub Always : ℕ → ℕ → ℕ → Type 0
Always w m n = Unit

abbrev pub Divisor : ℕ → ℕ → ℕ → Type 0
Divisor w m n = n ≢ 0

-- A signed quotient also must not overflow.
abbrev pub SignedDivisor : ℕ → ℕ → ℕ → Type 0
SignedDivisor w m n = (n ≢ 0) × ¬ ((m ≡ 2 ^ (w - 1)) × (n ≡ 2 ^ w - 1))

abbrev pub ShiftAmount : ℕ → ℕ → ℕ → Type 0
ShiftAmount w m n = n < w

-- `Is v w n`: the value is defined, has width `w`, and is the number `n` at run time.
pub record Semantics {Val : Type 0} (B : Builder Val) : Type 1 where
  pub Is : Val → ℕ → ℕ → Type 0
  pub width_lem : (a : Val) (w m : ℕ) → Is a w m → B.width a ≡ w
  pub bound : (a : Val) (w m : ℕ) → Is a w m → m < 2 ^ w
  pub const_lem : (w n : ℕ) → n < 2 ^ w → Is (B.const w n) w n
  pub zext_lem : (a : Val) (w w' m : ℕ) → Is a w m → w ≤ w' → Is (B.zext a w') w' m
  pub trunc_lem : (a : Val) (w w' m : ℕ) → Is a w m → w' ≤ w → Is (B.trunc a w') w' (m % 2 ^ w')
  pub add_lem : Binary Is B.add same Always (λ w m n. (m + n) % 2 ^ w)
  pub sub_lem : Binary Is B.sub same Always (λ w m n. (m + 2 ^ w - n) % 2 ^ w)
  pub mul_lem : Binary Is B.mul same Always (λ w m n. (m * n) % 2 ^ w)
  pub nuw_add_lem : Binary Is B.nuw_add same (λ w m n. m + n < 2 ^ w) (λ w m n. m + n)
  pub nuw_mul_lem : Binary Is B.nuw_mul same (λ w m n. m * n < 2 ^ w) (λ w m n. m * n)
  pub udiv_lem : Binary Is B.udiv same Divisor (λ w m n. m / n)
  pub urem_lem : Binary Is B.urem same Divisor (λ w m n. m % n)
  pub sdiv_lem : Binary Is B.sdiv same SignedDivisor signed_div
  pub srem_lem : Binary Is B.srem same SignedDivisor signed_rem
  pub and_lem : Binary Is B.and same Always (λ w m n. bit_and m n)
  pub or_lem : Binary Is B.or same Always (λ w m n. bit_or m n)
  pub xor_lem : Binary Is B.xor same Always (λ w m n. bit_xor m n)
  pub not_lem : (a : Val) (w m : ℕ) → Is a w m → Is (B.not a) w (2 ^ w - 1 - m)
  pub shl_lem : Binary Is B.shl same ShiftAmount (λ w m n. (m * 2 ^ n) % 2 ^ w)
  pub lshr_lem : Binary Is B.lshr same ShiftAmount (λ w m n. m / 2 ^ n)
  pub ashr_lem : Binary Is B.ashr same ShiftAmount signed_shift
  pub icmp_eq_lem : Binary Is B.icmp_eq i1 Always (λ w m n. bit (m == n))
  pub icmp_ne_lem : Binary Is B.icmp_ne i1 Always (λ w m n. bit (not (m == n)))
  pub icmp_ult_lem : Binary Is B.icmp_ult i1 Always (λ w m n. bit (ltb m n))
  pub icmp_ugt_lem : Binary Is B.icmp_ugt i1 Always (λ w m n. bit (ltb n m))
  pub icmp_slt_lem : Binary Is B.icmp_slt i1 Always (λ w m n. bit (signed_lt w m n))
  pub icmp_sgt_lem : Binary Is B.icmp_sgt i1 Always (λ w m n. bit (signed_lt w n m))
  pub select_lem :
      (c a b : Val) (w k m n : ℕ)
      → Is c 1 k
      → Is a w m
      → Is b w n
      → Is (B.select c a b) w (if k == 0 then n else m)

-- ===== src/Lowering/Calls.antt =====
-- The calls of the lowered function against what LLVM defines for the instructions they replace.
use evmbt.Prelude.{
  ℕ, ◌-◌, ◌*◌, ◌/◌, ◌%◌, ◌^◌, ◌<◌, ◌≡◌, ◌≢◌, ◌⊎◌, ◌∙◌, ap, subst, Bool, ◌||◌, ◌&&◌, Option, none,
  some, ◌==◌, if◌then◌else◌, inl, inr, arith,
}
use evmbt.Lift.Machine.{signed_div, signed_rem}
use evmbt.Division.Signed.{udiv-quotient, urem-remainder, sdiv-signed_div, srem-signed_rem}
use evmbt.Product.Correct.{mul256-product, mul128-product}
use evmbt.Lowering.Defs.{
  Opcode, udiv_op, urem_op, sdiv_op, srem_op, mul_op, other_op, Callee, udiv256_func, urem256_func,
  sdiv256_func, srem256_func, mul256_func, mul128_func, urem512_func, callee, run_callee,
}

-- The number that LLVM's instruction gives for words of `w` bits; `none` where it has no meaning.
-- `others` is what the opcodes give that the pass does not know.
abbrev pub llvm_value : (ℕ → ℕ → ℕ → ℕ → Option ℕ) → ℕ → Opcode → ℕ → ℕ → Option ℕ
llvm_value others w udiv_op a b = if b == 0 then none else some (a / b)
llvm_value others w urem_op a b = if b == 0 then none else some (a % b)
llvm_value others w sdiv_op a b =
    if b == 0 || (a == 2 ^ (w - 1) && b == 2 ^ w - 1) then none else some (signed_div w a b)
llvm_value others w srem_op a b =
    if b == 0 || (a == 2 ^ (w - 1) && b == 2 ^ w - 1) then none else some (signed_rem w a b)
llvm_value others w mul_op a b = some ((a * b) % 2 ^ w)
llvm_value others w (other_op n) a b = others n w a b

callee_udiv : (w : ℕ) (f : Callee) → callee w udiv_op ≡ some f → (w ≡ 256) × (f ≡ udiv256_func)
unfolding callee
callee_udiv w f e = ground arith

callee_sdiv : (w : ℕ) (f : Callee) → callee w sdiv_op ≡ some f → (w ≡ 256) × (f ≡ sdiv256_func)
unfolding callee
callee_sdiv w f e = ground arith

callee_srem : (w : ℕ) (f : Callee) → callee w srem_op ≡ some f → (w ≡ 256) × (f ≡ srem256_func)
unfolding callee
callee_srem w f e = ground arith

callee_other : (w n : ℕ) (f : Callee) → callee w (other_op n) ≢ some f
unfolding callee
callee_other w n f e = ground arith

callee_mul :
    (w : ℕ) (f : Callee)
    → callee w mul_op ≡ some f
    → ((w ≡ 256) × (f ≡ mul256_func)) ⊎ ((w ≡ 128) × (f ≡ mul128_func))
unfolding callee
callee_mul w f e = ground arith

callee_urem :
    (w : ℕ) (f : Callee)
    → callee w urem_op ≡ some f
    → ((w ≡ 256) × (f ≡ urem256_func)) ⊎ ((w ≡ 512) × (f ≡ urem512_func))
unfolding callee
callee_urem w f e = ground arith

-- Guards that let a divisor through: it is not 0.
divisor_passed : (b x y : ℕ) → (if b == 0 then none else some x) ≡ some y → (0 < b) × (x ≡ y)
divisor_passed b x y e = ground arith

signed_passed :
    (b : ℕ) (other : Bool) (x y : ℕ)
    → (if b == 0 || other then none else some x) ≡ some y
    → (b ≢ 0) × (x ≡ y)
signed_passed b other x y e = ground arith

-- A call that replaces an instruction gives the number that LLVM defines for the instruction.
pub run_callee-llvm_value :
    (others : ℕ → ℕ → ℕ → ℕ → Option ℕ) (w : ℕ) (op : Opcode) (f : Callee) (a b n : ℕ)
    → callee w op ≡ some f
    → a < 2 ^ w
    → b < 2 ^ w
    → llvm_value others w op a b ≡ some n
    → run_callee f a b ≡ some n
unfolding run_callee
run_callee-llvm_value others w udiv_op f a b n c h k e =
    let q = callee_udiv w f c in
    let d = divisor_passed b (a / b) n e in
    ap (λ g. run_callee g a b) q.1
    ∙ udiv-quotient a b (subst (λ v. a < 2 ^ v) q.0 h) d.0
    ∙ ap some d.1
run_callee-llvm_value others w urem_op f a b n c h k e =
    let d = divisor_passed b (a % b) n e in
    elim (callee_urem w f c) [
      | inl q ↦
          ap (λ g. run_callee g a b) q.1
          ∙ urem-remainder 256 a b (subst (λ v. a < 2 ^ v) q.0 h) d.0
          ∙ ap some d.1
      | inr q ↦
          ap (λ g. run_callee g a b) q.1
          ∙ urem-remainder 512 a b (subst (λ v. a < 2 ^ v) q.0 h) d.0
          ∙ ap some d.1
    ]
run_callee-llvm_value others w sdiv_op f a b n c h k e =
    let q = callee_sdiv w f c in
    let d = signed_passed b _ _ n (subst (λ v. llvm_value others v sdiv_op a b ≡ some n) q.0 e) in
    ap (λ g. run_callee g a b) q.1
    ∙ sdiv-signed_div a b (subst (λ v. a < 2 ^ v) q.0 h) (subst (λ v. b < 2 ^ v) q.0 k) d.0
    ∙ ap some d.1
run_callee-llvm_value others w srem_op f a b n c h k e =
    let q = callee_srem w f c in
    let d = signed_passed b _ _ n (subst (λ v. llvm_value others v srem_op a b ≡ some n) q.0 e) in
    ap (λ g. run_callee g a b) q.1
    ∙ srem-signed_rem a b (subst (λ v. a < 2 ^ v) q.0 h) (subst (λ v. b < 2 ^ v) q.0 k) d.0
    ∙ ap some d.1
run_callee-llvm_value others w mul_op f a b n c h k e = elim (callee_mul w f c) [
  | inl q ↦
      ap (λ g. run_callee g a b) q.1
      ∙ ap some (mul256-product a b (subst (λ v. a < 2 ^ v) q.0 h) (subst (λ v. b < 2 ^ v) q.0 k))
      ∙ subst (λ v. llvm_value others v mul_op a b ≡ some n) q.0 e
  | inr q ↦
      ap (λ g. run_callee g a b) q.1
      ∙ ap some (mul128-product a b (subst (λ v. a < 2 ^ v) q.0 h) (subst (λ v. b < 2 ^ v) q.0 k))
      ∙ subst (λ v. llvm_value others v mul_op a b ≡ some n) q.0 e
]
run_callee-llvm_value others w (other_op m) f a b n c h k e = absurd (callee_other w m f c)

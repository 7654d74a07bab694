-- ===== src/Lift/Opcodes.antt =====
-- The cases of one or two operands against the EVM's opcodes.
use evmbt.Prelude.{ℕ, ◌<◌, ◌≢◌, ◌≡◌, ◌∙◌, sym, List, some, ◌==◌, if◌then◌else◌, arith}
use evmbt.Lift.Interface.{Builder, Semantics, SignedDivisor}
use evmbt.Lift.Cases.{
  widen, compile_add, compile_mul, compile_sub, compile_div, compile_sdiv, compile_mod,
  compile_smod, compile_lt, compile_gt, compile_slt, compile_sgt, compile_eq, compile_iszero,
  compile_and, compile_or, compile_xor, compile_not, compile_shl, compile_shr, compile_sar,
}
use evmbt.Lift.Defs.{
  add_ins, mul_ins, sub_ins, div_ins, sdiv_ins, mod_ins, smod_ins, lt_ins, gt_ins, slt_ins, sgt_ins,
  eq_ins, iszero_ins, and_ins, or_ins, xor_ins, not_ins, shl_ins, shr_ins, sar_ins,
}
use evmbt.Lift.Evm.{evm_value, TopTwo}
use evmbt.Lift.Denotes.{
  IsWord, Denotes, widen_words, two, one, two_always, or_zero_not, evm_shift_in,
}

module _ {Val : Type 0} {B : Builder Val} (S : Semantics B) where
  pub add-Denotes :
      (vs : List Val) (ws ws' : List ℕ)
      → Denotes S vs ws
      → evm_value add_ins ws ≡ some ws'
      → Denotes S (compile_add B vs) ws'
  unfolding compile_add evm_value
  add-Denotes vs ws ws' d e =
      two_always S (widen B B.add) _ vs ws ws'
        (λ l r a b p q. rw (widen_words S B.add l r a b p q) (S.add_lem l r 256 a b p q tt)) d e

  pub sub-Denotes :
      (vs : List Val) (ws ws' : List ℕ)
      → Denotes S vs ws
      → evm_value sub_ins ws ≡ some ws'
      → Denotes S (compile_sub B vs) ws'
  unfolding compile_sub evm_value
  sub-Denotes vs ws ws' d e =
      two_always S (widen B B.sub) _ vs ws ws'
        (λ l r a b p q. rw (widen_words S B.sub l r a b p q) (S.sub_lem l r 256 a b p q tt)) d e

  pub and-Denotes :
      (vs : List Val) (ws ws' : List ℕ)
      → Denotes S vs ws
      → evm_value and_ins ws ≡ some ws'
      → Denotes S (compile_and B vs) ws'
  unfolding compile_and evm_value
  and-Denotes vs ws ws' d e =
      two_always S (widen B B.and) _ vs ws ws'
        (λ l r a b p q. rw (widen_words S B.and l r a b p q) (S.and_lem l r 256 a b p q tt)) d e

  pub or-Denotes :
      (vs : List Val) (ws ws' : List ℕ)
      → Denotes S vs ws
      → evm_value or_ins ws ≡ some ws'
      → Denotes S (compile_or B vs) ws'
  unfolding compile_or evm_value
  or-Denotes vs ws ws' d e =
      two_always S (widen B B.or) _ vs ws ws'
        (λ l r a b p q. rw (widen_words S B.or l r a b p q) (S.or_lem l r 256 a b p q tt)) d e

  pub xor-Denotes :
      (vs : List Val) (ws ws' : List ℕ)
      → Denotes S vs ws
      → evm_value xor_ins ws ≡ some ws'
      → Denotes S (compile_xor B vs) ws'
  unfolding compile_xor evm_value
  xor-Denotes vs ws ws' d e =
      two_always S (widen B B.xor) _ vs ws ws'
        (λ l r a b p q. rw (widen_words S B.xor l r a b p q) (S.xor_lem l r 256 a b p q tt)) d e

  mul_words :
      (l r : Val) (a b : ℕ)
      → IsWord S l a
      → IsWord S r b
      → (if B.width l == B.width r
          then B.mul l r
          else let lhs = B.zext l 256 in B.mul lhs (B.zext lhs 256))
        ≡ B.mul l r
  mul_words l r a b p q =
      let same : B.width l ≡ B.width r = S.width_lem l 256 a p ∙ sym (S.width_lem r 256 b q) in
      ground (arith, same)

  pub mul-Denotes :
      (vs : List Val) (ws ws' : List ℕ)
      → Denotes S vs ws
      → evm_value mul_ins ws ≡ some ws'
      → Denotes S (compile_mul B vs) ws'
  unfolding compile_mul evm_value
  mul-Denotes vs ws ws' d e =
      two_always S
        (λ lhs rhs.
          if B.width lhs == B.width rhs
          then B.mul lhs rhs
          else let lhs' = B.zext lhs 256 in B.mul lhs' (B.zext lhs' 256))
        _ vs ws ws' (λ l r a b p q. rw (mul_words l r a b p q) (S.mul_lem l r 256 a b p q tt)) d e

  pub div-Denotes :
      (vs : List Val) (ws ws' : List ℕ)
      → Denotes S vs ws
      → evm_value div_ins ws ≡ some ws'
      → TopTwo (λ a b. b ≢ 0) ws
      → Denotes S (compile_div B vs) ws'
  unfolding compile_div evm_value
  div-Denotes vs ws ws' d e ok =
      two S (widen B B.udiv) _ (λ a b. b ≢ 0) vs ws ws'
        (λ l r a b p q ok.
          rw (widen_words S B.udiv l r a b p q, or_zero_not b _ ok) (S.udiv_lem l r 256 a b p q ok))
        d e ok

  pub mod-Denotes :
      (vs : List Val) (ws ws' : List ℕ)
      → Denotes S vs ws
      → evm_value mod_ins ws ≡ some ws'
      → TopTwo (λ a b. b ≢ 0) ws
      → Denotes S (compile_mod B vs) ws'
  unfolding compile_mod evm_value
  mod-Denotes vs ws ws' d e ok =
      two S (widen B B.urem) _ (λ a b. b ≢ 0) vs ws ws'
        (λ l r a b p q ok.
          rw (widen_words S B.urem l r a b p q, or_zero_not b _ ok) (S.urem_lem l r 256 a b p q ok))
        d e ok

  pub sdiv-Denotes :
      (vs : List Val) (ws ws' : List ℕ)
      → Denotes S vs ws
      → evm_value sdiv_ins ws ≡ some ws'
      → TopTwo (SignedDivisor 256) ws
      → Denotes S (compile_sdiv B vs) ws'
  unfolding compile_sdiv evm_value
  sdiv-Denotes vs ws ws' d e ok =
      two S (widen B B.sdiv) _ (SignedDivisor 256) vs ws ws'
        (λ l r a b p q ok.
          rw (widen_words S B.sdiv l r a b p q, or_zero_not b _ ok.0)
            (S.sdiv_lem l r 256 a b p q ok))
        d e ok

  pub smod-Denotes :
      (vs : List Val) (ws ws' : List ℕ)
      → Denotes S vs ws
      → evm_value smod_ins ws ≡ some ws'
      → TopTwo (SignedDivisor 256) ws
      → Denotes S (compile_smod B vs) ws'
  unfolding compile_smod evm_value
  smod-Denotes vs ws ws' d e ok =
      two S (widen B B.srem) _ (SignedDivisor 256) vs ws ws'
        (λ l r a b p q ok.
          rw (widen_words S B.srem l r a b p q, or_zero_not b _ ok.0)
            (S.srem_lem l r 256 a b p q ok))
        d e ok

  pub lt-Denotes :
      (vs : List Val) (ws ws' : List ℕ)
      → Denotes S vs ws
      → evm_value lt_ins ws ≡ some ws'
      → Denotes S (compile_lt B vs) ws'
  unfolding compile_lt evm_value
  lt-Denotes vs ws ws' d e =
      two_always S (λ lhs rhs. B.zext (widen B B.icmp_ult lhs rhs) 256) _ vs ws ws'
        (λ l r a b p q.
          rw (widen_words S B.icmp_ult l r a b p q)
            (S.zext_lem _ 1 256 _ (S.icmp_ult_lem l r 256 a b p q tt) (omega arith)))
        d e

  pub gt-Denotes :
      (vs : List Val) (ws ws' : List ℕ)
      → Denotes S vs ws
      → evm_value gt_ins ws ≡ some ws'
      → Denotes S (compile_gt B vs) ws'
  unfolding compile_gt evm_value
  gt-Denotes vs ws ws' d e =
      two_always S (λ lhs rhs. B.zext (widen B B.icmp_ugt lhs rhs) 256) _ vs ws ws'
        (λ l r a b p q.
          rw (widen_words S B.icmp_ugt l r a b p q)
            (S.zext_lem _ 1 256 _ (S.icmp_ugt_lem l r 256 a b p q tt) (omega arith)))
        d e

  pub slt-Denotes :
      (vs : List Val) (ws ws' : List ℕ)
      → Denotes S vs ws
      → evm_value slt_ins ws ≡ some ws'
      → Denotes S (compile_slt B vs) ws'
  unfolding compile_slt evm_value
  slt-Denotes vs ws ws' d e =
      two_always S (λ lhs rhs. B.zext (widen B B.icmp_slt lhs rhs) 256) _ vs ws ws'
        (λ l r a b p q.
          rw (widen_words S B.icmp_slt l r a b p q)
            (S.zext_lem _ 1 256 _ (S.icmp_slt_lem l r 256 a b p q tt) (omega arith)))
        d e

  pub sgt-Denotes :
      (vs : List Val) (ws ws' : List ℕ)
      → Denotes S vs ws
      → evm_value sgt_ins ws ≡ some ws'
      → Denotes S (compile_sgt B vs) ws'
  unfolding compile_sgt evm_value
  sgt-Denotes vs ws ws' d e =
      two_always S (λ lhs rhs. B.zext (widen B B.icmp_sgt lhs rhs) 256) _ vs ws ws'
        (λ l r a b p q.
          rw (widen_words S B.icmp_sgt l r a b p q)
            (S.zext_lem _ 1 256 _ (S.icmp_sgt_lem l r 256 a b p q tt) (omega arith)))
        d e

  pub eq-Denotes :
      (vs : List Val) (ws ws' : List ℕ)
      → Denotes S vs ws
      → evm_value eq_ins ws ≡ some ws'
      → Denotes S (compile_eq B vs) ws'
  unfolding compile_eq evm_value
  eq-Denotes vs ws ws' d e =
      two_always S (λ lhs rhs. B.zext (widen B B.icmp_eq lhs rhs) 256) _ vs ws ws'
        (λ l r a b p q.
          rw (widen_words S B.icmp_eq l r a b p q)
            (S.zext_lem _ 1 256 _ (S.icmp_eq_lem l r 256 a b p q tt) (omega arith)))
        d e

  pub shl-Denotes :
      (vs : List Val) (ws ws' : List ℕ)
      → Denotes S vs ws
      → evm_value shl_ins ws ≡ some ws'
      → TopTwo (λ s a. s < 256) ws
      → Denotes S (compile_shl B vs) ws'
  unfolding compile_shl evm_value
  shl-Denotes vs ws ws' d e ok =
      two S (λ shift value. B.shl value shift) _ (λ s a. s < 256) vs ws ws'
        (λ l r a b p q ok. rw (evm_shift_in a _ _ ok) (S.shl_lem r l 256 b a q p ok)) d e ok

  pub shr-Denotes :
      (vs : List Val) (ws ws' : List ℕ)
      → Denotes S vs ws
      → evm_value shr_ins ws ≡ some ws'
      → TopTwo (λ s a. s < 256) ws
      → Denotes S (compile_shr B vs) ws'
  unfolding compile_shr evm_value
  shr-Denotes vs ws ws' d e ok =
      two S (λ shift value. B.lshr value shift) _ (λ s a. s < 256) vs ws ws'
        (λ l r a b p q ok. rw (evm_shift_in a _ _ ok) (S.lshr_lem r l 256 b a q p ok)) d e ok

  pub sar-Denotes :
      (vs : List Val) (ws ws' : List ℕ)
      → Denotes S vs ws
      → evm_value sar_ins ws ≡ some ws'
      → TopTwo (λ s a. s < 256) ws
      → Denotes S (compile_sar B vs) ws'
  unfolding compile_sar evm_value
  sar-Denotes vs ws ws' d e ok =
      two S (λ shift value. B.ashr value shift) _ (λ s a. s < 256) vs ws ws'
        (λ l r a b p q ok. rw (evm_shift_in a _ _ ok) (S.ashr_lem r l 256 b a q p ok)) d e ok

  pub not-Denotes :
      (vs : List Val) (ws ws' : List ℕ)
      → Denotes S vs ws
      → evm_value not_ins ws ≡ some ws'
      → Denotes S (compile_not B vs) ws'
  unfolding compile_not evm_value
  not-Denotes vs ws ws' d e = one S B.not _ vs ws ws' (λ v a p. S.not_lem v 256 a p) d e

  pub iszero-Denotes :
      (vs : List Val) (ws ws' : List ℕ)
      → Denotes S vs ws
      → evm_value iszero_ins ws ≡ some ws'
      → Denotes S (compile_iszero B vs) ws'
  unfolding compile_iszero evm_value
  iszero-Denotes vs ws ws' d e =
      one S (λ v. B.zext (B.icmp_eq v (B.const (B.width v) 0)) 256) _ vs ws ws'
        (λ v a p. rw (S.width_lem v 256 a p) (
          S.zext_lem _ 1 256 _
            (S.icmp_eq_lem v (B.const 256 0) 256 a 0 p (S.const_lem 256 0 (omega arith)) tt)
            (omega arith)))
        d e

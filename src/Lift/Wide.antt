-- ===== src/Lift/Wide.antt =====
-- ADDMOD and MULMOD, which the compiler builds with 512-bit integers.
use native.Mathlib.Nat.{mod-eq_of_lt, mod-lt}
use evmbt.Prelude.{
  ℕ, ◌+◌, ◌*◌, ◌%◌, ◌^◌, ◌<◌, ◌≢◌, ◌≡◌, ◌∙◌, sym, subst, List, some, ◌==◌, if◌then◌else◌, arith,
}
use evmbt.Lift.Machine.{bit}
use evmbt.Lift.Interface.{Builder, Semantics}
use evmbt.Lift.Cases.{word, compile_addmod, compile_mulmod}
use evmbt.Lift.Defs.{addmod_ins, mulmod_ins}
use evmbt.Lift.Evm.{or_zero, evm_value, TopThree}
use evmbt.Lift.Denotes.{IsWord, Denotes, three, or_zero_not}

pick : (c n : ℕ) → c ≢ 0 → (if bit (c == 0) == 0 then n % c % 2 ^ 256 else 0) ≡ n % c % 2 ^ 256
pick c n h = ground arith

-- A product of two words has at most 512 bits.
wide_product : (a b : ℕ) → a < 2 ^ 256 → b < 2 ^ 256 → a * b < 2 ^ 512
wide_product a b h k = grind (arith, h, k)

module _ {Val : Type 0} {B : Builder Val} (S : Semantics B) where
  -- The end of ADDMOD and MULMOD: the remainder of a 512-bit number by a word.
  reduce :
      (x m : Val) (n c : ℕ)
      → S.Is x 512 n
      → IsWord S m c
      → c ≢ 0
      → IsWord S
          (B.select (B.icmp_eq m (word B 0)) (word B 0) (B.trunc (B.urem x (B.zext m 512)) 256))
          (or_zero c (n % c))
  reduce x m n c p q ok =
      let zero_is : S.Is (word B 0) 256 0 = S.const_lem 256 0 (omega arith) in
      let positive : 0 < c = omega arith in
      let small : n % c < 2 ^ 256 = omega (arith, mod-lt n positive, S.bound m 256 c q) in
      let test : S.Is (B.icmp_eq m (word B 0)) 1 (bit (c == 0)) =
        S.icmp_eq_lem m (word B 0) 256 c 0 q zero_is tt in
      let rem : S.Is (B.urem x (B.zext m 512)) 512 (n % c) =
        S.urem_lem x (B.zext m 512) 512 n c p (S.zext_lem m 256 512 c q (omega arith)) ok in
      let low = S.trunc_lem _ 512 256 (n % c) rem (omega arith) in
      let picked = S.select_lem _ _ _ 256 (bit (c == 0)) 0 _ test zero_is low in
      let same : (if bit (c == 0) == 0 then n % c % 2 ^ 256 else 0) ≡ or_zero c (n % c) =
        pick c n ok ∙ mod-eq_of_lt small ∙ sym (or_zero_not c (n % c) ok) in
      let low_word = B.trunc (B.urem x (B.zext m 512)) 256 in
      subst (λ k. IsWord S (B.select (B.icmp_eq m (word B 0)) (word B 0) low_word) k) same picked

  pub addmod-Denotes :
      (vs : List Val) (ws ws' : List ℕ)
      → Denotes S vs ws
      → evm_value addmod_ins ws ≡ some ws'
      → TopThree (λ a b m. m ≢ 0) ws
      → Denotes S (compile_addmod B vs) ws'
  unfolding compile_addmod evm_value
  addmod-Denotes vs ws ws' d e ok =
      three S
        (λ a b m.
          let div_by_zero = B.icmp_eq m (word B 0) in
          let result = B.urem (B.nuw_add (B.zext a 512) (B.zext b 512)) (B.zext m 512) in
          B.select div_by_zero (word B 0) (B.trunc result 256))
        _ (λ a b m. m ≢ 0) vs ws ws'
        (λ u v x a b c p q r ok.
          reduce _ x (a + b) c
            (S.nuw_add_lem _ _ 512 a b (S.zext_lem u 256 512 a p (omega arith))
              (S.zext_lem v 256 512 b q (omega arith))
              (omega (arith, S.bound u 256 a p, S.bound v 256 b q)))
            r ok)
        d e ok

  pub mulmod-Denotes :
      (vs : List Val) (ws ws' : List ℕ)
      → Denotes S vs ws
      → evm_value mulmod_ins ws ≡ some ws'
      → TopThree (λ a b m. m ≢ 0) ws
      → Denotes S (compile_mulmod B vs) ws'
  unfolding compile_mulmod evm_value
  mulmod-Denotes vs ws ws' d e ok =
      three S
        (λ a b m.
          let div_by_zero = B.icmp_eq m (word B 0) in
          let result = B.urem (B.nuw_mul (B.zext a 512) (B.zext b 512)) (B.zext m 512) in
          B.select div_by_zero (word B 0) (B.trunc result 256))
        _ (λ a b m. m ≢ 0) vs ws ws'
        (λ u v x a b c p q r ok.
          reduce _ x (a * b) c
            (S.nuw_mul_lem _ _ 512 a b (S.zext_lem u 256 512 a p (omega arith))
              (S.zext_lem v 256 512 b q (omega arith))
              (wide_product a b (S.bound u 256 a p) (S.bound v 256 b q)))
            r ok)
        d e ok

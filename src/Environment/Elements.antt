-- ===== src/Environment/Elements.antt =====
-- The elements of `Data` in the emitted byte swap `solidity.bswapi256`.
use evmbt.Prelude.{
  ℕ, zero, suc, ◌+◌, ◌-◌, ◌*◌, ◌/◌, ◌%◌, ◌^◌, ◌<◌, ◌≤◌, ◌≡◌, ◌∙◌, sym, ap, subst, ltb, ◌==◌,
  Bool-cases, inl, inr, eq_of_beq, ne_of_beq, arith,
}
use evmbt.Words.{one-le_pow, pow_mono, pow_add}
use evmbt.Words.Bits.{and_field}
use evmbt.Words.Fields.{field_wrap, shift_back, shift_twice}
use evmbt.Lift.Interface.{Builder, Semantics}
use evmbt.Environment.Mirror.{byte}
use evmbt.Environment.Defs.{swap_data}

module _ {Val : Type 0} {B : Builder Val} (S : Semantics B) (arg : Val) (n : ℕ)
    (d : S.Is arg 256 n) where
  shifted_left :
      (i : ℕ)
      → i < 16
      → S.Is (B.shl arg (B.const 256 (248 - i * 16))) 256 (n * 2 ^ (248 - i * 16) % 2 ^ 256)
  shifted_left i h =
      S.shl_lem arg (B.const 256 (248 - i * 16)) 256 n (248 - i * 16) d
        (S.const_lem 256 (248 - i * 16) (omega arith)) (omega arith)

  shifted_right :
      (i : ℕ)
      → 16 ≤ i
      → i < 32
      → S.Is (B.lshr arg (B.const 256 (i * 16 - 248))) 256 (n / 2 ^ (i * 16 - 248))
  shifted_right i h k =
      S.lshr_lem arg (B.const 256 (i * 16 - 248)) 256 n (i * 16 - 248) d
        (S.const_lem 256 (i * 16 - 248) (omega arith)) (omega arith)

  -- The mask of `Data[I]` picks the byte `I`.
  masked :
      (i m : ℕ) (v : Val)
      → i < 32
      → S.Is v 256 m
      → m / 2 ^ ((31 - i) * 8) % 2 ^ 8 ≡ byte i n
      → S.Is (B.and v (B.const 256 (0xff * 2 ^ ((31 - i) * 8)))) 256 (byte i n * 2 ^ ((31 - i) * 8))
  masked i m v h e f =
      let s = (31 - i) * 8 in
      let fits : 0xff * 2 ^ s < 2 ^ 256 =
        omega (arith, pow_add 8 s, pow_mono (8 + s) 256 (omega arith), one-le_pow s) in
      subst (λ k. S.Is (B.and v (B.const 256 (0xff * 2 ^ s))) 256 k)
        (and_field s 8 m ∙ ap (λ k. k * 2 ^ s) f)
        (S.and_lem v (B.const 256 (0xff * 2 ^ s)) 256 m (0xff * 2 ^ s) e
          (S.const_lem 256 (0xff * 2 ^ s) fits) tt)

  swap_data_left :
      (i : ℕ)
      → 0 < i
      → i < 16
      → swap_data B arg i
        ≡ B.and (B.shl arg (B.const 256 (248 - i * 16))) (B.const 256 (0xff * 2 ^ ((31 - i) * 8)))
  swap_data_left i h k = ground arith

  swap_data_right :
      (i : ℕ)
      → 16 ≤ i
      → i < 31
      → swap_data B arg i
        ≡ B.and (B.lshr arg (B.const 256 (i * 16 - 248))) (B.const 256 (0xff * 2 ^ ((31 - i) * 8)))
  swap_data_right i h k = ground arith

  -- `Data[I]` is the byte `I` at its mirror's place.
  pub swap_data-byte :
      (i : ℕ) → i < 32 → S.Is (swap_data B arg i) 256 (byte i n * 2 ^ ((31 - i) * 8))
  swap_data-byte zero h =
      subst (λ k. S.Is (swap_data B arg 0) 256 k) {x = n * 2 ^ 248 % 2 ^ 256} (omega arith)
        (shifted_left 0 (omega arith))
  swap_data-byte (suc j) h = elim (Bool-cases (ltb (suc j) 16)) [
    | inl lt ↦
        let i = suc j in
        let t = 248 - i * 16 in
        let low : i < 16 = ground arith in
        let place : (31 - i) * 8 ≡ i * 8 + t = omega arith in
        let value =
          field_wrap (n * 2 ^ t) ((31 - i) * 8) 8 256 (omega arith)
          ∙ ap (λ k. n * 2 ^ t / 2 ^ k % 2 ^ 8) place
          ∙ ap (λ k. k % 2 ^ 8) (shift_back n t (i * 8)) in
        subst (λ v. S.Is v 256 (byte i n * 2 ^ ((31 - i) * 8)))
          (sym (swap_data_left i (omega arith) low))
          (masked i (n * 2 ^ t % 2 ^ 256) _ h (shifted_left i low) value)
    | inr ge ↦
        let high : 16 ≤ suc j = ground arith in
        elim (Bool-cases (suc j == 31)) [
          | inl last ↦
              let e : suc j ≡ 31 = eq_of_beq (suc j) 31 last in
              subst (λ i. S.Is (swap_data B arg i) 256 (byte i n * 2 ^ ((31 - i) * 8))) (sym e)
                (subst (λ k. S.Is (swap_data B arg 31) 256 k) {x = n / 2 ^ 248}
                  (omega (arith, S.bound arg 256 n d))
                  (shifted_right 31 (omega arith) (omega arith)))
          | inr inner ↦
              let i = suc j in
              let t = i * 16 - 248 in
              let ne = ne_of_beq i 31 inner in
              let below : i < 31 = omega (arith, h) in
              let place : t + (31 - i) * 8 ≡ i * 8 = omega arith in
              let value =
                ap (λ k. k % 2 ^ 8) (shift_twice n t ((31 - i) * 8))
                ∙ ap (λ k. n / 2 ^ k % 2 ^ 8) place in
              subst (λ v. S.Is v 256 (byte i n * 2 ^ ((31 - i) * 8)))
                (sym (swap_data_right i high below))
                (masked i (n / 2 ^ t) _ h (shifted_right i high h) value)
        ]
  ]

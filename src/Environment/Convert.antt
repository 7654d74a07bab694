-- ===== src/Environment/Convert.antt =====
-- `emitEndianConvert` of a value of any number of bytes.
use native.Mathlib.Nat.{mod-eq_of_lt}
use evmbt.Prelude.{
  ℕ, suc, ◌+◌, ◌-◌, ◌==◌, Bool-cases, eq_of_beq, ne_of_beq, ◌≤◌, ◌*◌, ◌%◌, ◌^◌, ◌<◌, ◌≡◌, ◌∙◌, sym,
  ap, subst, none, some, inl, inr, arith,
}
use evmbt.Words.{one-le_pow, pow_add}
use evmbt.Lift.Interface.{Builder, Semantics}
use evmbt.Environment.Defs.{Eei, bswap256, emit_endian_convert}
use evmbt.Environment.Mirror.{mirrored, mirrored-lt, mirrored_padded}
use evmbt.Environment.Reverse.{bswap256-mirrored}

module _ {Val : Type 0} {B : Builder Val} (S : Semantics B) (E : Eei Val) where
  -- The conversion of a value that is no constant, of fewer bytes than a word or of as many.
  convert_narrow :
      (v : Val) (w : ℕ)
      → B.width v ≡ w
      → w < 256
      → E.swapped_constant v ≡ none
      → emit_endian_convert B E v
        ≡ some (B.trunc (bswap256 B (B.shl (B.zext v 256) (B.const 256 (256 - w)))) w)
  unfolding emit_endian_convert
  convert_narrow v w h l e = ground arith

  convert_word :
      (v : Val)
      → B.width v ≡ 256
      → E.swapped_constant v ≡ none
      → emit_endian_convert B E v ≡ some (B.trunc (bswap256 B (B.zext v 256)) 256)
  unfolding emit_endian_convert
  convert_word v h e = ground arith

  -- A value of `k` bytes that is placed at the upper end of a word, and converted there.
  placed-mirrored :
      (placed : Val) (k n : ℕ)
      → 0 < k
      → k ≤ 32
      → S.Is placed 256 (n * 2 ^ ((32 - k) * 8))
      → S.Is (B.trunc (bswap256 B placed) (k * 8)) (k * 8) (mirrored (k - 1) k n)
  placed-mirrored placed k n p h d =
      let m = n * 2 ^ ((32 - k) * 8) in
      let whole : 32 - k + k ≡ 32 = omega arith in
      let none_below : 2 ^ ((suc (k - 1) - k) * 8) ≡ 2 ^ 0 =
        ap (λ j. 2 ^ j) {x = (suc (k - 1) - k) * 8} {y = 0} (omega arith) in
      let room : 2 ^ (suc (k - 1) * 8) ≡ 2 ^ (k * 8) = ap (λ j. 2 ^ j) (omega arith) in
      let small : mirrored (k - 1) k n < 2 ^ (k * 8) =
        omega (arith, mirrored-lt (k - 1) k n (omega arith), none_below, room) in
      let value : mirrored 31 32 m % 2 ^ (k * 8) ≡ mirrored (k - 1) k n =
        ap (λ j. mirrored 31 j m % 2 ^ (k * 8)) (sym whole)
        ∙ ap (λ j. j % 2 ^ (k * 8)) (mirrored_padded (32 - k) k k n whole (omega arith))
        ∙ mod-eq_of_lt small in
      subst (λ j. S.Is (B.trunc (bswap256 B placed) (k * 8)) (k * 8) j) value
        (S.trunc_lem (bswap256 B placed) 256 (k * 8) (mirrored 31 32 m)
          (bswap256-mirrored S placed m d) (omega arith))

  shifted-Is :
      (v : Val) (k n : ℕ)
      → 0 < k
      → k < 32
      → S.Is v (k * 8) n
      → S.Is (B.shl (B.zext v 256) (B.const 256 (256 - k * 8))) 256 (n * 2 ^ ((32 - k) * 8))
  shifted-Is v k n p h d =
      let t = 256 - k * 8 in
      let all : 2 ^ (k * 8) * 2 ^ t ≡ 2 ^ 256 =
        sym (pow_add (k * 8) t) ∙ ap (λ j. 2 ^ j) {x = k * 8 + t} {y = 256} (omega arith) in
      let fits : n * 2 ^ t < 2 ^ 256 = grind (arith, S.bound v (k * 8) n d, all, one-le_pow t) in
      let value : n * 2 ^ t % 2 ^ 256 ≡ n * 2 ^ ((32 - k) * 8) =
        mod-eq_of_lt fits ∙ ap (λ j. n * 2 ^ j) {x = t} {y = (32 - k) * 8} (omega arith) in
      subst (λ j. S.Is (B.shl (B.zext v 256) (B.const 256 t)) 256 j) value
        (S.shl_lem (B.zext v 256) (B.const 256 t) 256 n t
          (S.zext_lem v (k * 8) 256 n d (omega arith)) (S.const_lem 256 t (omega arith))
          (omega arith))

  -- The conversion of a value of `k` bytes that is no constant, of at most as many as a word has,
  -- gives the value with its bytes in the opposite order.
  pub emit_endian_convert-mirrored :
      (v : Val) (k n : ℕ)
      → E.swapped_constant v ≡ none
      → 0 < k
      → k ≤ 32
      → S.Is v (k * 8) n
      → (v' : Val) × (emit_endian_convert B E v ≡ some v') × S.Is v' (k * 8) (mirrored (k - 1) k n)
  emit_endian_convert-mirrored v k n e p h d = elim (Bool-cases (k == 32)) [
    | inl whole ↦
        let w : k ≡ 32 = eq_of_beq k 32 whole in
        let word : S.Is v 256 n = subst (λ j. S.Is v (j * 8) n) w d in
        let placed : S.Is (B.zext v 256) 256 (n * 2 ^ ((32 - 32) * 8)) =
          subst (λ j. S.Is (B.zext v 256) 256 j) {x = n} (omega arith)
            (S.zext_lem v 256 256 n word (omega arith)) in
        (
          _,
          convert_word v (S.width_lem v 256 n word) e,
          subst (λ j. S.Is (B.trunc (bswap256 B (B.zext v 256)) 256) (j * 8) (mirrored (j - 1) j n))
              (sym w) (placed-mirrored (B.zext v 256) 32 n (omega arith) (omega arith) placed),
        )
    | inr part ↦
        let less : k < 32 = omega (arith, ne_of_beq k 32 part) in
        (
          _,
          convert_narrow v (k * 8) (S.width_lem v (k * 8) n d) (omega arith) e,
          placed-mirrored _ k n p h (shifted-Is v k n p less d),
        )
  ]

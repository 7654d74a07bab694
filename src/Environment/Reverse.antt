-- ===== src/Environment/Reverse.antt =====
-- The emitted byte swap and `emitEndianConvert` against the reversal of a number's bytes.
use Prim.Native.Nat.{bit_or}
use evmbt.Prelude.{ℕ, zero, suc, ◌+◌, ◌-◌, ◌*◌, ◌^◌, ◌<◌, ◌≤◌, ◌≡◌, ◌∙◌, sym, ap, subst, arith}
use evmbt.Words.Bits.{or_disjoint}
use evmbt.Lift.Interface.{Builder, Semantics}
use evmbt.Environment.Defs.{swap_data, swap_loop, bswap256}
use evmbt.Environment.Mirror.{byte, mirrored, mirrored-multiple, mirrored_twice, byte_fits}
use evmbt.Environment.Elements.{swap_data-byte}

-- One more byte below the others.
or_mirrored :
    (i n : ℕ)
    → i < 32
    → bit_or (mirrored 31 i n) (byte i n * 2 ^ ((31 - i) * 8)) ≡ mirrored 31 (suc i) n
or_mirrored i n h =
    let before = mirrored-multiple 31 i n (omega arith) in
    let s = 31 - i in
    let place : (32 - i) * 8 ≡ s * 8 + 8 = omega arith in
    let multiple : mirrored 31 i n ≡ before.0 * 2 ^ (s * 8 + 8) =
      before.1 ∙ ap (λ k. before.0 * 2 ^ k) place in
    ap (λ k. bit_or k (byte i n * 2 ^ (s * 8))) multiple
    ∙ or_disjoint (s * 8 + 8) before.0 (byte i n * 2 ^ (s * 8)) (byte_fits s i n)
    ∙ ap (λ k. k + byte i n * 2 ^ (s * 8)) (sym multiple)

module _ {Val : Type 0} {B : Builder Val} (S : Semantics B) where
  or-mirrored :
      (arg v : Val) (n i : ℕ)
      → S.Is arg 256 n
      → i < 32
      → S.Is v 256 (mirrored 31 i n)
      → S.Is (B.or v (swap_data B arg i)) 256 (mirrored 31 (suc i) n)
  or-mirrored arg v n i d h e =
      subst (λ k. S.Is (B.or v (swap_data B arg i)) 256 k) (or_mirrored i n h)
        (S.or_lem v (swap_data B arg i) 256 (mirrored 31 i n) (byte i n * 2 ^ ((31 - i) * 8)) e
          (swap_data-byte S arg n d i h) tt)

  swap_loop-mirrored :
      (arg v : Val) (n k i : ℕ)
      → S.Is arg 256 n
      → i + k ≤ 32
      → S.Is v 256 (mirrored 31 i n)
      → S.Is (swap_loop B arg k i v) 256 (mirrored 31 (i + k) n)
  unfolding swap_loop
  swap_loop-mirrored arg v n zero i d h e =
      subst (λ j. S.Is v 256 (mirrored 31 j n)) {x = i} (omega arith) e
  swap_loop-mirrored arg v n (suc k) i d h e =
      subst
        (λ j. S.Is (swap_loop B arg k (i + 1) (B.or v (swap_data B arg i))) 256 (mirrored 31 j n))
        {x = i + 1 + k} (omega arith)
        (swap_loop-mirrored arg (B.or v (swap_data B arg i)) n k (i + 1) d (omega arith) (
          subst (λ j. S.Is (B.or v (swap_data B arg i)) 256 (mirrored 31 j n)) {x = suc i}
            (omega arith) (or-mirrored arg v n i d (omega arith) e)))

  -- The emitted byte swap of a word gives the word with its 32 bytes in the opposite order.
  pub bswap256-mirrored :
      (arg : Val) (n : ℕ) → S.Is arg 256 n → S.Is (bswap256 B arg) 256 (mirrored 31 32 n)
  unfolding bswap256
  bswap256-mirrored arg n d =
      let first : S.Is (swap_data B arg 0) 256 (mirrored 31 1 n) =
        subst (λ k. S.Is (swap_data B arg 0) 256 k) {x = byte 0 n * 2 ^ ((31 - 0) * 8)}
          (omega arith) (swap_data-byte S arg n d 0 (omega arith)) in
      swap_loop-mirrored arg _ n 30 2 d (omega arith) (or-mirrored arg _ n 1 d (omega arith) first)

  -- The emitted byte swap of a swapped word gives the word back.
  pub bswap256-twice :
      (arg : Val) (n : ℕ) → S.Is arg 256 n → S.Is (bswap256 B (bswap256 B arg)) 256 n
  bswap256-twice arg n d =
      subst (λ k. S.Is (bswap256 B (bswap256 B arg)) 256 k)
        (mirrored_twice 31 n (S.bound arg 256 n d))
        (bswap256-mirrored (bswap256 B arg) (mirrored 31 32 n) (bswap256-mirrored arg n d))

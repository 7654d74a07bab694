-- ===== src/Division/Defs.antt =====
-- The functions `wasm.ctlz`, `evm.udivrem`, `evm.udiv`, `evm.urem`, `evm.sdivrem`, `evm.sdiv` and
-- `evm.srem` that evmtrans/Arith256.cpp emits, on words of `w` bits: 256, and 512 for `evm.urem`.
use evmbt.Prelude.{
  ℕ, zero, suc, ◌/◌, Bool, not, Option, none, some, leb, ◌==◌, ◌>>=◌, if◌then◌else◌,
}
use Prim.Native.Nat.{bit_or}
use evmbt.Lift.Machine.{signed_lt}
use evmbt.Words.{add_word, sub_word, nuw_sub, shl_word}

-- The loop of `createCTLZFunc`, with its phis: `t` loses a bit in each round, `c` counts them.
unfoldable pub ctlz_loop : ℕ → ℕ → ℕ → ℕ → Option ℕ
ctlz_loop w zero t c = none
ctlz_loop w (suc fuel) t c =
    let rest = ctlz_loop w fuel (t / 2) (add_word w c 1) in
    if t == 0 then some (sub_word w w c) else rest

-- `createCTLZFunc`
unfoldable pub ctlz : ℕ → ℕ → Option ℕ
unfolding ctlz_loop
ctlz w x = ctlz_loop w (suc w) x 0

-- The blocks `beforeloopY` and `LoopY`: `y` is shifted to the left as often as `i` says.
unfoldable pub shift_loop : ℕ → ℕ → ℕ → ℕ → Option ℕ
shift_loop w zero i y = none
shift_loop w (suc fuel) i y =
    let rest = shift_loop w fuel (sub_word w i 1) (shl_word w y 1) in
    if i == 0 then some y else rest

-- The blocks `Loop` and `Continue`: one bit of the quotient for each round. `select` reads the
-- difference only where it does not wrap.
unfoldable pub div_loop : ℕ → ℕ → ℕ → ℕ → ℕ → ℕ → Option (ℕ × ℕ)
div_loop w zero y r i q = none
div_loop w (suc fuel) y r i q = do
  r1 ← if leb y r then nuw_sub r y else some r
  let q1 = if leb y r then bit_or q 1 else q
  let rest = (do i2 ← nuw_sub i 1; div_loop w fuel (y / 2) r1 i2 (shl_word w q1 1))
  if i == 0 then some (q1, r1) else rest

-- `createUDivRemFunc`
unfoldable pub udivrem : ℕ → ℕ → ℕ → Option (ℕ × ℕ)
unfolding ctlz shift_loop div_loop
udivrem w x y =
    if leb y x
    then (do
      y_lz ← ctlz w y
      r_lz ← ctlz w x
      i0 ← nuw_sub y_lz r_lz
      y0 ← shift_loop w (suc w) i0 y
      div_loop w (suc w) y0 x i0 0)
    else some (0, x)

-- `getUDiv256Func` and `createURemFunc`: one field of the pair.
unfoldable pub udiv : ℕ → ℕ → Option ℕ
unfolding udivrem
udiv x y = do pair ← udivrem 256 x y; some pair.0

unfoldable pub urem : ℕ → ℕ → ℕ → Option ℕ
unfolding udivrem
urem w x y = do pair ← udivrem w x y; some pair.1

-- The operands and the results of `getSDivRem256Func`, by the signs.
unfoldable pub absolute : Bool → ℕ → ℕ
absolute is_neg n = if is_neg then sub_word 256 0 n else n

unfoldable pub with_signs : Bool → Bool → ℕ × ℕ → ℕ × ℕ
with_signs x_is_neg y_is_neg res =
    let r = if x_is_neg then sub_word 256 0 res.1 else res.1 in
    let opposite = if x_is_neg then not y_is_neg else y_is_neg in
    let q = if opposite then sub_word 256 0 res.0 else res.0 in (q, r)

-- `getSDivRem256Func`: the division of the magnitudes, with the signs put back.
unfoldable pub sdivrem : ℕ → ℕ → Option (ℕ × ℕ)
unfolding udivrem absolute with_signs
sdivrem x y =
    let x_is_neg = signed_lt 256 x 0 in
    let y_is_neg = signed_lt 256 y 0 in
    do
      res ← udivrem 256 (absolute x_is_neg x) (absolute y_is_neg y)
      some (with_signs x_is_neg y_is_neg res)

-- `getSDiv256Func` and `getSRem256Func`
unfoldable pub sdiv : ℕ → ℕ → Option ℕ
unfolding sdivrem
sdiv x y = do pair ← sdivrem x y; some pair.0

unfoldable pub srem : ℕ → ℕ → Option ℕ
unfolding sdivrem
srem x y = do pair ← sdivrem x y; some pair.1

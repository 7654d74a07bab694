-- ===== src/Product/Defs.antt =====
-- The body of `getMulFunc` for words of `4 * h` bits: 256, with `h` 64, and 128, with `h` 32.
use Prim.Native.Nat.{bit_and}
use evmbt.Prelude.{ℕ, ◌-◌, ◌*◌, ◌/◌, ◌%◌, ◌^◌}
use evmbt.Words.{add_word, mul_word, shl_word}

unfoldable pub mul_func : ℕ → ℕ → ℕ → ℕ
mul_func h lhs rhs =
    let hi_ty = 4 * h in
    let lo_ty = 2 * h in
    let half_mask = 2 ^ h - 1 in
    let lhs_l = lhs % 2 ^ lo_ty in
    let lhs_h = lhs / 2 ^ lo_ty % 2 ^ lo_ty in
    let rhs_l = rhs % 2 ^ lo_ty in
    let rhs_h = rhs / 2 ^ lo_ty % 2 ^ lo_ty in
    let lhs_ll = bit_and lhs_l half_mask in
    let rhs_ll = bit_and rhs_l half_mask in
    let t = mul_word lo_ty lhs_ll rhs_ll in
    let t_l = bit_and t half_mask in
    let t_h = t / 2 ^ h in
    let lhs_lh = lhs_l / 2 ^ h in
    let rhs_lh = rhs_l / 2 ^ h in
    let u = add_word lo_ty (mul_word lo_ty lhs_lh rhs_ll) t_h in
    let u_l = bit_and u half_mask in
    let u_h = u / 2 ^ h in
    let v = add_word lo_ty (mul_word lo_ty lhs_ll rhs_lh) u_l in
    let v_h = v / 2 ^ h in
    let w = add_word lo_ty (mul_word lo_ty lhs_lh rhs_lh) (add_word lo_ty u_h v_h) in
    let o_l = add_word lo_ty t_l (shl_word lo_ty v h) in
    let o_h =
      add_word lo_ty w (add_word lo_ty (mul_word lo_ty rhs_h lhs_l) (mul_word lo_ty rhs_l lhs_h)) in
    add_word hi_ty o_l (shl_word hi_ty o_h lo_ty)

-- `getMul256Func` and `getMul128Func`
unfoldable pub mul256 : ℕ → ℕ → ℕ
unfolding mul_func
mul256 lhs rhs = mul_func 64 lhs rhs

unfoldable pub mul128 : ℕ → ℕ → ℕ
unfolding mul_func
mul128 lhs rhs = mul_func 32 lhs rhs

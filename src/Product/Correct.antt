-- ===== src/Product/Correct.antt =====
-- The emitted product against the product modulo the width's power.
use Prim.Native.Nat.{bit_and}
use native.Mathlib.Nat.{
  div-lt_iff_lt-mul, mod-add-div', mod-lt, mod-eq_of_lt, mul-add-mod_self_left,
  add-mul-mod_self_left, mod-mod, add-mod, add-mod-mod,
}
use evmbt.Words.{add_word, mul_word, shl_word, one-le_pow, pow_add}
use evmbt.Words.Bits.{and_low}
use evmbt.Prelude.{ℕ, ◌+◌, ◌-◌, ◌*◌, ◌/◌, ◌%◌, ◌^◌, ◌≡◌, ◌<◌, ◌∙◌, refl, sym, ap, arith}
use evmbt.Product.Defs.{mul_func, mul256, mul128}

expand :
    (b a0 a1 b0 b1 : ℕ)
    → (a1 * b + a0) * (b1 * b + b0) ≡ a1 * b1 * (b * b) + (a1 * b0 * b + a0 * b1 * b) + a0 * b0
expand b a0 a1 b0 b1 = grind arith

-- The digits of a product of two numbers of two digits in base `b`.
low_product :
    (b a0 a1 b0 b1 th tl uh ul vh vl : ℕ)
    → a0 * b0 ≡ th * b + tl
    → a1 * b0 + th ≡ uh * b + ul
    → a0 * b1 + ul ≡ vh * b + vl
    → (a1 * b + a0) * (b1 * b + b0) ≡ (a1 * b1 + (uh + vh)) * (b * b) + (vl * b + tl)
low_product b a0 a1 b0 b1 th tl uh ul vh vl t u v =
    grind (arith, expand b a0 a1 b0 b1, ap (λ (n : ℕ). n * b) u, ap (λ (n : ℕ). n * b) v)

fits : (b x y z : ℕ) → x < b → y < b → z < b → x * y + z < b * b
fits b x y z h k l = grind arith

two_digits : (b x z : ℕ) → x < b → z < b → x * b + z < b * b
two_digits b x z h k = grind arith

quotient_fits : (b n : ℕ) → 0 < b → n < b * b → n / b < b
quotient_fits b n h k = (div-lt_iff_lt-mul h).1 k

square : (n : ℕ) → 2 ^ (2 * n) ≡ 2 ^ n * 2 ^ n
square n = ap (λ k. 2 ^ k) {y = n + n} (omega arith) ∙ pow_add n n

mod_scale : (b v : ℕ) → 0 < b → v * b % (b * b) ≡ v % b * b
mod_scale b v h =
    let small : v % b * b < b * b = grind (arith, mod-lt v h) in
    let split : v * b ≡ b * b * (v / b) + v % b * b =
      grind (arith, ap (λ (n : ℕ). n * b) (mod-add-div' v b)) in
    ap (λ n. n % (b * b)) split
    ∙ mul-add-mod_self_left (b * b) (v / b) (v % b * b)
    ∙ mod-eq_of_lt small

mul_word_small : (h x y : ℕ) → x < 2 ^ h → y < 2 ^ h → mul_word (2 * h) x y ≡ x * y
mul_word_small h x y k l =
    let small : x * y < 2 ^ (2 * h) =
      omega (arith, fits (2 ^ h) x y 0 k l (one-le_pow h), square h) in
    mod-eq_of_lt small

mul_add_small :
    (h x y z : ℕ)
    → x < 2 ^ h
    → y < 2 ^ h
    → z < 2 ^ h
    → add_word (2 * h) (mul_word (2 * h) x y) z ≡ x * y + z
mul_add_small h x y z k l j =
    let small : x * y + z < 2 ^ (2 * h) = omega (arith, fits (2 ^ h) x y z k l j, square h) in
    ap (λ n. add_word (2 * h) n z) (mul_word_small h x y k l) ∙ mod-eq_of_lt small

-- The instructions up to `o_l`, with their results: no sum of them wraps but `w`'s and the shift.
low_halves :
    (h l r ll rl t tl u ul v ol : ℕ)
    → l < 2 ^ (2 * h)
    → r < 2 ^ (2 * h)
    → ll ≡ bit_and l (2 ^ h - 1)
    → rl ≡ bit_and r (2 ^ h - 1)
    → t ≡ mul_word (2 * h) ll rl
    → tl ≡ bit_and t (2 ^ h - 1)
    → u ≡ add_word (2 * h) (mul_word (2 * h) (l / 2 ^ h) rl) (t / 2 ^ h)
    → ul ≡ bit_and u (2 ^ h - 1)
    → v ≡ add_word (2 * h) (mul_word (2 * h) ll (r / 2 ^ h)) ul
    → ol ≡ add_word (2 * h) tl (shl_word (2 * h) v h)
    → (l * r ≡ (l / 2 ^ h * (r / 2 ^ h) + (u / 2 ^ h + v / 2 ^ h)) * 2 ^ (2 * h) + ol)
      × (ol < 2 ^ (2 * h))
low_halves h l r ll rl t tl u ul v ol kl kr e1 e2 e3 e4 e5 e6 e7 e8 =
    let b = 2 ^ h in
    let p : 0 < b = one-le_pow h in
    let sq : 2 ^ (2 * h) ≡ b * b = square h in
    let ll_mod : ll ≡ l % b = e1 ∙ and_low h l in
    let rl_mod : rl ≡ r % b = e2 ∙ and_low h r in
    let tl_mod : tl ≡ t % b = e4 ∙ and_low h t in
    let ul_mod : ul ≡ u % b = e6 ∙ and_low h u in
    let ll_fits : ll < b = omega (arith, mod-lt l p) in
    let rl_fits : rl < b = omega (arith, mod-lt r p) in
    let ul_fits : ul < b = omega (arith, mod-lt u p) in
    let lh_fits : l / b < b = quotient_fits b l p (omega arith) in
    let rh_fits : r / b < b = quotient_fits b r p (omega arith) in
    let t_is : t ≡ ll * rl = e3 ∙ mul_word_small h ll rl ll_fits rl_fits in
    let th_fits : t / b < b =
      quotient_fits b t p (omega (arith, fits b ll rl 0 ll_fits rl_fits p)) in
    let u_is : u ≡ l / b * rl + t / b =
      e5 ∙ mul_add_small h (l / b) rl (t / b) lh_fits rl_fits th_fits in
    let v_is : v ≡ ll * (r / b) + ul = e7 ∙ mul_add_small h ll (r / b) ul ll_fits rh_fits ul_fits in
    let tl_fits : tl < b = omega (arith, mod-lt t p) in
    let ol_fits : v % b * b + tl < b * b = two_digits b (v % b) tl (mod-lt v p) tl_fits in
    let shift : shl_word (2 * h) v h ≡ v % b * b = ap (λ n. v * b % n) sq ∙ mod_scale b v p in
    let ol_is : ol ≡ v % b * b + tl =
      e8
      ∙ ap (λ n. (tl + n) % 2 ^ (2 * h)) shift
      ∙ mod-eq_of_lt (omega (arith, sq))
      ∙ omega arith in
    let whole =
      low_product b ll (l / b) rl (r / b) (t / b) tl (u / b) ul (v / b) (v % b)
        (omega (arith, t_is, mod-add-div' t b)) (omega (arith, u_is, mod-add-div' u b))
        (omega (arith, v_is, mod-add-div' v b)) in
    let l_is : l / b * b + ll ≡ l = omega (arith, mod-add-div' l b) in
    let r_is : r / b * b + rl ≡ r = omega (arith, mod-add-div' r b) in
    let w = l / b * (r / b) + (u / b + v / b) in
    (
      sym (ap (λ n. n * (r / b * b + rl)) l_is ∙ ap (λ n. l * n) r_is)
          ∙ whole
          ∙ ap (λ n. w * n + (v % b * b + tl)) (sym sq)
          ∙ ap (λ n. w * 2 ^ (2 * h) + n) (sym ol_is),
      omega (arith, sq),
    )

sums_mod : (m a b c d : ℕ) → ((a % m + b % m) % m + (c % m + d % m) % m) % m ≡ (a + b + (c + d)) % m
sums_mod m a b c d =
    ap (λ n. (n + (c % m + d % m) % m) % m) (sym (add-mod a b m))
    ∙ ap (λ n. ((a + b) % m + n) % m) (sym (add-mod c d m))
    ∙ sym (add-mod (a + b) (c + d) m)

-- What lies above the lower half of a product is needed only modulo a half.
high_halves :
    (h l lh r rh w1 w2 w3 o : ℕ)
    → l * r ≡ (w1 + (w2 + w3)) * 2 ^ (2 * h) + o
    → add_word (4 * h) o (
        shl_word
          (4 * h)
          (add_word
            (2 * h)
            (add_word (2 * h) (w1 % 2 ^ (2 * h)) (add_word (2 * h) w2 w3))
            (add_word (2 * h) (mul_word (2 * h) rh l) (mul_word (2 * h) r lh)))
          (2 * h))
      ≡ ((lh * 2 ^ (2 * h) + l) * (rh * 2 ^ (2 * h) + r)) % 2 ^ (4 * h)
high_halves h l lh r rh w1 w2 w3 o e =
    let m = 2 ^ (2 * h) in
    let z = w1 + (w2 + w3) + (rh * l + r * lh) in
    let sq : 2 ^ (4 * h) ≡ m * m =
      ap (λ k. 2 ^ k) {y = 2 * (2 * h)} (omega arith) ∙ square (2 * h) in
    let split : o + z * m + m * m * (lh * rh) ≡ (lh * m + l) * (rh * m + r) =
      grind (arith, expand m l lh r rh) in
    ap (λ n. add_word (4 * h) o (shl_word (4 * h) n (2 * h)))
      (sums_mod m w1 (w2 + w3) (rh * l) (r * lh))
    ∙ ap (λ n. (o + z % m * m % n) % n) sq
    ∙ ap (λ n. (o + n % (m * m)) % (m * m)) (sym (mod_scale m z (one-le_pow (2 * h))))
    ∙ ap (λ n. (o + n) % (m * m)) (mod-mod (z * m) (m * m))
    ∙ add-mod-mod o (z * m) (m * m)
    ∙ sym (add-mul-mod_self_left (o + z * m) (m * m) (lh * rh))
    ∙ ap (λ n. n % (m * m)) split
    ∙ ap (λ n. (lh * m + l) * (rh * m + r) % n) (sym sq)

halves_of : (m x : ℕ) → 0 < m → x < m * m → x / m % m * m + x % m ≡ x
halves_of m x p h =
    ap (λ n. n * m + x % m) (mod-eq_of_lt (quotient_fits m x p h)) ∙ omega (arith, mod-add-div' x m)

-- The emitted product of two words of `4 * h` bits is their product modulo 2^(4 * h).
pub mul_func-product :
    (h x y : ℕ) → x < 2 ^ (4 * h) → y < 2 ^ (4 * h) → mul_func h x y ≡ (x * y) % 2 ^ (4 * h)
unfolding mul_func
mul_func-product h x y j k =
    let m = 2 ^ (2 * h) in
    let sq : 2 ^ (4 * h) ≡ m * m =
      ap (λ n. 2 ^ n) {y = 2 * (2 * h)} (omega arith) ∙ square (2 * h) in
    let p : 0 < m = one-le_pow (2 * h) in
    let x_is : x / m % m * m + x % m ≡ x = halves_of m x p (omega arith) in
    let y_is : y / m % m * m + y % m ≡ y = halves_of m y p (omega arith) in
    let low =
      low_halves h (x % m) (y % m) _ _ _ _ _ _ _ _ (mod-lt x p) (mod-lt y p) refl refl refl refl
        refl refl refl refl in
    high_halves h (x % m) (x / m % m) (y % m) (y / m % m) _ _ _ _ low.0
    ∙ ap (λ n. n * (y / m % m * m + y % m) % 2 ^ (4 * h)) x_is
    ∙ ap (λ n. x * n % 2 ^ (4 * h)) y_is

pub mul256-product : (x y : ℕ) → x < 2 ^ 256 → y < 2 ^ 256 → mul256 x y ≡ (x * y) % 2 ^ 256
unfolding mul256
mul256-product x y h k = mul_func-product 64 x y h k

pub mul128-product : (x y : ℕ) → x < 2 ^ 128 → y < 2 ^ 128 → mul128 x y ≡ (x * y) % 2 ^ 128
unfolding mul128
mul128-product x y h k = mul_func-product 32 x y h k

-- ===== src/Words/Fields.antt =====
-- Bit fields of a number under shifts and remainders.
use native.Mathlib.Nat.{
  mod-lt, mod-eq_of_lt, mod-add-div', add-mul-div_left, div-eq_of_lt, div-div-eq-div-mul,
  mul-div-mul_right, mul-add-mod_self_left, add-mul-mod_self_left,
}
use evmbt.Words.Powers.{one-le_pow, pow_add}
use evmbt.Prelude.{ℕ, ◌+◌, ◌-◌, ◌*◌, ◌/◌, ◌%◌, ◌^◌, ◌<◌, ◌≤◌, ◌≡◌, ◌∙◌, sym, ap, arith}

-- The quotient of a remainder.
mod_then_div : (a p q : ℕ) → 0 < p → 0 < q → a % (p * q) / p ≡ a / p % q
mod_then_div a p q h k =
    let c = a / p / q in
    let r = a / p % q in
    let small : r * p + a % p < p * q = grind (arith, mod-lt (a / p) k, mod-lt a h) in
    let split : a ≡ r * p + a % p + p * q * c =
      grind (arith, mod-add-div' a p, ap (λ (n : ℕ). n * p) (mod-add-div' (a / p) q)) in
    ap (λ n. n % (p * q) / p) split
    ∙ ap (λ n. n / p) (add-mul-mod_self_left (r * p + a % p) (p * q) c ∙ mod-eq_of_lt small)
    ∙ ap (λ n. n / p) {y = a % p + p * r} (grind arith)
    ∙ add-mul-div_left (a % p) r h
    ∙ ap (λ n. n + r) (div-eq_of_lt (mod-lt a h))
    ∙ omega arith

mod_of_mod : (a k m : ℕ) → k ≤ m → a % 2 ^ m % 2 ^ k ≡ a % 2 ^ k
mod_of_mod a k m h =
    let whole : 2 ^ m ≡ 2 ^ k * 2 ^ (m - k) =
      ap (λ j. 2 ^ j) {x = m} {y = k + (m - k)} (omega arith) ∙ pow_add k (m - k) in
    let split : a ≡ 2 ^ k * (a / 2 ^ m * 2 ^ (m - k)) + a % 2 ^ m =
      grind (arith, mod-add-div' a (2 ^ m), ap (λ (n : ℕ). a / 2 ^ m * n) whole) in
    sym (
      ap (λ n. n % 2 ^ k) split
      ∙ mul-add-mod_self_left (2 ^ k) (a / 2 ^ m * 2 ^ (m - k)) (a % 2 ^ m))

-- The `k` bits from `s` on do not see a wrap above them.
pub field_wrap : (a s k w : ℕ) → s + k ≤ w → a % 2 ^ w / 2 ^ s % 2 ^ k ≡ a / 2 ^ s % 2 ^ k
field_wrap a s k w h =
    let whole : 2 ^ w ≡ 2 ^ s * 2 ^ (w - s) =
      ap (λ j. 2 ^ j) {x = w} {y = s + (w - s)} (omega arith) ∙ pow_add s (w - s) in
    ap (λ n. a % n / 2 ^ s % 2 ^ k) whole
    ∙ ap (λ n. n % 2 ^ k) (mod_then_div a (2 ^ s) (2 ^ (w - s)) (one-le_pow s) (one-le_pow (w - s)))
    ∙ mod_of_mod (a / 2 ^ s) k (w - s) (omega arith)

pub shift_back : (a t s : ℕ) → a * 2 ^ t / 2 ^ (s + t) ≡ a / 2 ^ s
shift_back a t s =
    ap (λ n. a * 2 ^ t / n) (pow_add s t) ∙ mul-div-mul_right a (2 ^ s) (one-le_pow t)

pub shift_twice : (a t s : ℕ) → a / 2 ^ t / 2 ^ s ≡ a / 2 ^ (t + s)
shift_twice a t s = div-div-eq-div-mul a (2 ^ t) (2 ^ s) ∙ ap (λ n. a / n) (sym (pow_add t s))

-- ===== src/Exp/Power.antt =====
-- Powers and remainders, for the loops of `Arith256::exp`.
use native.Mathlib.Nat.{
  pow-suc, pow-zero, div-add-mod, mul-add-mod_self_left, mul_assoc, mul_comm, add-mul,
}
use evmbt.Prelude.{ℕ, zero, suc, ◌+◌, ◌*◌, ◌/◌, ◌%◌, ◌^◌, ◌≡◌, ◌∙◌, sym, ap, arith}

-- A factor's remainder can be taken before the product's.
pub mod-mul : (a b m : ℕ) → (a % m * b) % m ≡ (a * b) % m
mod-mul a b m =
    let split : a * b ≡ m * (a / m * b) + a % m * b =
      ap (λ x. x * b) (sym (div-add-mod a m))
      ∙ add-mul (m * (a / m)) (a % m) b
      ∙ ap (λ x. x + a % m * b) (mul_assoc m (a / m) b) in
    sym (ap (λ x. x % m) split ∙ mul-add-mod_self_left m (a / m * b) (a % m * b))

pub mod-mul_right : (a b m : ℕ) → (a * (b % m)) % m ≡ (a * b) % m
mod-mul_right a b m =
    ap (λ x. x % m) (mul_comm a (b % m)) ∙ mod-mul b a m ∙ ap (λ x. x % m) (mul_comm b a)

pub mod-pow : (a k m : ℕ) → ((a % m) ^ k) % m ≡ (a ^ k) % m
mod-pow a zero m = ap (λ x. x % m) (pow-zero (a % m) ∙ sym (pow-zero a))
mod-pow a (suc k) m =
    ap (λ x. x % m) (pow-suc (a % m) k)
    ∙ sym (mod-mul ((a % m) ^ k) (a % m) m)
    ∙ ap (λ x. (x * (a % m)) % m) (mod-pow a k m)
    ∙ mod-mul (a ^ k) (a % m) m
    ∙ mod-mul_right (a ^ k) a m
    ∙ sym (ap (λ x. x % m) (pow-suc a k))

square_pow : (b k : ℕ) → (b * b) ^ k ≡ b ^ (k + k)
square_pow b zero = pow-zero (b * b) ∙ sym (ap (λ n. b ^ n) (omega arith) ∙ pow-zero b)
square_pow b (suc k) =
    let double : suc k + suc k ≡ suc (suc (k + k)) = omega arith in
    pow-suc (b * b) k
    ∙ ap (λ x. x * (b * b)) (square_pow b k)
    ∙ sym (mul_assoc (b ^ (k + k)) b b)
    ∙ sym (ap (λ n. b ^ n) double ∙ pow-suc b (suc (k + k)) ∙ ap (λ x. x * b) (pow-suc b (k + k)))

-- Half the exponent for the squared base.
pub square_step : (x b k m : ℕ) → (x * ((b * b) % m) ^ k) % m ≡ (x * b ^ (k + k)) % m
square_step x b k m =
    sym (mod-mul_right x (((b * b) % m) ^ k) m)
    ∙ ap (λ y. (x * y) % m) (mod-pow (b * b) k m ∙ ap (λ y. y % m) (square_pow b k))
    ∙ mod-mul_right x (b ^ (k + k)) m

-- The round for an odd exponent.
pub odd_step : (r b k m : ℕ) → ((r * b) % m * ((b * b) % m) ^ k) % m ≡ (r * b ^ suc (k + k)) % m
odd_step r b k m =
    square_step ((r * b) % m) b k m
    ∙ mod-mul (r * b) (b ^ (k + k)) m
    ∙ ap (λ x. x % m)
        (mul_assoc r b (b ^ (k + k))
          ∙ ap (λ x. r * x) (mul_comm b (b ^ (k + k)) ∙ sym (pow-suc b (k + k))))

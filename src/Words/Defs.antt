-- ===== src/Words/Defs.antt =====
-- LLVM's instructions on integers of `w` bits, as numbers.
use native.Mathlib.Nat.{mod-eq_of_lt, add-mod_right}
use evmbt.Prelude.{
  ◌<◌, ◌≤◌, ◌≡◌, ◌∙◌, ap, arith, ℕ, ◌+◌, ◌-◌, ◌*◌, ◌%◌, ◌^◌, Option, none, some, leb, if◌then◌else◌,
}

abbrev pub add_word : ℕ → ℕ → ℕ → ℕ
add_word w a b = (a + b) % 2 ^ w

abbrev pub sub_word : ℕ → ℕ → ℕ → ℕ
sub_word w a b = (a + 2 ^ w - b) % 2 ^ w

abbrev pub mul_word : ℕ → ℕ → ℕ → ℕ
mul_word w a b = (a * b) % 2 ^ w

abbrev pub shl_word : ℕ → ℕ → ℕ → ℕ
shl_word w a s = (a * 2 ^ s) % 2 ^ w

-- `CreateNUWSub`: no value where the difference wraps.
abbrev pub nuw_sub : ℕ → ℕ → Option ℕ
nuw_sub a b = if leb b a then some (a - b) else none

-- A difference that does not wrap.
pub sub_word-le : (w a b : ℕ) → a < 2 ^ w → b ≤ a → sub_word w a b ≡ a - b
sub_word-le w a b h l =
    let shift : a + 2 ^ w - b ≡ a - b + 2 ^ w = omega arith in
    let small : a - b < 2 ^ w = omega arith in
    ap (λ n. n % 2 ^ w) shift ∙ add-mod_right (a - b) (2 ^ w) ∙ mod-eq_of_lt small

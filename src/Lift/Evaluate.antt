-- ===== src/Lift/Evaluate.antt =====
-- An evaluator for the interface: a value is its width and its number, or undefined, and whether it
-- is a constant: the builder folds an instruction whose operands are.
use Prim.Native.Nat.{bit_and, bit_or, bit_xor}
use evmbt.Prelude.{
  ℕ, ◌+◌, ◌-◌, ◌*◌, ◌/◌, ◌%◌, ◌^◌, ◌<◌, ◌≡◌, refl, ap, Bool, true, not, ◌&&◌, Option, none, some,
  ltb, ◌==◌, if◌then◌else◌,
}
use evmbt.Lift.Machine.{bit, signed_lt, signed_div, signed_rem, signed_shift}
use evmbt.Lift.Interface.{Builder, Binary, same, i1}

pub record Evaluated : Type 0 where
  pub bits : ℕ
  pub number : Option ℕ
  pub constant : Bool

abbrev pub apply_one : (ℕ → ℕ) → Option ℕ → Option ℕ
apply_one f none = none
apply_one f (some m) = some (f m)

abbrev pub apply_two : (ℕ → ℕ → Bool) → (ℕ → ℕ → ℕ) → Option ℕ → Option ℕ → Option ℕ
apply_two ok f none b = none
apply_two ok f (some m) none = none
apply_two ok f (some m) (some n) = if ok m n then some (f m n) else none

-- An instruction with two operands, undefined where `ok` is false.
abbrev pub binary :
    (ℕ → ℕ) → (ℕ → ℕ → ℕ → Bool) → (ℕ → ℕ → ℕ → ℕ) → Evaluated → Evaluated → Evaluated
binary out ok f a b = record {
  bits = out a.bits;
  number = apply_two (ok a.bits) (f a.bits) a.number b.number;
  constant = a.constant && b.constant;
}

abbrev pub always : ℕ → ℕ → ℕ → Bool
always w m n = true

abbrev pub divisor : ℕ → ℕ → ℕ → Bool
divisor w m n = not (n == 0)

abbrev pub signed_divisor : ℕ → ℕ → ℕ → Bool
signed_divisor w m n = not (n == 0) && not (m == 2 ^ (w - 1) && n == 2 ^ w - 1)

abbrev pub pick : Option ℕ → Option ℕ → Option ℕ → Option ℕ
pick none a b = none
pick (some k) a b = if k == 0 then b else a

abbrev pub evaluator : Builder Evaluated
evaluator = record {
  width = λ a. a.bits;
  is_instruction = λ a. not a.constant;
  const = λ w n. record { bits = w; number = some (n % 2 ^ w); constant = true };
  zext = λ a w. record { bits = w; number = a.number; constant = a.constant };
  trunc = λ a w. record {
    bits = w;
    number = apply_one (λ m. m % 2 ^ w) a.number;
    constant = a.constant;
  };
  add = binary same always (λ w m n. (m + n) % 2 ^ w);
  sub = binary same always (λ w m n. (m + 2 ^ w - n) % 2 ^ w);
  mul = binary same always (λ w m n. (m * n) % 2 ^ w);
  nuw_add = binary same (λ w m n. ltb (m + n) (2 ^ w)) (λ w m n. m + n);
  nuw_mul = binary same (λ w m n. ltb (m * n) (2 ^ w)) (λ w m n. m * n);
  udiv = binary same divisor (λ w m n. m / n);
  sdiv = binary same signed_divisor signed_div;
  urem = binary same divisor (λ w m n. m % n);
  srem = binary same signed_divisor signed_rem;
  and = binary same always (λ w m n. bit_and m n);
  or = binary same always (λ w m n. bit_or m n);
  xor = binary same always (λ w m n. bit_xor m n);
  not = λ a. record {
    bits = a.bits;
    number = apply_one (λ m. 2 ^ a.bits - 1 - m) a.number;
    constant = a.constant;
  };
  shl = binary same (λ w m n. ltb n w) (λ w m n. (m * 2 ^ n) % 2 ^ w);
  lshr = binary same (λ w m n. ltb n w) (λ w m n. m / 2 ^ n);
  ashr = binary same (λ w m n. ltb n w) signed_shift;
  icmp_eq = binary i1 always (λ w m n. bit (m == n));
  icmp_ne = binary i1 always (λ w m n. bit (not (m == n)));
  icmp_ult = binary i1 always (λ w m n. bit (ltb m n));
  icmp_ugt = binary i1 always (λ w m n. bit (ltb n m));
  icmp_slt = binary i1 always (λ w m n. bit (signed_lt w m n));
  icmp_sgt = binary i1 always (λ w m n. bit (signed_lt w n m));
  select = λ c a b. record {
    bits = a.bits;
    number = pick c.number a.number b.number;
    constant = c.constant && a.constant && b.constant;
  };
}

pub record Holds (v : Evaluated) (w n : ℕ) : Type 0 where
  pub has_width : v.bits ≡ w
  pub has_number : v.number ≡ some n
  pub fits : n < 2 ^ w

-- One proof for all of them: where `ok` is true, the result is `f` of the operands.
pub binary_lem :
    (out : ℕ → ℕ) (ok : ℕ → ℕ → ℕ → Bool) (Ok : ℕ → ℕ → ℕ → Type 0) (f : ℕ → ℕ → ℕ → ℕ)
    → ((w m n : ℕ) → Ok w m n → ok w m n ≡ true)
    → ((w m n : ℕ) → m < 2 ^ w → n < 2 ^ w → Ok w m n → f w m n < 2 ^ out w)
    → Binary Holds (binary out ok f) out Ok f
binary_lem out ok Ok f test bound a b w m n p q good = record {
  has_width = ap out p.has_width;
  has_number = rw (p.has_width, p.has_number, q.has_number, test w m n good) refl;
  fits = bound w m n p.fits q.fits good;
}

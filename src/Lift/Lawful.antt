-- ===== src/Lift/Lawful.antt =====
-- The laws of the interface for the evaluator.
use native.Mathlib.Nat.{mod-eq_of_lt, mod-le, div-le_self, pow-le-pow_right}
use evmbt.Prelude.{
  ℕ, ◌+◌, ◌*◌, ◌%◌, ◌^◌, ◌<◌, ◌≡◌, refl, ap, false, not, true, some, ltb, ◌==◌, if◌then◌else◌,
  arith,
}
use evmbt.Lift.Machine.{signed_lt, signed_shift}
use evmbt.Lift.Interface.{Semantics, same, i1, Always, Divisor, SignedDivisor, ShiftAmount}
use evmbt.Lift.Bounds.{
  pow_pos, mod_fits, bit_fits, signed_div_fits, signed_rem_fits, signed_shift_fits, bit_and_fits,
  bit_or_fits, bit_xor_fits, if_fits,
}
use evmbt.Lift.Evaluate.{
  apply_one, always, divisor, signed_divisor, pick, evaluator, Holds, binary_lem,
}

divisor_test : (w m n : ℕ) → Divisor w m n → divisor w m n ≡ true
divisor_test w m n h = ground arith

signed_divisor_test : (w m n : ℕ) → SignedDivisor w m n → signed_divisor w m n ≡ true
signed_divisor_test w m n h = ground (arith, h.0, h.1)

shift_test : (w m n : ℕ) → ShiftAmount w m n → ltb n w ≡ true
shift_test w m n h = ground arith

below_test : (a b : ℕ) → a < b → ltb a b ≡ true
below_test a b h = ground arith

pick-some : (k m n : ℕ) → pick (some k) (some m) (some n) ≡ some (if k == 0 then n else m)
pick-some k m n = ground arith

pub evaluator-Semantics : Semantics evaluator
evaluator-Semantics = record {
  Is = Holds;
  width_lem = λ a w m p. p.has_width;
  bound = λ a w m p. p.fits;
  const_lem = λ w n h. record { has_width = refl; has_number = ap some (mod-eq_of_lt h); fits = h };
  zext_lem = λ a w w' m p h. record {
    has_width = refl;
    has_number = p.has_number;
    fits = omega (arith, p.fits, pow-le-pow_right {n = 2} (omega arith) h);
  };
  trunc_lem = λ a w w' m p h. record {
    has_width = refl;
    has_number = ap (apply_one (λ m. m % 2 ^ w')) p.has_number;
    fits = mod_fits w' m;
  };
  add_lem = binary_lem same always Always _ (λ w m n h. refl) (λ w m n p q h. mod_fits w _);
  sub_lem = binary_lem same always Always _ (λ w m n h. refl) (λ w m n p q h. mod_fits w _);
  mul_lem = binary_lem same always Always _ (λ w m n h. refl) (λ w m n p q h. mod_fits w _);
  nuw_add_lem =
      binary_lem same _ (λ w m n. m + n < 2 ^ w) _ (λ w m n h. below_test (m + n) (2 ^ w) h)
        (λ w m n p q h. h);
  nuw_mul_lem =
      binary_lem same _ (λ w m n. m * n < 2 ^ w) _ (λ w m n h. below_test (m * n) (2 ^ w) h)
        (λ w m n p q h. h);
  udiv_lem =
      binary_lem same divisor Divisor _ divisor_test
        (λ w m n p q h. omega (arith, div-le_self m n, p));
  urem_lem =
      binary_lem same divisor Divisor _ divisor_test (λ w m n p q h. omega (arith, mod-le m n, p));
  sdiv_lem =
      binary_lem same signed_divisor SignedDivisor _ signed_divisor_test
        (λ w m n p q h. signed_div_fits w m n p);
  srem_lem =
      binary_lem same signed_divisor SignedDivisor _ signed_divisor_test
        (λ w m n p q h. signed_rem_fits w m n p);
  and_lem =
      binary_lem same always Always _ (λ w m n h. refl) (λ w m n p q h. bit_and_fits w m n p q);
  or_lem = binary_lem same always Always _ (λ w m n h. refl) (λ w m n p q h. bit_or_fits w m n p q);
  xor_lem =
      binary_lem same always Always _ (λ w m n h. refl) (λ w m n p q h. bit_xor_fits w m n p q);
  not_lem = λ a w m p. record {
    has_width = p.has_width;
    has_number = rw (p.has_width, p.has_number) refl;
    fits = omega (arith, pow_pos w);
  };
  shl_lem = binary_lem same _ ShiftAmount _ shift_test (λ w m n p q h. mod_fits w _);
  lshr_lem =
      binary_lem same _ ShiftAmount _ shift_test
        (λ w m n p q h. omega (arith, div-le_self m (2 ^ n), p));
  ashr_lem =
      binary_lem same _ ShiftAmount signed_shift shift_test
        (λ w m n p q h. signed_shift_fits w m n p);
  icmp_eq_lem = binary_lem i1 always Always _ (λ w m n h. refl) (λ w m n p q h. bit_fits (m == n));
  icmp_ne_lem =
      binary_lem i1 always Always _ (λ w m n h. refl) (λ w m n p q h. bit_fits (not (m == n)));
  icmp_ult_lem =
      binary_lem i1 always Always _ (λ w m n h. refl) (λ w m n p q h. bit_fits (ltb m n));
  icmp_ugt_lem =
      binary_lem i1 always Always _ (λ w m n h. refl) (λ w m n p q h. bit_fits (ltb n m));
  icmp_slt_lem =
      binary_lem i1 always Always _ (λ w m n h. refl) (λ w m n p q h. bit_fits (signed_lt w m n));
  icmp_sgt_lem =
      binary_lem i1 always Always _ (λ w m n h. refl) (λ w m n p q h. bit_fits (signed_lt w n m));
  select_lem = λ c a b w k m n p q r. record {
    has_width = q.has_width;
    has_number = rw (p.has_number, q.has_number, r.has_number) (pick-some k m n);
    fits = if_fits (k == 0) n m (2 ^ w) r.fits q.fits;
  };
}

-- A number that fits its width.
pub evaluated :
    (w n : ℕ)
    → n < 2 ^ w
    → evaluator-Semantics.Is (record { bits = w; number = some n; constant = false }) w n
unfolding evaluator-Semantics
evaluated w n h = record { has_width = refl; has_number = refl; fits = h }

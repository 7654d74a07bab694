-- ===== src/Instruction/Decode.antt =====
-- The three ways of Instruction.cpp to walk over push data, and the number that a PUSH reads.
use native.Mathlib.Nat.{pow-le-pow_right, pow-suc, mod-eq_of_lt, mul_assoc, add-mul}
use native.Mathlib.Omega.{pow_step}
use native.Mathlib.Decide.{dec_lt}
use evmbt.Prelude.{
  ℕ, zero, suc, ◌+◌, ◌-◌, ◌*◌, ◌%◌, ◌^◌, ◌≤◌, ◌<◌, ◌≡◌, refl, List, [], ◌∷◌, true, arith, ltb, min,
  if◌then◌else◌, All,
}
use evmbt.Instruction.{
  byte_at, is_push, push_bytes, read_push_loop, read_push_data, skip_push_loop, skip_push_data,
  skip_push_data_and_get_next,
}

-- The walk always goes forward and never passes the end.
pub next_bounds :
    (code : List ℕ) (curr end : ℕ)
    → curr < end
    → (curr < skip_push_data_and_get_next code curr end)
      × (skip_push_data_and_get_next code curr end ≤ end)
unfolding skip_push_data_and_get_next
next_bounds code curr end h = ground arith

read_push_loop_iterator :
    (code : List ℕ) (end n curr value : ℕ)
    → curr ≤ end
    → (read_push_loop code end n curr value).1 ≡ curr + min n (end - curr)
unfolding read_push_loop
read_push_loop_iterator code end zero curr value h = omega arith
read_push_loop_iterator code end (suc n) curr value h = ground (
  arith,
  read_push_loop_iterator code end n (curr + 1) ((value * 256) % 2 ^ 256 + byte_at code curr),
  read_push_loop_iterator code end n curr ((value * 256) % 2 ^ 256 + 0),
)

skip_push_loop_iterator :
    (last n curr : ℕ) → curr ≤ last → skip_push_loop last n curr ≡ curr + min n (last - curr)
unfolding skip_push_loop
skip_push_loop_iterator last zero curr h = omega arith
skip_push_loop_iterator last (suc n) curr h =
    ground (arith, skip_push_loop_iterator last n (curr + 1))

-- At a PUSH inside the code, `readPushData` and `skipPushData` leave the iterator at the same
-- byte, and the byte after it is where `skipPushDataAndGetNext` goes.
pub push_iterators_agree :
    (code : List ℕ) (curr end : ℕ)
    → curr < end
    → is_push (byte_at code curr) ≡ true
    → ((read_push_data code curr end).1 ≡ skip_push_data code curr end)
      × (skip_push_data code curr end + 1 ≡ skip_push_data_and_get_next code curr end)
unfolding read_push_data skip_push_data skip_push_data_and_get_next
push_iterators_agree code curr end h p = ground (
  arith,
  read_push_loop_iterator code end (push_bytes (byte_at code curr)) (curr + 1) 0,
  skip_push_loop_iterator (end - 1) (push_bytes (byte_at code curr)) curr,
)

-- The operand byte at `i`: 0 past the end, as the yellow paper reads code.
abbrev pub operand : List ℕ → ℕ → ℕ → ℕ
operand code end i = if ltb i end then byte_at code i else 0

-- The big-endian number of the `n` operand bytes from `i` on.
pub big_endian : List ℕ → ℕ → ℕ → ℕ → ℕ
big_endian code end zero i = 0
big_endian code end (suc n) i = operand code end i * 256 ^ n + big_endian code end n (i + 1)

abbrev pub IsByte : ℕ → Type 0
IsByte b = b < 256

byte_at-lt : (code : List ℕ) (i : ℕ) → All IsByte code → byte_at code i < 256
byte_at-lt [] i h = omega arith
byte_at-lt (b ∷ code) zero h = h.0
byte_at-lt (b ∷ code) (suc i) h = byte_at-lt code i h.1

pow_step_le : (m : ℕ) → m < 32 → 256 ^ suc m ≤ 2 ^ 256
pow_step_le m h = pow-le-pow_right {n = 256} (omega arith) {i = suc m} {j = 32} h

-- One round: no bit is lost, and the room for the next round is there.
shift_in :
    (value b m : ℕ)
    → b < 256
    → value < 256 ^ m
    → m < 32
    → ((value * 256) % 2 ^ 256 + b ≡ value * 256 + b) × (value * 256 + b < 256 ^ suc m)
shift_in value b m hb hv hm =
    let fits : value * 256 + b < 256 ^ suc m = omega (arith, pow-suc 256 m) in
    let small : value * 256 < 2 ^ 256 = omega (arith, pow_step_le m hm) in
    (omega (arith, mod-eq_of_lt small), fits)

big_endian_past : (code : List ℕ) (end n i : ℕ) → end ≤ i → big_endian code end n i ≡ 0
unfolding big_endian
big_endian_past code end zero i h = refl
big_endian_past code end (suc n) i h = ground (arith, big_endian_past code end n (i + 1))

big_endian_inside :
    (code : List ℕ) (end n i : ℕ)
    → i < end
    → big_endian code end (suc n) i ≡ byte_at code i * 256 ^ n + big_endian code end n (i + 1)
unfolding big_endian
big_endian_inside code end n i h = ground arith

round_past :
    (code : List ℕ) (end n value : ℕ)
    → read_push_loop code end (suc n) end value
      ≡ read_push_loop code end n end ((value * 256) % 2 ^ 256 + 0)
unfolding read_push_loop
round_past code end n value = ground arith

round_inside :
    (code : List ℕ) (end n curr value : ℕ)
    → curr < end
    → read_push_loop code end (suc n) curr value
      ≡ read_push_loop code end n (curr + 1) ((value * 256) % 2 ^ 256 + byte_at code curr)
unfolding read_push_loop
round_inside code end n curr value h = ground arith

-- From the end on, the loop shifts zero bytes in.
read_push_loop_past :
    (code : List ℕ) (end m n value : ℕ)
    → m + n ≤ 32
    → value < 256 ^ m
    → (read_push_loop code end n end value).0 ≡ value * 256 ^ n
read_push_loop_past code end m zero value h v = unfold read_push_loop in omega arith
read_push_loop_past code end m (suc n) value h v =
    let s = shift_in value 0 m (omega arith) v (omega arith) in
    let ih = read_push_loop_past code end (suc m) n (value * 256 + 0) (omega arith) s.1 in
    rw (round_past, s.0) (grind (arith, ih, pow_step 256 n, mul_assoc value 256 (256 ^ n)))

shift_place : (v b n : ℕ) → (v * 256 + b) * 256 ^ n ≡ v * 256 ^ suc n + b * 256 ^ n
shift_place v b n =
    rw (pow_step 256 n) (grind (arith, add-mul (v * 256) b (256 ^ n), mul_assoc v 256 (256 ^ n)))

-- The loop appends the operand bytes to the number that it starts from.
read_push_loop_value :
    (code : List ℕ) (end m n curr value : ℕ)
    → All IsByte code
    → curr ≤ end
    → m + n ≤ 32
    → value < 256 ^ m
    → (read_push_loop code end n curr value).0 ≡ value * 256 ^ n + big_endian code end n curr
read_push_loop_value code end m zero curr value bytes c h v =
    unfold read_push_loop big_endian in omega arith
read_push_loop_value code end m (suc n) curr value bytes c h v = elim (dec_lt curr end) [
  | yes inside ↦
      let b = byte_at code curr in
      let s = shift_in value b m (byte_at-lt code curr bytes) v (omega arith) in
      let ih =
        read_push_loop_value code end (suc m) n (curr + 1) (value * 256 + b) bytes (omega arith)
          (omega arith) s.1 in
      rw
        (
          round_inside code end n curr value inside,
          s.0,
          ih,
          big_endian_inside code end n curr inside,
        )
        (omega (arith, shift_place value b n))
  | no past ↦
      let e : curr ≡ end = omega arith in
      rw (e, big_endian_past code end (suc n) end (omega arith))
        (omega (arith, read_push_loop_past code end m (suc n) value h v))
]

-- In a code of bytes `readPushData` at a PUSH reads its operand, most significant byte first, with a zero for each
-- byte past the end: 32 bytes fit the 256-bit constant, so no bit is lost.
pub read_push_data-big_endian :
    (code : List ℕ) (curr end : ℕ)
    → All IsByte code
    → curr < end
    → is_push (byte_at code curr) ≡ true
    → (read_push_data code curr end).0
      ≡ big_endian code end (push_bytes (byte_at code curr)) (curr + 1)
unfolding read_push_data
read_push_data-big_endian code curr end bytes h p =
    let n = push_bytes (byte_at code curr) in
    omega (
      arith,
      read_push_loop_value code end 0 n (curr + 1) 0 bytes (omega arith) (ground arith)
          (omega arith),
    )

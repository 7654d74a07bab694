-- ===== src/Lift/Machine.antt =====
-- Integer operations at a width, for LLVM and for the EVM alike.
use Prim.Native.Nat.{ℕ}
use evmbt.Prelude.{◌+◌, ◌-◌, ◌/◌, ◌%◌, ◌^◌, Bool, true, false, ltb, leb, if◌then◌else◌}

abbrev pub bit : Bool → ℕ
bit true = 1
bit false = 0

-- The sign bit of a word.
abbrev pub is_negative : ℕ → ℕ → Bool
is_negative w n = leb (2 ^ (w - 1)) n

-- Two's complement.
abbrev pub negate : ℕ → ℕ → ℕ
negate w n = (2 ^ w - n) % 2 ^ w

abbrev pub magnitude : ℕ → ℕ → ℕ
magnitude w n = if is_negative w n then negate w n else n

-- The signed order.
abbrev pub signed_lt : ℕ → ℕ → ℕ → Bool
signed_lt w m n = ltb ((m + 2 ^ (w - 1)) % 2 ^ w) ((n + 2 ^ (w - 1)) % 2 ^ w)

-- The signed quotient, rounded towards 0.
abbrev pub signed_div : ℕ → ℕ → ℕ → ℕ
signed_div w m n =
    let q = magnitude w m / magnitude w n in
    if is_negative w m
    then (if is_negative w n then q else negate w q)
    else (if is_negative w n then negate w q else q)

-- The signed remainder, with the dividend's sign.
abbrev pub signed_rem : ℕ → ℕ → ℕ → ℕ
signed_rem w m n =
    let r = magnitude w m % magnitude w n in if is_negative w m then negate w r else r

-- The shift to the right that copies the sign bit.
abbrev pub signed_shift : ℕ → ℕ → ℕ → ℕ
signed_shift w n shift =
    if is_negative w n then 2 ^ w - 1 - (2 ^ w - 1 - n) / 2 ^ shift else n / 2 ^ shift

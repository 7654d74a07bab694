-- ===== src/Effects/Bytes.antt =====
-- Integers in the linear memory, and the conversions that the cases make of a value.
use evmbt.Prelude.{
  ℕ, zero, suc, ◌+◌, ◌-◌, ◌*◌, ◌/◌, ◌%◌, ◌^◌, ◌&&◌, Option, none, some, leb, ltb, ◌==◌,
  if◌then◌else◌,
}
use evmbt.Stack.Defs.{Value}
use evmbt.Environment.Mirror.{byte, mirrored}

-- An integer of `count` bytes is stored from its lowest byte on.
abbrev pub store_bytes : ℕ → ℕ → ℕ → (ℕ → ℕ) → ℕ → ℕ
store_bytes count at n memory a =
    if leb at a && ltb a (at + count) then byte (a - at) n else memory a

abbrev pub load_bytes : ℕ → ℕ → (ℕ → ℕ) → ℕ
load_bytes zero at memory = 0
load_bytes (suc k) at memory = load_bytes k at memory + memory (at + k) * 2 ^ (k * 8)

-- The word `n`, and what a load of `width` bits finds in a variable.
abbrev pub word256 : ℕ → Value
word256 n = record { width = 256; word = n }

abbrev pub loaded : ℕ → ℕ → Value
loaded width n = record { width = width; word = n % 2 ^ width }

-- `emitEndianConvert`: the bytes in the opposite order.
unfoldable pub swapped : ℕ → ℕ → ℕ
swapped bytes n = mirrored (bytes - 1) bytes n

abbrev pub converted : Value → Value
converted v = record { width = v.width; word = swapped (v.width / 8) v.word }

-- `CreateTruncOrBitCast`, which LLVM refuses for a type that is wider than the value's.
abbrev pub narrow : ℕ → Value → Option Value
narrow width v =
    if v.width == width
    then some v
    else (if ltb width v.width then some (loaded width v.word) else none)

-- `CreateZExt`, which it refuses for a narrower one.
abbrev pub zero_extend : ℕ → Value → Option Value
zero_extend width v =
    if leb v.width width then some (record { width = width; word = v.word }) else none

-- `CreateIntToPtr`: pointers have 32 bits.
abbrev pub pointer : Value → ℕ
pointer v = v.word % 2 ^ 32

-- The operands of a comparison have one type.
abbrev pub same_type : Value → Value → Option (Unit {0})
same_type a b = if a.width == b.width then some tt else none

-- A store needs a value of the variable's type.
abbrev pub exactly : ℕ → Value → Option Value
exactly width v = if v.width == width then some v else none

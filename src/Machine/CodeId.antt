-- ===== src/Machine/CodeId.antt =====
-- The identifier of a contract's code, against the bytes that it is made of.
use Prim.Native.Nat.{bit_and}
use evmbt.Prelude.{
  ℕ, ◌+◌, ◌-◌, ◌*◌, ◌/◌, ◌%◌, ◌^◌, ◌<◌, ◌≡◌, ◌∙◌, refl, ap, List, [], ◌∷◌, All, ltb, if◌then◌else◌,
  arith,
}
use evmbt.Words.Bits.{and_low}
use evmbt.Machine.Defs.{hex_char, make_code_id}

-- The number of a hexadecimal digit.
abbrev pub hex_value : ℕ → ℕ
hex_value c = if ltb c 97 then c - 48 else c - 87

-- The bytes of a text of hexadecimal digits, two for each.
abbrev pub read_bytes : List ℕ → List ℕ
read_bytes [] = []
read_bytes (c ∷ []) = []
read_bytes (c ∷ d ∷ cs) = (hex_value c * 16 + hex_value d) ∷ read_bytes cs

hex_value-hex_char : (n : ℕ) → n < 16 → hex_value (hex_char n) ≡ n
hex_value-hex_char n h = ground arith

byte_back :
    (b : ℕ)
    → b < 256
    → hex_value (hex_char (b / 2 ^ 4)) * 16 + hex_value (hex_char (bit_and b 0xf)) ≡ b
byte_back b h =
    let low : bit_and b 0xf ≡ b % 16 = and_low 4 b in
    omega (
      arith,
      hex_value-hex_char (b / 16) (omega arith),
      hex_value-hex_char (b % 16) (omega arith),
      ap (λ k. hex_value (hex_char k)) low,
    )

-- The bytes of an address can be read back from its code's identifier.
pub read_bytes-make_code_id :
    (bytes : List ℕ) → All (λ b. b < 256) bytes → read_bytes (make_code_id bytes) ≡ bytes
unfolding make_code_id
read_bytes-make_code_id [] h = refl
read_bytes-make_code_id (b ∷ bytes) h =
    ap (λ k. k ∷ read_bytes (make_code_id bytes)) (byte_back b h.0)
    ∙ ap (λ bs. b ∷ bs) (read_bytes-make_code_id bytes h.1)

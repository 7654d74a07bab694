-- ===== src/Effects/Memory.antt =====
-- Words in the linear memory, with their highest byte first.
use native.Mathlib.Nat.{
  mod-eq_of_lt, mod-lt, div-add-mod, mul-add-mod_self_left, div-eq_of_lt, add-mul-div_left,
}
use evmbt.Prelude.{
  ℕ, zero, suc, ◌+◌, ◌-◌, ◌*◌, ◌/◌, ◌%◌, ◌^◌, ◌<◌, ◌≤◌, ◌≡◌, ◌∙◌, refl, sym, ap, true, List, ◌∷◌,
  some, ◌⊎◌, inl, inr, leb, ltb, ◌==◌, Bool-cases, eq_of_beq, ne_of_beq, arith,
}
use evmbt.Words.{one-le_pow, pow_add}
use evmbt.Stack.Defs.{Value}
use evmbt.Stack.Registers.{push, pop}
use evmbt.Environment.Mirror.{byte, mirrored, byte-mirrored, mirrored_twice}
use evmbt.Effects.Bytes.{store_bytes, load_bytes, word256, pointer, swapped}
use evmbt.Effects.Monad.{World, ◌>>◌, pop_value, push_value}
use evmbt.Effects.Stacks.{swapped-lt}
use evmbt.Effects.Cases.{compile_mload, compile_mstore}

stored_at :
    (count at n i : ℕ) (memory : ℕ → ℕ)
    → i < count
    → store_bytes count at n memory (at + i) ≡ byte i n
stored_at count at n i memory h =
    let from : leb at (at + i) ≡ true = ground arith in
    let below : ltb (at + i) (at + count) ≡ true = ground arith in
    rw (from, below) (ap (λ j. byte j n) {x = at + i - at} (omega arith))

stored_outside :
    (count at n a : ℕ) (memory : ℕ → ℕ)
    → (a < at) ⊎ (at + count ≤ a)
    → store_bytes count at n memory a ≡ memory a
stored_outside count at n a memory (inl h) = ground arith
stored_outside count at n a memory (inr h) = ground arith

low_bytes : (k n : ℕ) → n % 2 ^ (suc k * 8) ≡ n % 2 ^ (k * 8) + byte k n * 2 ^ (k * 8)
low_bytes k n =
    let m = 2 ^ (k * 8) in
    let q = n / m in
    let r = n % m + q % 2 ^ 8 * m in
    let next : 2 ^ (suc k * 8) ≡ m * 256 =
      ap (λ j. 2 ^ j) {x = suc k * 8} {y = k * 8 + 8} (omega arith) ∙ pow_add (k * 8) 8 in
    let low : n % m < m = mod-lt n (one-le_pow (k * 8)) in
    let digit : q % 256 < 256 = omega arith in
    let small : r < 2 ^ (suc k * 8) = grind (arith, next, low, digit) in
    let halves : m * q ≡ m * (q / 256 * 256 + q % 256) =
      ap (λ (z : ℕ). m * z) {x = q} (omega arith) in
    let steps : 2 ^ (suc k * 8) * (q / 256) ≡ m * 256 * (q / 256) =
      ap (λ (z : ℕ). z * (q / 256)) next in
    let split : n ≡ 2 ^ (suc k * 8) * (q / 256) + r =
      grind (arith, div-add-mod n m, halves, steps) in
    ap (λ z. z % 2 ^ (suc k * 8)) split
    ∙ mul-add-mod_self_left (2 ^ (suc k * 8)) (q / 256) r
    ∙ mod-eq_of_lt small

-- What was stored is loaded.
pub load_bytes-store_bytes :
    (k count at n : ℕ) (memory : ℕ → ℕ)
    → k ≤ count
    → load_bytes k at (store_bytes count at n memory) ≡ n % 2 ^ (k * 8)
load_bytes-store_bytes zero count at n memory h = omega arith
load_bytes-store_bytes (suc k) count at n memory h =
    ap (λ z. z + store_bytes count at n memory (at + k) * 2 ^ (k * 8))
      (load_bytes-store_bytes k count at n memory (omega arith))
    ∙ ap (λ z. n % 2 ^ (k * 8) + z * 2 ^ (k * 8)) (stored_at count at n k memory (omega arith))
    ∙ sym (low_bytes k n)

-- A memory of bytes.
abbrev pub IsBytes : (ℕ → ℕ) → Type 0
IsBytes memory = (a : ℕ) → memory a < 2 ^ 8

load_bytes-lt : (k at : ℕ) (memory : ℕ → ℕ) → IsBytes memory → load_bytes k at memory < 2 ^ (k * 8)
load_bytes-lt zero at memory h = omega arith
load_bytes-lt (suc k) at memory h =
    let next : 2 ^ (suc k * 8) ≡ 2 ^ (k * 8) * 256 =
      ap (λ j. 2 ^ j) {x = suc k * 8} {y = k * 8 + 8} (omega arith) ∙ pow_add (k * 8) 8 in
    grind (arith, next, load_bytes-lt k at memory h, h (at + k))

byte_above : (low x k : ℕ) → low < 2 ^ (k * 8) → x < 2 ^ 8 → byte k (low + x * 2 ^ (k * 8)) ≡ x
byte_above low x k h l =
    ap (λ z. z / 2 ^ (k * 8) % 2 ^ 8) {y = low + 2 ^ (k * 8) * x} (grind arith)
    ∙ ap (λ z. z % 2 ^ 8) (add-mul-div_left low x (one-le_pow (k * 8)))
    ∙ ap (λ z. (z + x) % 2 ^ 8) (div-eq_of_lt h)
    ∙ omega arith

byte_below : (low x i k : ℕ) → i < k → byte i (low + x * 2 ^ (k * 8)) ≡ byte i low
byte_below low x i k h =
    let rest = 2 ^ ((k - i - 1) * 8) in
    let shift : 2 ^ (k * 8) ≡ 2 ^ (i * 8) * 2 ^ 8 * rest =
      ap (λ j. 2 ^ j) {x = k * 8} {y = i * 8 + 8 + (k - i - 1) * 8} (omega arith)
      ∙ pow_add (i * 8 + 8) ((k - i - 1) * 8)
      ∙ ap (λ z. z * rest) (pow_add (i * 8) 8) in
    let whole : low + x * 2 ^ (k * 8) ≡ low + 2 ^ (i * 8) * (2 ^ 8 * (rest * x)) =
      grind (arith, ap (λ (z : ℕ). x * z) shift) in
    ap (λ z. z / 2 ^ (i * 8) % 2 ^ 8) whole
    ∙ ap (λ z. z % 2 ^ 8) (add-mul-div_left low (2 ^ 8 * (rest * x)) (one-le_pow (i * 8)))
    ∙ omega arith

byte-load_bytes :
    (k at i : ℕ) (memory : ℕ → ℕ)
    → IsBytes memory
    → i < k
    → byte i (load_bytes k at memory) ≡ memory (at + i)
byte-load_bytes zero at i memory h l = absurd (omega arith)
byte-load_bytes (suc k) at i memory h l = elim (Bool-cases (i == k)) [
  | inl same ↦
      let e : i ≡ k = eq_of_beq i k same in
      ap (λ j. byte j (load_bytes (suc k) at memory)) e
      ∙ byte_above (load_bytes k at memory) (memory (at + k)) k (load_bytes-lt k at memory h)
          (h (at + k))
      ∙ ap (λ j. memory (at + j)) (sym e)
  | inr other ↦
      let less : i < k = omega (arith, ne_of_beq i k other) in
      byte_below (load_bytes k at memory) (memory (at + k)) i k less
      ∙ byte-load_bytes k at i memory h less
]

-- The byte `i` of a word from its highest one on.
abbrev pub IsBigEndian : ℕ → ℕ → (ℕ → ℕ) → Type 0
IsBigEndian n at memory = (i : ℕ) → i < 32 → memory (at + i) ≡ byte (31 - i) n

pub byte-swapped : (i n : ℕ) → i < 32 → byte i (swapped 32 n) ≡ byte (31 - i) n
unfolding swapped
byte-swapped i n h =
    ap (λ j. byte j (mirrored 31 32 n)) {x = i} {y = 31 - (31 - i)} (omega arith)
    ∙ byte-mirrored 31 32 (31 - i) n (omega arith) (omega arith)

pub swapped_twice : (n : ℕ) → n < 2 ^ 256 → swapped 32 (swapped 32 n) ≡ n
unfolding swapped
swapped_twice n h = mirrored_twice 31 n h

-- MSTORE puts the word at its address, its highest byte first, and changes no other byte.
pub compile_mstore-IsBigEndian :
    {H : Type 0} (addr : Value) (n : ℕ) (rest : List Value) (w : World H)
    → (memory : ℕ → ℕ) × (compile_mstore (record { stack = addr ∷ word256 n ∷ rest; world = w })
        ≡ some (tt, record { stack = rest; world = record w { memory = memory } }))
      × IsBigEndian n (pointer addr) memory
      × ((a : ℕ) → (a < pointer addr) ⊎ (pointer addr + 32 ≤ a) → memory a ≡ w.memory a)
unfolding compile_mstore pop_value pop
compile_mstore-IsBigEndian addr n rest w = (
  store_bytes 32 (pointer addr) (swapped 32 n) w.memory,
  refl,
  λ i h. stored_at 32 (pointer addr) (swapped 32 n) i w.memory h ∙ byte-swapped i n h,
  λ a o. stored_outside 32 (pointer addr) (swapped 32 n) a w.memory o,
)

-- MLOAD gives the word whose bytes stand at the address, the highest first, and changes nothing
-- but the stack.
pub compile_mload-IsBigEndian :
    {H : Type 0} (addr : Value) (rest : List Value) (w : World H)
    → IsBytes w.memory
    → (n : ℕ) × (compile_mload (record { stack = addr ∷ rest; world = w })
        ≡ some (tt, record { stack = word256 n ∷ rest; world = w }))
      × (n < 2 ^ 256)
      × IsBigEndian n (pointer addr) w.memory
unfolding compile_mload pop_value push_value push pop
compile_mload-IsBigEndian addr rest w h =
    let n = load_bytes 32 (pointer addr) w.memory in
    (
      swapped 32 n,
      refl,
      swapped-lt n,
      λ i l. sym (
          byte-swapped (31 - i) n (omega arith)
          ∙ ap (λ j. byte j n) {x = 31 - (31 - i)} (omega arith)
          ∙ byte-load_bytes 32 (pointer addr) i w.memory h l),
    )

-- MLOAD behind an MSTORE to the same place gives the word that was stored.
pub compile_mload-compile_mstore :
    {H : Type 0} (to from : Value) (n : ℕ) (rest : List Value) (w : World H)
    → pointer to ≡ pointer from
    → n < 2 ^ 256
    → (w' : World H) × ((compile_mstore >> compile_mload)
          (record { stack = to ∷ word256 n ∷ from ∷ rest; world = w })
        ≡ some (tt, record { stack = word256 n ∷ rest; world = w' }))
unfolding compile_mstore compile_mload pop_value push_value push pop
compile_mload-compile_mstore to from n rest w e h =
    let memory = store_bytes 32 (pointer to) (swapped 32 n) w.memory in
    let w' = record w { memory = memory } in
    let value : swapped 32 (load_bytes 32 (pointer from) memory) ≡ n =
      ap (λ p. swapped 32 (load_bytes 32 p memory)) (sym e)
      ∙ ap (swapped 32) (
          load_bytes-store_bytes 32 32 (pointer to) (swapped 32 n) w.memory (omega arith)
          ∙ mod-eq_of_lt (swapped-lt n))
      ∙ swapped_twice n h in
    (w', ap (λ v. some (tt, record { stack = word256 v ∷ rest; world = w' })) value)

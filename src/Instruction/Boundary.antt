-- ===== src/Instruction/Boundary.antt =====
-- Where the instructions of a code begin, by `skipPushDataAndGetNext`.
use evmbt.Prelude.{ℕ, ◌<◌, ◌≡◌, List, length}
use evmbt.Instruction.{skip_push_data_and_get_next}

-- The places where an instruction begins when the code is decoded from its first byte on, and the
-- place where the decoding ends.
pub data Boundary (code : List ℕ) : ℕ → Type 0 where
  entry : Boundary code 0
  after :
      {i j : ℕ}
      → Boundary code i
      → i < length code
      → j ≡ skip_push_data_and_get_next code i (length code)
      → Boundary code j

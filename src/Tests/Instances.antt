-- ===== src/Tests/Instances.antt =====
-- Runs of the EVMC instance and of the memory copy.
use evmbt.Prelude.{map, inl, ℕ, ◌≡◌, refl, List, [], ◌∷◌, none, some, replicate, inr, arith}
use evmbt.Machine.Defs.{
  Result, Message, Instance, engine_status, internal_error, failed, make_code_id, execute_all,
  set_option, option_success, verbose,
}
use evmbt.Memcpy.Defs.{memcpy}
use evmbt.Memcpy.Copied.{IsCopy, memcpy-IsCopy}
use evmbt.Machine.Failing.{last_msg, execute_all-internal_error}
use evmbt.Machine.CodeId.{read_bytes, read_bytes-make_code_id}

read_bytes-make_code_id_example : read_bytes (make_code_id (0xde ∷ 0x0a ∷ [])) ≡ 0xde ∷ 0x0a ∷ []
read_bytes-make_code_id_example =
    read_bytes-make_code_id (0xde ∷ 0x0a ∷ []) (omega arith, (omega arith, tt))

make_code_id_run : make_code_id (0xde ∷ 0x0a ∷ []) ≡ 100 ∷ 101 ∷ 48 ∷ 97 ∷ []
unfolding make_code_id
make_code_id_run = refl

-- An engine that returns the code for its output.
abbrev echo : Message → List ℕ → Result
echo msg code = record { status = engine_status 0; output = code }

abbrev ask : Message
ask = record { destination = 0xde ∷ []; code = 0x60 ∷ [] }

abbrev fresh : Instance
fresh = record { host = none; code_map = []; current_msg = none }

execute_all-internal_error_example :
    (bt' : Instance) × (execute_all echo (map (λ msg. (7, msg)) (ask ∷ ask ∷ [])) fresh
      ≡ some (replicate 2 (failed internal_error), bt'))
    × (bt'.current_msg ≡ last_msg none (ask ∷ ask ∷ []))
execute_all-internal_error_example =
    execute_all-internal_error echo 7 (ask ∷ ask ∷ []) fresh refl (inl refl) (omega arith)

-- An execution with another host stops at the assertion.
other_host_run : execute_all echo ((7, ask) ∷ (8, ask) ∷ []) fresh ≡ none
unfolding execute_all
other_host_run = refl

set_option_run : set_option verbose (some (49 ∷ [])) ≡ option_success
unfolding set_option
set_option_run = refl

-- Every byte is its address.
abbrev ramp : ℕ → ℕ
ramp a = a

memcpy-IsCopy_example :
    (memory' : ℕ → ℕ) × (memcpy 100 7 3 ramp ≡ some memory') × IsCopy 100 7 3 ramp memory'
memcpy-IsCopy_example = memcpy-IsCopy 100 7 3 ramp (omega arith) (inr (omega arith))

-- ===== src/Tests/Effects.antt =====
-- Runs of the cases that reach the environment, with one that keeps its slots in a map.
use evmbt.Prelude.{
  true, ℕ, ◌+◌, ◌-◌, ◌%◌, ◌^◌, ◌<◌, ◌≤◌, ◌≡◌, ◌⊎◌, refl, inl, List, [], ◌∷◌, some, none, ◌==◌, ltb,
  if◌then◌else◌, arith,
}
use native.Mathlib.Nat.{mod-lt}
use evmbt.Stack.Defs.{Value}
use evmbt.Environment.Mirror.{byte}
use evmbt.Effects.Bytes.{word256, pointer, swapped}
use evmbt.Effects.Monad.{World, State, Answer, ◌>>◌, storage_load, storage_store}
use evmbt.Effects.Cases.{
  compile_mload, compile_mstore, compile_codecopy, compile_byte, compile_sload, compile_extcodesize,
  compile_extcodehash, compile_blockhash,
}
use evmbt.Effects.Calls.{Deployer, compile_call, compile_stateless, call_kind, static_kind}
use evmbt.Effects.Dispatch.{compile_effect, call_effect, mstore8_effect}
use evmbt.Effects.Stacks.{Leaves, Gives}
use evmbt.Effects.Typed.{compile_effect-Leaves}
use evmbt.Effects.Memory.{IsBigEndian, compile_mstore-IsBigEndian, compile_mload-compile_mstore}
use evmbt.Effects.Storage.{
  StorageHost, StorageOp, load_op, store_op, run_map, run_cases, Represents, run_cases-run_map,
}
use evmbt.Effects.Code.{compile_codecopy-code}
use evmbt.Effects.Element.{compile_byte-byte}
use evmbt.Effects.Refused.{extcodesize_refused}

abbrev slot_host : Answer (ℕ → ℕ)
slot_host (storage_load k) w = (w.host k % 2 ^ 256, w)
slot_host (storage_store k v) w = (0, record w { host = λ k'. if k' == k then v else w.host k' })
slot_host c w = (5, w)

abbrev slot_StorageHost : StorageHost slot_host
slot_StorageHost = record {
  slots = λ h k. h k % 2 ^ 256;
  slots_fit = λ h k. mod-lt (h k) (omega arith);
  load_lem = λ k w. refl;
  store_lem = λ k v w k' l. ground arith;
}

abbrev start : World (ℕ → ℕ)
start = record { memory = λ a. 0; memory_size = 0; host = λ k. 0 }

abbrev no_deployer : Deployer
no_deployer = record { ret_pc = 0; runtime_base = 0; runtime_size = 0 }

compile_byte_run :
    compile_byte (record { stack = word256 30 ∷ word256 0x0102 ∷ []; world = start })
    ≡ some (tt, record { stack = word256 1 ∷ []; world = start })
unfolding compile_byte swapped
compile_byte_run = refl

abbrev call_stack : List Value
call_stack =
    word256 9
    ∷ word256 8
    ∷ word256 7
    ∷ word256 6
    ∷ word256 5
    ∷ word256 4
    ∷ word256 3
    ∷ word256 2
    ∷ []

compile_effect-Leaves_example :
    ((call_effect ≡ mstore8_effect true)
      × (compile_effect slot_host 0 no_deployer 0 call_effect
            (record { stack = call_stack; world = start })
          ≡ none))
    ⊎ Gives
        (λ (s : State (ℕ → ℕ)). Leaves call_effect call_stack s.stack)
        (compile_effect slot_host 0 no_deployer 0 call_effect
          (record { stack = call_stack; world = start }))
compile_effect-Leaves_example =
    compile_effect-Leaves slot_host 0 no_deployer 0 call_effect
      (record { stack = call_stack; world = start })
      (refl, (refl, (refl, (refl, (refl, (refl, (refl, (refl, tt))))))))

compile_mstore-IsBigEndian_example :
    (memory : ℕ → ℕ) × (compile_mstore
        (record { stack = word256 64 ∷ word256 0x0102 ∷ []; world = start })
      ≡ some (tt, record { stack = []; world = record start { memory = memory } }))
    × IsBigEndian 0x0102 (pointer (word256 64)) memory
    × ((a : ℕ)
        → (a < pointer (word256 64)) ⊎ (pointer (word256 64) + 32 ≤ a)
        → memory a ≡ start.memory a)
compile_mstore-IsBigEndian_example = compile_mstore-IsBigEndian (word256 64) 0x0102 [] start

compile_mload-compile_mstore_example :
    (w' : World (ℕ → ℕ)) × ((compile_mstore >> compile_mload)
        (record { stack = word256 64 ∷ word256 0x0102 ∷ word256 (2 ^ 32 + 64) ∷ []; world = start })
      ≡ some (tt, record { stack = word256 0x0102 ∷ []; world = w' }))
compile_mload-compile_mstore_example =
    compile_mload-compile_mstore (word256 64) (word256 (2 ^ 32 + 64)) 0x0102 [] start refl
      (omega arith)

swapped_zero : swapped 32 0 ≡ 0
unfolding swapped
swapped_zero = refl

abbrev storage_ops : List StorageOp
storage_ops = store_op 1 7 ∷ load_op 1 ∷ load_op 2 ∷ []

run_cases-run_map_example :
    (s' : State (ℕ → ℕ)) × (run_cases slot_host storage_ops
        (record { stack = word256 3 ∷ []; world = start })
      ≡ some ((run_map storage_ops (λ k. 0)).0, s'))
    × (s'.stack ≡ word256 3 ∷ [])
    × Represents slot_StorageHost s'.world.host (run_map storage_ops (λ k. 0)).1
run_cases-run_map_example =
    run_cases-run_map slot_StorageHost storage_ops
      (record { stack = word256 3 ∷ []; world = start }) (λ k. 0)
      ((omega arith, omega arith), (omega arith, (omega arith, tt))) (λ k l. swapped_zero)

-- A code of 4 bytes at the address 1000, where every byte of the memory is its address.
abbrev counted : World (ℕ → ℕ)
counted = record start { memory = λ a. a }

compile_codecopy-code_example :
    (memory : ℕ → ℕ) × (compile_codecopy 1000
        (record { stack = word256 64 ∷ word256 1 ∷ word256 2 ∷ []; world = counted })
      ≡ some (tt, record { stack = []; world = record counted { memory = memory } }))
    × ((i : ℕ) → i < 2 → memory (pointer (word256 64) + i) ≡ 1000 + (1 + i))
    × ((a : ℕ) → (a < pointer (word256 64)) ⊎ (pointer (word256 64) + 2 ≤ a) → memory a ≡ a)
compile_codecopy-code_example =
    compile_codecopy-code (λ i. 1000 + i) 1000 4 (word256 64) 1 2 [] counted (omega arith)
      (λ i l. refl) (omega arith) (inl (omega arith))

compile_byte-byte_example :
    compile_byte (record { stack = word256 31 ∷ word256 0x0102 ∷ []; world = start })
    ≡ some (
      tt,
      record {
        stack = word256 (if ltb 31 32 then byte (31 - 31) 0x0102 else 0) ∷ [];
        world = start;
      },
    )
compile_byte-byte_example = compile_byte-byte 31 0x0102 [] start

-- The size of a code as the gas of a call.
extcodesize_refused_example :
    ((compile_extcodesize slot_host >> compile_sload slot_host)
        (record { stack = word256 5 ∷ []; world = start })
      ≡ none)
    × ((compile_extcodehash slot_host >> compile_sload slot_host)
          (record { stack = word256 5 ∷ []; world = start })
        ≡ none)
    × ((compile_extcodesize slot_host >> compile_blockhash slot_host)
          (record { stack = word256 5 ∷ []; world = start })
        ≡ none)
    × ((compile_extcodesize slot_host >> compile_call slot_host call_kind)
          (record { stack = word256 5 ∷ []; world = start })
        ≡ none)
    × ((compile_extcodesize slot_host >> compile_stateless slot_host static_kind)
          (record { stack = word256 5 ∷ []; world = start })
        ≡ none)
extcodesize_refused_example = extcodesize_refused slot_host 5 [] start call_kind static_kind

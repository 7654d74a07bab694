-- ===== src/Tests/Host.antt =====
-- Runs of the environment cases on the evaluator, with a host that has the number 5 for all.
use evmbt.Prelude.{false, ◌⊎◌, ◌*◌, ◌^◌, ◌<◌, ◌≡◌, refl, [], ◌∷◌, none, some, arith}
use evmbt.Lift.Evaluate.{Evaluated, evaluator}
use evmbt.Lift.Lawful.{evaluator-Semantics, evaluated}
use evmbt.Environment.Defs.{
  HostFunction, number_width, Eei, bswap256, emit_endian_convert, compile_environment, caller_ins,
  pc_ins, get_gas_left, get_address, get_caller, get_tx_origin, get_block_coinbase,
  get_tx_gas_price, get_block_difficulty, get_block_gas_limit, get_chain_id, get_self_balance,
  get_basefee, get_block_number, get_block_timestamp, get_call_value, get_call_data_size,
  get_return_data_size,
}
use evmbt.Environment.Mirror.{mirrored}
use evmbt.Environment.Convert.{emit_endian_convert-mirrored}
use evmbt.Environment.Reverse.{bswap256-mirrored, bswap256-twice}
use evmbt.Environment.Pushed.{HostSemantics, pushed_width, pushed_number, compile_environment-Is}

abbrev word : Evaluated
word = record { bits = 256; number = some 0x0102; constant = false }

-- The byte swap of a number that has two bytes.
bswap256_back : evaluator-Semantics.Is (bswap256 evaluator (bswap256 evaluator word)) 256 0x0102
bswap256_back = bswap256-twice evaluator-Semantics word 0x0102 (evaluated 256 0x0102 (omega arith))

bswap256-mirrored_example :
    evaluator-Semantics.Is (bswap256 evaluator word) 256 (mirrored 31 32 0x0102)
bswap256-mirrored_example =
    bswap256-mirrored evaluator-Semantics word 0x0102 (evaluated 256 0x0102 (omega arith))

bswap256_run :
    (bswap256 evaluator (record { bits = 256; number = some 0x0102; constant = false })).number
    ≡ some (0x0201 * 2 ^ 240)
unfolding bswap256
bswap256_run = refl

abbrev five_host : Eei Evaluated
five_host = record {
  query = λ f w. record { bits = w; number = some 5; constant = false };
  call = λ f. record { bits = number_width f; number = some 5; constant = false };
  swapped_constant = λ v. none;
}

five_fits : (f : HostFunction) → 5 < 2 ^ number_width f
five_fits get_gas_left = omega arith
five_fits get_address = omega arith
five_fits get_caller = omega arith
five_fits get_tx_origin = omega arith
five_fits get_block_coinbase = omega arith
five_fits get_tx_gas_price = omega arith
five_fits get_block_difficulty = omega arith
five_fits get_block_gas_limit = omega arith
five_fits get_chain_id = omega arith
five_fits get_self_balance = omega arith
five_fits get_basefee = omega arith
five_fits get_block_number = omega arith
five_fits get_block_timestamp = omega arith
five_fits get_call_value = omega arith
five_fits get_call_data_size = omega arith
five_fits get_return_data_size = omega arith

abbrev five_Semantics : HostSemantics evaluator-Semantics five_host
five_Semantics = record {
  host = λ f. 5;
  host_fits = five_fits;
  query_lem = λ f. evaluated (number_width f) 5 (five_fits f);
  call_lem = λ f. evaluated (number_width f) 5 (five_fits f);
  query_variable = λ f w. refl;
}

compile_environment-Is_example :
    ((caller_ins ≡ pc_ins) × (compile_environment evaluator five_host 100 7 caller_ins [] ≡ none))
    ⊎ ((v : Evaluated) × (compile_environment evaluator five_host 100 7 caller_ins []
          ≡ some (v ∷ []))
        × evaluator-Semantics.Is v
            (pushed_width caller_ins)
            (pushed_number five_Semantics.host 100 caller_ins))
compile_environment-Is_example =
    compile_environment-Is evaluator-Semantics five_host five_Semantics 100 7 caller_ins []
      (omega arith)

-- A value of two bytes.
emit_endian_convert-mirrored_example :
    (v' : Evaluated) × (emit_endian_convert evaluator five_host
        (record { bits = 16; number = some 0x0102; constant = false })
      ≡ some v')
    × evaluator-Semantics.Is v' (2 * 8) (mirrored 1 2 0x0102)
emit_endian_convert-mirrored_example =
    emit_endian_convert-mirrored evaluator-Semantics five_host
      (record { bits = 16; number = some 0x0102; constant = false }) 2 0x0102 refl (omega arith)
      (omega arith) (evaluated 16 0x0102 (omega arith))

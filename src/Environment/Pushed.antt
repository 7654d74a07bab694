-- ===== src/Environment/Pushed.antt =====
-- What the environment cases of `compileBasicBlock` push.
use evmbt.Prelude.{
  ◌⊎◌, inl, inr, ap, none, some, ℕ, ◌%◌, ◌^◌, ◌<◌, ◌≡◌, refl, subst, List, ◌∷◌, arith,
}
use evmbt.Lift.Interface.{Builder, Semantics}
use evmbt.Environment.Mirror.{mirrored}
use evmbt.Environment.Convert.{emit_endian_convert-mirrored}
use evmbt.Environment.Defs.{
  HostFunction, number_width, Eei, EnvironmentInstruction, environment_value, compile_environment,
  pushed, widened, emit_endian_convert, get_gas_left, get_address, get_caller, get_tx_origin,
  get_block_coinbase, get_tx_gas_price, get_block_difficulty, get_block_gas_limit, get_chain_id,
  get_self_balance, get_basefee, get_block_number, get_block_timestamp, get_call_value,
  get_call_data_size, get_return_data_size, gas_ins, address_ins, caller_ins, origin_ins,
  coinbase_ins, gasprice_ins, difficulty_ins, gaslimit_ins, chainid_ins, selfbalance_ins,
  basefee_ins, number_ins, timestamp_ins, callvalue_ins, calldatasize_ins, returndatasize_ins,
  codesize_ins, pc_ins,
}

-- The numbers that the host has: each fits its width, and a call or a load gives it.
pub record HostSemantics {Val : Type 0} {B : Builder Val} (S : Semantics B) (E : Eei Val)
    : Type 0 where
  pub host : HostFunction → ℕ
  pub host_fits : (f : HostFunction) → host f < 2 ^ number_width f
  pub query_lem : (f : HostFunction) → S.Is (E.query f (number_width f)) (number_width f) (host f)
  pub call_lem : (f : HostFunction) → S.Is (E.call f) (number_width f) (host f)
  -- A load is no constant.
  pub query_variable : (f : HostFunction) (w : ℕ) → E.swapped_constant (E.query f w) ≡ none

-- The width of the value that is pushed: not each is a word. PC pushes none.
abbrev pub pushed_width : EnvironmentInstruction → ℕ
pushed_width gas_ins = 256
pushed_width address_ins = 256
pushed_width caller_ins = 256
pushed_width origin_ins = 256
pushed_width coinbase_ins = 256
pushed_width gasprice_ins = 256
pushed_width difficulty_ins = 256
pushed_width gaslimit_ins = 256
pushed_width chainid_ins = 256
pushed_width selfbalance_ins = 128
pushed_width basefee_ins = 256
pushed_width number_ins = 256
pushed_width timestamp_ins = 256
pushed_width callvalue_ins = 128
pushed_width calldatasize_ins = 32
pushed_width returndatasize_ins = 32
pushed_width codesize_ins = 32
pushed_width pc_ins = 256

-- The number that the instruction is to push; PC pushes none.
abbrev pub pushed_number : (HostFunction → ℕ) → ℕ → EnvironmentInstruction → ℕ
pushed_number host size gas_ins = host get_gas_left
pushed_number host size address_ins = host get_address
pushed_number host size caller_ins = mirrored 19 20 (host get_caller)
pushed_number host size origin_ins = mirrored 19 20 (host get_tx_origin)
pushed_number host size coinbase_ins = host get_block_coinbase
pushed_number host size gasprice_ins = host get_tx_gas_price
pushed_number host size difficulty_ins = host get_block_difficulty
pushed_number host size gaslimit_ins = host get_block_gas_limit
pushed_number host size chainid_ins = host get_chain_id
pushed_number host size selfbalance_ins = host get_self_balance
pushed_number host size basefee_ins = host get_basefee
pushed_number host size number_ins = host get_block_number
pushed_number host size timestamp_ins = host get_block_timestamp
pushed_number host size callvalue_ins = host get_call_value
pushed_number host size calldatasize_ins = host get_call_data_size
pushed_number host size returndatasize_ins = host get_return_data_size
pushed_number host size codesize_ins = size
pushed_number host size pc_ins = 0

-- CALLER and ORIGIN
converted-Is :
    {Val : Type 0} {B : Builder Val} (S : Semantics B) (E : Eei Val) (H : HostSemantics S E)
    (f : HostFunction) (stack : List Val)
    → number_width f ≡ 160
    → (v : Val) × (pushed B E (widened B E (emit_endian_convert B E (E.query f 160))) stack
        ≡ some (v ∷ stack))
      × S.Is v 256 (mirrored 19 20 (H.host f))
converted-Is {B = B} S E H f stack w =
    let is : S.Is (E.query f 160) 160 (H.host f) =
      subst (λ k. S.Is (E.query f k) k (H.host f)) w (H.query_lem f) in
    let r =
      emit_endian_convert-mirrored S E (E.query f 160) 20 (H.host f) (H.query_variable f 160)
        (omega arith) (omega arith) is in
    (
      B.zext r.0 256,
      ap (λ o. pushed B E (widened B E o) stack) r.1,
      S.zext_lem r.0 160 256 _ r.2 (omega arith),
    )

-- In a code of fewer than 2^32 bytes, each environment case but PC pushes one value, the host's
-- number (for CALLER and ORIGIN with its 20 bytes in the opposite order; for CODESIZE the code's
-- size): a word, or for CALLVALUE and SELFBALANCE a value of 128 bits and for the three sizes one of
-- 32. The PC case is not compiled: it stops at an assertion.
pub compile_environment-Is :
    {Val : Type 0} {B : Builder Val} (S : Semantics B) (E : Eei Val) (H : HostSemantics S E)
    (size pc : ℕ) (ins : EnvironmentInstruction) (stack : List Val)
    → size < 2 ^ 32
    → ((ins ≡ pc_ins) × (compile_environment B E size pc ins stack ≡ none))
      ⊎ ((v : Val) × (compile_environment B E size pc ins stack ≡ some (v ∷ stack))
          × S.Is v (pushed_width ins) (pushed_number H.host size ins))
unfolding compile_environment environment_value
compile_environment-Is S E H size pc gas_ins stack h =
    inr (_, refl, S.zext_lem _ 64 256 _ (H.call_lem get_gas_left) (omega arith))
compile_environment-Is S E H size pc address_ins stack h =
    inr (_, refl, S.zext_lem _ 160 256 _ (H.query_lem get_address) (omega arith))
compile_environment-Is S E H size pc caller_ins stack h =
    inr (converted-Is S E H get_caller stack refl)
compile_environment-Is S E H size pc origin_ins stack h =
    inr (converted-Is S E H get_tx_origin stack refl)
compile_environment-Is S E H size pc coinbase_ins stack h =
    inr (_, refl, S.zext_lem _ 160 256 _ (H.query_lem get_block_coinbase) (omega arith))
compile_environment-Is S E H size pc gasprice_ins stack h =
    inr (_, refl, S.zext_lem _ 128 256 _ (H.query_lem get_tx_gas_price) (omega arith))
compile_environment-Is S E H size pc difficulty_ins stack h =
    inr (_, refl, H.query_lem get_block_difficulty)
compile_environment-Is S E H size pc gaslimit_ins stack h =
    inr (_, refl, S.zext_lem _ 64 256 _ (H.call_lem get_block_gas_limit) (omega arith))
compile_environment-Is S E H size pc chainid_ins stack h =
    inr (_, refl, S.zext_lem _ 64 256 _ (H.call_lem get_chain_id) (omega arith))
compile_environment-Is S E H size pc selfbalance_ins stack h =
    inr (_, refl, H.query_lem get_self_balance)
compile_environment-Is S E H size pc basefee_ins stack h =
    inr (_, refl, S.zext_lem _ 64 256 _ (H.call_lem get_basefee) (omega arith))
compile_environment-Is S E H size pc number_ins stack h =
    inr (_, refl, S.zext_lem _ 64 256 _ (H.call_lem get_block_number) (omega arith))
compile_environment-Is S E H size pc timestamp_ins stack h =
    inr (_, refl, S.zext_lem _ 64 256 _ (H.call_lem get_block_timestamp) (omega arith))
compile_environment-Is S E H size pc callvalue_ins stack h =
    inr (_, refl, H.query_lem get_call_value)
compile_environment-Is S E H size pc calldatasize_ins stack h =
    inr (_, refl, H.call_lem get_call_data_size)
compile_environment-Is S E H size pc returndatasize_ins stack h =
    inr (_, refl, H.call_lem get_return_data_size)
compile_environment-Is {B = B} S E H size pc codesize_ins stack h =
    let small : size ≡ size % 2 ^ 32 = omega arith in
    inr (_, refl, subst (λ k. S.Is (B.const 32 k) 32 size) small (S.const_lem 32 size h))
compile_environment-Is S E H size pc pc_ins stack h = inl (refl, refl)

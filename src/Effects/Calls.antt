-- ===== src/Effects/Calls.antt =====
-- The cases that create and call contracts, end the transaction or log.
use evmbt.Prelude.{ℕ, zero, suc, ◌%◌, ◌^◌, not, ◌&&◌, List, [], ◌∷◌, ◌==◌, if◌then◌else◌}
use evmbt.Stack.Defs.{Value}
use evmbt.Effects.Bytes.{word256, converted, narrow, pointer}
use evmbt.Effects.Monad.{
  Answer, HostCall, Emit, ◌>>=◌, ◌>>◌, pure, check, pop_value, push_value, ask, tell, create,
  create2, call, call_code, call_delegate, call_static, return_data_copy, finish, revert,
  self_destruct, log,
}

-- `_valided`
abbrev pub success : ℕ → Value
success r = word256 (if r % 2 ^ 32 == 0 then 1 else 0)

-- What the deployer's constructor is given: `RetPC` and `RtWasmCode`.
pub record Deployer : Type 0 where
  pub ret_pc : ℕ
  pub runtime_base : ℕ
  pub runtime_size : ℕ

pub data CallKind : Type 0 where
  call_kind : CallKind
  call_code_kind : CallKind

pub data StatelessKind : Type 0 where
  delegate_kind : StatelessKind
  static_kind : StatelessKind

abbrev pub call_func : CallKind → ℕ → ℕ → ℕ → ℕ → ℕ → HostCall
call_func call_kind = call
call_func call_code_kind = call_code

abbrev pub stateless_func : StatelessKind → ℕ → ℕ → ℕ → ℕ → HostCall
stateless_func delegate_kind = call_delegate
stateless_func static_kind = call_static

module _ {H : Type 0} (answer : Answer H) where
  unfoldable pub compile_create : Emit H (Unit {0})
  unfolding pop_value push_value
  compile_create = do
    endowment_value ← pop_value
    init_off ← pop_value
    size_value ← pop_value
    endowment ← check (narrow 128 endowment_value)
    init_size ← check (narrow 32 size_value)
    result ← ask answer (create endowment.word (pointer init_off) init_size.word)
    push_value (word256 (result % 2 ^ 160))

  unfoldable pub compile_create2 : Emit H (Unit {0})
  unfolding pop_value push_value
  compile_create2 = do
    endowment_value ← pop_value
    init_off ← pop_value
    size_value ← pop_value
    salt_value ← pop_value
    endowment ← check (narrow 128 endowment_value)
    init_size ← check (narrow 32 size_value)
    salt ← check (narrow 128 salt_value)
    result ← ask answer (create2 endowment.word (pointer init_off) init_size.word salt.word)
    push_value (word256 (result % 2 ^ 160))

  unfoldable pub compile_call : CallKind → Emit H (Unit {0})
  unfolding pop_value push_value
  compile_call kind = do
    gas_value ← pop_value
    address_value ← pop_value
    call_value ← pop_value
    in_off ← pop_value
    in_value ← pop_value
    out_off ← pop_value
    out_value ← pop_value
    call_gas ← check (narrow 64 gas_value)
    address ← check (narrow 160 address_value)
    value ← check (narrow 128 call_value)
    in_size ← check (narrow 32 in_value)
    r ← ask answer (
        call_func kind call_gas.word (converted address).word value.word (pointer in_off)
          in_size.word)
    push_value (success r)
    out_size ← check (narrow 32 out_value)
    tell answer (return_data_copy (pointer out_off) 0 out_size.word)

  unfoldable pub compile_stateless : StatelessKind → Emit H (Unit {0})
  unfolding pop_value push_value
  compile_stateless kind = do
    gas_value ← pop_value
    address_value ← pop_value
    in_off ← pop_value
    in_value ← pop_value
    out_off ← pop_value
    out_value ← pop_value
    call_gas ← check (narrow 64 gas_value)
    address ← check (narrow 160 address_value)
    in_size ← check (narrow 32 in_value)
    r ←
        ask answer
          (stateless_func kind call_gas.word (converted address).word (pointer in_off) in_size.word)
    push_value (success r)
    out_size ← check (narrow 32 out_value)
    tell answer (return_data_copy (pointer out_off) 0 out_size.word)

  -- RETURN at the instruction `pc`.
  unfoldable pub compile_return : Deployer → ℕ → Emit H (Unit {0})
  unfolding pop_value
  compile_return deployer pc = do
    index ← pop_value
    size_value ← pop_value
    size ← check (narrow 32 size_value)
    if not (deployer.ret_pc == 0) && not (deployer.runtime_size == 0) && pc == deployer.ret_pc
        then tell answer (finish (deployer.runtime_base % 2 ^ 32) (deployer.runtime_size % 2 ^ 32))
        else tell answer (finish (pointer index) size.word)

  unfoldable pub compile_revert : Emit H (Unit {0})
  unfolding pop_value
  compile_revert = do
    index ← pop_value
    size_value ← pop_value
    size ← check (narrow 32 size_value)
    tell answer (revert (pointer index) size.word)

  unfoldable pub compile_suicide : Emit H (Unit {0})
  unfolding pop_value
  compile_suicide = do dest ← pop_value; tell answer (self_destruct (pointer dest))

  -- The loop over the topics.
  unfoldable pub pop_topics : ℕ → Emit H (List ℕ)
  unfolding pop_value
  pop_topics zero = pure []
  pop_topics (suc n) = do topic ← pop_value; topics ← pop_topics n; pure (topic.word ∷ topics)

  unfoldable pub compile_log : ℕ → Emit H (Unit {0})
  unfolding pop_value pop_topics
  compile_log num_topics = do
    begin_idx ← pop_value
    bytes_value ← pop_value
    num_bytes ← check (narrow 32 bytes_value)
    topics ← pop_topics num_topics
    tell answer (log (pointer begin_idx) num_bytes.word num_topics topics)

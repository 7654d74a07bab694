-- ===== src/Effects/Monad.antt =====
-- The state behind the emitted code, and the calls of the environment that it makes.
use evmbt.Prelude.{ℕ, List, Option, none, some}
use evmbt.Stack.Defs.{Value, int256}
use evmbt.Stack.Registers.{push, pop}

-- The imported functions, with the arguments that they get. A pointer to a variable is replaced by
-- the number in the variable; the other pointers are into the linear memory.
pub data HostCall : Type 0 where
  get_gas_left : HostCall
  storage_load : ℕ → HostCall
  storage_store : ℕ → ℕ → HostCall
  get_block_hash : ℕ → HostCall
  get_external_balance : ℕ → HostCall
  get_external_code_size : ℕ → HostCall
  get_external_code_hash : ℕ → HostCall
  call_data_copy : ℕ → ℕ → ℕ → HostCall
  return_data_copy : ℕ → ℕ → ℕ → HostCall
  external_code_copy : ℕ → ℕ → ℕ → ℕ → HostCall
  -- `callDataCopy` and `returnDataCopy` to a variable
  read_call_data : ℕ → ℕ → HostCall
  read_return_data : ℕ → ℕ → HostCall
  create : ℕ → ℕ → ℕ → HostCall
  create2 : ℕ → ℕ → ℕ → ℕ → HostCall
  call : ℕ → ℕ → ℕ → ℕ → ℕ → HostCall
  call_code : ℕ → ℕ → ℕ → ℕ → ℕ → HostCall
  call_delegate : ℕ → ℕ → ℕ → ℕ → HostCall
  call_static : ℕ → ℕ → ℕ → ℕ → HostCall
  finish : ℕ → ℕ → HostCall
  revert : ℕ → ℕ → HostCall
  self_destruct : ℕ → HostCall
  log : ℕ → ℕ → ℕ → List ℕ → HostCall

-- The linear memory, the global `memory.size`, and the state of the environment.
pub record World (H : Type 0) : Type 0 where
  pub memory : ℕ → ℕ
  pub memory_size : ℕ
  pub host : H

pub record State (H : Type 0) : Type 0 where
  pub stack : List Value
  pub world : World H

-- What a call returns, or writes to the variable that it gets for its result.
abbrev pub Answer : Type 0 → Type 0
Answer H = HostCall → World H → ℕ × World H

-- A part of a case: `none` is an instruction that LLVM refuses to build.
abbrev pub Emit : Type 0 → Type 0 → Type 0
Emit H A = State H → Option (A × State H)

infixl 5 ◌>>=◌ ◌>>◌
abbrev pub ◌>>=◌ : {H A B : Type 0} → Emit H A → (A → Emit H B) → Emit H B
◌>>=◌ m f s = elim (m s) [ none ↦ none | some (a, s') ↦ f a s' ]

abbrev pub ◌>>◌ : {H B : Type 0} → Emit H (Unit {0}) → Emit H B → Emit H B
m >> k = m >>= λ _. k

module _ {H : Type 0} where
  abbrev pub pure : {A : Type 0} → A → Emit H A
  pure a s = some (a, s)

  abbrev pub check : {A : Type 0} → Option A → Emit H A
  check o s = elim o [ none ↦ none | some a ↦ some (a, s) ]

  unfoldable pub pop_value : Emit H Value
  unfolding pop
  pop_value s = let (v, rest) = pop (int256 0) s.stack in some (v, record s { stack = rest })

  unfoldable pub push_value : Value → Emit H (Unit {0})
  unfolding push
  push_value v s = some (tt, record s { stack = push v s.stack })

  abbrev pub read_memory : {A : Type 0} → ((ℕ → ℕ) → A) → Emit H A
  read_memory f s = some (f s.world.memory, s)

  abbrev pub write_memory : ((ℕ → ℕ) → ℕ → ℕ) → Emit H (Unit {0})
  write_memory f s = some (tt, record s { world = record s.world { memory = f s.world.memory } })

  abbrev pub ask : Answer H → HostCall → Emit H ℕ
  ask answer c s = let (n, w) = answer c s.world in some (n, record s { world = w })

  -- A call without a result.
  abbrev pub tell : Answer H → HostCall → Emit H (Unit {0})
  tell answer c s = some (tt, record s { world = (answer c s.world).1 })

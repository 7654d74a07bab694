-- ===== src/Machine/Defs.antt =====
-- `BTImpl`, `makeCodeId`, `nativeResult`, `execute` and `setOption`. Texts are lists of codes.
use Prim.Native.Nat.{bit_and}
use mathlib.Core.List.{reverse}
use evmbt.Prelude.{
  ℕ, ◌+◌, ◌/◌, ◌%◌, ◌^◌, List, [], ◌∷◌, Bool, true, false, ◌&&◌, ◌||◌, Option, none, some, leb, ltb,
  ◌==◌, if◌then◌else◌, ◌>>=◌,
}

-- `hexChars[n]`
abbrev pub hex_char : ℕ → ℕ
hex_char n = if ltb n 10 then 48 + n else 87 + n

-- `makeCodeId`, of the bytes of the destination.
unfoldable pub make_code_id : List ℕ → List ℕ
make_code_id [] = []
make_code_id (b ∷ bytes) = hex_char (b / 2 ^ 4) ∷ hex_char (bit_and b 0xf) ∷ make_code_id bytes

-- `std::string`'s comparison.
unfoldable pub same_text : List ℕ → List ℕ → Bool
same_text [] [] = true
same_text [] (d ∷ ds) = false
same_text (c ∷ cs) [] = false
same_text (c ∷ cs) (d ∷ ds) = c == d && same_text cs ds

-- `CodeMapEntry`, with the bytes of a `codeGenResult` for its address.
pub record CodeMapEntry : Type 0 where
  pub func : Option (List ℕ)
  pub hits : ℕ

abbrev pub CodeMap : Type 0
CodeMap = List (List ℕ × CodeMapEntry)

-- `++entry.hits`, on a `size_t`.
abbrev pub hit : CodeMapEntry → CodeMapEntry
hit entry = record entry { hits = (entry.hits + 1) % 2 ^ 64 }

-- `BTImpl::getExecFunc`: the entry behind the hit, and the map with it.
unfoldable pub get_exec_func : List ℕ → CodeMap → CodeMapEntry × CodeMap
unfolding same_text
get_exec_func id [] =
    let entry = hit (record { func = none; hits = 0 }) in (entry, (id, entry) ∷ [])
get_exec_func id (row ∷ rows) =
    let rest = get_exec_func id rows in
    if same_text row.0 id then (hit row.1, (row.0, hit row.1) ∷ rows) else (rest.0, row ∷ rest.1)

-- `BTImpl::mapExecFunc`
unfoldable pub map_exec_func : List ℕ → List ℕ → CodeMap → CodeMap
unfolding same_text
map_exec_func id func [] = (id, record { func = some func; hits = 0 }) ∷ []
map_exec_func id func (row ∷ rows) =
    let rest = map_exec_func id func rows in
    if same_text row.0 id then (row.0, record row.1 { func = some func }) ∷ rows else row ∷ rest

-- `BTImpl::compile` returns a null pointer; its other lines are comments.
unfoldable pub compile : List ℕ → Option (List ℕ)
compile code = none

-- The status codes, and a result with its output. `engine_status` is one that the engine gives.
pub data Status : Type 0 where
  rejected : Status
  internal_error : Status
  engine_status : ℕ → Status

pub record Result : Type 0 where
  pub status : Status
  pub output : List ℕ

pub record Message : Type 0 where
  pub destination : List ℕ
  pub code : List ℕ

-- The fields of `BTImpl` that `execute` changes. A host is the address of its table of functions,
-- and `none` the null pointer.
pub record Instance : Type 0 where
  pub host : Option ℕ
  pub code_map : CodeMap
  pub current_msg : Option Message

abbrev pub hit_threshold : ℕ
hit_threshold = 0

abbrev pub failed : Status → Result
failed status = record { status = status; output = [] }

-- `nativeResult`: a copy of the output in the opposite order.
abbrev pub native_result : Result → Result
native_result result = record result { output = reverse result.output }

-- `func->getCodeSize() == 0`
abbrev pub is_empty : List ℕ → Bool
is_empty [] = true
is_empty (b ∷ bytes) = false

-- `if (!bt.host) bt.host = context->host;`
abbrev pub set_host : Option ℕ → ℕ → ℕ
set_host none host = host
set_host (some kept) host = kept

module _ (hera_execute : Message → List ℕ → Result) where
  -- The engine's run, and the return of `execute` behind it.
  unfoldable pub run_engine : ℕ → Option Message → CodeMap → Message → List ℕ → Result × Instance
  run_engine host prev_msg code_map msg func =
      let result = hera_execute msg func in
      (
        if is_empty result.output then result else native_result result,
        record { host = some host; code_map = code_map; current_msg = prev_msg },
      )

  -- What `compile` returned, for code that has no function yet.
  unfoldable pub use_compiled :
      ℕ → Option (List ℕ) → List ℕ → Message → CodeMap → Option Message → Result × Instance
  unfolding map_exec_func run_engine
  use_compiled host none id msg code_map prev_msg = (
    failed internal_error,
    record { host = some host; code_map = code_map; current_msg = some msg },
  )
  use_compiled host (some func) id msg code_map prev_msg =
      if is_empty func
      then (
        failed internal_error,
        record { host = some host; code_map = code_map; current_msg = some msg },
      )
      else run_engine host prev_msg (map_exec_func id func code_map) msg func

  -- The entry that `getExecFunc` returned.
  unfoldable pub use_entry :
      ℕ → Option (List ℕ) → ℕ → List ℕ → Message → CodeMap → Option Message → Result × Instance
  unfolding compile run_engine use_compiled
  use_entry host (some func) hits id msg code_map prev_msg =
      run_engine host prev_msg code_map msg func
  use_entry host none hits id msg code_map prev_msg =
      if leb hits hit_threshold
      then (
        failed rejected,
        record { host = some host; code_map = code_map; current_msg = some msg },
      )
      else use_compiled host (compile msg.code) id msg code_map prev_msg

  -- `execute`, with `host` for `context->host`; `none` is the assertion on it.
  unfoldable pub execute : ℕ → Message → Instance → Option (Result × Instance)
  unfolding make_code_id get_exec_func use_entry
  execute host msg bt =
      let kept = set_host bt.host host in
      let id = make_code_id msg.destination in
      let found = get_exec_func id bt.code_map in
      if kept == host
      then some (use_entry kept found.0.func found.0.hits id msg found.1 bt.current_msg)
      else none

  -- Executions one after the other, each with its host.
  unfoldable pub execute_all : List (ℕ × Message) → Instance → Option (List Result × Instance)
  unfolding execute
  execute_all [] bt = some ([], bt)
  execute_all ((host, msg) ∷ msgs) bt = do
    (result, bt') ← execute host msg bt
    (results, bt'') ← execute_all msgs bt'
    some (result ∷ results, bt'')

-- What `setOption` answers. `value` is `none` for a null pointer.
pub data SetOption : Type 0 where
  option_success : SetOption
  invalid_name : SetOption
  invalid_value : SetOption

-- "verbose"
abbrev pub verbose : List ℕ
verbose = 118 ∷ 101 ∷ 114 ∷ 98 ∷ 111 ∷ 115 ∷ 101 ∷ []

unfoldable pub set_option : List ℕ → Option (List ℕ) → SetOption
unfolding same_text
set_option name value =
    let known : SetOption = elim value [
      | none ↦ invalid_value
      | some text ↦
          if same_text text (49 ∷ []) || same_text text (48 ∷ [])
          then option_success
          else invalid_value
    ] in
    if same_text name verbose then known else invalid_name

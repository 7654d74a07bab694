-- ===== src/Machine/Failing.antt =====
-- What `execute` answers, as long as `compile` returns a null pointer.
use evmbt.Prelude.{
  beq_of_eq, map, ◌⊎◌, ◌>>=◌, ℕ, suc, ◌+◌, ◌^◌, ◌<◌, ◌≤◌, ◌≡◌, ◌∙◌, refl, sym, ap, subst, List, [],
  ◌∷◌, Option, none, some, All, length, leb, Bool-cases, inl, inr, false, replicate, arith,
}
use evmbt.Machine.Defs.{
  CodeMapEntry, CodeMap, make_code_id, get_exec_func, same_text, Result, Message, Instance,
  internal_error, set_host, failed, use_entry, execute, execute_all,
}

-- No entry has a function, and none has more than `n` hits.
abbrev pub Uncompiled : ℕ → CodeMap → Type 0
Uncompiled n rows = All (λ row. (row.1.func ≡ none) × (row.1.hits ≤ n)) rows

weaken : (n : ℕ) (rows : CodeMap) → Uncompiled n rows → Uncompiled (suc n) rows
weaken n [] u = tt
weaken n (row ∷ rows) u = ((u.0.0, omega (arith, u.0.1)), weaken n rows u.1)

-- The entry that a lookup returns, and the map it leaves.
Found : ℕ → CodeMapEntry × CodeMap → Type 0
Found n found = (found.0.func ≡ none) × (0 < found.0.hits) × Uncompiled (suc n) found.1

get_exec_func-Found :
    (n : ℕ) (id : List ℕ) (rows : CodeMap)
    → n + 1 < 2 ^ 64
    → Uncompiled n rows
    → Found n (get_exec_func id rows)
unfolding get_exec_func Found
get_exec_func-Found n id [] h u = (refl, omega arith, ((refl, omega arith), tt))
get_exec_func-Found n id (row ∷ rows) h u = elim (Bool-cases (same_text row.0 id)) [
  | inl same ↦
      rw same (u.0.0, omega (arith, u.0.1), ((u.0.0, omega (arith, u.0.1)), weaken n rows u.1))
  | inr other ↦
      let rest = get_exec_func-Found n id rows h u.1 in
      rw other (rest.0, rest.1, ((u.0.0, omega (arith, u.0.1)), rest.2))
]

-- The last of the messages, or the one before them.
abbrev pub last_msg : Option Message → List Message → Option Message
last_msg before [] = before
last_msg before (msg ∷ msgs) = last_msg (some msg) msgs

-- The instance has no host yet, or this one.
abbrev pub Fresh : ℕ → Option ℕ → Type 0
Fresh host kept = (kept ≡ none) ⊎ (kept ≡ some host)

set_host_lem : (host : ℕ) (kept : Option ℕ) → Fresh host kept → set_host kept host ≡ host
set_host_lem host none f = refl
set_host_lem host (some h) (inl e) = absurd (cc e)
set_host_lem host (some h) (inr e) = cc e

module _ (hera_execute : Message → List ℕ → Result) where
  use_entry_fails :
      (func : Option (List ℕ)) (hits : ℕ) (id : List ℕ) (msg : Message) (rows : CodeMap) (host : ℕ)
      (prev_msg : Option Message)
      → func ≡ none
      → 0 < hits
      → use_entry hera_execute host func hits id msg rows prev_msg ≡ (
        failed internal_error,
        record { host = some host; code_map = rows; current_msg = some msg },
      )
  unfolding use_entry
  use_entry_fails func hits id msg rows host prev_msg e h =
      let over : leb hits 0 ≡ false = ground arith in rw (e, over) refl

  -- What an execution with the instance's host, or with any host where it has none, leaves.
  Failed : ℕ → ℕ → Message → Result × Instance → Type 0
  Failed n host msg r =
      (r.0 ≡ failed internal_error)
      × (r.1.host ≡ some host)
      × (r.1.current_msg ≡ some msg)
      × Uncompiled (suc n) r.1.code_map

  execute_fails :
      (n host : ℕ) (msg : Message) (bt : Instance)
      → n + 1 < 2 ^ 64
      → Fresh host bt.host
      → Uncompiled n bt.code_map
      → (r : Result × Instance) × (execute hera_execute host msg bt ≡ some r) × Failed n host msg r
  unfolding execute Found Failed
  execute_fails n host msg bt h f u =
      let id = make_code_id msg.destination in
      let found = get_exec_func id bt.code_map in
      let g = get_exec_func-Found n id bt.code_map h u in
      let e =
        use_entry_fails found.0.func found.0.hits id msg found.1 host bt.current_msg g.0 g.1 in
      (
        (
          failed internal_error,
          record { host = some host; code_map = found.1; current_msg = some msg },
        ),
        rw (set_host_lem host bt.host f, beq_of_eq host host refl) (ap some e),
        (refl, refl, refl, g.2),
      )

  fails_from :
      (n host : ℕ) (msgs : List Message) (bt : Instance)
      → n + length msgs < 2 ^ 64
      → Fresh host bt.host
      → Uncompiled n bt.code_map
      → (bt' : Instance) × (execute_all hera_execute (map (λ msg. (host, msg)) msgs) bt
          ≡ some (replicate (length msgs) (failed internal_error), bt'))
        × (bt'.current_msg ≡ last_msg bt.current_msg msgs)
  unfolding execute_all Failed
  fails_from n host [] bt h f u = (bt, refl, refl)
  fails_from n host (msg ∷ msgs) bt h f u =
      let (r, run, (answer, kept, current, entries)) =
        execute_fails n host msg bt (omega arith) f u in
      let (bt', runs, last) = fails_from (suc n) host msgs r.1 (omega arith) (inr kept) entries in
      (bt', rw (run, ◌>>=◌, runs, answer) refl, last ∙ ap (λ m. last_msg m msgs) current)

  -- From an instance with no code yet, each of fewer than 2^64 executions with the host that the
  -- instance has, or with one host where it has none, answers with an internal error, whatever the
  -- engine does, and the last message stays the current one.
  pub execute_all-internal_error :
      (host : ℕ) (msgs : List Message) (bt : Instance)
      → bt.code_map ≡ []
      → Fresh host bt.host
      → length msgs < 2 ^ 64
      → (bt' : Instance) × (execute_all hera_execute (map (λ msg. (host, msg)) msgs) bt
          ≡ some (replicate (length msgs) (failed internal_error), bt'))
        × (bt'.current_msg ≡ last_msg bt.current_msg msgs)
  execute_all-internal_error host msgs bt e f h =
      fails_from 0 host msgs bt (omega (arith, h)) f (subst (Uncompiled 0) (sym e) tt)

-- ===== src/Effects/Storage.antt =====
-- SLOAD and SSTORE against a map from words to words.
use native.Mathlib.Nat.{mod-eq_of_lt}
use evmbt.Prelude.{
  ℕ, ◌%◌, ◌^◌, ◌<◌, ◌≡◌, ◌≢◌, ◌∙◌, refl, sym, ap, List, [], ◌∷◌, Option, none, some, ◌==◌,
  if◌then◌else◌, Bool-cases, inl, inr, eq_of_beq, beq_of_eq, ne_of_beq, beq_of_ne, All,
}
use evmbt.Stack.Registers.{push, pop}
use evmbt.Effects.Bytes.{word256, swapped}
use evmbt.Effects.Monad.{
  State, World, Answer, Emit, ◌>>=◌, ◌>>◌, pure, pop_value, push_value, storage_load, storage_store,
}
use evmbt.Effects.Cases.{compile_sload, compile_sstore}
use evmbt.Effects.Stacks.{swapped-lt}
use evmbt.Effects.Memory.{swapped_twice}

-- What the interface says of `storageLoad` and `storageStore`: the slots are a map of the
-- environment's state, by the numbers that stand behind the pointers.
pub record StorageHost {H : Type 0} (answer : Answer H) : Type 0 where
  pub slots : H → ℕ → ℕ
  pub slots_fit : (h : H) (k : ℕ) → slots h k < 2 ^ 256
  pub load_lem : (k : ℕ) (w : World H) → answer (storage_load k) w ≡ (slots w.host k, w)
  pub store_lem :
      (k v : ℕ) (w : World H) (k' : ℕ)
      → v < 2 ^ 256
      → slots (answer (storage_store k v) w).1.host k' ≡ (if k' == k then v else slots w.host k')

pub data StorageOp : Type 0 where
  load_op : ℕ → StorageOp
  store_op : ℕ → ℕ → StorageOp

abbrev pub FitsOp : StorageOp → Type 0
FitsOp (load_op k) = k < 2 ^ 256
FitsOp (store_op k v) = (k < 2 ^ 256) × (v < 2 ^ 256)

-- The map of the specification: what the loads give, in order, and the map behind them.
abbrev pub run_map : List StorageOp → (ℕ → ℕ) → List ℕ × (ℕ → ℕ)
run_map [] map = ([], map)
run_map (load_op k ∷ ops) map = let (vs, map') = run_map ops map in (map k ∷ vs, map')
run_map (store_op k v ∷ ops) map = run_map ops (λ k'. if k' == k then v else map k')

module _ {H : Type 0} (answer : Answer H) where
  -- The same with the cases, each on operands of its own.
  unfoldable pub run_cases : List StorageOp → Emit H (List ℕ)
  unfolding compile_sload compile_sstore push_value pop_value
  run_cases [] = pure []
  run_cases (load_op k ∷ ops) = do
    push_value (word256 k)
    compile_sload answer
    found ← pop_value
    vs ← run_cases ops
    pure (found.word ∷ vs)
  run_cases (store_op k v ∷ ops) = do
    push_value (word256 v)
    push_value (word256 k)
    compile_sstore answer
    run_cases ops

module _ {H : Type 0} {answer : Answer H} (S : StorageHost answer) where
  -- The value of a slot as the contract sees it.
  abbrev pub storage_value : H → ℕ → ℕ
  storage_value h k = swapped 32 (S.slots h (swapped 32 k))

  abbrev pub Represents : H → (ℕ → ℕ) → Type 0
  Represents h map = (k : ℕ) → k < 2 ^ 256 → storage_value h k ≡ map k

  swapped_injective :
      (k k' : ℕ) → k < 2 ^ 256 → k' < 2 ^ 256 → swapped 32 k ≡ swapped 32 k' → k ≡ k'
  swapped_injective k k' h h' e = sym (swapped_twice k h) ∙ ap (swapped 32) e ∙ swapped_twice k' h'

  after_store :
      (k v : ℕ) (w : World H) (map : ℕ → ℕ)
      → k < 2 ^ 256
      → v < 2 ^ 256
      → Represents w.host map
      → Represents
          (answer (storage_store (swapped 32 k) (swapped 32 v)) w).1.host
          (λ k'. if k' == k then v else map k')
  after_store k v w map hk hv r k' hk' =
      ap (swapped 32) (S.store_lem (swapped 32 k) (swapped 32 v) w (swapped 32 k') (swapped-lt v))
      ∙ elim (Bool-cases (k' == k)) [
        | inl same ↦
            rw
              (
                same,
                beq_of_eq (swapped 32 k') (swapped 32 k) (ap (swapped 32) (eq_of_beq k' k same)),
              )
              (swapped_twice v hv)
        | inr other ↦
            let apart : swapped 32 k' ≢ swapped 32 k =
              λ e. ne_of_beq k' k other (swapped_injective k' k hk' hk e) in
            rw (other, beq_of_ne (swapped 32 k') (swapped 32 k) apart) (r k' hk')
      ]

  -- What the load puts before the results of the other operations.
  abbrev collect : ℕ → Option (List ℕ × State H) → Option (List ℕ × State H)
  collect n none = none
  collect n (some (vs, s)) = some (swapped 32 (n % 2 ^ 256) ∷ vs, s)

  load_step :
      (k : ℕ) (ops : List StorageOp) (s : State H) (vs : List ℕ) (s' : State H)
      → run_cases answer ops s ≡ some (vs, s')
      → run_cases answer (load_op k ∷ ops) s ≡ some (storage_value s.world.host k ∷ vs, s')
  unfolding run_cases compile_sload push_value pop_value push pop
  load_step k ops s vs s' e =
      ap (λ r. collect r.0 (run_cases answer ops (record s { world = r.1 })))
        (S.load_lem (swapped 32 k) s.world)
      ∙ ap (collect (S.slots s.world.host (swapped 32 k))) e
      ∙ ap (λ n. some (swapped 32 n ∷ vs, s'))
          (mod-eq_of_lt (S.slots_fit s.world.host (swapped 32 k)))

  -- Every sequence of loads and stores gives what the map gives, leaves the rest of the stack as it
  -- was, and ends in slots that stand for the map that the sequence ends in.
  pub run_cases-run_map :
      (ops : List StorageOp) (s : State H) (map : ℕ → ℕ)
      → All FitsOp ops
      → Represents s.world.host map
      → (s' : State H) × (run_cases answer ops s ≡ some ((run_map ops map).0, s'))
        × (s'.stack ≡ s.stack)
        × Represents s'.world.host (run_map ops map).1
  unfolding run_cases compile_sstore push_value pop_value push pop
  run_cases-run_map [] s map h r = (s, refl, refl, r)
  run_cases-run_map (load_op k ∷ ops) s map h r =
      let later = run_cases-run_map ops s map h.1 r in
      (
        later.0,
        load_step k ops s (run_map ops map).0 later.0 later.1
            ∙ ap (λ v. some (v ∷ (run_map ops map).0, later.0)) (r k h.0),
        later.2,
        later.3,
      )
  run_cases-run_map (store_op k v ∷ ops) s map h r =
      run_cases-run_map ops
        (record s { world = (answer (storage_store (swapped 32 k) (swapped 32 v)) s.world).1 })
        (λ k'. if k' == k then v else map k') h.1 (after_store k v s.world map h.0.0 h.0.1 r)

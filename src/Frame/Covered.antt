-- ===== src/Frame/Covered.antt =====
-- Every block is compiled once.
use evmbt.Prelude.{
  ℕ, zero, suc, ◌+◌, ◌<◌, ◌≤◌, ◌≡◌, ◌∙◌, refl, ap, subst, List, [], ◌∷◌, ◌++◌, true, false, Option,
  some, ltb, ◌==◌, eq_of_beq, ne_of_beq, beq_of_ne, Bool-cases, inl, inr, All, if◌then◌else◌, ◌>>=◌,
  arith,
}
use evmbt.Frame.Walk.{count_of, mark, InRange, walk_loop-Returns, pending_start}
use evmbt.Frame.Order.{
  is_visited, Compiled, wait_for, walk_loop, rest_loop, edge_count, compile_order,
}

module _ {A : Type 0} (view : ℕ → List A → List A) (bbs_to : ℕ → List (Option ℕ)) where
  rest_seen :
      (n idx : ℕ) (visited : List (Option ℕ))
      → is_visited visited (some idx) ≡ true
      → rest_loop view bbs_to (suc n) idx visited ≡ rest_loop view bbs_to n (suc idx) visited
  unfolding rest_loop
  rest_seen n idx visited h = rw h refl

  rest_fresh :
      (n idx : ℕ) (visited : List (Option ℕ))
      → is_visited visited (some idx) ≡ false
      → rest_loop view bbs_to (suc n) idx visited
        ≡ record { block = idx; pstack = [] } ∷ rest_loop view bbs_to n (suc idx) visited
  unfolding rest_loop
  rest_fresh n idx visited h = rw h refl

  -- The second loop compiles the blocks of its range that are not visited.
  count_below :
      (n idx i : ℕ) (visited : List (Option ℕ))
      → i < idx
      → count_of i (rest_loop view bbs_to n idx visited) ≡ 0
  unfolding rest_loop
  count_below zero idx i visited h = refl
  count_below (suc n) idx i visited h = elim (Bool-cases (is_visited visited (some idx))) [
    | inl seen ↦
        ap (λ cs. count_of i cs) (rest_seen n idx visited seen)
        ∙ count_below n (suc idx) i visited (omega arith)
    | inr fresh ↦
        let other : (idx == i) ≡ false = beq_of_ne idx i (λ e. omega (arith, e)) in
        ap (λ cs. count_of i cs) (rest_fresh n idx visited fresh)
        ∙ rw other (omega (arith, count_below n (suc idx) i visited (omega arith)))
  ]

  count_above :
      (n idx i : ℕ) (visited : List (Option ℕ))
      → idx + n ≤ i
      → count_of i (rest_loop view bbs_to n idx visited) ≡ 0
  unfolding rest_loop
  count_above zero idx i visited h = refl
  count_above (suc n) idx i visited h = elim (Bool-cases (is_visited visited (some idx))) [
    | inl seen ↦
        ap (λ cs. count_of i cs) (rest_seen n idx visited seen)
        ∙ count_above n (suc idx) i visited (omega arith)
    | inr fresh ↦
        let other : (idx == i) ≡ false = beq_of_ne idx i (λ e. omega (arith, e)) in
        ap (λ cs. count_of i cs) (rest_fresh n idx visited fresh)
        ∙ rw other (omega (arith, count_above n (suc idx) i visited (omega arith)))
  ]

  count_inside :
      (n idx i : ℕ) (visited : List (Option ℕ))
      → idx ≤ i
      → i < idx + n
      → count_of i (rest_loop view bbs_to n idx visited) + mark visited i ≡ 1
  unfolding rest_loop
  count_inside zero idx i visited h k = absurd (omega arith)
  count_inside (suc n) idx i visited h k = elim (Bool-cases (idx == i)) [
    | inl e ↦
        let same : idx ≡ i = eq_of_beq idx i e in
        let below = count_below n (suc idx) i visited (omega (arith, same)) in
        elim (Bool-cases (is_visited visited (some idx))) [
          | inl seen ↦
              let here : is_visited visited (some i) ≡ true =
                subst (λ j. is_visited visited (some j) ≡ true) same seen in
              ap (λ cs. count_of i cs + mark visited i) (rest_seen n idx visited seen)
              ∙ rw here (omega (arith, below))
          | inr fresh ↦
              let here : is_visited visited (some i) ≡ false =
                subst (λ j. is_visited visited (some j) ≡ false) same fresh in
              ap (λ cs. count_of i cs + mark visited i) (rest_fresh n idx visited fresh)
              ∙ rw (here, e) (omega (arith, below))
        ]
    | inr e ↦
        let inside =
          count_inside n (suc idx) i visited (omega (arith, ne_of_beq idx i e)) (omega arith) in
        elim (Bool-cases (is_visited visited (some idx))) [
          | inl seen ↦
              ap (λ cs. count_of i cs + mark visited i) (rest_seen n idx visited seen) ∙ inside
          | inr fresh ↦
              ap (λ cs. count_of i cs + mark visited i) (rest_fresh n idx visited fresh)
              ∙ rw e (omega (arith, inside))
        ]
  ]

  count-append :
      (i : ℕ) (cs ds : List (Compiled A)) → count_of i (cs ++ ds) ≡ count_of i cs + count_of i ds
  count-append i [] ds = omega arith
  count-append i (c ∷ cs) ds = omega (arith, count-append i cs ds)

  compile_order_walk :
      (n : ℕ) (walk : List (Compiled A) × List (Option ℕ))
      → walk_loop view bbs_to
          (2 + edge_count view bbs_to n)
          (wait_for view bbs_to [] (some 0) ∷ [])
          []
        ≡ some walk
      → compile_order view bbs_to n ≡ some (walk.0 ++ rest_loop view bbs_to n 0 walk.1)
  unfolding compile_order
  compile_order_walk n walk e = ap (λ o. o >>= (λ w. some (w.0 ++ rest_loop view bbs_to n 0 w.1))) e

  -- Where the edges of the blocks run to blocks that exist, or to nowhere, the walk ends, and every
  -- block is compiled once, whatever local stacks the blocks leave.
  pub compile_order-once :
      (n : ℕ)
      → 0 < n
      → ((j : ℕ) → j < n → All (InRange n) (bbs_to j))
      → (order : List (Compiled A)) × (compile_order view bbs_to n ≡ some order)
        × ((i : ℕ) → count_of i order ≡ (if ltb i n then 1 else 0))
  unfolding is_visited
  compile_order-once n p t =
      let start = wait_for view bbs_to [] (some 0) ∷ [] in
      let w =
        walk_loop-Returns view bbs_to n (2 + edge_count view bbs_to n) start [] t (p, tt)
          (omega (arith, pending_start view bbs_to n)) in
      let rest = rest_loop view bbs_to n 0 w.0.1 in
      let counts = λ (i : ℕ).
        elim (Bool-cases (ltb i n))
          as (λ d. count_of i (w.0.0 ++ rest) ≡ (if ltb i n then 1 else 0)) [
            | inl lt ↦
                let inside = count_inside n 0 i w.0.1 (omega arith) (ground arith) in
                rw lt (omega (arith, count-append i w.0.0 rest, w.2 i, inside))
            | inr ge ↦
                let above : n ≤ i = ground arith in
                let none_left = count_above n 0 i w.0.1 (omega (arith, above)) in
                rw ge (omega (arith, count-append i w.0.0 rest, w.2 i, none_left, w.3 i above refl))
          ] in
      (w.0.0 ++ rest, compile_order_walk n w.0 w.1, counts)

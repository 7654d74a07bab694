-- ===== src/Frame/Walk.antt =====
-- The walk of `compileMain` over the control flow graph: it ends, and meets no block twice.
use evmbt.Prelude.{
  ℕ, zero, suc, ◌+◌, ◌<◌, ◌≤◌, ◌≡◌, ◌∙◌, refl, sym, ap, subst, List, [], ◌∷◌, ◌++◌, map, true,
  false, Option, none, some, length, length-append, ◌==◌, eq_of_beq, ne_of_beq, beq_of_ne,
  Bool-cases, inl, inr, All, All-append, if◌then◌else◌, ◌>>=◌, arith,
}
use evmbt.Frame.Order.{is_visited, Compiled, Waiting, wait_for, walk_loop, edge_count}

abbrev pub count_of : {A : Type 0} → ℕ → List (Compiled A) → ℕ
count_of i [] = 0
count_of i (c ∷ cs) = (if c.block == i then 1 else 0) + count_of i cs

-- 1 for a visited block, 0 for another.
abbrev pub mark : List (Option ℕ) → ℕ → ℕ
mark visited i = if is_visited visited (some i) then 1 else 0

abbrev pub InRange : ℕ → Option ℕ → Type 0
InRange n none = Unit
InRange n (some i) = i < n

mark_null : (visited : List (Option ℕ)) (i : ℕ) → mark (none ∷ visited) i ≡ mark visited i
unfolding is_visited
mark_null visited i = refl

mark_new :
    (visited : List (Option ℕ)) (j i : ℕ)
    → is_visited visited (some j) ≡ false
    → mark (some j ∷ visited) i ≡ (if j == i then 1 else 0) + mark visited i
unfolding is_visited
mark_new visited j i h = elim (Bool-cases (j == i)) [
  | inl e ↦
      let same : is_visited visited (some i) ≡ false =
        subst (λ k. is_visited visited (some k) ≡ false) (eq_of_beq j i e) h in
      rw (e, same) refl
  | inr e ↦ rw e (omega arith)
]

module _ {A : Type 0} (view : ℕ → List A → List A) (bbs_to : ℕ → List (Option ℕ)) where
  abbrev pub Walk : Type 0
  Walk = List (Compiled A) × List (Option ℕ)

  walk_again :
      (fuel : ℕ) (w : Waiting A) (queue : List (Waiting A)) (visited : List (Option ℕ))
      → is_visited visited w.pbb ≡ true
      → walk_loop view bbs_to (suc fuel) (w ∷ queue) visited
        ≡ walk_loop view bbs_to fuel queue visited
  unfolding walk_loop
  walk_again fuel w queue visited h = rw h refl

  walk_null :
      (fuel : ℕ) (vs : List A) (queue : List (Waiting A)) (visited : List (Option ℕ))
      → is_visited visited none ≡ false
      → walk_loop view bbs_to (suc fuel) (wait_for view bbs_to vs none ∷ queue) visited
        ≡ walk_loop view bbs_to fuel queue (none ∷ visited)
  unfolding walk_loop
  walk_null fuel vs queue visited h = rw h refl

  walk_new :
      (fuel i : ℕ) (vs : List A) (queue : List (Waiting A)) (visited : List (Option ℕ))
      (order : List (Compiled A)) (seen : List (Option ℕ))
      → is_visited visited (some i) ≡ false
      → walk_loop view bbs_to fuel
          (queue ++ map (wait_for view bbs_to (view i vs)) (bbs_to i))
          (some i ∷ visited)
        ≡ some (order, seen)
      → walk_loop view bbs_to (suc fuel) (wait_for view bbs_to vs (some i) ∷ queue) visited
        ≡ some (record { block = i; pstack = vs } ∷ order, seen)
  unfolding walk_loop
  walk_new fuel i vs queue visited order seen h e =
      rw h (ap (λ o. o >>= (λ rest. some (record { block = i; pstack = vs } ∷ rest.0, rest.1))) e)

  -- The edges of the blocks that are still to be compiled.
  unfoldable pub pending : ℕ → List (Option ℕ) → ℕ
  pending zero visited = 0
  pending (suc n) visited =
      pending n visited + (if is_visited visited (some n) then 0 else length (bbs_to n))

  pub pending_start : (n : ℕ) → pending n [] ≡ edge_count view bbs_to n
  unfolding pending edge_count is_visited
  pending_start zero = refl
  pending_start (suc n) = ap (λ k. k + length (bbs_to n)) (pending_start n)

  pending_null :
      (n : ℕ) (visited : List (Option ℕ)) → pending n (none ∷ visited) ≡ pending n visited
  unfolding pending is_visited
  pending_null zero visited = refl
  pending_null (suc n) visited =
      ap (λ k. k + (if is_visited visited (some n) then 0 else length (bbs_to n)))
        (pending_null n visited)

  -- A later block's mark does not change the sum; a block's own takes its edges away.
  pending_later :
      (n j : ℕ) (visited : List (Option ℕ))
      → n ≤ j
      → pending n (some j ∷ visited) ≡ pending n visited
  unfolding pending is_visited
  pending_later zero j visited h = refl
  pending_later (suc n) j visited h =
      let other : (j == n) ≡ false = beq_of_ne j n (λ e. omega (arith, e)) in
      rw other (
        ap (λ k. k + (if is_visited visited (some n) then 0 else length (bbs_to n)))
          (pending_later n j visited (omega arith)))

  pending_new :
      (n j : ℕ) (visited : List (Option ℕ))
      → j < n
      → is_visited visited (some j) ≡ false
      → pending n (some j ∷ visited) + length (bbs_to j) ≡ pending n visited
  unfolding pending is_visited
  pending_new zero j visited h f = absurd (omega arith)
  pending_new (suc n) j visited h f = elim (Bool-cases (j == n)) [
    | inl e ↦
        let same : j ≡ n = eq_of_beq j n e in
        let seen : is_visited visited (some n) ≡ false =
          subst (λ k. is_visited visited (some k) ≡ false) same f in
        rw (e, seen)
          (omega (
            arith,
            pending_later n j visited (omega (arith, same)),
            ap (λ k. length (bbs_to k)) same,
          ))
    | inr e ↦ rw e (omega (arith, pending_new n j visited (omega (arith, ne_of_beq j n e)) f))
  ]

  -- What a walk from `visited` on returns: it compiles the blocks that it marks, each of them once,
  -- and marks none past the last.
  abbrev pub Returns : ℕ → List (Option ℕ) → Option Walk → Type 0
  Returns n visited result =
      (walk : Walk) × (result ≡ some walk)
      × ((i : ℕ) → count_of i walk.0 + mark visited i ≡ mark walk.1 i)
      × ((i : ℕ) → n ≤ i → mark visited i ≡ 0 → mark walk.1 i ≡ 0)

  abbrev pub AllInRange : ℕ → List (Waiting A) → Type 0
  AllInRange n queue = All (λ w. InRange n w.pbb) queue

  successors-InRange :
      (n : ℕ) (vs : List A) (bs : List (Option ℕ))
      → All (InRange n) bs
      → AllInRange n (map (wait_for view bbs_to vs) bs)
  successors-InRange n vs [] h = tt
  successors-InRange n vs (b ∷ bs) h = (h.0, successors-InRange n vs bs h.1)

  length-successors :
      (vs : List A) (bs : List (Option ℕ)) → length (map (wait_for view bbs_to vs) bs) ≡ length bs
  length-successors vs [] = refl
  length-successors vs (b ∷ bs) = ap suc (length-successors vs bs)

  walk_end :
      (fuel : ℕ) (visited : List (Option ℕ))
      → walk_loop view bbs_to (suc fuel) [] visited ≡ some ([], visited)
  unfolding walk_loop
  walk_end fuel visited = refl

  -- A block that the walk has not met, given what the rest of the walk returns.
  first_visit :
      (n fuel : ℕ) (queue : List (Waiting A)) (visited : List (Option ℕ)) (b : Option ℕ)
      (vs : List A)
      → ((j : ℕ) → j < n → All (InRange n) (bbs_to j))
      → AllInRange n queue
      → suc (length queue + pending n visited) < suc fuel
      → ((queue' : List (Waiting A)) (visited' : List (Option ℕ))
          → AllInRange n queue'
          → length queue' + pending n visited' < fuel
          → Returns n visited' (walk_loop view bbs_to fuel queue' visited'))
      → is_visited visited b ≡ false
      → InRange n b
      → Returns n visited
          (walk_loop view bbs_to (suc fuel) (wait_for view bbs_to vs b ∷ queue) visited)
  first_visit n fuel queue visited none vs t q f ih fresh r =
      let rest = ih queue (none ∷ visited) q (omega (arith, pending_null n visited)) in
      (
        rest.0,
        walk_null fuel vs queue visited fresh ∙ rest.1,
        λ i. ap (λ k. count_of i rest.0.0 + k) (sym (mark_null visited i)) ∙ rest.2 i,
        λ i h k. rest.3 i h (mark_null visited i ∙ k),
      )
  first_visit n fuel queue visited (some j) vs t q f ih fresh r =
      let next = map (wait_for view bbs_to (view j vs)) (bbs_to j) in
      let size : length (queue ++ next) + pending n (some j ∷ visited) < fuel = omega (
        arith,
        length-append queue next,
        length-successors (view j vs) (bbs_to j),
        pending_new n j visited r fresh,
      ) in
      let rest =
        ih (queue ++ next) (some j ∷ visited)
          (All-append (λ w. InRange n w.pbb) queue next q
            (successors-InRange n (view j vs) (bbs_to j) (t j r)))
          size in
      (
        (record { block = j; pstack = vs } ∷ rest.0.0, rest.0.1),
        walk_new fuel j vs queue visited rest.0.0 rest.0.1 fresh rest.1,
        λ i. omega (arith, rest.2 i, mark_new visited j i fresh),
        λ i h k.
            let other : (j == i) ≡ false = beq_of_ne j i (λ e. omega (arith, e)) in
            rest.3 i h (mark_new visited j i fresh ∙ (rw other (omega (arith, k)))),
      )

  pub walk_loop-Returns :
      (n fuel : ℕ) (queue : List (Waiting A)) (visited : List (Option ℕ))
      → ((j : ℕ) → j < n → All (InRange n) (bbs_to j))
      → AllInRange n queue
      → length queue + pending n visited < fuel
      → Returns n visited (walk_loop view bbs_to fuel queue visited)
  walk_loop-Returns n zero queue visited t q f = absurd (omega arith)
  walk_loop-Returns n (suc fuel) [] visited t q f =
      (([], visited), walk_end fuel visited, λ i. omega arith, λ i h k. k)
  walk_loop-Returns n (suc fuel) (w ∷ queue) visited t q f =
      elim (Bool-cases (is_visited visited w.pbb)) [
        | inl seen ↦
            let rest = walk_loop-Returns n fuel queue visited t q.1 (omega arith) in
            (rest.0, walk_again fuel w queue visited seen ∙ rest.1, rest.2, rest.3)
        | inr fresh ↦
            first_visit n fuel queue visited w.pbb w.values t q.1 (omega arith)
              (λ queue' visited' q' f'. walk_loop-Returns n fuel queue' visited' t q' f') fresh q.0
      ]

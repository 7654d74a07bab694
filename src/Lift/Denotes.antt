-- ===== src/Lift/Denotes.antt =====
-- The relation between the compiler's stack and the EVM's, and what it is after one instruction.
use evmbt.Prelude.{ℕ, ◌<◌, ◌≢◌, ◌≡◌, ◌∙◌, sym, subst, List, [], ◌∷◌, some, arith}
use evmbt.Stack.Registers.{push, pop}
use evmbt.Lift.Interface.{Builder, Semantics}
use evmbt.Lift.Cases.{zero_word, pop_two, pop_three, widen}
use evmbt.Lift.Evm.{one_item, two_items, three_items, or_zero, evm_shift, TopTwo, TopThree}

-- A value that is defined at run time, a word, and a given number.
abbrev pub IsWord : {Val : Type 0} {B : Builder Val} → Semantics B → Val → ℕ → Type 0
IsWord S v w = S.Is v 256 w

-- The compiler's stack holds the words of the EVM's.
abbrev pub Denotes : {Val : Type 0} {B : Builder Val} → Semantics B → List Val → List ℕ → Type 0
Denotes S [] [] = Unit
Denotes S [] (w ∷ ws) = ⊥
Denotes S (v ∷ vs) [] = ⊥
Denotes S (v ∷ vs) (w ∷ ws) = IsWord S v w × Denotes S vs ws

always : (ws : List ℕ) → TopTwo (λ a b. Unit) ws
always [] = tt
always (a ∷ []) = tt
always (a ∷ b ∷ ws) = tt

pub or_zero_not : (n result : ℕ) → n ≢ 0 → or_zero n result ≡ result
or_zero_not n result h = ground arith

pub evm_shift_in : (shift past result : ℕ) → shift < 256 → evm_shift shift past result ≡ result
evm_shift_in shift past result h = ground arith

module _ {Val : Type 0} {B : Builder Val} (S : Semantics B) where
  -- Operands of two words need no extension.
  pub widen_words :
      (op : Val → Val → Val) (l r : Val) (a b : ℕ)
      → IsWord S l a
      → IsWord S r b
      → widen B op l r ≡ op l r
  widen_words op l r a b p q =
      let same : B.width l ≡ B.width r = S.width_lem l 256 a p ∙ sym (S.width_lem r 256 b q) in
      ground (arith, same)

  -- An instruction on two items, from what its body builds.
  pub two :
      (body : Val → Val → Val) (f : ℕ → ℕ → ℕ) (P : ℕ → ℕ → Type 0) (vs : List Val)
      (ws ws' : List ℕ)
      → ((l r : Val) (a b : ℕ) → IsWord S l a → IsWord S r b → P a b → IsWord S (body l r) (f a b))
      → Denotes S vs ws
      → two_items f ws ≡ some ws'
      → TopTwo P ws
      → Denotes S (pop_two B vs body) ws'
  unfolding pop push
  two body f P vs [] ws' h d e ok = absurd (cc e)
  two body f P vs (a ∷ []) ws' h d e ok = absurd (cc e)
  two body f P [] (a ∷ b ∷ ws) ws' h d e ok = absurd d
  two body f P (l ∷ []) (a ∷ b ∷ ws) ws' h d e ok = absurd d.1
  two body f P (l ∷ r ∷ vs) (a ∷ b ∷ ws) ws' h d e ok =
      let same : f a b ∷ ws ≡ ws' = cc e in
      subst (λ x. Denotes S (body l r ∷ vs) x) same (h l r a b d.0 d.1.0 ok, d.1.1)

  pub three :
      (body : Val → Val → Val → Val) (f : ℕ → ℕ → ℕ → ℕ) (P : ℕ → ℕ → ℕ → Type 0) (vs : List Val)
      (ws ws' : List ℕ)
      → ((u v x : Val) (a b c : ℕ)
          → IsWord S u a
          → IsWord S v b
          → IsWord S x c
          → P a b c
          → IsWord S (body u v x) (f a b c))
      → Denotes S vs ws
      → three_items f ws ≡ some ws'
      → TopThree P ws
      → Denotes S (pop_three B vs body) ws'
  unfolding pop push
  three body f P vs [] ws' h d e ok = absurd (cc e)
  three body f P vs (a ∷ []) ws' h d e ok = absurd (cc e)
  three body f P vs (a ∷ b ∷ []) ws' h d e ok = absurd (cc e)
  three body f P [] (a ∷ b ∷ c ∷ ws) ws' h d e ok = absurd d
  three body f P (u ∷ []) (a ∷ b ∷ c ∷ ws) ws' h d e ok = absurd d.1
  three body f P (u ∷ v ∷ []) (a ∷ b ∷ c ∷ ws) ws' h d e ok = absurd d.1.1
  three body f P (u ∷ v ∷ x ∷ vs) (a ∷ b ∷ c ∷ ws) ws' h d e ok =
      let same : f a b c ∷ ws ≡ ws' = cc e in
      subst (λ y. Denotes S (body u v x ∷ vs) y) same (h u v x a b c d.0 d.1.0 d.1.1.0 ok, d.1.1.1)

  pub one :
      (body : Val → Val) (f : ℕ → ℕ) (vs : List Val) (ws ws' : List ℕ)
      → ((v : Val) (a : ℕ) → IsWord S v a → IsWord S (body v) (f a))
      → Denotes S vs ws
      → one_item f ws ≡ some ws'
      → Denotes S (push (body (pop (zero_word B) vs).0) (pop (zero_word B) vs).1) ws'
  unfolding pop push
  one body f vs [] ws' h d e = absurd (cc e)
  one body f [] (a ∷ ws) ws' h d e = absurd d
  one body f (v ∷ vs) (a ∷ ws) ws' h d e =
      let same : f a ∷ ws ≡ ws' = cc e in
      subst (λ x. Denotes S (body v ∷ vs) x) same (h v a d.0, d.1)

  -- A body that is always defined.
  pub two_always :
      (body : Val → Val → Val) (f : ℕ → ℕ → ℕ) (vs : List Val) (ws ws' : List ℕ)
      → ((l r : Val) (a b : ℕ) → IsWord S l a → IsWord S r b → IsWord S (body l r) (f a b))
      → Denotes S vs ws
      → two_items f ws ≡ some ws'
      → Denotes S (pop_two B vs body) ws'
  two_always body f vs ws ws' h d e =
      two body f (λ a b. Unit) vs ws ws' (λ l r a b p q ok. h l r a b p q) d e (always ws)

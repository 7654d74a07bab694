-- ===== src/Lift/Mixed.antt =====
-- MUL of operands of different widths.
use evmbt.Prelude.{ℕ, ◌*◌, ◌%◌, ◌^◌, ◌≤◌, ◌≢◌, List, ◌∷◌, arith, beq_of_ne}
use evmbt.Stack.Registers.{pop}
use evmbt.Lift.Interface.{Builder, Semantics}
use evmbt.Lift.Cases.{zero_word, compile_mul}
use evmbt.Lift.Denotes.{IsWord}

-- When the two topmost values have different widths, up to 256 bits, the MUL case leaves the square
-- of the first modulo 2^256, whatever the second is.
pub compile_mul-mixed :
    {Val : Type 0} {B : Builder Val} (S : Semantics B) (l r : Val) (vs : List Val) (v w a b : ℕ)
    → S.Is l v a
    → S.Is r w b
    → v ≢ w
    → v ≤ 256
    → IsWord S (pop (zero_word B) (compile_mul B (l ∷ r ∷ vs))).0 ((a * a) % 2 ^ 256)
unfolding compile_mul pop
compile_mul-mixed {B = B} S l r vs v w a b p q differ h =
    let wide : S.Is (B.zext l 256) 256 a = S.zext_lem l v 256 a p h in
    let again : S.Is (B.zext (B.zext l 256) 256) 256 a =
      S.zext_lem (B.zext l 256) 256 256 a wide (omega arith) in
    rw (S.width_lem l v a p, S.width_lem r w b q, beq_of_ne v w differ)
      (S.mul_lem _ _ 256 a a wide again tt)

-- ===== src/Effects/Typed/Fits.antt =====
-- That a case is built, and leaves what it should; and results that fit their widths.
use native.Mathlib.Nat.{mod-lt}
use evmbt.Prelude.{ℕ, ◌%◌, ◌^◌, ◌<◌, arith}
use evmbt.Words.{one-le_pow}
use evmbt.Effects.Bytes.{loaded}
use evmbt.Effects.Monad.{State, Answer}
use evmbt.Effects.Calls.{Deployer, success}
use evmbt.Effects.Dispatch.{Effect, compile_effect}
use evmbt.Effects.Stacks.{IsWide, Fits, Leaves, Gives}

pub loaded-Fits : (w n : ℕ) → Fits (loaded w n)
loaded-Fits w n = mod-lt n (one-le_pow w)

pub address-Fits : (n : ℕ) → n % 2 ^ 160 < 2 ^ 256
address-Fits n = omega arith

pub success-Fits : (r : ℕ) → Fits (success r)
success-Fits r = ground arith

module _ {H : Type 0} (answer : Answer H) (code_base : ℕ) (deployer : Deployer) (pc : ℕ)
    (s : State H) (h : IsWide s.stack) where
  -- The case is built, and leaves what it should.
  abbrev pub Typed : Effect → Type 0
  Typed e =
      Gives (λ (s' : State H). Leaves e s.stack s'.stack)
        (compile_effect answer code_base deployer pc e s)

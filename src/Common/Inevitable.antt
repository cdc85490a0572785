-- ===== src/Common/Inevitable.antt =====
-- What every run comes to, whichever steps it takes.
use Prim.Native.Nat.{ℕ, zero, suc, ◌<◌}
use mathlib.Core.Logic.{◌⊎◌, inl, inr}
use native.Mathlib.Omega.{arith}

-- `Inevitably Step P y`: `P` holds of `y`, or there is a step from `y` and the same is true after each
-- one. So every run from `y` meets `P`, and none of them stops before or goes on for ever.
pub data Inevitably {S : Type 0} (Step : S → S → Type 0) (P : S → Type 0) : S → Type 0 where
  now : {y : S} → P y → Inevitably Step P y
  later :
      {y : S} (z : S) → Step y z → ((w : S) → Step y w → Inevitably Step P w) → Inevitably Step P y

module _ {S : Type 0} (Step : S → S → Type 0) (P I : S → Type 0) (work : S → ℕ)
    (keeps : (y z : S) → Step y z → I y → I z) (less : (y z : S) → Step y z → work z < work y)
    (moves : (y : S) → I y → P y ⊎ ((z : S) × Step y z)) where
  inevitable_within : (fuel : ℕ) (y : S) → work y < fuel → I y → Inevitably Step P y
  inevitable_within zero y l h = absurd (omega arith)
  inevitable_within (suc fuel) y l h = elim (moves y h) [
    | inl p ↦ Inevitably.now p
    | inr (z, st) ↦
        Inevitably.later z st
          (λ w s. inevitable_within fuel w (omega (arith, less y w s)) (keeps y w s h))
  ]

  -- A step relation that leaves less to do with each step, from an invariant under which it is stuck
  -- at `P` only.
  pub inevitable : (y : S) → I y → Inevitably Step P y
  inevitable y h = inevitable_within (suc (work y)) y (omega arith) h

-- What follows from what is inevitable is inevitable.
pub Inevitably-map :
    {S : Type 0} {Step : S → S → Type 0} {P Q : S → Type 0} {y : S}
    → ((z : S) → P z → Q z)
    → Inevitably Step P y
    → Inevitably Step Q y
Inevitably-map {y} f (Inevitably.now p) = Inevitably.now (f y p)
Inevitably-map f (Inevitably.later z st next) =
    Inevitably.later z st (λ w s. Inevitably-map f (next w s))

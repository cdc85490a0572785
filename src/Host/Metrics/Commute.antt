-- ===== src/Host/Metrics/Commute.antt =====
-- The operations of telemetry_metrics.cpp that take two arguments in either order: sums,
-- increments, and the lowest and highest.
use mathlib.Core.Option
use cpp_embedded_telemetry_l.Common.{
  ℕ, ◌+◌, ◌≡◌, refl, ap, arith, Bool, if◌then◌else◌, Option, none, some,
}
use cpp_embedded_telemetry_l.Common.Int.{ℤ, ◌+ℤ◌, +ℤ_parts, eq_of_parts}
use cpp_embedded_telemetry_l.Host.Metrics.{inc64, min_ℤ, max_ℤ, min_ℕ, max_ℕ}

-- Two terms of a sum in the other order.
pub +ℤ_right_comm : (x a b : ℤ) → (x +ℤ a) +ℤ b ≡ (x +ℤ b) +ℤ a
+ℤ_right_comm x a b =
    eq_of_parts ((x +ℤ a) +ℤ b) ((x +ℤ b) +ℤ a)
      (omega (arith, +ℤ_parts (x +ℤ a) b, +ℤ_parts x a, +ℤ_parts (x +ℤ b) a, +ℤ_parts x b))

pub add_right_comm : (x a b : ℕ) → x + a + b ≡ x + b + a
add_right_comm x a b = omega arith

-- The lowest and the highest.
pub min_ℤ_comm : (a b : ℤ) → min_ℤ a b ≡ min_ℤ b a
min_ℤ_comm a b = ground (arith, eq_of_parts a b)

pub max_ℤ_comm : (a b : ℤ) → max_ℤ a b ≡ max_ℤ b a
max_ℤ_comm a b = ground (arith, eq_of_parts a b)

pub min_ℤ_right_comm : (l a b : ℤ) → min_ℤ (min_ℤ l a) b ≡ min_ℤ (min_ℤ l b) a
min_ℤ_right_comm l a b = ground (arith, eq_of_parts a b, eq_of_parts l a, eq_of_parts l b)

pub max_ℤ_right_comm : (l a b : ℤ) → max_ℤ (max_ℤ l a) b ≡ max_ℤ (max_ℤ l b) a
max_ℤ_right_comm l a b = ground (arith, eq_of_parts a b, eq_of_parts l a, eq_of_parts l b)

pub min_ℕ_comm : (a b : ℕ) → min_ℕ a b ≡ min_ℕ b a
min_ℕ_comm a b = ground arith

pub max_ℕ_comm : (a b : ℕ) → max_ℕ a b ≡ max_ℕ b a
max_ℕ_comm a b = ground arith

pub min_ℕ_right_comm : (l a b : ℕ) → min_ℕ (min_ℕ l a) b ≡ min_ℕ (min_ℕ l b) a
min_ℕ_right_comm l a b = ground arith

pub max_ℕ_right_comm : (l a b : ℕ) → max_ℕ (max_ℕ l a) b ≡ max_ℕ (max_ℕ l b) a
max_ℕ_right_comm l a b = ground arith

module _ {A : Type 0} (low high : A → A → A) where
  abbrev pub next_low : Option A → A → Option A
  next_low none t = some t
  next_low (some l) t = some (low l t)

  -- The highest is set with the lowest.
  abbrev pub next_high : Option A → Option A → A → Option A
  next_high none h t = some t
  next_high (some l) h t = Option.map (λ x. high x t) h

  module _ (low_comm : (a b : A) → low a b ≡ low b a)
      (low_right_comm : (l a b : A) → low (low l a) b ≡ low (low l b) a)
      (high_comm : (a b : A) → high a b ≡ high b a)
      (high_right_comm : (l a b : A) → high (high l a) b ≡ high (high l b) a) where
    pub next_low_comm :
        (o : Option A) (a b : A) → next_low (next_low o a) b ≡ next_low (next_low o b) a
    next_low_comm none a b = ap some (low_comm a b)
    next_low_comm (some l) a b = ap some (low_right_comm l a b)

    pub next_high_comm :
        (o h : Option A) (a b : A)
        → next_high (next_low o a) (next_high o h a) b
          ≡ next_high (next_low o b) (next_high o h b) a
    next_high_comm none h a b = ap some (high_comm a b)
    next_high_comm (some l) none a b = refl
    next_high_comm (some l) (some h) a b = ap some (high_right_comm h a b)

pub bump_comm :
    (a b : Bool) (n : ℕ)
    → ◌≡◌ {A = ℕ}
        (if b then inc64 (if a then inc64 n else n) else (if a then inc64 n else n))
        (if a then inc64 (if b then inc64 n else n) else (if b then inc64 n else n))
bump_comm a b n = ground arith

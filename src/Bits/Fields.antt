-- ===== src/Bits/Fields.antt =====
-- `&` with a mask of low ones, and `|` of fields that do not overlap, as arithmetic.
use native.Mathlib.Nat.{pow-suc, one-le-pow, mod-lt, div-add-mod'}
use cpp_embedded_telemetry_l.Common.{
  ℕ, zero, suc, ◌+◌, ◌-◌, ◌*◌, ◌/◌, ◌%◌, ◌^◌, ◌≤◌, ◌<◌, bit_and, bit_or, ◌≡◌, refl, sym, ap, ◌∙◌,
  arith,
}
use cpp_embedded_telemetry_l.Bits.Step.{bit_and_step, bit_or_step}

or_zero_fuel : (n a : ℕ) → a ≤ n → bit_or a 0 ≡ a
or_zero_fuel zero a h = let e : a ≡ 0 = omega arith in rw e refl
or_zero_fuel (suc n) a h = omega (arith, bit_or_step a 0, or_zero_fuel n (a / 2) (omega arith))

pub bit_or-zero : (a : ℕ) → bit_or a 0 ≡ a
bit_or-zero a = or_zero_fuel a a (omega arith)

and_zero_fuel : (n a : ℕ) → a ≤ n → bit_and a 0 ≡ 0
and_zero_fuel zero a h = let e : a ≡ 0 = omega arith in rw e refl
and_zero_fuel (suc n) a h = omega (arith, bit_and_step a 0, and_zero_fuel n (a / 2) (omega arith))

pub bit_and-zero : (a : ℕ) → bit_and a 0 ≡ 0
bit_and-zero a = and_zero_fuel a a (omega arith)

-- `(q << k) | r` is a sum when `r` fits `k` bits.
pub bit_or_fields : (k q r : ℕ) → r < 2 ^ k → bit_or (q * 2 ^ k) r ≡ q * 2 ^ k + r
bit_or_fields zero q r h = ground (arith, bit_or-zero q)
bit_or_fields (suc k) q r h = ground (
  arith,
  bit_or_step (q * 2 ^ suc k) r,
  pow-suc 2 k,
  ap (λ (t : ℕ). q * t) (pow-suc 2 k),
  bit_or_fields k q (r / 2),
)

mask_below : (k q r : ℕ) → r < 2 ^ k → bit_and (q * 2 ^ k + r) (2 ^ k - 1) ≡ r
mask_below zero q r h = rw bit_and-zero (omega arith)
mask_below (suc k) q r h = ground (
  arith,
  bit_and_step (q * 2 ^ suc k + r) (2 ^ suc k - 1),
  pow-suc 2 k,
  ap (λ (t : ℕ). q * t) (pow-suc 2 k),
  mask_below k q (r / 2),
)

-- `a & (2 ^ k - 1)` is the remainder.
pub bit_and_mask : (k a : ℕ) → bit_and a (2 ^ k - 1) ≡ a % 2 ^ k
bit_and_mask k a =
    ap (λ (t : ℕ). bit_and t (2 ^ k - 1)) (sym (div-add-mod' a (2 ^ k)))
    ∙ mask_below k (a / 2 ^ k) (a % 2 ^ k) (mod-lt a (one-le-pow k 2 (omega arith)))

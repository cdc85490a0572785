-- ===== src/Bits/Step.antt =====
-- One equation for the lowest digit of each bit operation of the source, for all numbers. What the
-- native operations stand for counts the digits down from the first argument; a longer count
-- changes nothing.
use Prim.Native.Nat.{digits, bitwise, differ, bit_and-bitwise, bit_or-bitwise, bit_xor-bitwise}
use native.Mathlib.Decide.{dec_le}
use cpp_embedded_telemetry_l.Common.{
  ℕ, zero, suc, ◌+◌, ◌*◌, ◌/◌, ◌%◌, ◌≤◌, ◌<◌, min, max, bit_and, bit_or, bit_xor, ◌≡◌, refl, ap,
  ◌∙◌, arith,
}

module _ (rest : ℕ → ℕ) (op : ℕ → ℕ → ℕ) where
  one_more : (count x y : ℕ) → x ≤ count → digits rest op (suc count) x y ≡ digits rest op count x y
  one_more count zero y le = rest_only count
    where
      rest_only : (c : ℕ) → rest y ≡ digits rest op c zero y
      rest_only zero = refl
      rest_only (suc c) = refl
  one_more zero (suc x) y le = absurd (omega arith)
  one_more (suc count) (suc x) y le =
      ap (λ (t : ℕ). t * 2 + op (suc x % 2) (y % 2))
        (one_more count (suc x / 2) (y / 2) (omega arith))

  any_more :
      (more count x y : ℕ)
      → x ≤ count
      → count ≤ more
      → digits rest op more x y ≡ digits rest op count x y
  any_more zero count x y le grows = let e : count ≡ 0 = omega arith in rw e refl
  any_more (suc more) count x y le grows = elim (dec_le count more) [
    | yes below ↦ one_more more x y (omega arith) ∙ any_more more count x y le below
    | no above ↦ let e : count ≡ suc more = omega arith in rw e refl
  ]

  lowest_digit :
      (x y : ℕ)
      → bitwise rest op (suc x) y ≡ bitwise rest op (suc x / 2) (y / 2) * 2 + op (suc x % 2) (y % 2)
  lowest_digit x y =
      ap (λ (t : ℕ). t * 2 + op (suc x % 2) (y % 2))
        (any_more x (suc x / 2) (suc x / 2) (y / 2) (omega arith) (omega arith))

pub bit_and_step : (a b : ℕ) → bit_and a b ≡ bit_and (a / 2) (b / 2) * 2 + min (a % 2) (b % 2)
bit_and_step zero y = simp bit_and-bitwise (omega arith)
bit_and_step (suc x) y = simp bit_and-bitwise (lowest_digit (λ _. 0) min x y)

pub bit_or_step : (a b : ℕ) → bit_or a b ≡ bit_or (a / 2) (b / 2) * 2 + max (a % 2) (b % 2)
bit_or_step zero y = simp bit_or-bitwise (omega arith)
bit_or_step (suc x) y = simp bit_or-bitwise (lowest_digit (λ t. t) max x y)

differ_sum : (a b : ℕ) → a < 2 → b < 2 → differ a b ≡ (a + b) % 2
differ_sum zero b p q = omega arith
differ_sum (suc a) zero p q = omega arith
differ_sum (suc a) (suc b) p q = let e : a ≡ 0 = omega arith in rw e (omega arith)

pub bit_xor_step : (a b : ℕ) → bit_xor a b ≡ bit_xor (a / 2) (b / 2) * 2 + (a % 2 + b % 2) % 2
bit_xor_step zero y = simp bit_xor-bitwise (omega arith)
bit_xor_step (suc x) y = simp bit_xor-bitwise (
    omega (
      arith,
      lowest_digit (λ t. t) differ x y,
      differ_sum (suc x % 2) (y % 2) (omega arith) (omega arith),
    ))

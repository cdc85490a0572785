-- ===== src/Bits/Xor.antt =====
-- Exclusive or is an Abelian group on numbers, keeps the width of its arguments and commutes with
-- a shift to the right.
use native.Mathlib.Nat.{one-le-pow, pow-suc, pow-succ', div-one, mul-one, div-div-eq-div-mul}
use Prim.Native.Nat.{bit_xor-bitwise}
use cpp_embedded_telemetry_l.Common.{
  ℕ, zero, suc, ◌+◌, ◌*◌, ◌/◌, ◌%◌, ◌^◌, ◌≤◌, ◌<◌, bit_xor, ◌≡◌, refl, sym, ap, ap₂, ◌∙◌, arith,
}
use cpp_embedded_telemetry_l.Bits.Step.{bit_xor_step}

pub bit_xor-half : (a b : ℕ) → bit_xor a b / 2 ≡ bit_xor (a / 2) (b / 2)
bit_xor-half a b = omega (arith, bit_xor_step a b)

pub bit_xor-parity : (a b : ℕ) → bit_xor a b % 2 ≡ (a + b) % 2
bit_xor-parity a b = omega (arith, bit_xor_step a b)

-- Equal halves and equal parities make equal numbers.
eq_of_half : (a b : ℕ) → a / 2 ≡ b / 2 → a % 2 ≡ b % 2 → a ≡ b
eq_of_half a b h p = omega arith

comm_fuel : (n a b : ℕ) → a + b ≤ n → bit_xor a b ≡ bit_xor b a
comm_fuel zero a b h = let p : a ≡ 0 = omega arith in let q : b ≡ 0 = omega arith in rw (p, q) refl
comm_fuel (suc n) a b h =
    omega (arith, bit_xor_step a b, bit_xor_step b a, comm_fuel n (a / 2) (b / 2) (omega arith))

pub bit_xor_comm : (a b : ℕ) → bit_xor a b ≡ bit_xor b a
bit_xor_comm a b = comm_fuel (a + b) a b (omega arith)

assoc_fuel : (n a b c : ℕ) → a + b + c ≤ n → bit_xor (bit_xor a b) c ≡ bit_xor a (bit_xor b c)
assoc_fuel zero a b c h =
    let p : a ≡ 0 = omega arith in
    let q : b ≡ 0 = omega arith in let r : c ≡ 0 = omega arith in rw (p, q, r) refl
assoc_fuel (suc n) a b c h =
    eq_of_half _ _ (simp bit_xor-half (assoc_fuel n (a / 2) (b / 2) (c / 2) (omega arith))) (
      omega (
        arith,
        bit_xor-parity (bit_xor a b) c,
        bit_xor-parity a b,
        bit_xor-parity a (bit_xor b c),
        bit_xor-parity b c,
      ))

pub bit_xor_assoc : (a b c : ℕ) → bit_xor (bit_xor a b) c ≡ bit_xor a (bit_xor b c)
bit_xor_assoc a b c = assoc_fuel (a + b + c) a b c (omega arith)

self_fuel : (n a : ℕ) → a ≤ n → bit_xor a a ≡ 0
self_fuel zero a h = let p : a ≡ 0 = omega arith in rw p refl
self_fuel (suc n) a h = omega (arith, bit_xor_step a a, self_fuel n (a / 2) (omega arith))

pub bit_xor_self : (a : ℕ) → bit_xor a a ≡ 0
bit_xor_self a = self_fuel a a (omega arith)

pub zero-bit_xor : (b : ℕ) → bit_xor 0 b ≡ b
zero-bit_xor b = simp bit_xor-bitwise

pub bit_xor-zero : (a : ℕ) → bit_xor a 0 ≡ a
bit_xor-zero a = bit_xor_comm a 0 ∙ zero-bit_xor a

pub bit_xor_undo : (a b : ℕ) → bit_xor (bit_xor a b) b ≡ a
bit_xor_undo a b = bit_xor_assoc a b b ∙ rw bit_xor_self (bit_xor-zero a)

pub bit_xor_cancel : (a b c : ℕ) → bit_xor a c ≡ bit_xor b c → a ≡ b
bit_xor_cancel a b c e = sym (bit_xor_undo a c) ∙ ap (λ (t : ℕ). bit_xor t c) e ∙ bit_xor_undo b c

pub bit_xor_right_comm : (a b c : ℕ) → bit_xor (bit_xor a b) c ≡ bit_xor (bit_xor a c) b
bit_xor_right_comm a b c =
    bit_xor_assoc a b c ∙ ap (bit_xor a) (bit_xor_comm b c) ∙ sym (bit_xor_assoc a c b)

-- A width that holds both arguments holds the result.
pub bit_xor-lt : (k a b : ℕ) → a < 2 ^ k → b < 2 ^ k → bit_xor a b < 2 ^ k
bit_xor-lt zero a b p q =
    let e : a ≡ 0 = omega arith in let f : b ≡ 0 = omega arith in rw (e, f) (omega arith)
bit_xor-lt (suc k) a b p q = omega (
  arith,
  pow-suc 2 k,
  bit_xor_step a b,
  bit_xor-lt k (a / 2) (b / 2) (omega (arith, pow-suc 2 k)) (omega (arith, pow-suc 2 k)),
)

pub div-two-pow-suc : (a k : ℕ) → a / 2 ^ suc k ≡ a / 2 / 2 ^ k
div-two-pow-suc a k = rw pow-succ' (sym (div-div-eq-div-mul a 2 (2 ^ k)))

-- `(a ^ b) >> k` is `(a >> k) ^ (b >> k)`.
pub bit_xor-shift : (k a b : ℕ) → bit_xor a b / 2 ^ k ≡ bit_xor (a / 2 ^ k) (b / 2 ^ k)
bit_xor-shift zero a b = simp div-one
bit_xor-shift (suc k) a b = simp (div-two-pow-suc, bit_xor-half) (bit_xor-shift k (a / 2) (b / 2))

-- Fields that do not overlap add up.
pub bit_xor_fields : (k r q : ℕ) → r < 2 ^ k → bit_xor r (q * 2 ^ k) ≡ q * 2 ^ k + r
bit_xor_fields zero r q h = ground (arith, zero-bit_xor q)
bit_xor_fields (suc k) r q h = ground (
  arith,
  bit_xor_step r (q * 2 ^ suc k),
  pow-suc 2 k,
  ap (λ (t : ℕ). q * t) (pow-suc 2 k),
  bit_xor_fields k (r / 2) q,
)

double-bit_xor : (a b : ℕ) → bit_xor (a * 2) (b * 2) ≡ bit_xor a b * 2
double-bit_xor a b =
    let half_a : a * 2 / 2 ≡ a = omega arith in
    let half_b : b * 2 / 2 ≡ b = omega arith in
    omega (arith, bit_xor_step (a * 2) (b * 2), ap₂ bit_xor half_a half_b)

-- `(a << k) ^ (b << k)` is `(a ^ b) << k`.
pub bit_xor_times : (k a b : ℕ) → bit_xor (a * 2 ^ k) (b * 2 ^ k) ≡ bit_xor a b * 2 ^ k
bit_xor_times zero a b = ap₂ bit_xor (mul-one a) (mul-one b) ∙ sym (mul-one (bit_xor a b))
bit_xor_times (suc k) a b =
    ap₂ bit_xor (split a) (split b)
    ∙ double-bit_xor (a * 2 ^ k) (b * 2 ^ k)
    ∙ ap (λ (t : ℕ). t * 2) (bit_xor_times k a b)
    ∙ sym (split (bit_xor a b))
  where
    split : (n : ℕ) → n * 2 ^ suc k ≡ n * 2 ^ k * 2
    split n = omega (arith, ap (λ (t : ℕ). n * t) (pow-suc 2 k))

pub two_pow-add : (a b : ℕ) → 2 ^ (a + b) ≡ 2 ^ a * 2 ^ b
two_pow-add a zero = let e : a + 0 ≡ a = omega arith in rw e (omega arith)
two_pow-add a (suc b) =
    let e : a + suc b ≡ suc (a + b) = omega arith in
    ap (λ (t : ℕ). 2 ^ t) e
    ∙ omega (arith, pow-suc 2 (a + b), two_pow-add a b, ap (λ (t : ℕ). 2 ^ a * t) (pow-suc 2 b))

pub two_pow-lt : (a b : ℕ) → a < b → 2 ^ a < 2 ^ b
two_pow-lt a zero h = absurd (omega arith)
two_pow-lt zero (suc b) h = omega (arith, pow-suc 2 b, one-le-pow b 2 (omega arith))
two_pow-lt (suc a) (suc b) h = omega (arith, pow-suc 2 a, pow-suc 2 b, two_pow-lt a b (omega arith))

-- ===== src/Protocol/Crc32/Round.antt =====
-- One round of the CRC register (crc32.cpp, the inner loop) in plain arithmetic.
use native.Mathlib.Nat.{pow-suc}
use cpp_embedded_telemetry_l.Common.{
  ℕ, zero, suc, ◌+◌, ◌-◌, ◌*◌, ◌/◌, ◌%◌, ◌^◌, ◌<◌, ◌≡◌, refl, sym, ap, ◌∙◌, ◌⊎◌, inl, inr, arith,
  bit_and, bit_xor,
}
use cpp_embedded_telemetry_l.Bits.Fields.{bit_and_mask}
use cpp_embedded_telemetry_l.Bits.Xor.{
  bit_xor-half, bit_xor-parity, bit_xor_right_comm, bit_xor_cancel, bit_xor-lt, bit_xor-shift,
}
use cpp_embedded_telemetry_l.Protocol.Crc32.{polynomial, crc_bit, crc_bits}

-- What the register is fed back: the polynomial if the bit shifted out is set.
abbrev pub feedback : ℕ → ℕ
feedback crc = crc % 2 * polynomial

parity_cases : (n : ℕ) → (n % 2 ≡ 0) ⊎ (n % 2 ≡ 1)
parity_cases n = omega arith

masked : (b : ℕ) → b < 2 → bit_and polynomial ((2 ^ 32 - b) % 2 ^ 32) ≡ b * polynomial
masked zero h = refl
masked (suc zero) h = refl
masked (suc (suc b)) h = absurd (omega arith)

pub crc_bit_lem : (crc : ℕ) → crc_bit crc ≡ bit_xor (crc / 2) (feedback crc)
unfolding crc_bit
crc_bit_lem crc = rw (bit_and_mask 1 crc) (ap (bit_xor (crc / 2)) (masked (crc % 2) (omega arith)))

pub crc_bit-lt : (crc : ℕ) → crc < 2 ^ 32 → crc_bit crc < 2 ^ 32
crc_bit-lt crc h =
    rw crc_bit_lem (bit_xor-lt 32 (crc / 2) (feedback crc) (omega arith) (omega arith))

-- The polynomial's top bit is set, so the top bit of the new register is the bit shifted out.
crc_bit-top : (crc : ℕ) → crc < 2 ^ 32 → crc_bit crc / 2 ^ 31 ≡ crc % 2
crc_bit-top crc h =
    rw (crc_bit_lem, bit_xor-shift 31)
      (let low : crc / 2 / 2 ^ 31 ≡ 0 = omega arith in
        rw low (elim (parity_cases crc) [ inl e ↦ rw e refl | inr e ↦ rw e refl ]))

-- So a round can be undone: it is injective on the 32-bit registers.
pub crc_bit-inj : (a b : ℕ) → a < 2 ^ 32 → b < 2 ^ 32 → crc_bit a ≡ crc_bit b → a ≡ b
crc_bit-inj a b p q e = omega (arith, parity, half)
  where
    parity : a % 2 ≡ b % 2
    parity = sym (crc_bit-top a p) ∙ ap (λ (t : ℕ). t / 2 ^ 31) e ∙ crc_bit-top b q

    half : a / 2 ≡ b / 2
    half = bit_xor_cancel (a / 2) (b / 2) (feedback b) (
        ap (λ (t : ℕ). bit_xor (a / 2) (t * polynomial)) (sym parity)
        ∙ sym (crc_bit_lem a)
        ∙ e
        ∙ crc_bit_lem b)

pub crc_bits-lt : (n crc : ℕ) → crc < 2 ^ 32 → crc_bits n crc < 2 ^ 32
unfolding crc_bits
crc_bits-lt zero crc h = h
crc_bits-lt (suc n) crc h = crc_bits-lt n (crc_bit crc) (crc_bit-lt crc h)

pub crc_bits-inj : (n a b : ℕ) → a < 2 ^ 32 → b < 2 ^ 32 → crc_bits n a ≡ crc_bits n b → a ≡ b
unfolding crc_bits
crc_bits-inj zero a b p q e = e
crc_bits-inj (suc n) a b p q e =
    crc_bit-inj a b p q (crc_bits-inj n (crc_bit a) (crc_bit b) (crc_bit-lt a p) (crc_bit-lt b q) e)

-- A bit that enters the register above the lowest place waits there for a round.
shift_in : (crc y : ℕ) → bit_xor (crc_bit crc) y ≡ crc_bit (bit_xor crc (y * 2))
shift_in crc y =
    rw (crc_bit_lem crc, crc_bit_lem (bit_xor crc (y * 2)), bit_xor-half, parity, half)
      (bit_xor_right_comm (crc / 2) (feedback crc) y)
  where
    parity : bit_xor crc (y * 2) % 2 ≡ crc % 2
    parity = omega (arith, bit_xor-parity crc (y * 2))

    half : y * 2 / 2 ≡ y
    half = omega arith

pub crc_bits-shift_in :
    (n crc y : ℕ) → bit_xor (crc_bits n crc) y ≡ crc_bits n (bit_xor crc (y * 2 ^ n))
unfolding crc_bits
crc_bits-shift_in zero crc y = ap (bit_xor crc) (omega arith)
crc_bits-shift_in (suc n) crc y =
    crc_bits-shift_in n (crc_bit crc) y
    ∙ ap (crc_bits n) (shift_in crc (y * 2 ^ n) ∙ ap (λ (t : ℕ). crc_bit (bit_xor crc t)) moved)
  where
    moved : y * 2 ^ n * 2 ≡ y * 2 ^ suc n
    moved = omega (arith, ap (λ (t : ℕ). y * t) (pow-suc 2 n))

pub crc_bits_rounds : (n m crc : ℕ) → n ≡ m → crc_bits n crc ≡ crc_bits m crc
crc_bits_rounds n m crc e = ap (λ (t : ℕ). crc_bits t crc) e

pub crc_bits-add : (n m crc : ℕ) → crc_bits m (crc_bits n crc) ≡ crc_bits (n + m) crc
unfolding crc_bits
crc_bits-add zero m crc = crc_bits_rounds m (0 + m) crc (omega arith)
crc_bits-add (suc n) m crc =
    crc_bits-add n m (crc_bit crc) ∙ crc_bits_rounds (suc (n + m)) (suc n + m) crc (omega arith)

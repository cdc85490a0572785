-- ===== src/Protocol/Crc32/Linear.antt =====
-- The CRC register (crc32.cpp, the inner loop) is linear, and what it makes of a single bit.
use native.Mathlib.Nat.{pow-suc}
use cpp_embedded_telemetry_l.Common.{
  ℕ, zero, suc, ◌+◌, ◌*◌, ◌/◌, ◌%◌, ◌^◌, ◌<◌, ◌≡◌, refl, sym, ap, ap₂, ◌∙◌, arith, bit_xor,
}
use cpp_embedded_telemetry_l.Bits.Xor.{
  bit_xor-half, bit_xor-parity, bit_xor_right_comm, bit_xor_assoc, zero-bit_xor, bit_xor-zero,
}
use cpp_embedded_telemetry_l.Protocol.Crc32.{polynomial, crc_bit, crc_bits}
use cpp_embedded_telemetry_l.Protocol.Crc32.Round.{feedback, crc_bit_lem}

feedback-bit_xor : (a b : ℕ) → feedback (bit_xor a b) ≡ bit_xor (feedback a) (feedback b)
feedback-bit_xor a b =
    by_parity (a % 2) (b % 2) (omega arith) (omega arith) (bit_xor a b % 2)
      (omega (arith, bit_xor-parity a b))
  where
    by_parity :
        (u v : ℕ)
        → u < 2
        → v < 2
        → (w : ℕ) → w ≡ (u + v) % 2
        → w * polynomial ≡ bit_xor (u * polynomial) (v * polynomial)
    by_parity zero v h k w e =
        let same : w ≡ v = omega arith in rw same (sym (zero-bit_xor (v * polynomial)))
    by_parity (suc zero) zero h k w e = rw e refl
    by_parity (suc zero) (suc zero) h k w e = rw e refl
    by_parity (suc zero) (suc (suc v)) h k w e = absurd (omega arith)
    by_parity (suc (suc u)) v h k w e = absurd (omega arith)

-- Four terms, paired the other way.
pub bit_xor_exchange :
    (a b c d : ℕ) → bit_xor (bit_xor a b) (bit_xor c d) ≡ bit_xor (bit_xor a c) (bit_xor b d)
bit_xor_exchange a b c d =
    sym (bit_xor_assoc (bit_xor a b) c d)
    ∙ ap (λ (t : ℕ). bit_xor t d) (bit_xor_right_comm a b c)
    ∙ bit_xor_assoc (bit_xor a c) b d

crc_bit-bit_xor : (a b : ℕ) → crc_bit (bit_xor a b) ≡ bit_xor (crc_bit a) (crc_bit b)
crc_bit-bit_xor a b =
    crc_bit_lem (bit_xor a b)
    ∙ ap₂ bit_xor (bit_xor-half a b) (feedback-bit_xor a b)
    ∙ bit_xor_exchange (a / 2) (b / 2) (feedback a) (feedback b)
    ∙ sym (ap₂ bit_xor (crc_bit_lem a) (crc_bit_lem b))

-- The register after an exclusive or is the exclusive or of the two registers.
pub crc_bits-bit_xor :
    (n a b : ℕ) → crc_bits n (bit_xor a b) ≡ bit_xor (crc_bits n a) (crc_bits n b)
unfolding crc_bits
crc_bits-bit_xor zero a b = refl
crc_bits-bit_xor (suc n) a b =
    ap (crc_bits n) (crc_bit-bit_xor a b) ∙ crc_bits-bit_xor n (crc_bit a) (crc_bit b)

crc_bit-double : (n : ℕ) → crc_bit (n * 2) ≡ n
crc_bit-double n =
    let half : n * 2 / 2 ≡ n = omega arith in
    let even : n * 2 % 2 ≡ 0 = omega arith in
    crc_bit_lem (n * 2) ∙ ap₂ (λ (h p : ℕ). bit_xor h (p * polynomial)) half even ∙ bit_xor-zero n

-- A single bit moves down, one place with each round.
pub crc_bits-pow : (n s : ℕ) → crc_bits n (2 ^ (s + n)) ≡ 2 ^ s
unfolding crc_bits
crc_bits-pow zero s = ap (λ (t : ℕ). 2 ^ t) (omega arith)
crc_bits-pow (suc n) s =
    let split : 2 ^ (s + suc n) ≡ 2 ^ (s + n) * 2 =
      omega (arith, pow-suc 2 (s + n), ap (λ (t : ℕ). 2 ^ t) (add_suc s n)) in
    ap (crc_bits n) (ap crc_bit split ∙ crc_bit-double (2 ^ (s + n))) ∙ crc_bits-pow n s
  where
    add_suc : (a b : ℕ) → a + suc b ≡ suc (a + b)
    add_suc a b = omega arith

pub crc_bits-zero : (n : ℕ) → crc_bits n 0 ≡ 0
unfolding crc_bits crc_bit
crc_bits-zero zero = refl
crc_bits-zero (suc n) = crc_bits-zero n

pub crc_bits-one : (n : ℕ) → crc_bits n (2 ^ n) ≡ 1
crc_bits-one n =
    let e : n ≡ 0 + n = omega arith in ap (λ (t : ℕ). crc_bits n (2 ^ t)) e ∙ crc_bits-pow n 0

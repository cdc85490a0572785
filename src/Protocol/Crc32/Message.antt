-- ===== src/Protocol/Crc32/Message.antt =====
-- The CRC of crc32.cpp as the remainder of one long division: the message is read as a single
-- number, lowest bit first, and the polynomial is taken off wherever the lowest bit is set.
use cpp_embedded_telemetry_l.Common.{
  ℕ, zero, suc, ◌+◌, ◌*◌, ◌/◌, ◌%◌, ◌^◌, ◌≡◌, refl, sym, ap, ◌∙◌, arith, List, [], ◌∷◌, ◌==◌,
  if◌then◌else◌, length, All, bit_xor,
}
use cpp_embedded_telemetry_l.Bits.Xor.{bit_xor_assoc, bit_xor_fields, bit_xor-zero}
use cpp_embedded_telemetry_l.Protocol.Types.{IsByte}
use cpp_embedded_telemetry_l.Protocol.Crc32.{
  polynomial, initial_value, final_xor, crc_bit, crc_bits, crc_byte, crc_loop, calculate_crc32,
}
use cpp_embedded_telemetry_l.Protocol.Crc32.Round.{
  crc_bit_lem, crc_bits-shift_in, crc_bits_rounds, crc_bits-add,
}

-- The bytes as one number, the first byte lowest.
abbrev pub message_number : List ℕ → ℕ
message_number [] = 0
message_number (b ∷ bs) = message_number bs * 2 ^ 8 + b

-- Long division over polynomials with coefficients 0 and 1.
pub remainder : ℕ → ℕ → ℕ
remainder zero n = n
remainder (suc rounds) n =
    remainder rounds (if n % 2 == 1 then bit_xor (n / 2) polynomial else n / 2)

crc_bit-cases : (n : ℕ) → crc_bit n ≡ (if n % 2 == 1 then bit_xor (n / 2) polynomial else n / 2)
crc_bit-cases n = ground (arith, crc_bit_lem n, bit_xor-zero (n / 2))

crc_bits-remainder : (rounds n : ℕ) → crc_bits rounds n ≡ remainder rounds n
unfolding crc_bits remainder
crc_bits-remainder zero n = refl
crc_bits-remainder (suc rounds) n =
    ap (crc_bits rounds) (crc_bit-cases n) ∙ crc_bits-remainder rounds _

pub crc_loop-message :
    (crc : ℕ) (bytes : List ℕ)
    → All IsByte bytes
    → crc_loop crc bytes ≡ crc_bits (8 * length bytes) (bit_xor crc (message_number bytes))
unfolding crc_loop crc_byte
crc_loop-message crc [] h = unfold crc_bits in sym (bit_xor-zero crc)
crc_loop-message crc (b ∷ bs) (hb, hs) =
    crc_loop-message (crc_byte crc b) bs hs
    ∙ ap (crc_bits (8 * length bs)) (crc_bits-shift_in 8 (bit_xor crc b) (message_number bs))
    ∙ crc_bits-add 8 (8 * length bs) _
    ∙ crc_bits_rounds (8 + 8 * length bs) (8 * length (b ∷ bs))
        (bit_xor (bit_xor crc b) (message_number bs * 2 ^ 8)) (omega arith)
    ∙ ap (crc_bits (8 * length (b ∷ bs))) (
        bit_xor_assoc crc b (message_number bs * 2 ^ 8)
        ∙ ap (bit_xor crc) (bit_xor_fields 8 b (message_number bs) hb))

-- On bytes, the CRC is the remainder that the message, with its first 32 bits inverted, leaves
-- after one round of division for each of its bits, inverted once more.
pub calculate_crc32-remainder :
    (bytes : List ℕ)
    → All IsByte bytes
    → calculate_crc32 bytes
      ≡ bit_xor
          (remainder (8 * length bytes) (bit_xor initial_value (message_number bytes)))
          final_xor
unfolding calculate_crc32
calculate_crc32-remainder bytes h =
    ap (λ (t : ℕ). bit_xor t final_xor)
      (crc_loop-message initial_value bytes h ∙ crc_bits-remainder (8 * length bytes) _)

-- ===== src/Protocol/Crc32.antt =====
-- crc32.cpp: the reflected CRC-32, bit by bit, over a span of bytes.
pub mod Round
pub mod Message
pub mod Detection
pub mod Linear
pub mod Pairs
pub mod Columns
pub mod Sums
use cpp_embedded_telemetry_l.Common.{
  ℕ, zero, suc, ◌-◌, ◌/◌, ◌%◌, ◌^◌, ◌≡◌, refl, List, [], ◌∷◌, bit_and, bit_xor,
}

abbrev pub polynomial : ℕ
polynomial = 0xEDB88320

abbrev pub initial_value : ℕ
initial_value = 0xFFFFFFFF

abbrev pub final_xor : ℕ
final_xor = 0xFFFFFFFF

abbrev pub bits_per_byte : ℕ
bits_per_byte = 8

-- One round of the inner loop. `0U - bit` wraps to all ones when the bit is set.
pub crc_bit : ℕ → ℕ
crc_bit crc =
    let least_significant_bit = bit_and crc 1 in
    let mask = (2 ^ 32 - least_significant_bit) % 2 ^ 32 in
    bit_xor (crc / 2 ^ 1) (bit_and polynomial mask)

pub crc_bits : ℕ → ℕ → ℕ
unfolding crc_bit
crc_bits zero crc = crc
crc_bits (suc rounds) crc = crc_bits rounds (crc_bit crc)

-- The body of the outer loop.
pub crc_byte : ℕ → ℕ → ℕ
unfolding crc_bits
crc_byte crc byte = crc_bits bits_per_byte (bit_xor crc byte)

pub crc_loop : ℕ → List ℕ → ℕ
unfolding crc_byte
crc_loop crc [] = crc
crc_loop crc (byte ∷ bytes) = crc_loop (crc_byte crc byte) bytes

unfoldable pub calculate_crc32 : List ℕ → ℕ
unfolding crc_loop
calculate_crc32 bytes = bit_xor (crc_loop initial_value bytes) final_xor

-- The check vector of the protocol document, "123456789".
check_vector :
    calculate_crc32 (0x31 ∷ 0x32 ∷ 0x33 ∷ 0x34 ∷ 0x35 ∷ 0x36 ∷ 0x37 ∷ 0x38 ∷ 0x39 ∷ []) ≡ 0xCBF43926
unfolding calculate_crc32
check_vector = refl

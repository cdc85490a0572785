-- ===== src/Protocol/Syndrome.antt =====
-- What a single flipped bit does to the two sides of the CRC's check in deserializer.cpp.
use cpp_embedded_telemetry_l.Common.{
  ℕ, zero, suc, ◌+◌, ◌-◌, ◌*◌, ◌/◌, ◌%◌, ◌^◌, ◌<◌, ◌≡◌, sym, ap, ap₂, ◌∙◌, arith, List, [], ◌∷◌,
  All, length, length-set, set, bit_xor,
}
use cpp_embedded_telemetry_l.Bits.Xor.{
  bit_xor_right_comm, bit_xor_assoc, bit_xor-lt, bit_xor_fields, bit_xor_times, two_pow-add,
  two_pow-lt,
}
use cpp_embedded_telemetry_l.Protocol.Types.{IsByte}
use cpp_embedded_telemetry_l.Protocol.Crc32.{initial_value, final_xor, crc_bits, calculate_crc32}
use cpp_embedded_telemetry_l.Protocol.Crc32.Round.{crc_bits-add, crc_bits_rounds}
use cpp_embedded_telemetry_l.Protocol.Crc32.Message.{message_number, crc_loop-message}
use cpp_embedded_telemetry_l.Protocol.Crc32.Linear.{crc_bits-bit_xor, crc_bits-one}
use cpp_embedded_telemetry_l.Protocol.Crc32.Pairs.{column}
use cpp_embedded_telemetry_l.Protocol.Deserializer.{byte_at}
use cpp_embedded_telemetry_l.Protocol.Deserializer.Reads.{byte_at-lt}
use cpp_embedded_telemetry_l.Protocol.Corruption.{All-set}

-- Bit `p` of a string, the lowest bit of the first byte first, is flipped.
abbrev pub flip_bit : List ℕ → ℕ → List ℕ
flip_bit bytes p = set bytes (p / 8) (bit_xor (byte_at bytes (p / 8)) (2 ^ (p % 8)))

pub flipped-lt :
    (bytes : List ℕ) (i j : ℕ)
    → All IsByte bytes
    → j < 8
    → bit_xor (byte_at bytes i) (2 ^ j) < 2 ^ 8
flipped-lt bytes i j h l =
    bit_xor-lt 8 (byte_at bytes i) (2 ^ j) (byte_at-lt bytes i h) (two_pow-lt j 8 l)

pub flip_bit-IsByte : (bytes : List ℕ) (p : ℕ) → All IsByte bytes → All IsByte (flip_bit bytes p)
flip_bit-IsByte bytes p h =
    All-set bytes (p / 8) _ h (flipped-lt bytes (p / 8) (p % 8) h (omega arith))

pub length-flip_bit : (bytes : List ℕ) (p : ℕ) → length (flip_bit bytes p) ≡ length bytes
length-flip_bit bytes p = length-set bytes (p / 8) _

eight_more : (i : ℕ) → 2 ^ (8 * suc i) ≡ 2 ^ (8 * i) * 2 ^ 8
eight_more i =
    let e : 8 * suc i ≡ 8 * i + 8 = omega arith in ap (λ (t : ℕ). 2 ^ t) e ∙ two_pow-add (8 * i) 8

-- A change of one byte in the message as a number.
pub message_number-set :
    (bytes : List ℕ) (i d : ℕ)
    → All IsByte bytes
    → d < 2 ^ 8
    → i < length bytes
    → message_number (set bytes i (bit_xor (byte_at bytes i) d))
      ≡ bit_xor (message_number bytes) (d * 2 ^ (8 * i))
message_number-set [] i d h k l = absurd (omega arith)
message_number-set (b ∷ bs) zero d (hb, hs) k l =
    sym (bit_xor_fields 8 (bit_xor b d) (message_number bs) (bit_xor-lt 8 b d hb k))
    ∙ bit_xor_right_comm b d (message_number bs * 2 ^ 8)
    ∙ ap₂ bit_xor (bit_xor_fields 8 b (message_number bs) hb) (omega arith)
message_number-set (b ∷ bs) (suc i) d (hb, hs) k l =
    let moved : d * 2 ^ (8 * i) * 2 ^ 8 ≡ d * 2 ^ (8 * suc i) =
      omega (arith, ap (λ (t : ℕ). d * t) (eight_more i)) in
    ap (λ (n : ℕ). n * 2 ^ 8 + b) (message_number-set bs i d hs k (omega arith))
    ∙ sym (bit_xor_fields 8 b (bit_xor (message_number bs) (d * 2 ^ (8 * i))) hb)
    ∙ ap (bit_xor b) (sym (bit_xor_times 8 (message_number bs) (d * 2 ^ (8 * i))))
    ∙ sym (bit_xor_assoc b (message_number bs * 2 ^ 8) (d * 2 ^ (8 * i) * 2 ^ 8))
    ∙ ap₂ bit_xor (bit_xor_fields 8 b (message_number bs) hb) moved

-- The flipped bit in that number.
message_number-flip_bit :
    (bytes : List ℕ) (p : ℕ)
    → All IsByte bytes
    → p < 8 * length bytes
    → message_number (flip_bit bytes p) ≡ bit_xor (message_number bytes) (2 ^ p)
message_number-flip_bit bytes p h l =
    let e : p % 8 + 8 * (p / 8) ≡ p = omega arith in
    message_number-set bytes (p / 8) (2 ^ (p % 8)) h (two_pow-lt (p % 8) 8 (omega arith))
      (omega arith)
    ∙ ap (bit_xor (message_number bytes))
        (sym (two_pow-add (p % 8) (8 * (p / 8))) ∙ ap (λ (t : ℕ). 2 ^ t) e)

calculate_crc32-number :
    (bytes : List ℕ)
    → All IsByte bytes
    → calculate_crc32 bytes
      ≡ bit_xor
          (crc_bits (8 * length bytes) (bit_xor initial_value (message_number bytes)))
          final_xor
unfolding calculate_crc32
calculate_crc32-number bytes h =
    ap (λ (t : ℕ). bit_xor t final_xor) (crc_loop-message initial_value bytes h)

-- The register of a bit that enters it `p` rounds after the first.
bit-column : (n p : ℕ) → p < n → crc_bits n (2 ^ p) ≡ column (31 + n - p)
bit-column n p l =
    let e : p + (n - p) ≡ n = omega arith in
    let f : 31 + (n - p) ≡ 31 + n - p = omega arith in
    crc_bits_rounds n (p + (n - p)) (2 ^ p) (sym e)
    ∙ sym (crc_bits-add p (n - p) (2 ^ p))
    ∙ ap (crc_bits (n - p)) (crc_bits-one p ∙ sym (crc_bits-one 31))
    ∙ crc_bits-add 31 (n - p) (2 ^ 31)
    ∙ crc_bits_rounds (31 + (n - p)) (31 + n - p) (2 ^ 31) f

-- A flipped bit of the message flips in the CRC the bits of its column.
pub calculate_crc32-flip_bit :
    (bytes : List ℕ) (p : ℕ)
    → All IsByte bytes
    → p < 8 * length bytes
    → calculate_crc32 (flip_bit bytes p)
      ≡ bit_xor (calculate_crc32 bytes) (column (31 + 8 * length bytes - p))
calculate_crc32-flip_bit bytes p h l =
    let n = 8 * length bytes in
    let start = bit_xor initial_value (message_number bytes) in
    calculate_crc32-number (flip_bit bytes p) (flip_bit-IsByte bytes p h)
    ∙ ap₂ (λ (m k : ℕ). bit_xor (crc_bits (8 * k) (bit_xor initial_value m)) final_xor)
        (message_number-flip_bit bytes p h l) (length-flip_bit bytes p)
    ∙ ap (λ (t : ℕ). bit_xor (crc_bits n t) final_xor)
        (sym (bit_xor_assoc initial_value (message_number bytes) (2 ^ p)))
    ∙ ap (λ (t : ℕ). bit_xor t final_xor)
        (crc_bits-bit_xor n start (2 ^ p) ∙ ap (bit_xor (crc_bits n start)) (bit-column n p l))
    ∙ bit_xor_right_comm (crc_bits n start) (column (31 + n - p)) final_xor
    ∙ ap (λ (t : ℕ). bit_xor t (column (31 + n - p))) (sym (calculate_crc32-number bytes h))

-- ===== src/Protocol/BitFlips.antt =====
-- Up to five flipped bits between serializer.cpp and deserializer.cpp.
use native.Mathlib.Decide.{dec_lt}
use cpp_embedded_telemetry_l.Common.{
  ℕ, suc, ◌+◌, ◌-◌, ◌*◌, ◌/◌, ◌%◌, ◌^◌, ◌≤◌, ◌<◌, ◌≡◌, ◌≢◌, refl, sym, ap, ap₂, subst, ◌∙◌, arith,
  true, false, List, [], ◌∷◌, All, length, map, take, bit_xor,
}
use cpp_embedded_telemetry_l.Bits.Xor.{bit_xor_right_comm, bit_xor_assoc, bit_xor_self}
use cpp_embedded_telemetry_l.Protocol.Types.{IsByte}
use cpp_embedded_telemetry_l.Protocol.Crc32.{calculate_crc32}
use cpp_embedded_telemetry_l.Protocol.Crc32.Pairs.{column}
use cpp_embedded_telemetry_l.Protocol.Deserializer.{byte_at, has_value, read_u32, deserialize}
use cpp_embedded_telemetry_l.Protocol.Deserializer.Checks.{IsAccepted}
use cpp_embedded_telemetry_l.Protocol.Corruption.{rejected, take-set}
use cpp_embedded_telemetry_l.Protocol.Syndrome.{flip_bit, flip_bit-IsByte, length-flip_bit}
use cpp_embedded_telemetry_l.Protocol.Crc32.Columns.{sum, Distinct}
use cpp_embedded_telemetry_l.Protocol.Crc32.Sums.{sum-nonzero}
use cpp_embedded_telemetry_l.Protocol.CrcField.{
  place, place-lt, place-inj, place-low, place-high, crc-flip_bit, read_u32-flip_bit,
  read_u32-flip_bit_covered,
}

-- The two sides of the check, against each other.
pub syndrome : List ℕ → ℕ
syndrome bytes = bit_xor (calculate_crc32 (take 30 bytes)) (read_u32 bytes 30)

pub syndrome-IsAccepted : (bytes : List ℕ) → IsAccepted bytes → syndrome bytes ≡ 0
unfolding syndrome
syndrome-IsAccepted bytes h =
    ap (bit_xor (calculate_crc32 (take 30 bytes))) h.1
    ∙ bit_xor_self (calculate_crc32 (take 30 bytes))

-- Each flipped bit adds its column to the syndrome.
syndrome-flip_bit :
    (bytes : List ℕ) (p : ℕ)
    → All IsByte bytes
    → length bytes ≡ 34
    → p < 272
    → syndrome (flip_bit bytes p) ≡ bit_xor (syndrome bytes) (column (place p))
unfolding syndrome
syndrome-flip_bit bytes p h l hi = elim (dec_lt p 240) [
  | yes lt ↦
      ap₂ bit_xor (crc-flip_bit bytes p h l lt) (read_u32-flip_bit_covered bytes p h lt)
      ∙ bit_xor_right_comm (calculate_crc32 (take 30 bytes)) (column (271 - p)) (read_u32 bytes 30)
      ∙ ap
          (λ (n : ℕ).
            bit_xor (bit_xor (calculate_crc32 (take 30 bytes)) (read_u32 bytes 30)) (column n))
          (sym (place-low p lt))
  | no ge ↦
      ap₂ bit_xor
        (ap calculate_crc32 (
          take-set 30 (p / 8) (bit_xor (byte_at bytes (p / 8)) (2 ^ (p % 8))) bytes
            (omega (arith, ge))))
        (read_u32-flip_bit bytes p h l (omega (arith, ge)) hi)
      ∙ sym (
          bit_xor_assoc (calculate_crc32 (take 30 bytes)) (read_u32 bytes 30)
            (column (31 - (p % 8 + 8 * (33 - p / 8)))))
      ∙ ap
          (λ (n : ℕ).
            bit_xor (bit_xor (calculate_crc32 (take 30 bytes)) (read_u32 bytes 30)) (column n))
          (sym (place-high p (omega (arith, ge))))
]

-- Flips one after the other.
abbrev pub flip_bits : List ℕ → List ℕ → List ℕ
flip_bits bytes [] = bytes
flip_bits bytes (p ∷ ps) = flip_bits (flip_bit bytes p) ps

pub syndrome-flip_bits :
    (bytes ps : List ℕ)
    → All IsByte bytes
    → length bytes ≡ 34
    → All (λ p. p < 272) ps
    → syndrome (flip_bits bytes ps) ≡ sum (syndrome bytes) (map place ps)
syndrome-flip_bits bytes [] h l hi = refl
syndrome-flip_bits bytes (p ∷ ps) h l (lt, hi) =
    syndrome-flip_bits (flip_bit bytes p) ps (flip_bit-IsByte bytes p h)
      (length-flip_bit bytes p ∙ l) hi
    ∙ ap (λ (s : ℕ). sum s (map place ps)) (syndrome-flip_bit bytes p h l lt)

places-lt : (ps : List ℕ) → All (λ p. p < 272) ps → All (λ p. p < 272) (map place ps)
places-lt [] h = tt
places-lt (p ∷ ps) (l, h) = (place-lt p l, places-lt ps h)

places-apart :
    (p : ℕ) (ps : List ℕ)
    → p < 272
    → All (λ q. q < 272) ps
    → All (λ q. p ≢ q) ps
    → All (λ q. place p ≢ q) (map place ps)
places-apart p [] l h a = tt
places-apart p (q ∷ qs) l (k, h) (ne, a) =
    ((λ e. ne (place-inj p q l k e)), places-apart p qs l h a)

places-Distinct : (ps : List ℕ) → All (λ p. p < 272) ps → Distinct ps → Distinct (map place ps)
places-Distinct [] h d = tt
places-Distinct (p ∷ ps) (l, h) (a, d) = (places-apart p ps l h a, places-Distinct ps h d)

length-places : (ps : List ℕ) → length (map place ps) ≡ length ps
length-places [] = refl
length-places (p ∷ ps) = ap suc (length-places ps)

-- If an input of bytes is accepted, then the input with one to five of its bits flipped, wherever
-- they stand, in the CRC too, is rejected.
pub flip_bits_rejected :
    (bytes places : List ℕ)
    → All IsByte bytes
    → has_value (deserialize bytes) ≡ true
    → Distinct places
    → All (λ p. p < 8 * length bytes) places
    → 0 < length places
    → length places ≤ 5
    → has_value (deserialize (flip_bits bytes places)) ≡ false
flip_bits_rejected bytes places h ok distinct inside some_ few =
    rejected bytes (flip_bits bytes places) ok λ both.
      let l = both.0.0.0 in
      let within = subst (λ (n : ℕ). All (λ p. p < 8 * n) places) l inside in
      sum-nonzero (map place places) (places-Distinct places within distinct)
        (places-lt places within) (omega (arith, length-places places))
        (omega (arith, length-places places))
        (ap (λ (s : ℕ). sum s (map place places)) (sym (syndrome-IsAccepted bytes both.0))
          ∙ sym (syndrome-flip_bits bytes places h l within)
          ∙ syndrome-IsAccepted (flip_bits bytes places) both.1)

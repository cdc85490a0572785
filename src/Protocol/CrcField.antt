-- ===== src/Protocol/CrcField.antt =====
-- What a flipped bit does to the two sides of the deserializer's CRC check: the CRC of the first 30
-- bytes, and the field (deserializer.cpp).
use cpp_embedded_telemetry_l.Common.{
  ℕ, zero, suc, ◌+◌, ◌-◌, ◌*◌, ◌/◌, ◌%◌, ◌^◌, ◌≤◌, ◌<◌, ◌≡◌, refl, sym, ap, ap₂, ◌∙◌, ◌⊎◌, inl, inr,
  arith, List, [], ◌∷◌, All, length, take, set, get_or-set_self, get_or-set_ne, bit_xor, ltb,
  if◌then◌else◌,
}
use cpp_embedded_telemetry_l.Bits.Xor.{two_pow-add, two_pow-lt}
use cpp_embedded_telemetry_l.Protocol.Types.{IsByte}
use cpp_embedded_telemetry_l.Protocol.Crc32.{calculate_crc32, crc_bits}
use cpp_embedded_telemetry_l.Protocol.Crc32.Message.{message_number}
use cpp_embedded_telemetry_l.Protocol.Crc32.Linear.{crc_bits-pow}
use cpp_embedded_telemetry_l.Protocol.Crc32.Pairs.{column}
use cpp_embedded_telemetry_l.Protocol.Deserializer.{byte_at, read_u32}
use cpp_embedded_telemetry_l.Protocol.Deserializer.Reads.{byte_at-lt, read_u32-sum}
use cpp_embedded_telemetry_l.Protocol.Corruption.{All-take}
use cpp_embedded_telemetry_l.Protocol.Syndrome.{
  flip_bit, flip_bit-IsByte, message_number-set, calculate_crc32-flip_bit,
}

-- The CRC's field as a number whose lowest byte comes first.
abbrev pub field : List ℕ → List ℕ
field bytes = byte_at bytes 33 ∷ byte_at bytes 32 ∷ byte_at bytes 31 ∷ byte_at bytes 30 ∷ []

field-read_u32 :
    (bytes : List ℕ) → All IsByte bytes → read_u32 bytes 30 ≡ message_number (field bytes)
field-read_u32 bytes h = omega (arith, read_u32-sum bytes h 30)

field-IsByte : (bytes : List ℕ) → All IsByte bytes → All IsByte (field bytes)
field-IsByte bytes h = (
  byte_at-lt bytes 33 h,
  (byte_at-lt bytes 32 h, (byte_at-lt bytes 31 h, (byte_at-lt bytes 30 h, tt))),
)

crc_places : (i : ℕ) → 30 ≤ i → i < 34 → ((i ≡ 30) ⊎ (i ≡ 31)) ⊎ ((i ≡ 32) ⊎ (i ≡ 33))
crc_places i lo hi = omega arith

-- A write into the field.
field-set :
    (bytes : List ℕ) (i v : ℕ)
    → length bytes ≡ 34
    → 30 ≤ i
    → i < 34
    → field (set bytes i v) ≡ set (field bytes) (33 - i) v
field-set bytes i v l lo hi = elim (crc_places i lo hi) [
  | inl (inl p) ↦ rw p (
      cc (
        get_or-set_ne bytes 30 33 v 0 (omega arith),
        get_or-set_ne bytes 30 32 v 0 (omega arith),
        get_or-set_ne bytes 30 31 v 0 (omega arith),
        get_or-set_self bytes 30 v 0 (omega (arith, l)),
      ))
  | inl (inr p) ↦ rw p (
      cc (
        get_or-set_ne bytes 31 33 v 0 (omega arith),
        get_or-set_ne bytes 31 32 v 0 (omega arith),
        get_or-set_self bytes 31 v 0 (omega (arith, l)),
        get_or-set_ne bytes 31 30 v 0 (omega arith),
      ))
  | inr (inl p) ↦ rw p (
      cc (
        get_or-set_ne bytes 32 33 v 0 (omega arith),
        get_or-set_self bytes 32 v 0 (omega (arith, l)),
        get_or-set_ne bytes 32 31 v 0 (omega arith),
        get_or-set_ne bytes 32 30 v 0 (omega arith),
      ))
  | inr (inr p) ↦ rw p (
      cc (
        get_or-set_self bytes 33 v 0 (omega (arith, l)),
        get_or-set_ne bytes 33 32 v 0 (omega arith),
        get_or-set_ne bytes 33 31 v 0 (omega arith),
        get_or-set_ne bytes 33 30 v 0 (omega arith),
      ))
]

byte_at-field :
    (bytes : List ℕ) (i : ℕ) → 30 ≤ i → i < 34 → byte_at (field bytes) (33 - i) ≡ byte_at bytes i
byte_at-field bytes i lo hi = elim (crc_places i lo hi) [
  | inl (inl p) ↦ rw p refl
  | inl (inr p) ↦ rw p refl
  | inr (inl p) ↦ rw p refl
  | inr (inr p) ↦ rw p refl
]

-- Where a flipped bit stands in the division: the register's column for it.
abbrev pub place : ℕ → ℕ
place p = if ltb p 240 then 271 - p else 31 - (p % 8 + 8 * (33 - p / 8))

pub place-lt : (p : ℕ) → p < 272 → place p < 272
place-lt p h = ground arith

pub place-inj : (p q : ℕ) → p < 272 → q < 272 → place p ≡ place q → p ≡ q
place-inj p q h k e = ground arith

pub pow-column : (t : ℕ) → t ≤ 31 → 2 ^ t ≡ column (31 - t)
pow-column t h =
    let e : t + (31 - t) ≡ 31 = omega arith in
    sym (crc_bits-pow (31 - t) t) ∙ ap (λ (n : ℕ). crc_bits (31 - t) (2 ^ n)) e

-- A flipped bit of the CRC's field.
pub read_u32-flip_bit :
    (bytes : List ℕ) (p : ℕ)
    → All IsByte bytes
    → length bytes ≡ 34
    → 240 ≤ p
    → p < 272
    → read_u32 (flip_bit bytes p) 30
      ≡ bit_xor (read_u32 bytes 30) (column (31 - (p % 8 + 8 * (33 - p / 8))))
read_u32-flip_bit bytes p h l lo hi =
    let i = p / 8 in
    let d = 2 ^ (p % 8) in
    field-read_u32 (flip_bit bytes p) (flip_bit-IsByte bytes p h)
    ∙ ap message_number (
        field-set bytes i (bit_xor (byte_at bytes i) d) l (omega arith) (omega arith)
        ∙ ap (λ (b : ℕ). set (field bytes) (33 - i) (bit_xor b d))
            (sym (byte_at-field bytes i (omega arith) (omega arith))))
    ∙ message_number-set (field bytes) (33 - i) d (field-IsByte bytes h)
        (two_pow-lt (p % 8) 8 (omega arith)) (omega arith)
    ∙ ap₂ bit_xor (sym (field-read_u32 bytes h))
        (sym (two_pow-add (p % 8) (8 * (33 - i))) ∙ pow-column (p % 8 + 8 * (33 - i)) (omega arith))

take-set_inside :
    (n i v : ℕ) (bytes : List ℕ) → i < n → take n (set bytes i v) ≡ set (take n bytes) i v
take-set_inside zero i v bytes h = absurd (omega arith)
take-set_inside (suc n) i v [] h = refl
take-set_inside (suc n) zero v (b ∷ bs) h = refl
take-set_inside (suc n) (suc i) v (b ∷ bs) h = ap (◌∷◌ b) (take-set_inside n i v bs (omega arith))

byte_at-take : (n i : ℕ) (bytes : List ℕ) → i < n → byte_at (take n bytes) i ≡ byte_at bytes i
byte_at-take zero i bytes h = absurd (omega arith)
byte_at-take (suc n) i [] h = refl
byte_at-take (suc n) zero (b ∷ bs) h = refl
byte_at-take (suc n) (suc i) (b ∷ bs) h = byte_at-take n i bs (omega arith)

length-take : (n : ℕ) (bytes : List ℕ) → n ≤ length bytes → length (take n bytes) ≡ n
length-take zero bytes h = refl
length-take (suc n) [] h = absurd (omega arith)
length-take (suc n) (b ∷ bs) h = ap suc (length-take n bs (omega arith))

-- A flipped bit of the header or the payload.
pub crc-flip_bit :
    (bytes : List ℕ) (p : ℕ)
    → All IsByte bytes
    → length bytes ≡ 34
    → p < 240
    → calculate_crc32 (take 30 (flip_bit bytes p))
      ≡ bit_xor (calculate_crc32 (take 30 bytes)) (column (271 - p))
crc-flip_bit bytes p h l lt =
    let n = length-take 30 bytes (omega arith) in
    let i = p / 8 in
    ap calculate_crc32 (
      take-set_inside 30 i (bit_xor (byte_at bytes i) (2 ^ (p % 8))) bytes (omega arith)
      ∙ ap (λ (b : ℕ). set (take 30 bytes) i (bit_xor b (2 ^ (p % 8))))
          (sym (byte_at-take 30 i bytes (omega arith))))
    ∙ calculate_crc32-flip_bit (take 30 bytes) p (All-take 30 bytes h) (omega (arith, n))
    ∙ ap (λ (m : ℕ). bit_xor (calculate_crc32 (take 30 bytes)) (column (31 + 8 * m - p))) n

-- The bytes of the field are those of the input.
pub read_u32-flip_bit_covered :
    (bytes : List ℕ) (p : ℕ)
    → All IsByte bytes
    → p < 240
    → read_u32 (flip_bit bytes p) 30 ≡ read_u32 bytes 30
read_u32-flip_bit_covered bytes p h lt =
    let v = bit_xor (byte_at bytes (p / 8)) (2 ^ (p % 8)) in
    omega (
      arith,
      read_u32-sum bytes h 30,
      read_u32-sum (flip_bit bytes p) (flip_bit-IsByte bytes p h) 30,
      get_or-set_ne bytes (p / 8) 30 v 0 (omega arith),
      get_or-set_ne bytes (p / 8) 31 v 0 (omega arith),
      get_or-set_ne bytes (p / 8) 32 v 0 (omega arith),
      get_or-set_ne bytes (p / 8) 33 v 0 (omega arith),
    )

pub place-low : (p : ℕ) → p < 240 → place p ≡ 271 - p
place-low p h = ground arith

pub place-high : (p : ℕ) → 240 ≤ p → place p ≡ 31 - (p % 8 + 8 * (33 - p / 8))
place-high p h = ground arith

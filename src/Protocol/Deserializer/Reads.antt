-- ===== src/Protocol/Deserializer/Reads.antt =====
-- The big-endian reads of deserializer.cpp as sums of bytes.
use native.Mathlib.Nat.{pow-suc, one-le-pow, mod-eq_of_lt, add-zero, zero-add, zero-mul, add_assoc}
use cpp_embedded_telemetry_l.Common.{
  ℕ, zero, suc, ◌+◌, ◌*◌, ◌^◌, ◌≤◌, ◌<◌, ◌≡◌, refl, ◌∙◌, arith, List, [], ◌∷◌, All, length, ap,
}
use cpp_embedded_telemetry_l.Bits.Fields.{bit_or_fields}
use cpp_embedded_telemetry_l.Protocol.Types.{IsByte}
use cpp_embedded_telemetry_l.Protocol.Deserializer.{
  byte_at, read_u16, read_loop, read_u32, read_u64,
}

pub byte_at-lt : (bytes : List ℕ) (i : ℕ) → All IsByte bytes → byte_at bytes i < 2 ^ 8
byte_at-lt [] i h = omega arith
byte_at-lt (b ∷ bs) zero h = h.0
byte_at-lt (b ∷ bs) (suc i) h = byte_at-lt bs i h.1

-- `n` places, each filled from its index.
abbrev pub tabulate : ℕ → (ℕ → ℕ) → List ℕ
tabulate zero g = []
tabulate (suc n) g = g 0 ∷ tabulate n (λ i. g (suc i))

pub tabulate-byte_at : (bytes : List ℕ) → bytes ≡ tabulate (length bytes) (byte_at bytes)
tabulate-byte_at [] = refl
tabulate-byte_at (b ∷ bs) = ap (◌∷◌ b) (tabulate-byte_at bs)

-- A byte more fits the width `w` if `p` stands for the places that are left.
room :
    (v b p w : ℕ)
    → 1 ≤ p
    → b < 2 ^ 8
    → (v + 1) * (p * 2 ^ 8) ≤ w
    → (v * 2 ^ 8 < w) × ((v * 2 ^ 8 + b + 1) * p ≤ w)
room v b p w one hb fits = grind arith

module _ (bytes : List ℕ) (h : All IsByte bytes) where
  pub read_u16-sum :
      (offset : ℕ)
      → read_u16 bytes offset ≡ byte_at bytes offset * 2 ^ 8 + byte_at bytes (offset + 1)
  unfolding read_u16
  read_u16-sum offset = ground (
    arith,
    byte_at-lt bytes offset h,
    byte_at-lt bytes (offset + 1) h,
    bit_or_fields 8 (byte_at bytes offset) (byte_at bytes (offset + 1)),
  )

  -- The value of `rounds` bytes that follow a value already read.
  abbrev gathered : ℕ → ℕ → ℕ → ℕ → ℕ
  gathered zero index offset value = value
  gathered (suc rounds) index offset value =
      gathered rounds (index + 1) offset (value * 2 ^ 8 + byte_at bytes (offset + index))

  read_loop_step :
      (width rounds index offset value : ℕ)
      → value * 2 ^ 8 < 2 ^ width
      → read_loop width (suc rounds) index bytes offset value
        ≡ read_loop width rounds
            (index + 1)
            bytes
            offset
            (value * 2 ^ 8 + byte_at bytes (offset + index))
  unfolding read_loop
  read_loop_step width rounds index offset value fits =
      rw (mod-eq_of_lt fits, bit_or_fields 8 value _ (byte_at-lt bytes (offset + index) h)) refl

  -- No bit is shifted out as long as the bytes fit the width.
  read_loop-gathered :
      (width rounds index offset value : ℕ)
      → (value + 1) * (2 ^ 8) ^ rounds ≤ 2 ^ width
      → read_loop width rounds index bytes offset value ≡ gathered rounds index offset value
  read_loop-gathered width zero index offset value fits = unfold read_loop in refl
  read_loop-gathered width (suc rounds) index offset value fits =
      let (now, later) =
        room value (byte_at bytes (offset + index)) ((2 ^ 8) ^ rounds) (2 ^ width)
          (one-le-pow rounds (2 ^ 8) (omega arith)) (byte_at-lt bytes (offset + index) h)
          (rw (← pow-suc (2 ^ 8) rounds) fits) in
      read_loop_step width rounds index offset value now
      ∙ read_loop-gathered width rounds (index + 1) offset _ later

  pub read_u32-sum :
      (offset : ℕ)
      → read_u32 bytes offset
        ≡ ((byte_at bytes offset * 2 ^ 8 + byte_at bytes (offset + 1)) * 2 ^ 8
              + byte_at bytes (offset + 2))
            * 2 ^ 8
          + byte_at bytes (offset + 3)
  unfolding read_u32
  read_u32-sum offset =
      read_loop-gathered 32 4 0 offset 0 (omega arith) ∙ simp (add-zero, zero-mul, zero-add)

  pub read_u64-sum :
      (offset : ℕ)
      → read_u64 bytes offset ≡ read_u32 bytes offset * 2 ^ 32 + read_u32 bytes (offset + 4)
  unfolding read_u64
  read_u64-sum offset =
      read_loop-gathered 64 8 0 offset 0 (omega arith)
      ∙ simp
          (read_u32-sum offset, read_u32-sum (offset + 4), add-zero, zero-mul, zero-add, add_assoc)
          (omega arith)

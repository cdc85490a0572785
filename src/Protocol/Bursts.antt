-- ===== src/Protocol/Bursts.antt =====
-- Flipped bits within a window of 32 between serializer.cpp and deserializer.cpp.
use cpp_embedded_telemetry_l.Common.{
  ℕ, ◌+◌, ◌-◌, ◌/◌, ◌%◌, ◌^◌, ◌≤◌, ◌<◌, List, [], ◌∷◌, map, bit_xor,
}

-- Bit `k` of a word.
abbrev bit : ℕ → ℕ → ℕ
bit k v = v / 2 ^ k % 2

-- Bits flipped in a register.
abbrev flips : ℕ → List ℕ → ℕ
flips v [] = v
flips v (t ∷ ts) = flips (bit_xor v (2 ^ t)) ts

-- A place of the header or the payload in the window of 32 that starts at `s`.
abbrev pub InWindow : ℕ → ℕ → Type 0
InWindow s p = (s ≤ p) × (p < s + 32) × (p < 240)

abbrev offsets : ℕ → List ℕ → List ℕ
offsets s ps = map (λ p. p - s) ps

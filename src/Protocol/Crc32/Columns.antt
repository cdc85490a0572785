-- ===== src/Protocol/Crc32/Columns.antt =====
-- The registers that single bits leave behind (crc32.cpp), and sums of the first of them with up to
-- four later ones.
use native.Mathlib.Decide.{dec_lt}
use cpp_embedded_telemetry_l.Common.{
  ℕ, zero, suc, ◌^◌, ◌≤◌, ◌<◌, ◌≡◌, ◌≢◌, sym, ap, ◌∙◌, arith, true, List, [], ◌∷◌, All, length,
  bit_xor,
}
use cpp_embedded_telemetry_l.Bits.Xor.{
  bit_xor_cancel, bit_xor_self, bit_xor_comm, bit_xor_right_comm, bit_xor_assoc,
}
use cpp_embedded_telemetry_l.Protocol.Crc32.Round.{crc_bits-lt}
use cpp_embedded_telemetry_l.Protocol.Crc32.Pairs.{
  top, column, is_missing, sums, top_missing, top_ne_column, is_missing-column, is_missing-columns,
  sum_ne,
}

pub column-lt : (n : ℕ) → column n < 2 ^ 32
column-lt n = crc_bits-lt n top (omega arith)

equal_of-bit_xor : (a b : ℕ) → bit_xor a b ≡ 0 → a ≡ b
equal_of-bit_xor a b e = bit_xor_cancel a b b (e ∙ sym (bit_xor_self b))

-- Columns added to a register.
abbrev pub sum : ℕ → List ℕ → ℕ
sum s [] = s
sum s (q ∷ qs) = sum (bit_xor s (column q)) qs

abbrev pub Distinct : List ℕ → Type 0
Distinct [] = Unit
Distinct (p ∷ ps) = All (λ q. p ≢ q) ps × Distinct ps

-- The columns after that of the lowest number.
abbrev pub IsLater : ℕ → Type 0
IsLater q = (0 < q) × (q < 272)

later_ne : (a : ℕ) → IsLater a → top ≢ column a
later_ne zero h = absurd (omega (arith, h.0))
later_ne (suc m) h = top_ne_column m (omega (arith, h.1))

is_missing_one : (a : ℕ) → IsLater a → is_missing (bit_xor top (column a)) sums ≡ true
is_missing_one zero h = absurd (omega (arith, h.0))
is_missing_one (suc m) h = is_missing-column m (omega (arith, h.1))

two_ordered :
    (a b : ℕ)
    → IsLater a
    → IsLater b
    → a < b
    → is_missing (bit_xor (bit_xor top (column a)) (column b)) sums ≡ true
two_ordered zero b h k l = absurd (omega (arith, h.0))
two_ordered (suc m) zero h k l = absurd (omega arith)
two_ordered (suc m) (suc o) h k l =
    is_missing-columns m (omega (arith, h.1)) o (omega arith) (omega (arith, k.1))

is_missing_two :
    (a b : ℕ)
    → IsLater a
    → IsLater b
    → a ≢ b
    → is_missing (bit_xor (bit_xor top (column a)) (column b)) sums ≡ true
is_missing_two a b h k ne = elim (dec_lt a b) [
  | yes lt ↦ two_ordered a b h k lt
  | no ge ↦
      ap (λ (s : ℕ). is_missing s sums) (bit_xor_right_comm top (column a) (column b))
      ∙ two_ordered b a k h (omega arith)
]

sum_ordered :
    (v a b : ℕ)
    → is_missing v sums ≡ true
    → IsLater a
    → IsLater b
    → a < b
    → v ≢ bit_xor (column a) (column b)
sum_ordered v zero b e h k l = absurd (omega (arith, h.0))
sum_ordered v (suc m) zero e h k l = absurd (omega arith)
sum_ordered v (suc m) (suc o) e h k l =
    sum_ne m (omega (arith, h.1)) o (omega arith) (omega (arith, k.1)) v e

sum_nonzero :
    (v a b : ℕ)
    → is_missing v sums ≡ true
    → IsLater a
    → IsLater b
    → a ≢ b
    → bit_xor (bit_xor v (column a)) (column b) ≢ 0
sum_nonzero v a b e h k ne z =
    let same =
      equal_of-bit_xor v (bit_xor (column a) (column b))
        (sym (bit_xor_assoc v (column a) (column b)) ∙ z) in
    elim (dec_lt a b) [
      | yes lt ↦ sum_ordered v a b e h k lt same
      | no ge ↦ sum_ordered v b a e k h (omega arith) (same ∙ bit_xor_comm (column a) (column b))
    ]

-- Up to four of them do not cancel the lowest.
pub later-nonzero : (qs : List ℕ) → Distinct qs → All IsLater qs → length qs ≤ 4 → sum top qs ≢ 0
later-nonzero [] d h l e = absurd (omega (arith, e))
later-nonzero (a ∷ []) d (ha, u) l e = later_ne a ha (equal_of-bit_xor top (column a) e)
later-nonzero (a ∷ b ∷ []) ((ab, u), d) (ha, (hb, v)) l e =
    sum_nonzero top a b top_missing ha hb ab e
later-nonzero (a ∷ b ∷ c ∷ []) (x, ((bc, u), d)) (ha, (hb, (hc, v))) l e =
    sum_nonzero (bit_xor top (column a)) b c (is_missing_one a ha) hb hc bc e
later-nonzero (a ∷ b ∷ c ∷ d ∷ []) ((ab, x), (y, ((cd, u), w))) (ha, (hb, (hc, (hd, v)))) l e =
    sum_nonzero (bit_xor (bit_xor top (column a)) (column b)) c d (is_missing_two a b ha hb ab) hc
      hd cd e
later-nonzero (a ∷ b ∷ c ∷ d ∷ f ∷ qs) dis h l e = absurd (omega arith)

-- ===== src/Protocol/Crc32/Sums.antt =====
-- Sums of up to five of the registers that single bits leave behind (crc32.cpp), by the lowest of
-- them.
use native.Mathlib.Decide.{dec_lt}
use cpp_embedded_telemetry_l.Common.{
  ℕ, suc, ◌-◌, ◌^◌, ◌≤◌, ◌<◌, ◌≡◌, ◌≢◌, refl, sym, ap, ◌∙◌, arith, List, [], ◌∷◌, All, length, map,
  bit_xor,
}
use cpp_embedded_telemetry_l.Bits.Xor.{bit_xor-lt, bit_xor_right_comm, zero-bit_xor}
use cpp_embedded_telemetry_l.Protocol.Crc32.{crc_bits}
use cpp_embedded_telemetry_l.Protocol.Crc32.Round.{crc_bits-inj, crc_bits-add, crc_bits_rounds}
use cpp_embedded_telemetry_l.Protocol.Crc32.Linear.{crc_bits-bit_xor, crc_bits-zero}
use cpp_embedded_telemetry_l.Protocol.Crc32.Pairs.{top, column}
use cpp_embedded_telemetry_l.Protocol.Crc32.Columns.{
  column-lt, sum, Distinct, IsLater, later-nonzero,
}

-- A list with its least number taken out.
record Front (p : ℕ) (ps : List ℕ) : Type 1 where
  least : ℕ
  others : List ℕ
  same_sum : (s : ℕ) → sum s (p ∷ ps) ≡ sum s (least ∷ others)
  same_length : length others ≡ length ps
  below : All (λ q. least < q) others
  distinct : Distinct others
  holds : (P : ℕ → Type 0) → All P (p ∷ ps) → All P (least ∷ others)

All-below : (n m : ℕ) (qs : List ℕ) → n < m → All (λ q. m < q) qs → All (λ q. n < q) qs
All-below n m [] l h = tt
All-below n m (q ∷ qs) l (lt, h) = (omega arith, All-below n m qs l h)

All-ne : (m : ℕ) (qs : List ℕ) → All (λ q. m < q) qs → All (λ q. m ≢ q) qs
All-ne m [] h = tt
All-ne m (q ∷ qs) (lt, h) = ((λ e. absurd (omega arith)), All-ne m qs h)

front : (p : ℕ) (ps : List ℕ) → Distinct (p ∷ ps) → Front p ps
front p [] d = record {
  least = p;
  others = [];
  same_sum = λ s. refl;
  same_length = refl;
  below = tt;
  distinct = tt;
  holds = λ P h. h;
}
front p (q ∷ qs) (ne, d) =
    let f = front q qs d in
    let apart = f.holds (λ x. p ≢ x) ne in
    elim (dec_lt p f.least) [
      | yes lt ↦ record {
        least = p;
        others = f.least ∷ f.others;
        same_sum = λ s. f.same_sum (bit_xor s (column p));
        same_length = ap suc f.same_length;
        below = (lt, All-below p f.least f.others lt f.below);
        distinct = (All-ne f.least f.others f.below, f.distinct);
        holds = λ P h. (h.0, f.holds P h.1);
      }
      | no ge ↦ record {
        least = f.least;
        others = p ∷ f.others;
        same_sum = λ s.
            f.same_sum (bit_xor s (column p))
            ∙ ap (λ (t : ℕ). sum t f.others) (bit_xor_right_comm s (column p) (column f.least));
        same_length = ap suc f.same_length;
        below = (omega (arith, apart.0), f.below);
        distinct = (apart.1, f.distinct);
        holds = λ P h. let r = f.holds P h.1 in (r.0, (h.0, r.1));
      }
    ]

-- The numbers counted from the least one.
abbrev shift : ℕ → List ℕ → List ℕ
shift n qs = map (λ q. q - n) qs

column-from : (n q : ℕ) → n < q → column q ≡ crc_bits n (column (q - n))
column-from n q l = sym (crc_bits-add (q - n) n top ∙ crc_bits_rounds _ q top (omega arith))

sum-shift :
    (n s : ℕ) (qs : List ℕ)
    → All (λ q. n < q) qs
    → sum (crc_bits n s) qs ≡ crc_bits n (sum s (shift n qs))
sum-shift n s [] h = refl
sum-shift n s (q ∷ qs) (l, h) =
    ap (λ (t : ℕ). sum t qs)
      (ap (bit_xor (crc_bits n s)) (column-from n q l)
        ∙ sym (crc_bits-bit_xor n s (column (q - n))))
    ∙ sum-shift n (bit_xor s (column (q - n))) qs h

sum-lt : (s : ℕ) (qs : List ℕ) → s < 2 ^ 32 → sum s qs < 2 ^ 32
sum-lt s [] l = l
sum-lt s (q ∷ qs) l = sum-lt (bit_xor s (column q)) qs (bit_xor-lt 32 s (column q) l (column-lt q))

shift-IsLater :
    (n : ℕ) (qs : List ℕ) → All (λ q. n < q) qs → All (λ q. q < 272) qs → All IsLater (shift n qs)
shift-IsLater n [] h k = tt
shift-IsLater n (q ∷ qs) (l, h) (b, k) = ((omega arith, omega arith), shift-IsLater n qs h k)

shift-apart :
    (n p : ℕ) (qs : List ℕ)
    → n < p
    → All (λ q. n < q) qs
    → All (λ q. p ≢ q) qs
    → All (λ q. p - n ≢ q) (shift n qs)
shift-apart n p [] l h a = tt
shift-apart n p (q ∷ qs) l (lt, h) (ne, a) = ((λ e. ne (omega arith)), shift-apart n p qs l h a)

shift-Distinct : (n : ℕ) (qs : List ℕ) → All (λ q. n < q) qs → Distinct qs → Distinct (shift n qs)
shift-Distinct n [] h d = tt
shift-Distinct n (q ∷ qs) (l, h) (a, d) = (shift-apart n q qs l h a, shift-Distinct n qs h d)

length-shift : (n : ℕ) (qs : List ℕ) → length (shift n qs) ≡ length qs
length-shift n [] = refl
length-shift n (q ∷ qs) = ap suc (length-shift n qs)

-- One to five columns of a frame do not cancel.
pub sum-nonzero :
    (ps : List ℕ)
    → Distinct ps
    → All (λ p. p < 272) ps
    → 0 < length ps
    → length ps ≤ 5
    → sum 0 ps ≢ 0
sum-nonzero [] d h l k e = absurd (omega arith)
sum-nonzero (p ∷ ps) d h l k e =
    let f = front p ps d in
    let n = f.least in
    let qs = f.others in
    let (hn, hq) = f.holds (λ x. x < 272) h in
    let shifted : crc_bits n (sum top (shift n qs)) ≡ crc_bits n 0 =
      sym (sum-shift n top qs f.below)
      ∙ ap (λ (t : ℕ). sum t qs) (sym (zero-bit_xor (column n)))
      ∙ sym (f.same_sum 0)
      ∙ e
      ∙ sym (crc_bits-zero n) in
    later-nonzero (shift n qs) (shift-Distinct n qs f.below f.distinct)
      (shift-IsLater n qs f.below hq) (omega (arith, length-shift n qs, f.same_length))
      (crc_bits-inj n (sum top (shift n qs)) 0 (sum-lt top (shift n qs) (omega arith)) (omega arith)
        shifted)

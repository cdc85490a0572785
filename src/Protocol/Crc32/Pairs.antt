-- ===== src/Protocol/Crc32/Pairs.antt =====
-- The registers that follow one another (crc32.cpp) in a list, the sums of two of them in a search
-- tree, and which sums are not there.
use Prim.Native.Nat.{compare, Ordering}
use cpp_embedded_telemetry_l.Common.{
  ℕ, zero, suc, ◌^◌, ◌<◌, ◌≡◌, ◌≢◌, refl, arith, Bool, true, false, not, ◌&&◌, List, [], ◌∷◌, ◌==◌,
  All, bit_xor,
}
use cpp_embedded_telemetry_l.Protocol.Crc32.{crc_bit, crc_bits}

pub data Tree : Type 0 where
  leaf : Tree
  node : Tree → ℕ → Tree → Tree

add : ℕ → Tree → Tree
add x leaf = node leaf x leaf
add x (node l y r) = elim (compare x y) [
  | Ordering.lt ↦ node (add x l) y r
  | Ordering.eq ↦ node l y r
  | Ordering.gt ↦ node l y (add x r)
]

pub is_missing : ℕ → Tree → Bool
is_missing v leaf = true
is_missing v (node l y r) = elim (compare v y) [
  | Ordering.lt ↦ is_missing v l
  | Ordering.eq ↦ false
  | Ordering.gt ↦ is_missing v r
]

add_sums : ℕ → List ℕ → Tree → Tree
add_sums x [] t = t
add_sums x (y ∷ ys) t = add (bit_xor x y) (add_sums x ys t)

add_pairs : List ℕ → Tree → Tree
add_pairs [] t = t
add_pairs (x ∷ xs) t = add_sums x xs (add_pairs xs t)

are_missing : ℕ → List ℕ → Tree → Bool
are_missing s [] t = true
are_missing s (x ∷ xs) t = is_missing (bit_xor s x) t && are_missing s xs t

pairs_missing : ℕ → List ℕ → Tree → Bool
pairs_missing s [] t = true
pairs_missing s (x ∷ xs) t = are_missing (bit_xor s x) xs t && pairs_missing s xs t

is_absent : ℕ → List ℕ → Bool
is_absent v [] = true
is_absent v (x ∷ xs) = not (x == v) && is_absent v xs

-- The registers of `n` rounds.
registers : ℕ → ℕ → List ℕ
registers zero crc = []
registers (suc n) crc = crc ∷ registers n (crc_bit crc)

-- After the top bit alone was set, in the length of a frame.
abbrev pub top : ℕ
top = 2 ^ 31

pub later : List ℕ
unfolding registers crc_bit
later = registers 271 (crc_bit top)

pub sums : Tree
unfolding later add_pairs
sums = add_pairs later leaf

top_absent : is_absent top later ≡ true
unfolding is_absent later registers crc_bit
top_absent = refl

pub top_missing : is_missing top sums ≡ true
unfolding is_missing sums later registers crc_bit add add_sums add_pairs
top_missing = refl

one_missing : are_missing top later sums ≡ true
unfolding is_missing are_missing sums later registers crc_bit add add_sums add_pairs
one_missing = refl

two_missing : pairs_missing top later sums ≡ true
unfolding is_missing are_missing pairs_missing sums later registers crc_bit add add_sums add_pairs
two_missing = refl

-- What a tree without a number says of those that it was made of.
add_lem : (v x : ℕ) (t : Tree) → is_missing v (add x t) ≡ true → (v ≢ x) × (is_missing v t ≡ true)
unfolding is_missing add
add_lem v x leaf h = ground arith
add_lem v x (node l y r) h = ground (arith, add_lem v x l, add_lem v x r)

abbrev pub AllPairs : (ℕ → ℕ → Type 0) → List ℕ → Type 0
AllPairs P [] = Unit
AllPairs P (x ∷ xs) = All (P x) xs × AllPairs P xs

add_sums_lem :
    (v x : ℕ) (ys : List ℕ) (t : Tree)
    → is_missing v (add_sums x ys t) ≡ true
    → All (λ y. v ≢ bit_xor x y) ys × (is_missing v t ≡ true)
unfolding add_sums
add_sums_lem v x [] t h = (tt, h)
add_sums_lem v x (y ∷ ys) t h =
    let (ne, h') = add_lem v (bit_xor x y) (add_sums x ys t) h in
    let (all, h'') = add_sums_lem v x ys t h' in ((ne, all), h'')

add_pairs_lem :
    (v : ℕ) (xs : List ℕ) (t : Tree)
    → is_missing v (add_pairs xs t) ≡ true
    → AllPairs (λ x y. v ≢ bit_xor x y) xs
unfolding add_pairs
add_pairs_lem v [] t h = tt
add_pairs_lem v (x ∷ xs) t h =
    let (all, h') = add_sums_lem v x xs (add_pairs xs t) h in (all, add_pairs_lem v xs t h')

are_missing_lem :
    (s : ℕ) (xs : List ℕ) (t : Tree)
    → are_missing s xs t ≡ true
    → All (λ x. is_missing (bit_xor s x) t ≡ true) xs
unfolding are_missing
are_missing_lem s [] t h = tt
are_missing_lem s (x ∷ xs) t h = (ground arith, are_missing_lem s xs t (ground arith))

pairs_missing_lem :
    (s : ℕ) (xs : List ℕ) (t : Tree)
    → pairs_missing s xs t ≡ true
    → AllPairs (λ x y. is_missing (bit_xor (bit_xor s x) y) t ≡ true) xs
unfolding pairs_missing
pairs_missing_lem s [] t h = tt
pairs_missing_lem s (x ∷ xs) t h =
    (are_missing_lem (bit_xor s x) xs t (ground arith), pairs_missing_lem s xs t (ground arith))

absent_lem : (v : ℕ) (xs : List ℕ) → is_absent v xs ≡ true → All (λ x. v ≢ x) xs
unfolding is_absent
absent_lem v [] h = tt
absent_lem v (x ∷ xs) h = (ground arith, absent_lem v xs (ground arith))

-- The registers by their numbers.
All-registers :
    (P : ℕ → Type 0) (m n crc : ℕ) → m < n → All P (registers n crc) → P (crc_bits m crc)
unfolding registers crc_bits
All-registers P m zero crc l h = absurd (omega arith)
All-registers P zero (suc n) crc l h = h.0
All-registers P (suc m) (suc n) crc l h = All-registers P m n (crc_bit crc) (omega arith) h.1

AllPairs-registers :
    (P : ℕ → ℕ → Type 0) (m o n crc : ℕ)
    → m < o
    → o < n
    → AllPairs P (registers n crc)
    → P (crc_bits m crc) (crc_bits o crc)
unfolding registers crc_bits
AllPairs-registers P m o zero crc l k h = absurd (omega arith)
AllPairs-registers P m zero (suc n) crc l k h = absurd (omega arith)
AllPairs-registers P zero (suc o) (suc n) crc l k h =
    All-registers (P crc) o n (crc_bit crc) (omega arith) h.0
AllPairs-registers P (suc m) (suc o) (suc n) crc l k h =
    AllPairs-registers P m o n (crc_bit crc) (omega arith) (omega arith) h.1

-- The register `n` rounds after its top bit alone was set.
abbrev pub column : ℕ → ℕ
column n = crc_bits n top

module _ (m : ℕ) (l : m < 271) where
  pub top_ne_column : top ≢ column (suc m)
  unfolding later crc_bits
  top_ne_column =
      All-registers (λ x. top ≢ x) m 271 (crc_bit top) l (absent_lem top later top_absent)

  pub is_missing-column : is_missing (bit_xor top (column (suc m))) sums ≡ true
  unfolding later crc_bits
  is_missing-column =
      All-registers (λ x. is_missing (bit_xor top x) sums ≡ true) m 271 (crc_bit top) l
        (are_missing_lem top later sums one_missing)

  module _ (o : ℕ) (k : m < o) (j : o < 271) where
    pub is_missing-columns :
        is_missing (bit_xor (bit_xor top (column (suc m))) (column (suc o))) sums ≡ true
    unfolding later crc_bits
    is_missing-columns =
        AllPairs-registers (λ x y. is_missing (bit_xor (bit_xor top x) y) sums ≡ true) m o 271
          (crc_bit top) k j (pairs_missing_lem top later sums two_missing)

    -- What is missing is no sum of two columns.
    pub sum_ne : (v : ℕ) → is_missing v sums ≡ true → v ≢ bit_xor (column (suc m)) (column (suc o))
    unfolding sums later crc_bits
    sum_ne v h =
        AllPairs-registers (λ x y. v ≢ bit_xor x y) m o 271 (crc_bit top) k j
          (add_pairs_lem v later leaf h)

-- ===== src/Protocol/Corruption.antt =====
-- Damage to a frame on its way from serializer.cpp to deserializer.cpp.
use native.Mathlib.Decide.{dec_lt}
use cpp_embedded_telemetry_l.Common.{
  ℕ, zero, suc, ◌+◌, ◌-◌, ◌^◌, ◌≤◌, ◌<◌, ◌≡◌, ◌≢◌, ◌⊎◌, inl, inr, refl, sym, ap, subst, ◌∙◌, arith,
  true, false, List, [], ◌∷◌, ◌++◌, All, length, take, set, get_or-set_self, Bool-cases,
}
use cpp_embedded_telemetry_l.Protocol.Types.{IsByte}
use cpp_embedded_telemetry_l.Protocol.Crc32.{calculate_crc32}
use cpp_embedded_telemetry_l.Protocol.Crc32.Detection.{crc32_detects_window}
use cpp_embedded_telemetry_l.Protocol.Deserializer.{byte_at, has_value, read_u32, deserialize}
use cpp_embedded_telemetry_l.Protocol.Deserializer.Reads.{byte_at-lt, read_u32-sum}
use cpp_embedded_telemetry_l.Protocol.Deserializer.Checks.{IsAccepted, deserialize-has_value}

-- If two inputs cannot both pass, and the first is accepted, then the second is rejected.
pub rejected :
    (good bad : List ℕ)
    → has_value (deserialize good) ≡ true
    → ¬ (IsAccepted good × IsAccepted bad)
    → has_value (deserialize bad) ≡ false
rejected good bad h never = elim (Bool-cases (has_value (deserialize bad))) [
  | inl e ↦ absurd (never ((deserialize-has_value good).0 h, (deserialize-has_value bad).0 e))
  | inr e ↦ e
]

All-append : (xs ys : List ℕ) → All IsByte (xs ++ ys) → All IsByte xs × All IsByte ys
All-append [] ys h = (tt, h)
All-append (x ∷ xs) ys (hx, hs) = let (a, b) = All-append xs ys hs in ((hx, a), b)

pub All-take : (n : ℕ) (xs : List ℕ) → All IsByte xs → All IsByte (take n xs)
All-take zero xs h = tt
All-take (suc n) [] h = tt
All-take (suc n) (x ∷ xs) (hx, hs) = (hx, All-take n xs hs)

take-append :
    (n : ℕ) (xs ys : List ℕ) → length xs ≤ n → take n (xs ++ ys) ≡ xs ++ take (n - length xs) ys
take-append n [] ys h = let e : n - 0 ≡ n = omega arith in rw e refl
take-append zero (x ∷ xs) ys h = absurd (omega arith)
take-append (suc n) (x ∷ xs) ys h =
    let e : suc n - suc (length xs) ≡ n - length xs = omega arith in
    rw e (ap (◌∷◌ x) (take-append n xs ys (omega arith)))

byte_at-append :
    (xs ys : List ℕ) (k : ℕ) → length xs ≤ k → byte_at (xs ++ ys) k ≡ byte_at ys (k - length xs)
byte_at-append [] ys k h = let e : k - 0 ≡ k = omega arith in rw e refl
byte_at-append (x ∷ xs) ys zero h = absurd (omega arith)
byte_at-append (x ∷ xs) ys (suc k) h =
    let e : suc k - suc (length xs) ≡ k - length xs = omega arith in
    rw e (byte_at-append xs ys k (omega arith))

-- Two strings that agree from place 30 on hold the same CRC.
same_crc :
    (xs ys : List ℕ)
    → All IsByte xs
    → All IsByte ys
    → ((k : ℕ) → 30 ≤ k → byte_at xs k ≡ byte_at ys k)
    → read_u32 xs 30 ≡ read_u32 ys 30
same_crc xs ys h k same = omega (
  arith,
  read_u32-sum xs h 30,
  read_u32-sum ys k 30,
  same 30 (omega arith),
  same 31 (omega arith),
  same 32 (omega arith),
  same 33 (omega arith),
)

-- The window in the middle of an input: the CRC at the end is not touched, and covers it.
covered_window :
    (front zs rest : List ℕ)
    → length front + length zs ≤ 30
    → take 30 (front ++ (zs ++ rest)) ≡ front ++ (zs ++ take (30 - length front - length zs) rest)
covered_window front zs rest inside =
    take-append 30 front (zs ++ rest) (omega arith)
    ∙ ap (◌++◌ front) (take-append (30 - length front) zs rest (omega arith))

beyond_window :
    (front xs ys rest : List ℕ)
    → length xs ≡ length ys
    → length front + length xs ≤ 30
    → (k : ℕ) → 30 ≤ k
    → byte_at (front ++ (xs ++ rest)) k ≡ byte_at (front ++ (ys ++ rest)) k
beyond_window front xs ys rest same inside k h =
    byte_at-append front (xs ++ rest) k (omega arith)
    ∙ byte_at-append xs rest (k - length front) (omega arith)
    ∙ ap (λ (n : ℕ). byte_at rest (k - length front - n)) same
    ∙ sym (
        byte_at-append front (ys ++ rest) k (omega arith)
        ∙ byte_at-append ys rest (k - length front) (omega arith))

All-join : (xs ys : List ℕ) → All IsByte xs → All IsByte ys → All IsByte (xs ++ ys)
All-join [] ys h k = k
All-join (x ∷ xs) ys (hx, hs) k = (hx, All-join xs ys hs k)

-- A burst of errors inside at most four neighbouring bytes of the header and the payload is
-- noticed: if the input with `xs` there is accepted, the one with other bytes `ys` there is not.
pub burst_rejected :
    (front xs ys rest : List ℕ)
    → All IsByte (front ++ (xs ++ rest))
    → All IsByte ys
    → length xs ≡ length ys
    → length xs ≤ 4
    → length front + length xs ≤ 30
    → xs ≢ ys
    → has_value (deserialize (front ++ (xs ++ rest))) ≡ true
    → has_value (deserialize (front ++ (ys ++ rest))) ≡ false
burst_rejected front xs ys rest h hy same few inside ne ok =
    rejected (front ++ (xs ++ rest)) (front ++ (ys ++ rest)) ok λ both.
      crc32_detects_window front xs ys left front_bytes xs_bytes hy left_bytes same few ne (
        ap calculate_crc32 (sym (covered_window front xs rest inside))
        ∙ sym both.0.1
        ∙ same_crc _ _ h received_bytes (beyond_window front xs ys rest same inside)
        ∙ both.1.1
        ∙ ap calculate_crc32 (covered_window front ys rest (omega arith))
        ∙ ap (λ (n : ℕ). calculate_crc32 (front ++ (ys ++ take (30 - length front - n) rest)))
            (sym same))
  where
    left : List ℕ
    left = take (30 - length front - length xs) rest

    front_bytes : All IsByte front
    front_bytes = (All-append front (xs ++ rest) h).0

    xs_bytes : All IsByte xs
    xs_bytes = (All-append xs rest (All-append front (xs ++ rest) h).1).0

    rest_bytes : All IsByte rest
    rest_bytes = (All-append xs rest (All-append front (xs ++ rest) h).1).1

    left_bytes : All IsByte left
    left_bytes = All-take (30 - length front - length xs) rest rest_bytes

    received_bytes : All IsByte (front ++ (ys ++ rest))
    received_bytes = All-join front (ys ++ rest) front_bytes (All-join ys rest hy rest_bytes)

-- The same for one byte, in the CRC too.
pub All-set : (bytes : List ℕ) (i v : ℕ) → All IsByte bytes → v < 2 ^ 8 → All IsByte (set bytes i v)
All-set [] i v h hv = tt
All-set (b ∷ bs) zero v h hv = (hv, h.1)
All-set (b ∷ bs) (suc i) v h hv = (h.0, All-set bs i v h.1 hv)

pub take-set : (n i v : ℕ) (bytes : List ℕ) → n ≤ i → take n (set bytes i v) ≡ take n bytes
take-set zero i v bytes h = refl
take-set (suc n) i v [] h = refl
take-set (suc n) zero v (b ∷ bs) h = absurd (omega arith)
take-set (suc n) (suc i) v (b ∷ bs) h = ap (◌∷◌ b) (take-set n i v bs (omega arith))

-- A string in three parts around one place.
around :
    (bytes : List ℕ) (i : ℕ)
    → i < length bytes
    → (front rest : List ℕ) × (length front ≡ i)
      × (bytes ≡ front ++ (byte_at bytes i ∷ rest))
      × ((v : ℕ) → set bytes i v ≡ front ++ (v ∷ rest))
around [] i h = absurd (omega arith)
around (b ∷ bs) zero h = ([], bs, refl, refl, λ v. refl)
around (b ∷ bs) (suc i) h =
    let (front, rest, n, e, w) = around bs i (omega arith) in
    (b ∷ front, rest, ap suc n, ap (◌∷◌ b) e, λ v. ap (◌∷◌ b) (w v))

-- Equal CRC fields have equal bytes.
crc_bytes :
    (xs ys : List ℕ)
    → All IsByte xs
    → All IsByte ys
    → read_u32 xs 30 ≡ read_u32 ys 30
    → (i : ℕ) → 30 ≤ i
    → i < 34
    → byte_at xs i ≡ byte_at ys i
crc_bytes xs ys h k e i lo hi = elim (place i lo hi) [
  | inl (inl p) ↦ rw p (omega (arith, sums))
  | inl (inr p) ↦ rw p (omega (arith, sums))
  | inr (inl p) ↦ rw p (omega (arith, sums))
  | inr (inr p) ↦ rw p (omega (arith, sums))
]
  where
    sums :
        (byte_at xs 30 ≡ byte_at ys 30)
        × (byte_at xs 31 ≡ byte_at ys 31)
        × (byte_at xs 32 ≡ byte_at ys 32)
        × (byte_at xs 33 ≡ byte_at ys 33)
    sums = omega (
      arith,
      read_u32-sum xs h 30,
      read_u32-sum ys k 30,
      byte_at-lt xs 30 h,
      byte_at-lt xs 31 h,
      byte_at-lt xs 32 h,
      byte_at-lt xs 33 h,
      byte_at-lt ys 30 k,
      byte_at-lt ys 31 k,
      byte_at-lt ys 32 k,
      byte_at-lt ys 33 k,
    )

    place : (i : ℕ) → 30 ≤ i → i < 34 → ((i ≡ 30) ⊎ (i ≡ 31)) ⊎ ((i ≡ 32) ⊎ (i ≡ 33))
    place i lo hi = omega arith

crc_place_rejected :
    (bytes : List ℕ) (i v : ℕ)
    → All IsByte bytes
    → 30 ≤ i
    → i < length bytes
    → v < 2 ^ 8
    → v ≢ byte_at bytes i
    → has_value (deserialize bytes) ≡ true
    → has_value (deserialize (set bytes i v)) ≡ false
crc_place_rejected bytes i v h lo hi hv ne ok = rejected bytes (set bytes i v) ok λ both. ne (
    sym (get_or-set_self bytes i v 0 hi)
    ∙ sym (
        crc_bytes bytes (set bytes i v) h (All-set bytes i v h hv)
          (both.0.1 ∙ ap calculate_crc32 (sym (take-set 30 i v bytes lo)) ∙ sym both.1.1) i lo
          (omega (arith, both.0.0.0))))

-- One damaged byte anywhere in an accepted input, its CRC included, has the input rejected.
pub byte_rejected :
    (bytes : List ℕ) (i v : ℕ)
    → All IsByte bytes
    → i < length bytes
    → v < 2 ^ 8
    → v ≢ byte_at bytes i
    → has_value (deserialize bytes) ≡ true
    → has_value (deserialize (set bytes i v)) ≡ false
byte_rejected bytes i v h hi hv ne ok = elim (dec_lt i 30) [
  | yes lt ↦
      let (front, rest, n, e, w) = around bytes i hi in
      rw (w v) (
        burst_rejected front (byte_at bytes i ∷ []) (v ∷ []) rest (subst (All IsByte) e h) (hv, tt)
          refl (omega arith) (omega arith) (λ same. ne (cc))
          (subst (λ (b : List ℕ). has_value (deserialize b) ≡ true) e ok))
  | no ge ↦ crc_place_rejected bytes i v h (omega arith) hi hv ne ok
]

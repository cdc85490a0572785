-- ===== src/Host/Report.antt =====
-- telemetry_report.cpp: optional values and averages as text, a list of the codes of characters.
pub mod Text
pub mod Lines
pub mod Numerals
pub mod Values
pub mod Shows
pub mod Injective
mod Examples
use native.Mathlib.Nat.{pow-suc, div-add-mod', div-le_self}
use cpp_embedded_telemetry_l.Common.{
  ℕ, zero, suc, ◌+◌, ◌-◌, ◌*◌, ◌/◌, ◌%◌, ◌^◌, ◌<◌, ◌≤◌, ◌≡◌, ◌≢◌, refl, ap, ◌∙◌, arith, Option,
  List, [], ◌∷◌, ◌++◌, foldl, ltb, ◌==◌, if◌then◌else◌,
}
use cpp_embedded_telemetry_l.Common.Int.{ℤ, pos, negsuc, pos_part, neg_part}

-- `std::to_string` of a number below 10 ^ rounds: the digits of 64-bit numbers are at most 20.
pub digits : ℕ → ℕ → List ℕ
digits zero n = []
digits (suc rounds) n =
    let front = digits rounds (n / 10) in
    if ltb n 10 then (48 + n) ∷ [] else front ++ ((48 + n % 10) ∷ [])

pub to_string : ℕ → List ℕ
unfolding digits
to_string n = digits 20 n

pub to_string_ℤ : ℤ → List ℕ
unfolding to_string
to_string_ℤ (pos n) = to_string n
to_string_ℤ (negsuc n) = 45 ∷ to_string (suc n)

-- "N/A"
abbrev pub not_available : List ℕ
not_available = 78 ∷ 47 ∷ 65 ∷ []

-- The two uses of the template.
pub format_optional_ℕ : Option ℕ → List ℕ
format_optional_ℕ Option.none = not_available
format_optional_ℕ (Option.some n) = to_string n

pub format_optional_ℤ : Option ℤ → List ℕ
format_optional_ℤ Option.none = not_available
format_optional_ℤ (Option.some z) = to_string_ℤ z

-- `-(sum + 1)` of a negative sum is not negative and does not overflow; the cast keeps it.
abbrev pub magnitude : ℤ → ℕ
magnitude (pos n) = n % 2 ^ 64
magnitude (negsuc n) = (n % 2 ^ 64 + 1) % 2 ^ 64

abbrev pub sign : ℤ → List ℕ
sign (pos n) = []
sign (negsuc n) = 45 ∷ []

pub format_unsigned_average : ℕ → ℕ → List ℕ
format_unsigned_average sum count =
    if count == 0
    then not_available
    else if sum % count == 0
    then to_string (sum / count)
    else to_string sum ++ (47 ∷ to_string count)

pub format_signed_average : ℤ → ℕ → List ℕ
format_signed_average sum count =
    if count == 0
    then not_available
    else if magnitude sum % count == 0
    then sign sum ++ to_string (magnitude sum / count)
    else sign sum ++ (to_string (magnitude sum) ++ (47 ∷ to_string count))

-- A reader of decimal digits.
abbrev pub read_decimal : List ℕ → ℕ
read_decimal text = foldl (λ value c. value * 10 + (c - 48)) 0 text

foldl-snoc :
    (text : List ℕ) (v c : ℕ)
    → foldl (λ value c. value * 10 + (c - 48)) v (text ++ (c ∷ []))
      ≡ foldl (λ value c. value * 10 + (c - 48)) v text * 10 + (c - 48)
foldl-snoc [] v c = refl
foldl-snoc (x ∷ xs) v c = foldl-snoc xs (v * 10 + (x - 48)) c

read_decimal-digits : (rounds n : ℕ) → n < 10 ^ rounds → read_decimal (digits rounds n) ≡ n
unfolding digits
read_decimal-digits zero n h = omega arith
read_decimal-digits (suc rounds) n h =
    let power = pow-suc 10 rounds in
    ground (
      arith,
      foldl-snoc (digits rounds (n / 10)) 0 (48 + n % 10),
      read_decimal-digits rounds (n / 10) (omega (arith, power)),
    )

pub read_decimal-to_string : (n : ℕ) → n < 2 ^ 64 → read_decimal (to_string n) ≡ n
unfolding to_string
read_decimal-to_string n h = read_decimal-digits 20 n (omega arith)

average_text :
    (sum count : ℕ)
    → count ≢ 0
    → sum % count ≡ 0
    → format_unsigned_average sum count ≡ to_string (sum / count)
unfolding format_unsigned_average
average_text sum count ne d = ground arith

le_lt : {a b c : ℕ} → a ≤ b → b < c → a < c
le_lt h k = omega arith

-- If the count is not zero and divides a sum below 2 ^ 64, the text of the average, read as a
-- decimal number and multiplied by the count, is the sum.
pub format_unsigned_average-exact :
    (sum count : ℕ)
    → sum < 2 ^ 64
    → count ≢ 0
    → sum % count ≡ 0
    → read_decimal (format_unsigned_average sum count) * count ≡ sum
format_unsigned_average-exact sum count h ne d =
    let small = le_lt (div-le_self sum count) h in
    rw (average_text sum count ne d) (
      ap (λ v. v * count) (read_decimal-to_string (sum / count) small)
      ∙ omega (arith, div-add-mod' sum count))

signed_unsigned :
    (sum : ℤ) (count : ℕ)
    → count ≢ 0
    → format_signed_average sum count ≡ sign sum ++ format_unsigned_average (magnitude sum) count
unfolding format_signed_average format_unsigned_average
signed_unsigned (pos n) count ne = ground arith
signed_unsigned (negsuc n) count ne = ground arith

magnitude_lem :
    (sum : ℤ)
    → pos_part sum < 2 ^ 63
    → neg_part sum ≤ 2 ^ 63
    → magnitude sum ≡ pos_part sum + neg_part sum
magnitude_lem (pos n) p q = omega arith
magnitude_lem (negsuc n) p q = omega arith

-- If the count is not zero, the average of a 64-bit signed sum is shown as that of its absolute
-- value, behind a minus sign if the sum is negative, for the least value too.
pub format_signed_average-unsigned :
    (sum : ℤ) (count : ℕ)
    → pos_part sum < 2 ^ 63
    → neg_part sum ≤ 2 ^ 63
    → count ≢ 0
    → format_signed_average sum count
      ≡ sign sum ++ format_unsigned_average (pos_part sum + neg_part sum) count
format_signed_average-unsigned sum count p q ne =
    signed_unsigned sum count ne
    ∙ ap (λ n. sign sum ++ format_unsigned_average n count) (magnitude_lem sum p q)

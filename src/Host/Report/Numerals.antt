-- ===== src/Host/Report/Numerals.antt =====
-- The texts of the values in a report: which characters they have, and which texts are equal
-- (telemetry_report.cpp).
use cpp_embedded_telemetry_l.Common.{
  ℕ, zero, suc, ◌+◌, ◌/◌, ◌%◌, ◌^◌, ◌<◌, ◌≡◌, ◌≢◌, refl, sym, ap, ◌∙◌, arith, Bool, true, false,
  not, ◌&&◌, Option, List, [], ◌∷◌, ◌++◌, ltb,
}
use cpp_embedded_telemetry_l.Common.Int.{ℤ, pos, negsuc, pos_part, neg_part}
use cpp_embedded_telemetry_l.Host.Report.{
  digits, to_string, to_string_ℤ, format_optional_ℕ, format_optional_ℤ, magnitude, sign,
  format_signed_average, format_unsigned_average, read_decimal, read_decimal-to_string,
}
use cpp_embedded_telemetry_l.Host.Report.Lines.{is_line}

abbrev pub is_digit : ℕ → Bool
is_digit c = not (ltb c 48) && ltb c 58

abbrev pub all_digits : List ℕ → Bool
all_digits [] = true
all_digits (c ∷ text) = is_digit c && all_digits text

abbrev pub starts_digit : List ℕ → Bool
starts_digit [] = false
starts_digit (c ∷ text) = is_digit c

all_digits-append :
    (a b : List ℕ) → all_digits a ≡ true → all_digits b ≡ true → all_digits (a ++ b) ≡ true
all_digits-append [] b h k = k
all_digits-append (c ∷ a) b h k = ground (arith, all_digits-append a b)

pub all_digits-slash : (a b : List ℕ) → all_digits (a ++ (47 ∷ b)) ≡ false
all_digits-slash [] b = refl
all_digits-slash (c ∷ a) b = ground (arith, all_digits-slash a b)

pub starts_digit-append :
    (a b : List ℕ) → all_digits a ≡ true → starts_digit b ≡ true → starts_digit (a ++ b) ≡ true
starts_digit-append [] b h k = k
starts_digit-append (c ∷ a) b h k = ground arith

pub is_line-append : (a b : List ℕ) → is_line a ≡ true → is_line b ≡ true → is_line (a ++ b) ≡ true
is_line-append [] b h k = k
is_line-append (c ∷ a) b h k = ground (arith, is_line-append a b)

all_digits-is_line : (a : List ℕ) → all_digits a ≡ true → is_line a ≡ true
all_digits-is_line [] h = refl
all_digits-is_line (c ∷ a) h = ground (arith, all_digits-is_line a)

digits-all_digits : (rounds n : ℕ) → all_digits (digits rounds n) ≡ true
unfolding digits
digits-all_digits zero n = refl
digits-all_digits (suc rounds) n = ground (
  arith,
  digits-all_digits rounds (n / 10),
  all_digits-append (digits rounds (n / 10)) ((48 + n % 10) ∷ []),
)

pub to_string-all_digits : (n : ℕ) → all_digits (to_string n) ≡ true
unfolding to_string
to_string-all_digits n = digits-all_digits 20 n

digits-starts_digit : (rounds n : ℕ) → starts_digit (digits (suc rounds) n) ≡ true
unfolding digits
digits-starts_digit rounds n = ground (
  arith,
  digits-all_digits rounds (n / 10),
  starts_digit-append (digits rounds (n / 10)) ((48 + n % 10) ∷ []),
)

pub to_string-starts_digit : (n : ℕ) → starts_digit (to_string n) ≡ true
unfolding to_string
to_string-starts_digit n = digits-starts_digit 19 n

pub to_string-is_line : (n : ℕ) → is_line (to_string n) ≡ true
to_string-is_line n = all_digits-is_line (to_string n) (to_string-all_digits n)

to_string_ℤ-is_line : (z : ℤ) → is_line (to_string_ℤ z) ≡ true
unfolding to_string_ℤ
to_string_ℤ-is_line (pos n) = to_string-is_line n
to_string_ℤ-is_line (negsuc n) = to_string-is_line (suc n)

pub format_optional_ℕ-is_line : (o : Option ℕ) → is_line (format_optional_ℕ o) ≡ true
unfolding format_optional_ℕ
format_optional_ℕ-is_line Option.none = refl
format_optional_ℕ-is_line (Option.some n) = to_string-is_line n

pub format_optional_ℤ-is_line : (o : Option ℤ) → is_line (format_optional_ℤ o) ≡ true
unfolding format_optional_ℤ
format_optional_ℤ-is_line Option.none = refl
format_optional_ℤ-is_line (Option.some z) = to_string_ℤ-is_line z

fraction-is_line : (a b : ℕ) → is_line (to_string a ++ (47 ∷ to_string b)) ≡ true
fraction-is_line a b =
    is_line-append (to_string a) (47 ∷ to_string b) (to_string-is_line a) (to_string-is_line b)

pub format_unsigned_average-is_line :
    (a count : ℕ) → is_line (format_unsigned_average a count) ≡ true
unfolding format_unsigned_average
format_unsigned_average-is_line a count =
    ground (arith, to_string-is_line (a / count), fraction-is_line a count)

sign-is_line : (z : ℤ) (text : List ℕ) → is_line text ≡ true → is_line (sign z ++ text) ≡ true
sign-is_line (pos n) text h = h
sign-is_line (negsuc n) text h = h

pub format_signed_average-is_line :
    (z : ℤ) (count : ℕ) → is_line (format_signed_average z count) ≡ true
unfolding format_signed_average
format_signed_average-is_line z count = ground (
  arith,
  sign-is_line z (to_string (magnitude z / count)) (to_string-is_line (magnitude z / count)),
  sign-is_line z (to_string (magnitude z) ++ (47 ∷ to_string count))
      (fraction-is_line (magnitude z) count),
)

-- Equal texts stand for equal values.
pub to_string-injective : (n m : ℕ) → n < 2 ^ 64 → m < 2 ^ 64 → to_string n ≡ to_string m → n ≡ m
to_string-injective n m h k e =
    sym (read_decimal-to_string n h) ∙ ap read_decimal e ∙ read_decimal-to_string m k

-- The numbers of 64 bits, with or without a sign.
abbrev pub IsNumber : ℤ → Type 0
IsNumber z = (pos_part z < 2 ^ 64) × (neg_part z < 2 ^ 64)

no_minus : (n : ℕ) (text : List ℕ) → to_string n ≢ 45 ∷ text
no_minus n text e = ground (arith, to_string-starts_digit n, ap starts_digit e)

pub to_string_ℤ-injective :
    (y z : ℤ) → IsNumber y → IsNumber z → to_string_ℤ y ≡ to_string_ℤ z → y ≡ z
unfolding to_string_ℤ
to_string_ℤ-injective (pos n) (pos m) h k e = ap pos (to_string-injective n m h.0 k.0 e)
to_string_ℤ-injective (pos n) (negsuc m) h k e = absurd (no_minus n (to_string (suc m)) e)
to_string_ℤ-injective (negsuc n) (pos m) h k e = absurd (no_minus m (to_string (suc n)) (sym e))
to_string_ℤ-injective (negsuc n) (negsuc m) h k e =
    let tails : to_string (suc n) ≡ to_string (suc m) = cc e in
    let same = to_string-injective (suc n) (suc m) h.1 k.1 tails in ap negsuc (omega (arith, same))

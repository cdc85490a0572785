-- ===== src/Host/Report/Values.antt =====
-- The texts of optional values and of sums in a report (telemetry_report.cpp).
use mathlib.Core.List.{append_cancel_right}
use native.Mathlib.Nat.{div-add-mod', div-le_self}
use cpp_embedded_telemetry_l.Common.{
  ℕ, suc, ◌+◌, ◌*◌, ◌/◌, ◌%◌, ◌^◌, ◌<◌, ◌≤◌, ◌≡◌, ◌≢◌, refl, sym, ap, ◌∙◌, arith, true, Option,
  List, [], ◌∷◌, ◌++◌, ◌⊎◌, inl, inr,
}
use cpp_embedded_telemetry_l.Common.Int.{ℤ, pos, negsuc, pos_part, neg_part}
use cpp_embedded_telemetry_l.Host.Report.{
  to_string, to_string_ℤ, not_available, format_optional_ℕ, format_optional_ℤ, sign,
  format_signed_average, format_unsigned_average, format_signed_average-unsigned,
}
use cpp_embedded_telemetry_l.Host.Report.Numerals.{
  all_digits, starts_digit, all_digits-slash, to_string-all_digits, to_string-starts_digit,
  to_string-injective, to_string_ℤ-injective, IsNumber,
}

abbrev pub Below64 : Option ℕ → Type 0
Below64 Option.none = Unit
Below64 (Option.some n) = n < 2 ^ 64

abbrev pub IsOptionalNumber : Option ℤ → Type 0
IsOptionalNumber Option.none = Unit
IsOptionalNumber (Option.some z) = IsNumber z

available_ℕ : (n : ℕ) → to_string n ≢ not_available
available_ℕ n e = ground (arith, to_string-all_digits n, ap all_digits e)

abbrev first : List ℕ → ℕ
first [] = 0
first (c ∷ text) = c

to_string_ℤ-pos : (n : ℕ) → to_string_ℤ (pos n) ≡ to_string n
unfolding to_string_ℤ
to_string_ℤ-pos n = refl

to_string_ℤ-negsuc : (n : ℕ) → to_string_ℤ (negsuc n) ≡ 45 ∷ to_string (suc n)
unfolding to_string_ℤ
to_string_ℤ-negsuc n = refl

available_ℤ : (z : ℤ) → to_string_ℤ z ≢ not_available
available_ℤ (pos n) e = available_ℕ n (sym (to_string_ℤ-pos n) ∙ e)
available_ℤ (negsuc n) e = absurd (omega (arith, ap first (sym (to_string_ℤ-negsuc n) ∙ e)))

pub format_optional_ℕ-injective :
    (a b : Option ℕ) → Below64 a → Below64 b → format_optional_ℕ a ≡ format_optional_ℕ b → a ≡ b
unfolding format_optional_ℕ
format_optional_ℕ-injective Option.none Option.none h k e = refl
format_optional_ℕ-injective Option.none (Option.some m) h k e = absurd (available_ℕ m (sym e))
format_optional_ℕ-injective (Option.some n) Option.none h k e = absurd (available_ℕ n e)
format_optional_ℕ-injective (Option.some n) (Option.some m) h k e =
    ap Option.some (to_string-injective n m h k e)

pub format_optional_ℤ-injective :
    (a b : Option ℤ)
    → IsOptionalNumber a
    → IsOptionalNumber b
    → format_optional_ℤ a ≡ format_optional_ℤ b
    → a ≡ b
unfolding format_optional_ℤ
format_optional_ℤ-injective Option.none Option.none h k e = refl
format_optional_ℤ-injective Option.none (Option.some z) h k e = absurd (available_ℤ z (sym e))
format_optional_ℤ-injective (Option.some y) Option.none h k e = absurd (available_ℤ y e)
format_optional_ℤ-injective (Option.some y) (Option.some z) h k e =
    ap Option.some (to_string_ℤ-injective y z h k e)

-- An average is shown as a whole number or as a fraction.
starts_digit-fraction : (a b : List ℕ) → starts_digit a ≡ true → starts_digit (a ++ (47 ∷ b)) ≡ true
starts_digit-fraction [] b h = absurd (cc h)
starts_digit-fraction (c ∷ a) b h = h

abbrev rest : List ℕ → List ℕ
rest [] = []
rest (c ∷ text) = text

-- A sum of 64 bits.
abbrev pub IsSum : ℤ → Type 0
IsSum z = (pos_part z < 2 ^ 63) × (neg_part z ≤ 2 ^ 63)

module _ (count : ℕ) (ne : count ≢ 0) where
  abbrev IsAverage : ℕ → List ℕ → Type 0
  IsAverage sum text =
      ((sum % count ≡ 0) × (text ≡ to_string (sum / count)))
      ⊎ (text ≡ to_string sum ++ (47 ∷ to_string count))

  IsAverage-cases : (sum : ℕ) → IsAverage sum (format_unsigned_average sum count)
  unfolding format_unsigned_average
  IsAverage-cases sum = ground arith

  le_bound : (sum : ℕ) → sum < 2 ^ 64 → sum / count < 2 ^ 64
  le_bound sum h = omega (arith, div-le_self sum count)

  whole-fraction : (a b : ℕ) → to_string a ≢ to_string b ++ (47 ∷ to_string count)
  whole-fraction a b e = ground (
    arith,
    to_string-all_digits a,
    ap all_digits e,
    all_digits-slash (to_string b) (to_string count),
  )

  whole-injective : (a b : ℕ) → a % count ≡ 0 → b % count ≡ 0 → a / count ≡ b / count → a ≡ b
  whole-injective a b h k e =
      omega (arith, div-add-mod' a count, div-add-mod' b count, ap (λ (n : ℕ). n * count) e)

  IsAverage-injective :
      (a b : ℕ) (text : List ℕ)
      → a < 2 ^ 64
      → b < 2 ^ 64
      → IsAverage a text
      → IsAverage b text
      → a ≡ b
  IsAverage-injective a b text h k (inl (d, e)) (inl (c, f)) =
      whole-injective a b d c
        (to_string-injective (a / count) (b / count) (le_bound a h) (le_bound b k) (sym e ∙ f))
  IsAverage-injective a b text h k (inl (d, e)) (inr f) =
      absurd (whole-fraction (a / count) b (sym e ∙ f))
  IsAverage-injective a b text h k (inr e) (inl (c, f)) =
      absurd (whole-fraction (b / count) a (sym f ∙ e))
  IsAverage-injective a b text h k (inr e) (inr f) =
      to_string-injective a b h k
        (append_cancel_right (to_string a) (to_string b) (47 ∷ to_string count) (sym e ∙ f))

  pub format_unsigned_average-injective :
      (a b : ℕ)
      → a < 2 ^ 64
      → b < 2 ^ 64
      → format_unsigned_average a count ≡ format_unsigned_average b count
      → a ≡ b
  format_unsigned_average-injective a b h k e =
      IsAverage-injective a b (format_unsigned_average a count) h k (IsAverage-cases a)
        (rw e (IsAverage-cases b))

  starts-average : (sum : ℕ) → starts_digit (format_unsigned_average sum count) ≡ true
  starts-average sum = elim (IsAverage-cases sum) [
    | inl (d, e) ↦ ap starts_digit e ∙ to_string-starts_digit (sum / count)
    | inr e ↦
        ap starts_digit e
        ∙ starts_digit-fraction (to_string sum) (to_string count) (to_string-starts_digit sum)
  ]

  unsigned-minus : (sum : ℕ) (text : List ℕ) → format_unsigned_average sum count ≢ 45 ∷ text
  unsigned-minus sum text e = absurd (cc (ap starts_digit e, starts-average sum))

  signed-injective :
      (y z : ℤ)
      → IsSum y
      → IsSum z
      → sign y ++ format_unsigned_average (pos_part y + neg_part y) count
        ≡ sign z ++ format_unsigned_average (pos_part z + neg_part z) count
      → y ≡ z
  signed-injective (pos n) (pos m) h k e =
      let same =
        format_unsigned_average-injective (n + 0) (m + 0) (omega (arith, h)) (omega (arith, k)) e in
      ap pos (omega (arith, same))
  signed-injective (pos n) (negsuc m) h k e =
      absurd (unsigned-minus (n + 0) (format_unsigned_average (0 + suc m) count) e)
  signed-injective (negsuc n) (pos m) h k e =
      absurd (unsigned-minus (m + 0) (format_unsigned_average (0 + suc n) count) (sym e))
  signed-injective (negsuc n) (negsuc m) h k e =
      let same =
        format_unsigned_average-injective (0 + suc n) (0 + suc m) (omega (arith, h))
          (omega (arith, k)) (ap rest e) in
      ap negsuc (omega (arith, same))

  pub format_signed_average-injective :
      (y z : ℤ)
      → IsSum y
      → IsSum z
      → format_signed_average y count ≡ format_signed_average z count
      → y ≡ z
  format_signed_average-injective y z h k e = signed-injective y z h k (
      sym (format_signed_average-unsigned y count h.0 h.1 ne)
      ∙ e
      ∙ format_signed_average-unsigned z count k.0 k.1 ne)

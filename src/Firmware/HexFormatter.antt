-- ===== src/Firmware/HexFormatter.antt =====
-- hex_formatter.cpp: a frame as 68 hexadecimal digits and a zero at the end.
use cpp_embedded_telemetry_l.Common.{
  ℕ, zero, suc, ◌+◌, ◌-◌, ◌*◌, ◌/◌, ◌%◌, ◌^◌, ◌<◌, ◌≤◌, ◌≡◌, refl, sym, ap, ◌∙◌, arith, List, ◌++◌,
  ◌⊎◌, [], ◌∷◌, length, get_or, set, replicate, take, All, ltb, if◌then◌else◌, bit_and,
}
use mathlib.Core.Path.{fun_ext}
use cpp_embedded_telemetry_l.Protocol.Types.{frame_size, IsByte}
use cpp_embedded_telemetry_l.Protocol.Deserializer.{byte_at}
use cpp_embedded_telemetry_l.Protocol.Deserializer.Reads.{tabulate, byte_at-lt, tabulate-byte_at}
use cpp_embedded_telemetry_l.Bits.Fields.{bit_and_mask}

-- The codes of "0123456789ABCDEF" and the zero that ends it.
abbrev pub hexadecimal_digits : List ℕ
hexadecimal_digits =
    48 ∷ 49 ∷ 50 ∷ 51 ∷ 52 ∷ 53 ∷ 54 ∷ 55 ∷ 56 ∷ 57 ∷ 65 ∷ 66 ∷ 67 ∷ 68 ∷ 69 ∷ 70 ∷ 0 ∷ []

abbrev pub hexadecimal_frame_length : ℕ
hexadecimal_frame_length = frame_size * 2

abbrev digit : ℕ → ℕ
digit value = get_or hexadecimal_digits value 0

-- The loop with the rounds that are left.
format_loop : ℕ → ℕ → List ℕ → List ℕ → List ℕ
format_loop zero index frame output = output
format_loop (suc rounds) index frame output =
    let byte = get_or frame index 0 in
    let high = set output (index * 2) (digit (byte / 2 ^ 4)) in
    let low = set high (index * 2 + 1) (digit (bit_and byte 0x0F)) in
    format_loop rounds (index + 1) frame low

pub format : List ℕ → List ℕ
unfolding format_loop
format frame =
    let output = format_loop frame_size 0 frame (replicate (hexadecimal_frame_length + 1) 0) in
    set output hexadecimal_frame_length 0

-- A reader of hexadecimal text: two digits for each byte.
abbrev pub digit_value : ℕ → ℕ
digit_value c = if ltb c 58 then c - 48 else c - 55

abbrev pub read_hex : List ℕ → List ℕ
read_hex [] = []
read_hex (a ∷ []) = []
read_hex (a ∷ b ∷ rest) = (digit_value a * 16 + digit_value b) ∷ read_hex rest

digit_value-digit : (i : ℕ) → i < 16 → digit_value (digit i) ≡ i
digit_value-digit i h = ground arith

pair_value :
    (b : ℕ)
    → b < 2 ^ 8
    → digit_value (digit (b / 2 ^ 4)) * 16 + digit_value (digit (bit_and b 0x0F)) ≡ b
pair_value b h = rw (bit_and_mask 4 b) (
    omega (
      arith,
      digit_value-digit (b / 2 ^ 4) (omega arith),
      digit_value-digit (b % 2 ^ 4) (omega arith),
    ))

read_hex-format-tabulate :
    (frame : List ℕ)
    → read_hex (take 68 (format frame))
      ≡ tabulate 34 (λ i.
        digit_value (digit (byte_at frame i / 2 ^ 4)) * 16
        + digit_value (digit (bit_and (byte_at frame i) 0x0F)))
unfolding format
read_hex-format-tabulate frame = refl

-- The text of 34 bytes, read back two digits at a time, is these bytes.
pub read_hex-format :
    (frame : List ℕ)
    → All IsByte frame
    → length frame ≡ frame_size
    → read_hex (take hexadecimal_frame_length (format frame)) ≡ frame
read_hex-format frame h l =
    read_hex-format-tabulate frame
    ∙ ap (tabulate 34) (fun_ext (λ i. pair_value (byte_at frame i) (byte_at-lt frame i h)))
    ∙ sym (ap (λ n. tabulate n (byte_at frame)) l)
    ∙ sym (tabulate-byte_at frame)

-- A character of the text.
abbrev pub IsDigit : ℕ → Type 0
IsDigit c = ((48 ≤ c) × (c ≤ 57)) ⊎ ((65 ≤ c) × (c ≤ 70))

digit-IsDigit : (i : ℕ) → i < 16 → IsDigit (digit i)
digit-IsDigit i h = ground arith

abbrev pub pair_list : ℕ → (ℕ → ℕ) → List ℕ
pair_list zero g = []
pair_list (suc n) g =
    digit (g 0 / 2 ^ 4) ∷ digit (bit_and (g 0) 0x0F) ∷ pair_list n (λ i. g (suc i))

format-pairs : (frame : List ℕ) → format frame ≡ pair_list 34 (byte_at frame) ++ (0 ∷ [])
unfolding format
format-pairs frame = refl

pair_list-IsDigit : (n : ℕ) (g : ℕ → ℕ) → ((i : ℕ) → IsByte (g i)) → All IsDigit (pair_list n g)
pair_list-IsDigit zero g h = tt
pair_list-IsDigit (suc n) g h = (
  digit-IsDigit (g 0 / 2 ^ 4) (omega (arith, h 0)),
  (
    rw (bit_and_mask 4 (g 0)) (digit-IsDigit (g 0 % 2 ^ 4) (omega arith)),
    pair_list-IsDigit n (λ i. g (suc i)) (λ i. h (suc i)),
  ),
)

-- The buffer filled from bytes is 68 digits, each of 0 to 9 or A to F, and a zero.
pub format-IsText :
    (frame : List ℕ)
    → All IsByte frame
    → (text : List ℕ) × (format frame ≡ text ++ (0 ∷ []))
      × (length text ≡ hexadecimal_frame_length)
      × All IsDigit text
format-IsText frame h = (
  pair_list 34 (byte_at frame),
  format-pairs frame,
  refl,
  pair_list-IsDigit 34 (byte_at frame) (λ i. byte_at-lt frame i h),
)

-- ===== src/Protocol/Crc32/Detection.antt =====
-- Which changes of a message the CRC of crc32.cpp always shows.
use native.Mathlib.Nat.{pow-suc, one-le-pow}
use cpp_embedded_telemetry_l.Common.{
  ℕ, zero, suc, ◌*◌, ◌^◌, ◌≤◌, ◌<◌, ◌≡◌, ◌≢◌, refl, sym, ap₂, ◌∙◌, arith, List, [], ◌∷◌, ◌++◌,
  length, All, bit_xor,
}
use cpp_embedded_telemetry_l.Bits.Xor.{bit_xor_cancel, bit_xor-lt, bit_xor_comm}
use cpp_embedded_telemetry_l.Protocol.Types.{IsByte}
use cpp_embedded_telemetry_l.Protocol.Crc32.{
  initial_value, final_xor, crc_bits, crc_byte, crc_loop, calculate_crc32,
}
use cpp_embedded_telemetry_l.Protocol.Crc32.Round.{crc_bits-lt, crc_bits-inj, crc_bits_rounds}
use cpp_embedded_telemetry_l.Protocol.Crc32.Message.{message_number, crc_loop-message}

pub crc_byte-lt : (crc b : ℕ) → crc < 2 ^ 32 → b < 2 ^ 8 → crc_byte crc b < 2 ^ 32
unfolding crc_byte
crc_byte-lt crc b p q = crc_bits-lt 8 (bit_xor crc b) (bit_xor-lt 32 crc b p (omega arith))

pub crc_loop-lt :
    (crc : ℕ) (bytes : List ℕ) → crc < 2 ^ 32 → All IsByte bytes → crc_loop crc bytes < 2 ^ 32
unfolding crc_loop
crc_loop-lt crc [] p h = p
crc_loop-lt crc (b ∷ bs) p (hb, hs) = crc_loop-lt (crc_byte crc b) bs (crc_byte-lt crc b p hb) hs

pub calculate_crc32-lt : (bytes : List ℕ) → All IsByte bytes → calculate_crc32 bytes < 2 ^ 32
unfolding calculate_crc32
calculate_crc32-lt bytes h =
    bit_xor-lt 32 (crc_loop initial_value bytes) final_xor
      (crc_loop-lt initial_value bytes (omega arith) h) (omega arith)

crc_loop-append :
    (crc : ℕ) (xs ys : List ℕ) → crc_loop crc (xs ++ ys) ≡ crc_loop (crc_loop crc xs) ys
unfolding crc_loop
crc_loop-append crc [] ys = refl
crc_loop-append crc (x ∷ xs) ys = crc_loop-append (crc_byte crc x) xs ys

-- Equal bytes keep different registers different.
crc_loop-inj :
    (a b : ℕ) (bytes : List ℕ)
    → a < 2 ^ 32
    → b < 2 ^ 32
    → All IsByte bytes
    → crc_loop a bytes ≡ crc_loop b bytes
    → a ≡ b
unfolding crc_loop
crc_loop-inj a b [] p q h e = e
crc_loop-inj a b (x ∷ xs) p q (hx, hs) e = bit_xor_cancel a b x (
    crc_bits-inj 8 (bit_xor a x) (bit_xor b x) (bit_xor-lt 32 a x p (omega arith))
      (bit_xor-lt 32 b x q (omega arith))
      (unfold crc_byte in
        crc_loop-inj (crc_byte a x) (crc_byte b x) xs (crc_byte-lt a x p hx) (crc_byte-lt b x q hx)
          hs e))

message_number-lt :
    (k : ℕ) (bytes : List ℕ)
    → All IsByte bytes
    → length bytes ≤ k
    → message_number bytes < (2 ^ 8) ^ k
message_number-lt k [] h le = one-le-pow k (2 ^ 8) (omega arith)
message_number-lt zero (b ∷ bs) h le = absurd (omega arith)
message_number-lt (suc k) (b ∷ bs) (hb, hs) le =
    omega (arith, pow-suc (2 ^ 8) k, message_number-lt k bs hs (omega arith))

message_number-inj :
    (xs ys : List ℕ)
    → All IsByte xs
    → All IsByte ys
    → length xs ≡ length ys
    → message_number xs ≡ message_number ys
    → xs ≡ ys
message_number-inj [] [] h k e m = refl
message_number-inj [] (y ∷ ys) h k e m = absurd (omega arith)
message_number-inj (x ∷ xs) [] h k e m = absurd (omega arith)
message_number-inj (x ∷ xs) (y ∷ ys) (hx, hs) (ky, ks) e m =
    ap₂ ◌∷◌ (omega arith) (message_number-inj xs ys hs ks (omega arith) (omega arith))

-- Two strings of one length, at most four bytes long, take one register to different ones.
window-inj :
    (crc : ℕ) (xs ys : List ℕ)
    → crc < 2 ^ 32
    → All IsByte xs
    → All IsByte ys
    → length xs ≡ length ys
    → length xs ≤ 4
    → crc_loop crc xs ≡ crc_loop crc ys
    → xs ≡ ys
window-inj crc xs ys p h k e few same = message_number-inj xs ys h k e (
    bit_xor_cancel (message_number xs) (message_number ys) crc
      (bit_xor_comm (message_number xs) crc ∙ registers ∙ bit_xor_comm crc (message_number ys)))
  where
    folded :
        crc_bits (8 * length xs) (bit_xor crc (message_number xs))
        ≡ crc_bits (8 * length xs) (bit_xor crc (message_number ys))
    folded =
        sym (crc_loop-message crc xs h)
        ∙ same
        ∙ crc_loop-message crc ys k
        ∙ crc_bits_rounds (8 * length ys) (8 * length xs) (bit_xor crc (message_number ys))
            (omega arith)

    registers : bit_xor crc (message_number xs) ≡ bit_xor crc (message_number ys)
    registers =
        crc_bits-inj (8 * length xs) _ _
          (bit_xor-lt 32 crc (message_number xs) p (message_number-lt 4 xs h few))
          (bit_xor-lt 32 crc (message_number ys) p (message_number-lt 4 ys k (omega arith))) folded

-- Two messages of bytes that differ only inside a window of at most four bytes have different
-- CRCs, whatever stands before and behind the window.
pub crc32_detects_window :
    (front xs ys rest : List ℕ)
    → All IsByte front
    → All IsByte xs
    → All IsByte ys
    → All IsByte rest
    → length xs ≡ length ys
    → length xs ≤ 4
    → xs ≢ ys
    → calculate_crc32 (front ++ (xs ++ rest)) ≢ calculate_crc32 (front ++ (ys ++ rest))
unfolding calculate_crc32
crc32_detects_window front xs ys rest hf hx hy hr e few ne same = ne (
    window-inj start xs ys start-lt hx hy e few (
      crc_loop-inj (crc_loop start xs) (crc_loop start ys) rest (crc_loop-lt start xs start-lt hx)
        (crc_loop-lt start ys start-lt hy) hr
        (sym (split xs)
          ∙ bit_xor_cancel (crc_loop initial_value (front ++ (xs ++ rest)))
              (crc_loop initial_value (front ++ (ys ++ rest))) final_xor same
          ∙ split ys)))
  where
    start : ℕ
    start = crc_loop initial_value front

    start-lt : start < 2 ^ 32
    start-lt = crc_loop-lt initial_value front (omega arith) hf

    split :
        (zs : List ℕ)
        → crc_loop initial_value (front ++ (zs ++ rest)) ≡ crc_loop (crc_loop start zs) rest
    split zs = crc_loop-append initial_value front (zs ++ rest) ∙ crc_loop-append start zs rest

-- ===== src/Firmware/Examples.antt =====
-- The theorems on the firmware at concrete values.
use cpp_embedded_telemetry_l.Common.{
  ℕ, ◌≡◌, refl, arith, List, [], ◌∷◌, ◌++◌, map, take, length, All,
}
use cpp_embedded_telemetry_l.Protocol.Examples.{sample_bytes, sample_bytes-IsByte}
use cpp_embedded_telemetry_l.Firmware.SensorModel.{
  frames_from, frame_at, count_up, frames_from-samples,
}
use cpp_embedded_telemetry_l.Firmware.HexFormatter.{
  format, read_hex, IsDigit, read_hex-format, format-IsText,
}

frames_from-samples_example : frames_from 20 0 ≡ map frame_at (count_up 8 0)
frames_from-samples_example = frames_from-samples 20 (omega arith)

read_hex-format_example : read_hex (take 68 (format sample_bytes)) ≡ sample_bytes
read_hex-format_example = read_hex-format sample_bytes sample_bytes-IsByte refl

format-IsText_example :
    (text : List ℕ) × (format sample_bytes ≡ text ++ (0 ∷ []))
    × (length text ≡ 68)
    × All IsDigit text
format-IsText_example = format-IsText sample_bytes sample_bytes-IsByte

-- ===== src/Host/Report/Lines.antt =====
-- The lines of a report: a label, a value and its unit (telemetry_report.cpp).
use cpp_embedded_telemetry_l.Common.{
  ℕ, ◌≡◌, refl, ◌∙◌, ap, Bool, true, not, ◌&&◌, arith, List, [], ◌∷◌, ◌++◌, ◌==◌, codes,
  if◌then◌else◌,
}
use Prim.Native.String.{String}
use mathlib.Core.List.{append_assoc}
use cpp_embedded_telemetry_l.Host.Metrics.{TelemetryMetricsSnapshot}
use cpp_embedded_telemetry_l.Host.Report.Text.{make_text_report}
use cpp_embedded_telemetry_l.Host.Report.{
  to_string, format_optional_ℕ, format_optional_ℤ, format_signed_average, format_unsigned_average,
}

abbrev field : String → List ℕ → List ℕ
field label value = codes label ++ value

abbrev measure : String → List ℕ → String → List ℕ
measure label value unit = codes label ++ (value ++ codes unit)

abbrev pub report_rows : TelemetryMetricsSnapshot → List (List ℕ)
report_rows snapshot =
    codes "Telemetry Host Pipeline Report"
    ∷ codes "=============================="
    ∷ field "Inputs received: " (to_string snapshot.inputs_received)
    ∷ field "Frames accepted: " (to_string snapshot.frames_accepted)
    ∷ field "Frames rejected: " (to_string snapshot.frames_rejected)
    ∷ field "Frames processed: " (to_string snapshot.frames_processed)
    ∷ field "Queue closed rejections: " (to_string snapshot.queue_closed_rejections)
    ∷ codes "Parse errors:"
    ∷ field "  Invalid frame size: " (to_string snapshot.parse_errors.invalid_frame_size)
    ∷ field "  Invalid magic: " (to_string snapshot.parse_errors.invalid_magic)
    ∷ field "  Unsupported version: " (to_string snapshot.parse_errors.unsupported_version)
    ∷ field "  Unsupported message type: "
        (to_string snapshot.parse_errors.unsupported_message_type)
    ∷ field "  Invalid payload size: " (to_string snapshot.parse_errors.invalid_payload_size)
    ∷ field "  Checksum mismatch: " (to_string snapshot.parse_errors.checksum_mismatch)
    ∷ codes "Sequence analysis:"
    ∷ field "  First sequence: " (format_optional_ℕ snapshot.first_sequence)
    ∷ field "  Last sequence: " (format_optional_ℕ snapshot.last_sequence)
    ∷ field "  Missing sequences: " (to_string snapshot.missing_sequences)
    ∷ field "  Duplicate sequences: " (to_string snapshot.duplicate_sequences)
    ∷ field "  Out-of-order sequences: " (to_string snapshot.out_of_order_sequences)
    ∷ codes "Warnings:"
    ∷ field "  Sensor: " (to_string snapshot.sensor_warnings)
    ∷ field "  Voltage: " (to_string snapshot.voltage_warnings)
    ∷ field "  Communication: " (to_string snapshot.communication_warnings)
    ∷ field "  Watchdog: " (to_string snapshot.watchdog_events)
    ∷ codes "Temperature:"
    ∷ measure "  Minimum: " (format_optional_ℤ snapshot.minimum_temperature_millicelsius)
        " millicelsius"
    ∷ measure "  Maximum: " (format_optional_ℤ snapshot.maximum_temperature_millicelsius)
        " millicelsius"
    ∷ measure "  Average: "
        (format_signed_average snapshot.temperature_sum_millicelsius snapshot.frames_processed)
        " millicelsius"
    ∷ codes "Supply voltage:"
    ∷ measure "  Minimum: " (format_optional_ℕ snapshot.minimum_supply_millivolts) " millivolts"
    ∷ measure "  Maximum: " (format_optional_ℕ snapshot.maximum_supply_millivolts) " millivolts"
    ∷ measure "  Average: "
        (format_unsigned_average snapshot.supply_sum_millivolts snapshot.frames_processed)
        " millivolts"
    ∷ []

-- Text of lines, each with its end, and the lines of a text with what follows the last end.
abbrev pub unlines : List (List ℕ) → List ℕ
unlines [] = []
unlines (line ∷ lines) = line ++ (10 ∷ unlines lines)

abbrev extend : ℕ → List (List ℕ) → List (List ℕ)
extend c [] = (c ∷ []) ∷ []
extend c (line ∷ lines) = (c ∷ line) ∷ lines

pub split_lines : List ℕ → List (List ℕ)
split_lines [] = [] ∷ []
split_lines (c ∷ text) = let rest = split_lines text in if c == 10 then [] ∷ rest else extend c rest

-- A text without the end of a line.
abbrev pub is_line : List ℕ → Bool
is_line [] = true
is_line (c ∷ text) = not (c == 10) && is_line text

abbrev pub all_lines : List (List ℕ) → Bool
all_lines [] = true
all_lines (line ∷ lines) = is_line line && all_lines lines

split_line :
    (line rest : List ℕ)
    → is_line line ≡ true
    → split_lines (line ++ (10 ∷ rest)) ≡ line ∷ split_lines rest
unfolding split_lines
split_line [] rest h = refl
split_line (c ∷ line) rest h = ground (arith, split_line line rest)

pub split_lines-unlines :
    (lines : List (List ℕ))
    → all_lines lines ≡ true
    → split_lines (unlines lines) ≡ lines ++ ([] ∷ [])
unfolding split_lines
split_lines-unlines [] h = refl
split_lines-unlines (line ∷ lines) h =
    split_line line (unlines lines) (ground arith)
    ∙ ap (λ l. line ∷ l) (split_lines-unlines lines (ground arith))

pub make_text_report-rows :
    (snapshot : TelemetryMetricsSnapshot)
    → make_text_report snapshot ≡ unlines (report_rows snapshot)
unfolding make_text_report
make_text_report-rows snapshot = simp append_assoc refl

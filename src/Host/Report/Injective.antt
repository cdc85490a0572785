-- ===== src/Host/Report/Injective.antt =====
-- The values of a snapshot from the text of its report (telemetry_report.cpp).
use Prim.Native.String.{String}
use mathlib.Core.List.{append_cancel_left, append_cancel_right}
use cpp_embedded_telemetry_l.Common.{
  ℕ, ◌^◌, ◌<◌, ◌≡◌, ◌≢◌, sym, ap, ◌∙◌, List, [], ◌∷◌, ◌++◌, codes, get_or,
}
use cpp_embedded_telemetry_l.Host.Metrics.{TelemetryMetricsSnapshot}
use cpp_embedded_telemetry_l.Host.Report.{
  to_string, format_optional_ℕ, format_optional_ℤ, format_signed_average, format_unsigned_average,
}
use cpp_embedded_telemetry_l.Host.Report.Lines.{report_rows, split_lines}
use cpp_embedded_telemetry_l.Host.Report.Text.{make_text_report}
use cpp_embedded_telemetry_l.Host.Report.Numerals.{to_string-injective}
use cpp_embedded_telemetry_l.Host.Report.Values.{
  Below64, IsOptionalNumber, IsSum, format_optional_ℕ-injective, format_optional_ℤ-injective,
  format_signed_average-injective, format_unsigned_average-injective,
}
use cpp_embedded_telemetry_l.Host.Report.Shows.{split_lines-make_text_report}

-- The values of a snapshot in their machine types.
pub record IsSnapshot (s : TelemetryMetricsSnapshot) : Type 0 where
  pub inputs_received_u64 : s.inputs_received < 2 ^ 64
  pub frames_accepted_u64 : s.frames_accepted < 2 ^ 64
  pub frames_rejected_u64 : s.frames_rejected < 2 ^ 64
  pub frames_processed_u64 : s.frames_processed < 2 ^ 64
  pub queue_closed_rejections_u64 : s.queue_closed_rejections < 2 ^ 64
  pub invalid_frame_size_u64 : s.parse_errors.invalid_frame_size < 2 ^ 64
  pub invalid_magic_u64 : s.parse_errors.invalid_magic < 2 ^ 64
  pub unsupported_version_u64 : s.parse_errors.unsupported_version < 2 ^ 64
  pub unsupported_message_type_u64 : s.parse_errors.unsupported_message_type < 2 ^ 64
  pub invalid_payload_size_u64 : s.parse_errors.invalid_payload_size < 2 ^ 64
  pub checksum_mismatch_u64 : s.parse_errors.checksum_mismatch < 2 ^ 64
  pub missing_sequences_u64 : s.missing_sequences < 2 ^ 64
  pub duplicate_sequences_u64 : s.duplicate_sequences < 2 ^ 64
  pub out_of_order_sequences_u64 : s.out_of_order_sequences < 2 ^ 64
  pub sensor_warnings_u64 : s.sensor_warnings < 2 ^ 64
  pub voltage_warnings_u64 : s.voltage_warnings < 2 ^ 64
  pub communication_warnings_u64 : s.communication_warnings < 2 ^ 64
  pub watchdog_events_u64 : s.watchdog_events < 2 ^ 64
  pub first_optional : Below64 s.first_sequence
  pub last_optional : Below64 s.last_sequence
  pub minimum_temperature : IsOptionalNumber s.minimum_temperature_millicelsius
  pub maximum_temperature : IsOptionalNumber s.maximum_temperature_millicelsius
  pub temperature_sum : IsSum s.temperature_sum_millicelsius
  pub minimum_supply : Below64 s.minimum_supply_millivolts
  pub maximum_supply : Below64 s.maximum_supply_millivolts
  pub supply_sum : s.supply_sum_millivolts < 2 ^ 64

counter_shown :
    (label : String) (a b : ℕ)
    → a < 2 ^ 64
    → b < 2 ^ 64
    → codes label ++ to_string a ≡ codes label ++ to_string b
    → a ≡ b
counter_shown label a b h k e =
    to_string-injective a b h k (append_cancel_left (codes label) (to_string a) (to_string b) e)

measure_shown :
    (label : String) (a b : List ℕ) (unit : String)
    → codes label ++ (a ++ codes unit) ≡ codes label ++ (b ++ codes unit)
    → a ≡ b
measure_shown label a b unit e =
    append_cancel_right a b (codes unit)
      (append_cancel_left (codes label) (a ++ codes unit) (b ++ codes unit) e)

module _ (s t : TelemetryMetricsSnapshot) (same : make_text_report s ≡ make_text_report t) where
  same_rows : report_rows s ≡ report_rows t
  same_rows =
      append_cancel_right (report_rows s) (report_rows t) ([] ∷ []) (
        sym (split_lines-make_text_report s) ∙ ap split_lines same ∙ split_lines-make_text_report t)

  row : (n : ℕ) → get_or (report_rows s) n [] ≡ get_or (report_rows t) n []
  row n = ap (λ rows. get_or rows n []) same_rows

  module _ (h : IsSnapshot s) (k : IsSnapshot t) where
    inputs_received_shown : s.inputs_received ≡ t.inputs_received
    inputs_received_shown =
        counter_shown "Inputs received: " s.inputs_received t.inputs_received h.inputs_received_u64
          k.inputs_received_u64 (row 2)

    frames_accepted_shown : s.frames_accepted ≡ t.frames_accepted
    frames_accepted_shown =
        counter_shown "Frames accepted: " s.frames_accepted t.frames_accepted h.frames_accepted_u64
          k.frames_accepted_u64 (row 3)

    frames_rejected_shown : s.frames_rejected ≡ t.frames_rejected
    frames_rejected_shown =
        counter_shown "Frames rejected: " s.frames_rejected t.frames_rejected h.frames_rejected_u64
          k.frames_rejected_u64 (row 4)

    frames_processed_shown : s.frames_processed ≡ t.frames_processed
    frames_processed_shown =
        counter_shown "Frames processed: " s.frames_processed t.frames_processed
          h.frames_processed_u64 k.frames_processed_u64 (row 5)

    queue_closed_rejections_shown : s.queue_closed_rejections ≡ t.queue_closed_rejections
    queue_closed_rejections_shown =
        counter_shown "Queue closed rejections: " s.queue_closed_rejections
          t.queue_closed_rejections h.queue_closed_rejections_u64 k.queue_closed_rejections_u64
          (row 6)

    invalid_frame_size_shown : s.parse_errors.invalid_frame_size ≡ t.parse_errors.invalid_frame_size
    invalid_frame_size_shown =
        counter_shown "  Invalid frame size: " s.parse_errors.invalid_frame_size
          t.parse_errors.invalid_frame_size h.invalid_frame_size_u64 k.invalid_frame_size_u64
          (row 8)

    invalid_magic_shown : s.parse_errors.invalid_magic ≡ t.parse_errors.invalid_magic
    invalid_magic_shown =
        counter_shown "  Invalid magic: " s.parse_errors.invalid_magic t.parse_errors.invalid_magic
          h.invalid_magic_u64 k.invalid_magic_u64 (row 9)

    unsupported_version_shown :
        s.parse_errors.unsupported_version ≡ t.parse_errors.unsupported_version
    unsupported_version_shown =
        counter_shown "  Unsupported version: " s.parse_errors.unsupported_version
          t.parse_errors.unsupported_version h.unsupported_version_u64 k.unsupported_version_u64
          (row 10)

    unsupported_message_type_shown :
        s.parse_errors.unsupported_message_type ≡ t.parse_errors.unsupported_message_type
    unsupported_message_type_shown =
        counter_shown "  Unsupported message type: " s.parse_errors.unsupported_message_type
          t.parse_errors.unsupported_message_type h.unsupported_message_type_u64
          k.unsupported_message_type_u64 (row 11)

    invalid_payload_size_shown :
        s.parse_errors.invalid_payload_size ≡ t.parse_errors.invalid_payload_size
    invalid_payload_size_shown =
        counter_shown "  Invalid payload size: " s.parse_errors.invalid_payload_size
          t.parse_errors.invalid_payload_size h.invalid_payload_size_u64 k.invalid_payload_size_u64
          (row 12)

    checksum_mismatch_shown : s.parse_errors.checksum_mismatch ≡ t.parse_errors.checksum_mismatch
    checksum_mismatch_shown =
        counter_shown "  Checksum mismatch: " s.parse_errors.checksum_mismatch
          t.parse_errors.checksum_mismatch h.checksum_mismatch_u64 k.checksum_mismatch_u64 (row 13)

    first_sequence_shown : s.first_sequence ≡ t.first_sequence
    first_sequence_shown =
        format_optional_ℕ-injective s.first_sequence t.first_sequence h.first_optional
          k.first_optional
          (append_cancel_left (codes "  First sequence: ") (format_optional_ℕ s.first_sequence)
            (format_optional_ℕ t.first_sequence) (row 15))

    last_sequence_shown : s.last_sequence ≡ t.last_sequence
    last_sequence_shown =
        format_optional_ℕ-injective s.last_sequence t.last_sequence h.last_optional k.last_optional
          (append_cancel_left (codes "  Last sequence: ") (format_optional_ℕ s.last_sequence)
            (format_optional_ℕ t.last_sequence) (row 16))

    missing_sequences_shown : s.missing_sequences ≡ t.missing_sequences
    missing_sequences_shown =
        counter_shown "  Missing sequences: " s.missing_sequences t.missing_sequences
          h.missing_sequences_u64 k.missing_sequences_u64 (row 17)

    duplicate_sequences_shown : s.duplicate_sequences ≡ t.duplicate_sequences
    duplicate_sequences_shown =
        counter_shown "  Duplicate sequences: " s.duplicate_sequences t.duplicate_sequences
          h.duplicate_sequences_u64 k.duplicate_sequences_u64 (row 18)

    out_of_order_sequences_shown : s.out_of_order_sequences ≡ t.out_of_order_sequences
    out_of_order_sequences_shown =
        counter_shown "  Out-of-order sequences: " s.out_of_order_sequences t.out_of_order_sequences
          h.out_of_order_sequences_u64 k.out_of_order_sequences_u64 (row 19)

    sensor_warnings_shown : s.sensor_warnings ≡ t.sensor_warnings
    sensor_warnings_shown =
        counter_shown "  Sensor: " s.sensor_warnings t.sensor_warnings h.sensor_warnings_u64
          k.sensor_warnings_u64 (row 21)

    voltage_warnings_shown : s.voltage_warnings ≡ t.voltage_warnings
    voltage_warnings_shown =
        counter_shown "  Voltage: " s.voltage_warnings t.voltage_warnings h.voltage_warnings_u64
          k.voltage_warnings_u64 (row 22)

    communication_warnings_shown : s.communication_warnings ≡ t.communication_warnings
    communication_warnings_shown =
        counter_shown "  Communication: " s.communication_warnings t.communication_warnings
          h.communication_warnings_u64 k.communication_warnings_u64 (row 23)

    watchdog_events_shown : s.watchdog_events ≡ t.watchdog_events
    watchdog_events_shown =
        counter_shown "  Watchdog: " s.watchdog_events t.watchdog_events h.watchdog_events_u64
          k.watchdog_events_u64 (row 24)

    minimum_temperature_millicelsius_shown :
        s.minimum_temperature_millicelsius ≡ t.minimum_temperature_millicelsius
    minimum_temperature_millicelsius_shown =
        format_optional_ℤ-injective s.minimum_temperature_millicelsius
          t.minimum_temperature_millicelsius h.minimum_temperature k.minimum_temperature
          (measure_shown "  Minimum: " (format_optional_ℤ s.minimum_temperature_millicelsius)
            (format_optional_ℤ t.minimum_temperature_millicelsius) " millicelsius" (row 26))

    maximum_temperature_millicelsius_shown :
        s.maximum_temperature_millicelsius ≡ t.maximum_temperature_millicelsius
    maximum_temperature_millicelsius_shown =
        format_optional_ℤ-injective s.maximum_temperature_millicelsius
          t.maximum_temperature_millicelsius h.maximum_temperature k.maximum_temperature
          (measure_shown "  Maximum: " (format_optional_ℤ s.maximum_temperature_millicelsius)
            (format_optional_ℤ t.maximum_temperature_millicelsius) " millicelsius" (row 27))

    minimum_supply_millivolts_shown : s.minimum_supply_millivolts ≡ t.minimum_supply_millivolts
    minimum_supply_millivolts_shown =
        format_optional_ℕ-injective s.minimum_supply_millivolts t.minimum_supply_millivolts
          h.minimum_supply k.minimum_supply
          (measure_shown "  Minimum: " (format_optional_ℕ s.minimum_supply_millivolts)
            (format_optional_ℕ t.minimum_supply_millivolts) " millivolts" (row 30))

    maximum_supply_millivolts_shown : s.maximum_supply_millivolts ≡ t.maximum_supply_millivolts
    maximum_supply_millivolts_shown =
        format_optional_ℕ-injective s.maximum_supply_millivolts t.maximum_supply_millivolts
          h.maximum_supply k.maximum_supply
          (measure_shown "  Maximum: " (format_optional_ℕ s.maximum_supply_millivolts)
            (format_optional_ℕ t.maximum_supply_millivolts) " millivolts" (row 31))

    module _ (processed : s.frames_processed ≢ 0) where
      temperature_sum_millicelsius_shown :
          s.temperature_sum_millicelsius ≡ t.temperature_sum_millicelsius
      temperature_sum_millicelsius_shown =
          format_signed_average-injective s.frames_processed processed
            s.temperature_sum_millicelsius t.temperature_sum_millicelsius h.temperature_sum
            k.temperature_sum
            (measure_shown "  Average: "
                (format_signed_average s.temperature_sum_millicelsius s.frames_processed)
                (format_signed_average t.temperature_sum_millicelsius t.frames_processed)
                " millicelsius" (row 28)
              ∙ ap (format_signed_average t.temperature_sum_millicelsius)
                  (sym frames_processed_shown))

      supply_sum_millivolts_shown : s.supply_sum_millivolts ≡ t.supply_sum_millivolts
      supply_sum_millivolts_shown =
          format_unsigned_average-injective s.frames_processed processed s.supply_sum_millivolts
            t.supply_sum_millivolts h.supply_sum k.supply_sum
            (measure_shown "  Average: "
                (format_unsigned_average s.supply_sum_millivolts s.frames_processed)
                (format_unsigned_average t.supply_sum_millivolts t.frames_processed) " millivolts"
                (row 32)
              ∙ ap (format_unsigned_average t.supply_sum_millivolts) (sym frames_processed_shown))

      -- If two snapshots hold values of their machine types, the first has processed a frame, and
      -- their reports are equal texts, the snapshots are equal in every field.
      pub make_text_report-injective : s ≡ t
      make_text_report-injective = λ i. record {
        inputs_received = inputs_received_shown i;
        frames_accepted = frames_accepted_shown i;
        frames_rejected = frames_rejected_shown i;
        queue_closed_rejections = queue_closed_rejections_shown i;
        frames_processed = frames_processed_shown i;
        parse_errors = record {
          invalid_frame_size = invalid_frame_size_shown i;
          invalid_magic = invalid_magic_shown i;
          unsupported_version = unsupported_version_shown i;
          unsupported_message_type = unsupported_message_type_shown i;
          invalid_payload_size = invalid_payload_size_shown i;
          checksum_mismatch = checksum_mismatch_shown i;
        };
        first_sequence = first_sequence_shown i;
        last_sequence = last_sequence_shown i;
        missing_sequences = missing_sequences_shown i;
        duplicate_sequences = duplicate_sequences_shown i;
        out_of_order_sequences = out_of_order_sequences_shown i;
        sensor_warnings = sensor_warnings_shown i;
        voltage_warnings = voltage_warnings_shown i;
        communication_warnings = communication_warnings_shown i;
        watchdog_events = watchdog_events_shown i;
        minimum_temperature_millicelsius = minimum_temperature_millicelsius_shown i;
        maximum_temperature_millicelsius = maximum_temperature_millicelsius_shown i;
        temperature_sum_millicelsius = temperature_sum_millicelsius_shown i;
        minimum_supply_millivolts = minimum_supply_millivolts_shown i;
        maximum_supply_millivolts = maximum_supply_millivolts_shown i;
        supply_sum_millivolts = supply_sum_millivolts_shown i;
      }

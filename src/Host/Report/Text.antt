-- ===== src/Host/Report/Text.antt =====
-- telemetry_report.cpp: the report of a snapshot. A stream writes a number as `std::to_string` does.
use cpp_embedded_telemetry_l.Common.{ℕ, List, [], ◌∷◌, ◌++◌, codes}
use cpp_embedded_telemetry_l.Host.Metrics.{TelemetryMetricsSnapshot}
use cpp_embedded_telemetry_l.Host.Report.{
  to_string, format_optional_ℕ, format_optional_ℤ, format_signed_average, format_unsigned_average,
}

-- What has been written to a stream, one piece after the other.
abbrev pub str : List (List ℕ) → List ℕ
str [] = []
str (piece ∷ pieces) = piece ++ str pieces

unfoldable pub make_text_report : TelemetryMetricsSnapshot → List ℕ
make_text_report snapshot = str (
    codes "Telemetry Host Pipeline Report\n"
    ∷ codes "==============================\n"
    ∷ codes "Inputs received: "
    ∷ to_string snapshot.inputs_received
    ∷ codes "\n"
    ∷ codes "Frames accepted: "
    ∷ to_string snapshot.frames_accepted
    ∷ codes "\n"
    ∷ codes "Frames rejected: "
    ∷ to_string snapshot.frames_rejected
    ∷ codes "\n"
    ∷ codes "Frames processed: "
    ∷ to_string snapshot.frames_processed
    ∷ codes "\n"
    ∷ codes "Queue closed rejections: "
    ∷ to_string snapshot.queue_closed_rejections
    ∷ codes "\n"
    ∷ codes "Parse errors:\n"
    ∷ codes "  Invalid frame size: "
    ∷ to_string snapshot.parse_errors.invalid_frame_size
    ∷ codes "\n"
    ∷ codes "  Invalid magic: "
    ∷ to_string snapshot.parse_errors.invalid_magic
    ∷ codes "\n"
    ∷ codes "  Unsupported version: "
    ∷ to_string snapshot.parse_errors.unsupported_version
    ∷ codes "\n"
    ∷ codes "  Unsupported message type: "
    ∷ to_string snapshot.parse_errors.unsupported_message_type
    ∷ codes "\n"
    ∷ codes "  Invalid payload size: "
    ∷ to_string snapshot.parse_errors.invalid_payload_size
    ∷ codes "\n"
    ∷ codes "  Checksum mismatch: "
    ∷ to_string snapshot.parse_errors.checksum_mismatch
    ∷ codes "\n"
    ∷ codes "Sequence analysis:\n"
    ∷ codes "  First sequence: "
    ∷ format_optional_ℕ snapshot.first_sequence
    ∷ codes "\n"
    ∷ codes "  Last sequence: "
    ∷ format_optional_ℕ snapshot.last_sequence
    ∷ codes "\n"
    ∷ codes "  Missing sequences: "
    ∷ to_string snapshot.missing_sequences
    ∷ codes "\n"
    ∷ codes "  Duplicate sequences: "
    ∷ to_string snapshot.duplicate_sequences
    ∷ codes "\n"
    ∷ codes "  Out-of-order sequences: "
    ∷ to_string snapshot.out_of_order_sequences
    ∷ codes "\n"
    ∷ codes "Warnings:\n"
    ∷ codes "  Sensor: "
    ∷ to_string snapshot.sensor_warnings
    ∷ codes "\n"
    ∷ codes "  Voltage: "
    ∷ to_string snapshot.voltage_warnings
    ∷ codes "\n"
    ∷ codes "  Communication: "
    ∷ to_string snapshot.communication_warnings
    ∷ codes "\n"
    ∷ codes "  Watchdog: "
    ∷ to_string snapshot.watchdog_events
    ∷ codes "\n"
    ∷ codes "Temperature:\n"
    ∷ codes "  Minimum: "
    ∷ format_optional_ℤ snapshot.minimum_temperature_millicelsius
    ∷ codes " millicelsius\n"
    ∷ codes "  Maximum: "
    ∷ format_optional_ℤ snapshot.maximum_temperature_millicelsius
    ∷ codes " millicelsius\n"
    ∷ codes "  Average: "
    ∷ format_signed_average snapshot.temperature_sum_millicelsius snapshot.frames_processed
    ∷ codes " millicelsius\n"
    ∷ codes "Supply voltage:\n"
    ∷ codes "  Minimum: "
    ∷ format_optional_ℕ snapshot.minimum_supply_millivolts
    ∷ codes " millivolts\n"
    ∷ codes "  Maximum: "
    ∷ format_optional_ℕ snapshot.maximum_supply_millivolts
    ∷ codes " millivolts\n"
    ∷ codes "  Average: "
    ∷ format_unsigned_average snapshot.supply_sum_millivolts snapshot.frames_processed
    ∷ codes " millivolts\n"
    ∷ [])

-- ===== src/Host/Report/Examples.antt =====
-- The theorems on the report at the snapshot of a frame with a negative temperature.
use cpp_embedded_telemetry_l.Common.{◌≡◌, refl, arith, [], ◌∷◌, ◌++◌, Option}
use cpp_embedded_telemetry_l.Common.Int.{negsuc}
use cpp_embedded_telemetry_l.Host.Metrics.{TelemetryMetricsSnapshot}
use cpp_embedded_telemetry_l.Host.Report.Text.{make_text_report}
use cpp_embedded_telemetry_l.Host.Report.Lines.{report_rows, split_lines}
use cpp_embedded_telemetry_l.Host.Report.Shows.{split_lines-make_text_report}
use cpp_embedded_telemetry_l.Host.Report.Injective.{IsSnapshot, make_text_report-injective}

abbrev one_frame : TelemetryMetricsSnapshot
one_frame = record {
  inputs_received = 3;
  frames_accepted = 1;
  frames_rejected = 2;
  queue_closed_rejections = 0;
  frames_processed = 1;
  parse_errors = record {
    invalid_frame_size = 1;
    invalid_magic = 0;
    unsupported_version = 0;
    unsupported_message_type = 0;
    invalid_payload_size = 0;
    checksum_mismatch = 1;
  };
  first_sequence = Option.some 1000;
  last_sequence = Option.some 1000;
  missing_sequences = 0;
  duplicate_sequences = 0;
  out_of_order_sequences = 0;
  sensor_warnings = 1;
  voltage_warnings = 0;
  communication_warnings = 0;
  watchdog_events = 0;
  minimum_temperature_millicelsius = Option.some (negsuc 5499);
  maximum_temperature_millicelsius = Option.some (negsuc 5499);
  temperature_sum_millicelsius = negsuc 5499;
  minimum_supply_millivolts = Option.some 2900;
  maximum_supply_millivolts = Option.some 2900;
  supply_sum_millivolts = 2900;
}

one_frame-IsSnapshot : IsSnapshot one_frame
one_frame-IsSnapshot = omega arith

make_text_report-injective_example : one_frame ≡ one_frame
make_text_report-injective_example =
    make_text_report-injective one_frame one_frame refl one_frame-IsSnapshot one_frame-IsSnapshot
      (λ e. absurd (omega (arith, e)))

split_lines-make_text_report_example :
    split_lines (make_text_report one_frame) ≡ report_rows one_frame ++ ([] ∷ [])
split_lines-make_text_report_example = split_lines-make_text_report one_frame

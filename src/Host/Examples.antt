-- ===== src/Host/Examples.antt =====
-- A short history of frames, and the theorems on the host at it.
use cpp_embedded_telemetry_l.Host.Report.{
  read_decimal, format_unsigned_average, format_signed_average, format_unsigned_average-exact,
  format_signed_average-unsigned,
}
use cpp_embedded_telemetry_l.Common.{ℕ, ◌*◌, refl, ◌≡◌, arith, List, [], ◌∷◌}
use cpp_embedded_telemetry_l.Common.Int.{ℤ, pos, negsuc}
use cpp_embedded_telemetry_l.Protocol.Types.{TelemetryFrame}
use cpp_embedded_telemetry_l.Protocol.Examples.{sample_frame}
use cpp_embedded_telemetry_l.Host.Metrics.{initial}
use cpp_embedded_telemetry_l.Host.Metrics.Frames.{
  after, sequence_fields, flag_fields, temperature_fields, supply_fields,
}
use cpp_embedded_telemetry_l.Host.Metrics.Sequence.{IsTally, after-IsTally}
use cpp_embedded_telemetry_l.Host.Metrics.Statistics.{after-flags, after-frames_processed}
use mathlib.Core.List.Perm
use cpp_embedded_telemetry_l.Host.Metrics.Order.{statistics}
use cpp_embedded_telemetry_l.Host.Metrics.Bag.{statistics-Perm}
use cpp_embedded_telemetry_l.Host.Metrics.Extremes.{
  TemperatureExtremes, SupplyExtremes, total_temperature, after_extremes, after_sums,
}

abbrev frame_with : ℕ → ℤ → ℕ → TelemetryFrame
frame_with sequence temperature flags = record {
  header = record sample_frame.header { sequence = sequence };
  payload = record sample_frame.payload {
    temperature_millicelsius = temperature;
    status_flags = flags;
  };
}

-- 100, 101, 103, 103, 102 in the order of arrival: one number is missing, one comes twice and one
-- comes late.
abbrev history : List TelemetryFrame
history =
    frame_with 102 (negsuc 9999) 3
    ∷ frame_with 103 (pos 20000) 8
    ∷ frame_with 103 (pos 10000) 4
    ∷ frame_with 101 (pos 0) 2
    ∷ frame_with 100 (negsuc 4999) 1
    ∷ []

abbrev earlier : List TelemetryFrame
earlier =
    frame_with 103 (pos 20000) 8
    ∷ frame_with 103 (pos 10000) 4
    ∷ frame_with 101 (pos 0) 2
    ∷ frame_with 100 (negsuc 4999) 1
    ∷ []

after-IsTally_example :
    IsTally 102 (103 ∷ 103 ∷ 101 ∷ 100 ∷ []) (sequence_fields (after initial history))
after-IsTally_example =
    after-IsTally (frame_with 102 (negsuc 9999) 3) earlier (omega arith) (omega arith) (omega arith)

after-flags_example :
    flag_fields (after initial history)
    ≡ record { sensor = 2; voltage = 2; communication = 1; watchdog = 1 }
after-flags_example = after-flags history (omega arith)

-- Another order of the same frames.
abbrev reordered : List TelemetryFrame
reordered =
    frame_with 103 (pos 20000) 8
    ∷ frame_with 102 (negsuc 9999) 3
    ∷ frame_with 103 (pos 10000) 4
    ∷ frame_with 101 (pos 0) 2
    ∷ frame_with 100 (negsuc 4999) 1
    ∷ []

statistics-Perm_example : statistics (after initial history) ≡ statistics (after initial reordered)
statistics-Perm_example =
    statistics-Perm history reordered (Perm.swap _ _ _) (omega arith) (omega arith) (omega arith)

after-frames_processed_example : (after initial history).frames_processed ≡ 5
after-frames_processed_example = after-frames_processed history (omega arith)

after_extremes_example :
    TemperatureExtremes history (temperature_fields (after initial history))
    × SupplyExtremes history (supply_fields (after initial history))
after_extremes_example = after_extremes (frame_with 102 (negsuc 9999) 3) earlier

after_sums_example :
    ((after initial history).temperature_sum_millicelsius ≡ total_temperature history)
    × ((after initial history).supply_sum_millivolts ≡ 16500)
after_sums_example = after_sums history (omega arith) (omega arith) (omega arith)

format_unsigned_average-exact_example : read_decimal (format_unsigned_average 26000 8) * 8 ≡ 26000
format_unsigned_average-exact_example =
    format_unsigned_average-exact 26000 8 (omega arith) (omega arith) refl

format_signed_average-unsigned_example :
    format_signed_average (negsuc 9223372036854775807) 3
    ≡ 45 ∷ format_unsigned_average 9223372036854775808 3
format_signed_average-unsigned_example =
    format_signed_average-unsigned (negsuc 9223372036854775807) 3 (omega arith) (omega arith)
      (omega arith)

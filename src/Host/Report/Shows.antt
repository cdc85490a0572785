-- ===== src/Host/Report/Shows.antt =====
-- The report of a snapshot, line by line (telemetry_report.cpp).
use Prim.Native.String.{String}
use cpp_embedded_telemetry_l.Common.{ℕ, ◌≡◌, refl, ap, ◌∙◌, true, List, [], ◌∷◌, ◌++◌, codes}
use cpp_embedded_telemetry_l.Host.Metrics.{TelemetryMetricsSnapshot}
use cpp_embedded_telemetry_l.Host.Report.Lines.{
  is_line, all_lines, report_rows, split_lines, make_text_report-rows, split_lines-unlines,
}
use cpp_embedded_telemetry_l.Host.Report.Text.{make_text_report}
use cpp_embedded_telemetry_l.Host.Report.Numerals.{
  is_line-append, to_string-is_line, format_optional_ℕ-is_line, format_optional_ℤ-is_line,
  format_signed_average-is_line, format_unsigned_average-is_line,
}

unit-is_line :
    (value : List ℕ) (unit : String)
    → is_line value ≡ true
    → is_line (codes unit) ≡ true
    → is_line (value ++ codes unit) ≡ true
unit-is_line value unit h k = is_line-append value (codes unit) h k

report_rows-all_lines : (s : TelemetryMetricsSnapshot) → all_lines (report_rows s) ≡ true
report_rows-all_lines s =
    simp
      (
        to_string-is_line, format_optional_ℕ-is_line, is_line-append, format_optional_ℤ-is_line,
        format_signed_average-is_line, format_unsigned_average-is_line,
      )
      refl

-- The report split at the ends of its lines is the rows, in order, and nothing after the last end.
pub split_lines-make_text_report :
    (s : TelemetryMetricsSnapshot) → split_lines (make_text_report s) ≡ report_rows s ++ ([] ∷ [])
split_lines-make_text_report s =
    ap split_lines (make_text_report-rows s)
    ∙ split_lines-unlines (report_rows s) (report_rows-all_lines s)

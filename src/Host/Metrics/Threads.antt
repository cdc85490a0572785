-- ===== src/Host/Metrics/Threads.antt =====
-- The two threads write different members of the metrics: a write of one commutes with a write of
-- the other (telemetry_metrics.cpp).
use cpp_embedded_telemetry_l.Common.{◌≡◌, refl, arith}
use cpp_embedded_telemetry_l.Protocol.Types.{TelemetryFrame}
use cpp_embedded_telemetry_l.Protocol.Deserializer.{ParseError}
use cpp_embedded_telemetry_l.Host.Metrics.{
  TelemetryMetrics, inc64, record_input, record_accepted, record_parse_rejected, record_processed,
  record_sequence, record_flags, record_temperature, record_supply,
}

module _ (m : TelemetryMetrics) (f : TelemetryFrame) where
  pub record_input-processed :
      record_input (record_processed m f) ≡ record_processed (record_input m) f
  unfolding record_input record_processed record_sequence record_flags record_temperature
      record_supply
  record_input-processed = ground arith

  pub record_accepted-processed :
      record_accepted (record_processed m f) ≡ record_processed (record_accepted m) f
  unfolding record_accepted record_processed record_sequence record_flags record_temperature
      record_supply
  record_accepted-processed = ground arith

  pub record_parse_rejected-processed :
      (e : ParseError)
      → record_parse_rejected (record_processed m f) e
        ≡ record_processed (record_parse_rejected m e) f
  unfolding record_parse_rejected record_processed record_sequence record_flags record_temperature
      record_supply
  record_parse_rejected-processed e = ground arith

-- Only an acceptance counts as one.
pub record_parse_rejected-accepted :
    (m : TelemetryMetrics) (e : ParseError)
    → (record_parse_rejected (record_input m) e).frames_accepted ≡ m.frames_accepted
unfolding record_parse_rejected record_input
record_parse_rejected-accepted m e = ground arith

pub record_accepted-accepted :
    (m : TelemetryMetrics)
    → (record_accepted (record_input m)).frames_accepted ≡ inc64 m.frames_accepted
unfolding record_accepted record_input
record_accepted-accepted m = refl

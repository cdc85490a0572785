-- ===== src/Host/Metrics/Balance.antt =====
-- The counters that the ingesting thread writes, against each other (telemetry_metrics.cpp).
use cpp_embedded_telemetry_l.Common.{ℕ, ◌+◌, ◌^◌, ◌<◌, ◌≡◌, ◌≢◌, refl, arith}
use cpp_embedded_telemetry_l.Protocol.Deserializer.{ParseError}
use cpp_embedded_telemetry_l.Host.Metrics.{
  TelemetryMetrics, initial, record_input, record_accepted, record_parse_rejected,
  record_queue_closed,
}

abbrev pub parse_rejections : TelemetryMetrics → ℕ
parse_rejections m =
    m.invalid_frame_size + m.invalid_magic + m.unsupported_version + m.unsupported_message_type
    + m.invalid_payload_size + m.checksum_mismatch

-- Each input is accepted or rejected, and each rejection has one reason.
pub record IsBalanced (m : TelemetryMetrics) : Type 0 where
  pub inputs : m.inputs_received ≡ m.frames_accepted + m.frames_rejected
  pub rejections : m.frames_rejected ≡ m.queue_closed_rejections + parse_rejections m

pub initial-IsBalanced : IsBalanced initial
unfolding initial
initial-IsBalanced = record { inputs = refl; rejections = refl }

module _ (m : TelemetryMetrics) (h : IsBalanced m) (l : m.inputs_received + 1 < 2 ^ 64) where
  open h use {inputs, rejections}

  pub record_accepted-IsBalanced : IsBalanced (record_accepted (record_input m))
  unfolding record_accepted record_input
  record_accepted-IsBalanced = record { inputs = omega arith; rejections = omega arith }

  pub record_queue_closed-IsBalanced : IsBalanced (record_queue_closed (record_input m))
  unfolding record_queue_closed record_input
  record_queue_closed-IsBalanced = record { inputs = omega arith; rejections = omega arith }

  pub record_parse_rejected-IsBalanced :
      (e : ParseError) → e ≢ ParseError.none → IsBalanced (record_parse_rejected (record_input m) e)
  unfolding record_parse_rejected record_input
  record_parse_rejected-IsBalanced ParseError.none ne = absurd (ne refl)
  record_parse_rejected-IsBalanced ParseError.invalid_frame_size ne = record {
    inputs = omega arith;
    rejections = omega arith;
  }
  record_parse_rejected-IsBalanced ParseError.invalid_magic ne = record {
    inputs = omega arith;
    rejections = omega arith;
  }
  record_parse_rejected-IsBalanced ParseError.unsupported_version ne = record {
    inputs = omega arith;
    rejections = omega arith;
  }
  record_parse_rejected-IsBalanced ParseError.unsupported_message_type ne = record {
    inputs = omega arith;
    rejections = omega arith;
  }
  record_parse_rejected-IsBalanced ParseError.invalid_payload_size ne = record {
    inputs = omega arith;
    rejections = omega arith;
  }
  record_parse_rejected-IsBalanced ParseError.checksum_mismatch ne = record {
    inputs = omega arith;
    rejections = omega arith;
  }

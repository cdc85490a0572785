-- ===== src/Host/Ingestor.antt =====
-- frame_ingestor.hpp and frame_ingestor.cpp: an input is counted, checked and put into the queue.
pub mod Accounting
use cpp_embedded_telemetry_l.Common.{ℕ, ◌%◌, ◌^◌, Bool, not, List, [], ◌∷◌, ◌++◌, if◌then◌else◌}
use cpp_embedded_telemetry_l.Protocol.Deserializer.{ParseError, ParseResult, has_value, deserialize}
use cpp_embedded_telemetry_l.Host.Metrics.{
  TelemetryMetrics, record_input, record_accepted, record_parse_rejected, record_queue_closed,
}
use cpp_embedded_telemetry_l.Host.Buffer.{PushOutcome, ConcurrentBuffer}

pub data IngestStatus : Type 0 where
  accepted parse_rejected queue_closed : IngestStatus

pub record IngestResult : Type 0 where
  pub status : IngestStatus
  pub parse_error : ParseError

-- The loop that copies the span into the queue's vector of bytes.
unfoldable pub copy_bytes : List ℕ → List ℕ → List ℕ
copy_bytes queued_bytes [] = queued_bytes
copy_bytes queued_bytes (byte ∷ bytes) = copy_bytes (queued_bytes ++ (byte % 2 ^ 8 ∷ [])) bytes

-- A call of `ingest`: it returns, waits inside `push`, or passes on an exception of `push`. In
-- each case the counters have been written up to that place.
pub data IngestOutcome (S : Type 0) : Type 0 where
  returns : IngestResult → TelemetryMetrics → S → IngestOutcome S
  waits : TelemetryMetrics → IngestOutcome S
  throws : TelemetryMetrics → IngestOutcome S

module _ (b : ConcurrentBuffer) where
  open b use {State, push}

  -- What follows the call of `push`.
  unfoldable pub after_push : TelemetryMetrics → PushOutcome State → IngestOutcome State
  after_push m PushOutcome.blocked = IngestOutcome.waits m
  after_push m (PushOutcome.pushed s) =
      IngestOutcome.returns
        (record { status = IngestStatus.accepted; parse_error = ParseError.none })
        (record_accepted m) s
  after_push m (PushOutcome.refused s) =
      IngestOutcome.returns
        (record { status = IngestStatus.queue_closed; parse_error = ParseError.none })
        (record_queue_closed m) s
  after_push m PushOutcome.throws = IngestOutcome.throws m

  unfoldable pub ingest : TelemetryMetrics → State → List ℕ → IngestOutcome State
  unfolding after_push
  ingest m s bytes =
      let counted = record_input m in
      let parsed = deserialize bytes in
      if not (has_value parsed)
      then IngestOutcome.returns
          (record { status = IngestStatus.parse_rejected; parse_error = parsed.error })
          (record_parse_rejected counted parsed.error) s
      else after_push counted (push s (copy_bytes [] bytes))

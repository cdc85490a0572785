-- ===== src/Host/Processor.antt =====
-- telemetry_processor.hpp and telemetry_processor.cpp: the consumer takes the queue's items, reads
-- each once more and hands the frame to the metrics.
pub mod Drain
use cpp_embedded_telemetry_l.Common.{
  ℕ, zero, suc, ◌+◌, ◌%◌, ◌^◌, Bool, true, false, not, Option, List, [], ◌∷◌, ◌==◌, if◌then◌else◌,
  length, replicate, set, get_or,
}
use cpp_embedded_telemetry_l.Protocol.Types.{TelemetryFrame, frame_size}
use cpp_embedded_telemetry_l.Protocol.Deserializer.{ParseResult, has_value, deserialize}
use cpp_embedded_telemetry_l.Host.Metrics.{TelemetryMetrics, inc64, record_processed}
use cpp_embedded_telemetry_l.Host.Buffer.{PopOutcome, ConcurrentBuffer}

pub record ConsumerResult : Type 0 where
  pub success : Bool
  pub frames_consumed : ℕ

-- `TelemetryProcessor::process` on the metrics that the processor refers to.
pub process : TelemetryMetrics → TelemetryFrame → TelemetryMetrics
process m frame = record_processed m frame

-- The loop that copies the queued vector into the array of 34 bytes.
copy_loop : ℕ → ℕ → List ℕ → List ℕ → List ℕ
copy_loop zero index queued bytes = bytes
copy_loop (suc rounds) index queued bytes =
    copy_loop rounds (index + 1) queued (set bytes index (get_or queued index 0 % 2 ^ 8))

pub to_array : List ℕ → List ℕ
unfolding copy_loop
to_array queued = copy_loop frame_size 0 queued (replicate frame_size 0)

-- What the loop's body does with an item: go on with new metrics, or end with a failure.
pub data ItemOutcome : Type 0 where
  consumed : TelemetryMetrics → ItemOutcome
  failed : ItemOutcome

pub consume_item : TelemetryMetrics → List ℕ → ItemOutcome
consume_item m queued =
    if not (length queued == frame_size)
    then ItemOutcome.failed
    else elim (deserialize (to_array queued)).frame [
      | Option.none ↦ ItemOutcome.failed
      | Option.some frame ↦ ItemOutcome.consumed (process m frame)
    ]

-- The consumer's thread: it ends with a result, waits inside `pop`, or has made all the rounds
-- that it was given.
pub data ConsumeOutcome (S : Type 0) : Type 0 where
  finished : ConsumerResult → TelemetryMetrics → S → ConsumeOutcome S
  waits : ℕ → TelemetryMetrics → S → ConsumeOutcome S
  out_of_rounds : ConsumeOutcome S

module _ (b : ConcurrentBuffer) where
  open b use {State, pop}

  pub consume_loop : ℕ → TelemetryMetrics → State → ℕ → ConsumeOutcome State
  consume_loop zero m s count = ConsumeOutcome.out_of_rounds
  consume_loop (suc rounds) m s count = elim (pop s) [
    | PopOutcome.blocked ↦ ConsumeOutcome.waits count m s
    | PopOutcome.drained t ↦
        ConsumeOutcome.finished (record { success = true; frames_consumed = count }) m t
    | PopOutcome.throws ↦
        ConsumeOutcome.finished (record { success = false; frames_consumed = count }) m s
    | PopOutcome.popped queued t ↦ elim (consume_item m queued) [
      | ItemOutcome.failed ↦
          ConsumeOutcome.finished (record { success = false; frames_consumed = count }) m t
      | ItemOutcome.consumed m' ↦ consume_loop rounds m' t (inc64 count)
    ]
  ]

  pub consume_queued_frames : ℕ → TelemetryMetrics → State → ConsumeOutcome State
  unfolding consume_loop
  consume_queued_frames rounds m s = consume_loop rounds m s 0

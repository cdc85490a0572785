-- ===== src/Host/Pipeline/Examples.antt =====
-- A run of the host over a rejected and an accepted input, and the theorems on runs at it.
use cpp_embedded_telemetry_l.Common.{
  ℕ, ◌+◌, ◌<◌, ◌^◌, ◌≡◌, ◌≤◌, refl, sym, ap, arith, Bool, true, false, List, [], ◌∷◌, inl, inr, All,
}
use cpp_embedded_telemetry_l.Common.Inevitable.{Inevitably}
use cpp_embedded_telemetry_l.Protocol.Types.{IsByte}
use cpp_embedded_telemetry_l.Protocol.Deserializer.{
  read_frame, has_value, deserialize, read_u16, read_u32,
}
use cpp_embedded_telemetry_l.Protocol.Examples.{sample_bytes, sample_bytes-IsByte}
use cpp_embedded_telemetry_l.Host.Metrics.{
  TelemetryMetrics, inc64, snapshot, initial, record_input, record_accepted, record_parse_rejected,
  record_processed,
}
use cpp_embedded_telemetry_l.Protocol.Deserializer.{ParseError}
use cpp_embedded_telemetry_l.Protocol.Crc32.{calculate_crc32}
use cpp_embedded_telemetry_l.Host.Metrics.Frames.{record_processed-atomic}
use cpp_embedded_telemetry_l.Host.Processor.{ConsumerResult, ConsumeOutcome, consume_queued_frames}
use cpp_embedded_telemetry_l.Host.Processor.Drain.{
  consume_queued_frames-Drains, IsItem, consume_item-IsItem,
}
use cpp_embedded_telemetry_l.Host.Ingestor.{
  IngestStatus, IngestResult, IngestOutcome, copy_bytes, ingest, after_push,
}
use cpp_embedded_telemetry_l.Host.Ingestor.Accounting.{ingest-IsBalanced, ingest-Effect}
use cpp_embedded_telemetry_l.Host.Metrics.Balance.{IsBalanced, initial-IsBalanced}
use cpp_embedded_telemetry_l.Host.Buffer.Fifo.{
  fifo_push, fifo_pop, Fifo, fifo, fifo_push-ne-throws, fifo_pop-ne-throws,
}
use cpp_embedded_telemetry_l.Host.Pipeline.{
  Exit, MainThread, ConsumerThread, MainStep, ConsumerStep, System, Step, Reach, start, main_result,
}
use cpp_embedded_telemetry_l.Host.Pipeline.Forecast.{expected}
use cpp_embedded_telemetry_l.Host.Source.{generate}
use cpp_embedded_telemetry_l.Host.Pipeline.Simulated.{simulated_snapshot, simulated-report}
use cpp_embedded_telemetry_l.Host.Pipeline.Invariant.{Throws, main_result-success}
use cpp_embedded_telemetry_l.Host.Pipeline.Outcome.{reported-expected}
use cpp_embedded_telemetry_l.Host.Pipeline.Progress.{run-Completes}
use cpp_embedded_telemetry_l.Host.Pipeline.Work.{Run, Run-bounded}

abbrev two_inputs : List (List ℕ)
two_inputs = (1 ∷ []) ∷ sample_bytes ∷ []

two_inputs-IsByte : All (All IsByte) two_inputs
two_inputs-IsByte = ground arith

fifo-quiet : ¬ Throws fifo two_inputs
fifo-quiet (inl (s, x, e)) = fifo_push-ne-throws s x e
fifo-quiet (inr (s, e)) = fifo_pop-ne-throws s e

abbrev rejected_once : TelemetryMetrics
rejected_once = record_parse_rejected (record_input initial) ParseError.invalid_frame_size

abbrev counted : TelemetryMetrics
counted = record_accepted (record_input rejected_once)

abbrev at : MainThread → ConsumerThread → TelemetryMetrics → List (List ℕ) → Bool → System fifo
at p c m items closed = record {
  main = p;
  consumer = c;
  metrics = m;
  buffer = record { items = items; bound = 3; closed = closed };
}

-- The main thread has pushed the second input, and the consumer has not taken it yet.
abbrev pushed_state : System fifo
pushed_state =
    at (MainThread.accepting []) (ConsumerThread.popping 0) (record_input rejected_once)
      (sample_bytes ∷ []) false

sample_bytes-IsItem : IsItem sample_bytes
unfolding deserialize read_u16 read_u32 calculate_crc32
sample_bytes-IsItem = record { are_bytes = sample_bytes-IsByte; is_valid = refl }

pushed_state-Reach : Reach fifo two_inputs pushed_state
unfolding start deserialize copy_bytes fifo_push read_u16 read_u32 calculate_crc32
pushed_state-Reach =
    Reach.next
      (Reach.next
        (Reach.next
          (Reach.next
            (Reach.next Reach.here
              (Step.main_step (MainStep.count_input (1 ∷ []) (sample_bytes ∷ []))))
            (Step.main_step (MainStep.reject_input (1 ∷ []) (sample_bytes ∷ []) refl)))
          (Step.main_step (MainStep.count_input sample_bytes [])))
        (Step.main_step (MainStep.pass_input sample_bytes [] refl)))
      (Step.main_step (MainStep.push_input sample_bytes [] refl))

-- The consumer takes it and processes it before the main thread has counted it as accepted.
abbrev processed : TelemetryMetrics
processed = record_processed (record_input rejected_once) (read_frame sample_bytes)

abbrev closed_state : System fifo
closed_state =
    at (MainThread.joining true) (ConsumerThread.popping 1) (record_accepted processed) [] true

closed_state-Reach : Reach fifo two_inputs closed_state
unfolding fifo_pop
closed_state-Reach =
    Reach.next
      (Reach.next
        (Reach.next
          (Reach.next
            (Reach.next pushed_state-Reach
              (Step.consumer_step (ConsumerStep.pop_item sample_bytes 0 refl)))
            (Step.consumer_step (
              ConsumerStep.process_item sample_bytes 0 (
                consume_item-IsItem (record_input rejected_once) sample_bytes
                  sample_bytes-IsItem))))
          (Step.main_step (MainStep.count_accepted [])))
        (Step.main_step MainStep.end_inputs))
      (Step.main_step (MainStep.close_buffer true))

abbrev one_consumed : ConsumerResult
one_consumed = record { success = true; frames_consumed = 1 }

abbrev final_state : System fifo
final_state =
    at (MainThread.exited (main_result true one_consumed (snapshot (record_accepted processed))))
      (ConsumerThread.stopped one_consumed) (record_accepted processed) [] true

final_state-Reach : Reach fifo two_inputs final_state
unfolding fifo_pop
final_state-Reach =
    Reach.next (Reach.next closed_state-Reach (Step.consumer_step (ConsumerStep.pop_end 1 refl)))
      (Step.main_step (MainStep.join_consumer true one_consumed refl))

one_accepted : 1 ≡ (record_accepted processed).frames_accepted
unfolding record_accepted record_input record_parse_rejected initial
one_accepted = sym (
    ap (λ a. inc64 a.frames_accepted)
      (record_processed-atomic (record_input rejected_once) (read_frame sample_bytes)))

final_state-reported :
    final_state.main ≡ MainThread.exited (Exit.reported (snapshot (record_accepted processed)))
final_state-reported = ap MainThread.exited (
    main_result-success fifo two_inputs true one_consumed (record_accepted processed) refl refl
      one_accepted)

reported-expected_example : snapshot (record_accepted processed) ≡ snapshot (expected two_inputs)
reported-expected_example =
    reported-expected fifo two_inputs two_inputs-IsByte final_state final_state-Reach
      (snapshot (record_accepted processed)) final_state-reported

run-Completes_example :
    Inevitably
      (Step fifo)
      (λ z. z.main ≡ MainThread.exited (Exit.reported (snapshot (expected two_inputs))))
      pushed_state
run-Completes_example =
    run-Completes fifo two_inputs two_inputs-IsByte fifo-quiet pushed_state pushed_state-Reach

one_step : Run fifo 1 (start fifo two_inputs) (
    at
      (MainThread.checking (1 ∷ []) (sample_bytes ∷ []))
      (ConsumerThread.popping 0)
      (record_input initial)
      []
      false)
unfolding start
one_step = Run.more Run.none (Step.main_step (MainStep.count_input (1 ∷ []) (sample_bytes ∷ [])))

Run-bounded_example : 1 ≤ 17
Run-bounded_example =
    Run-bounded fifo two_inputs 1
      (at (MainThread.checking (1 ∷ []) (sample_bytes ∷ [])) (ConsumerThread.popping 0)
        (record_input initial) [] false)
      one_step

abbrev one_item : Fifo
one_item = record { items = sample_bytes ∷ []; bound = 3; closed = true }

consume_queued_frames-Drains_example :
    (final : Fifo) × (final.items ≡ [])
    × (consume_queued_frames fifo 2 initial one_item
        ≡ ConsumeOutcome.finished one_consumed
            (record_processed initial (read_frame sample_bytes))
            final)
consume_queued_frames-Drains_example =
    consume_queued_frames-Drains fifo fifo_pop-ne-throws 2 initial one_item refl
      (sample_bytes-IsItem, tt) (omega arith)

abbrev accepted_result : IngestResult
accepted_result = record { status = IngestStatus.accepted; parse_error = ParseError.none }

abbrev empty_queue : Fifo
empty_queue = record { items = []; bound = 3; closed = false }

abbrev queue_of_one : Fifo
queue_of_one = record { items = sample_bytes ∷ []; bound = 3; closed = false }

ingest_sample :
    ingest fifo initial empty_queue sample_bytes
    ≡ IngestOutcome.returns accepted_result (record_accepted (record_input initial)) queue_of_one
unfolding ingest after_push deserialize read_u16 read_u32 calculate_crc32 copy_bytes fifo_push
ingest_sample = refl

no_input_yet : initial.inputs_received + 1 < 2 ^ 64
unfolding initial
no_input_yet = omega arith

ingest-IsBalanced_example : IsBalanced (record_accepted (record_input initial))
ingest-IsBalanced_example =
    ingest-IsBalanced fifo initial empty_queue sample_bytes accepted_result
      (record_accepted (record_input initial)) queue_of_one initial-IsBalanced no_input_yet
      ingest_sample

ingest-Effect_example :
    (has_value (deserialize sample_bytes) ≡ true)
    × (false ≡ false)
    × (sample_bytes ∷ [] ≡ sample_bytes ∷ [])
ingest-Effect_example =
    ingest-Effect fifo initial empty_queue sample_bytes accepted_result
      (record_accepted (record_input initial)) queue_of_one sample_bytes-IsByte ingest_sample

simulated-quiet : ¬ Throws fifo generate
simulated-quiet (inl (s, x, e)) = fifo_push-ne-throws s x e
simulated-quiet (inr (s, e)) = fifo_pop-ne-throws s e

simulated-report_example :
    Inevitably
      (Step fifo)
      (λ z. z.main ≡ MainThread.exited (Exit.reported simulated_snapshot))
      (start fifo generate)
simulated-report_example = simulated-report fifo simulated-quiet (start fifo generate) Reach.here

-- ===== src/Host/Pipeline/Stopped/Examples.antt =====
-- A run whose consumer fails with its first `pop`, over four inputs and a queue of three.
use cpp_embedded_telemetry_l.Common.{ℕ, ◌≡◌, refl, arith, false, List, [], ◌∷◌}
use cpp_embedded_telemetry_l.Common.Inevitable.{Inevitably}
use cpp_embedded_telemetry_l.Protocol.Examples.{sample_bytes, has_value_sample}
use cpp_embedded_telemetry_l.Host.Metrics.{initial}
use cpp_embedded_telemetry_l.Host.Buffer.{PopOutcome, ConcurrentBuffer}
use cpp_embedded_telemetry_l.Host.Buffer.Fifo.{fifo, fifo_push-ne-throws}
use cpp_embedded_telemetry_l.Host.Processor.{ConsumerResult}
use cpp_embedded_telemetry_l.Host.Pipeline.{
  MainThread, ConsumerThread, ConsumerStep, System, Step, Reach, start,
}
use cpp_embedded_telemetry_l.Host.Pipeline.Forecast.{valid_inputs}
use cpp_embedded_telemetry_l.Host.Pipeline.Stopped.{Overfull, IsHung, stopped_consumer-IsHung}

-- Its `pop` throws, which no law of the interface forbids.
abbrev failing_fifo : ConcurrentBuffer
failing_fifo = record fifo {
  pop = λ q. PopOutcome.throws;
  pop-blocked = λ q e. cc;
  pop-popped = λ q x t e. cc;
  pop-drained = λ q t e. cc;
}

abbrev four_inputs : List (List ℕ)
four_inputs = sample_bytes ∷ sample_bytes ∷ sample_bytes ∷ sample_bytes ∷ []

abbrev failed_result : ConsumerResult
failed_result = record { success = false; frames_consumed = 0 }

abbrev failed_consumer : System failing_fifo
failed_consumer = record {
  main = MainThread.ingesting four_inputs;
  consumer = ConsumerThread.stopped failed_result;
  metrics = initial;
  buffer = record { items = []; bound = 3; closed = false };
}

failed_consumer-Reach : Reach failing_fifo four_inputs failed_consumer
unfolding start
failed_consumer-Reach = Reach.next Reach.here (Step.consumer_step (ConsumerStep.pop_throws 0 refl))

four_valid : valid_inputs four_inputs ≡ four_inputs
four_valid = rw has_value_sample

failed_consumer-Overfull : Overfull failing_fifo failed_consumer.main failed_consumer.buffer
failed_consumer-Overfull = record {
  is_open = refl;
  within = omega arith;
  beyond = rw four_valid (omega arith);
}

stopped_consumer-IsHung_example :
    Inevitably (Step failing_fifo) (IsHung failing_fifo) failed_consumer
stopped_consumer-IsHung_example =
    stopped_consumer-IsHung failing_fifo fifo_push-ne-throws failed_result failed_consumer refl
      failed_consumer-Overfull

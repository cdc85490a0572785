-- ===== src/Firmware/Main/Examples.antt =====
-- The theorems on the firmware's program with queues that are lists: one that never fails, and one
-- whose calls of `put` all fail.
use cpp_embedded_telemetry_l.Common.{
  ℕ, ◌≤◌, ◌≡◌, ◌≢◌, refl, ap, true, false, List, [], ◌∷◌, ◌++◌, map, ◌⊎◌,
}
use cpp_embedded_telemetry_l.Common.Inevitable.{Inevitably}
use cpp_embedded_telemetry_l.Common.Int.{ℤ, pos}
use cpp_embedded_telemetry_l.Protocol.Serializer.{serialize}
use cpp_embedded_telemetry_l.Firmware.SensorModel.{next, has_next, frame_at, count_up}
use cpp_embedded_telemetry_l.Firmware.Metrics.{
  zero_metrics, metrics_snapshot, record_sample_generated, record_frame_serialized,
}
use cpp_embedded_telemetry_l.Firmware.MessageQueue.{MessageQueue}
use cpp_embedded_telemetry_l.Firmware.MessageQueue.Fifo.{
  Fifo, fifo_get, fifo, fifo_put, fifo_put_status, fifo_get_status,
}
use cpp_embedded_telemetry_l.Firmware.Queue.{
  TelemetryQueueItem, frame_item, get_result, is_zero, PushResult, PopResult, pop, push_frame,
  telemetry_queue, put_result,
}
use cpp_embedded_telemetry_l.Firmware.Queue.Laws.{
  push_frame-status, push_end_of_stream-status, pop-status,
}
use cpp_embedded_telemetry_l.Firmware.Producer.{ProducerThread, ProducerStep}
use cpp_embedded_telemetry_l.Firmware.Transmitter.{
  Printk, frame_line, TransmitterThread, TransmitterStep,
}
use cpp_embedded_telemetry_l.Firmware.Main.{
  MainThread, MainStep, System, Step, Reach, start, conclusion,
}
use cpp_embedded_telemetry_l.Firmware.Main.Conditions.{program_output}
use cpp_embedded_telemetry_l.Firmware.Main.Moves.{CallFailed}
use cpp_embedded_telemetry_l.Firmware.Main.Outcome.{exited_code}
use cpp_embedded_telemetry_l.Firmware.Main.Conclusion.{exited-Outcome}
use cpp_embedded_telemetry_l.Firmware.Main.Received.{received_frames, exited-received_frames}
use cpp_embedded_telemetry_l.Firmware.Main.Work.{Run, Run-Reach, Run-steps-bounded}
use cpp_embedded_telemetry_l.Firmware.Main.Progress.{firmware-Completes, Completed-Run}
use cpp_embedded_telemetry_l.Firmware.Main.Order.{output-IsPrefix}
use cpp_embedded_telemetry_l.Firmware.Main.Prefix.{IsPrefix}

abbrev pub working : MessageQueue TelemetryQueueItem
working = fifo TelemetryQueueItem false 0

status_lem : (status : ℤ) → status ≡ pos 0 → is_zero status ≢ false
status_lem status e h = absurd (cc (h, ap is_zero e))

pub working-reliable : ¬ CallFailed working
working-reliable (CallFailed.push s t bytes e) =
    let (status, p, z) = push_frame-status working s t bytes false e in
    status_lem status (fifo_put_status TelemetryQueueItem s _ status t p) z
working-reliable (CallFailed.push_end s t e) =
    let (status, p, z) = push_end_of_stream-status working s t false e in
    status_lem status (fifo_put_status TelemetryQueueItem s _ status t p) z
working-reliable (CallFailed.pop_item s t item e) =
    let (status, p, z) = pop-status working s t item false e in
    status_lem status (fifo_get_status TelemetryQueueItem s status item t p) z

-- Two steps of `main`.
abbrev pub threads_created : System working
threads_created = record (start working) {
  main = MainThread.taking_producer;
  producer = ProducerThread.testing;
  transmitter = TransmitterThread.popping 0;
}

threads_created-Run : Run working (start working) 2 threads_created
unfolding start
threads_created-Run =
    Run.more (Run.more Run.none (Step.main_step MainStep.create_transmitter))
      (Step.main_step MainStep.create_producer)

pub threads_created-Reach : Reach working (start working) threads_created
unfolding start
threads_created-Reach =
    Reach.then_step (Reach.then_step Reach.here (Step.main_step MainStep.create_transmitter))
      (Step.main_step MainStep.create_producer)

-- A run to the exit.
abbrev pub last_state : System working
last_state = (Completed-Run working working-reliable threads_created threads_created-Reach).1

pub last_state-Reach : Reach working (start working) last_state
last_state-Reach =
    Run-Reach working threads_created-Reach
      ((Completed-Run working working-reliable threads_created threads_created-Reach).2)

pub last_state-exited : last_state.main ≡ MainThread.exited 0
last_state-exited =
    (Completed-Run working working-reliable threads_created threads_created-Reach).3.0

exited-Outcome_example :
    ((◌≡◌ {A = ℕ} 0 0) × (last_state.output ≡ program_output))
    ⊎ ((◌≡◌ {A = ℕ} 0 1)
        × CallFailed working
        × ((before : List Printk) × (last_state.output
              ≡ before ++ conclusion false (metrics_snapshot last_state.metrics))))
exited-Outcome_example = exited-Outcome working last_state last_state-Reach 0 last_state-exited

exited_code_example : (◌≡◌ {A = ℕ} 0 0) × (last_state.output ≡ program_output)
exited_code_example =
    exited_code working working-reliable last_state last_state-Reach 0 last_state-exited

exited-received_frames_example : received_frames last_state.output ≡ map frame_at (count_up 8 0)
exited-received_frames_example =
    exited-received_frames working last_state last_state-Reach last_state-exited

firmware-Completes_example :
    Inevitably
      (Step working)
      (λ z. (z.main ≡ MainThread.exited 0) × (z.output ≡ program_output))
      threads_created
firmware-Completes_example =
    firmware-Completes working working-reliable threads_created threads_created-Reach

Run-steps-bounded_example : ◌≤◌ 2 72
Run-steps-bounded_example = Run-steps-bounded working 2 threads_created threads_created-Run

abbrev pub refusing : MessageQueue TelemetryQueueItem
refusing = fifo TelemetryQueueItem true 0

pub refusing-pops :
    (s t : Fifo TelemetryQueueItem) (item : TelemetryQueueItem)
    → pop refusing s ≢ PopResult.returns false item t
refusing-pops s t item e =
    let (status, p, z) = pop-status refusing s t item false e in
    status_lem status (fifo_get_status TelemetryQueueItem s status item t p) z

-- The first push has failed.
abbrev pub refused_state : System refusing
refused_state = record (start refusing) {
  main = MainThread.taking_producer;
  producer = ProducerThread.push_failed;
  transmitter = TransmitterThread.popping 0;
  next_index = (next 0).1;
  metrics = record_frame_serialized (record_sample_generated zero_metrics);
}

refused_push :
    push_frame refusing (telemetry_queue refusing) (serialize ((next 0).0))
    ≡ PushResult.returns false (telemetry_queue refusing)
unfolding push_frame put_result telemetry_queue fifo_put
refused_push = refl

pub refused_state-Reach : Reach refusing (start refusing) refused_state
unfolding start has_next
refused_state-Reach =
    Reach.then_step
      (Reach.then_step
        (Reach.then_step
          (Reach.then_step (Reach.then_step Reach.here (Step.main_step MainStep.create_transmitter))
            (Step.main_step MainStep.create_producer))
          (Step.producer_step (ProducerStep.take_sample refl)))
        (Step.producer_step (ProducerStep.serialize_frame ((next 0).0))))
      (Step.producer_step (ProducerStep.fail_push (serialize ((next 0).0)) refused_push))

-- The first frame is in the queue.
abbrev first_bytes : List ℕ
first_bytes = serialize ((next 0).0)

abbrev queue_of : List TelemetryQueueItem → Fifo TelemetryQueueItem
queue_of items = record { items = items; bound = 4; calls_left = 0 }

abbrev pushed_state : System working
pushed_state = record threads_created {
  producer = ProducerThread.pushed;
  next_index = (next 0).1;
  metrics = record_frame_serialized (record_sample_generated zero_metrics);
  queue = queue_of (frame_item first_bytes ∷ []);
}

first_push :
    push_frame working (queue_of []) first_bytes
    ≡ PushResult.returns true (queue_of (frame_item first_bytes ∷ []))
unfolding push_frame put_result fifo_put
first_push = refl

pushed_state-Reach : Reach working (start working) pushed_state
unfolding start has_next telemetry_queue
pushed_state-Reach =
    Reach.then_step
      (Reach.then_step
        (Reach.then_step threads_created-Reach (Step.producer_step (ProducerStep.take_sample refl)))
        (Step.producer_step (ProducerStep.serialize_frame ((next 0).0))))
      (Step.producer_step (ProducerStep.push first_bytes first_push))

-- Its line has been printed.
abbrev printed_state : System working
printed_state = record pushed_state {
  transmitter = TransmitterThread.printed 1;
  queue = queue_of [];
  output = frame_line 1 first_bytes ∷ [];
}

first_pop :
    pop working (queue_of (frame_item first_bytes ∷ []))
    ≡ PopResult.returns true (frame_item first_bytes) (queue_of [])
unfolding pop get_result fifo_get
first_pop = refl

printed_state-Reach : Reach working (start working) printed_state
unfolding start
printed_state-Reach =
    Reach.then_step
      (Reach.then_step pushed_state-Reach
        (Step.transmitter_step (TransmitterStep.pop_item 0 (frame_item first_bytes) first_pop)))
      (Step.transmitter_step (TransmitterStep.print_frame 0 (frame_item first_bytes) refl))

output-IsPrefix_example : IsPrefix printed_state.output
output-IsPrefix_example =
    output-IsPrefix working printed_state printed_state-Reach (λ code e. absurd (cc e))

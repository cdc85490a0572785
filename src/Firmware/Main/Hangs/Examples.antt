-- ===== src/Firmware/Main/Hangs/Examples.antt =====
-- Runs of the firmware whose first pop or first push fails.
use cpp_embedded_telemetry_l.Common.{
  ℕ, ◌<◌, ◌≡◌, ◌≢◌, refl, ap, arith, false, List, [], ◌∷◌, length,
}
use cpp_embedded_telemetry_l.Common.Int.{ℤ, pos, negsuc}
use cpp_embedded_telemetry_l.Firmware.MessageQueue.{GetOutcome, MessageQueue}
use cpp_embedded_telemetry_l.Firmware.MessageQueue.Fifo.{Fifo, fifo, fifo_put_status}
use cpp_embedded_telemetry_l.Firmware.Queue.{
  TelemetryQueueItem, end_item, is_zero, PushResult, PopResult, push_frame, push_end_of_stream,
  telemetry_queue, pop, get_result,
}
use cpp_embedded_telemetry_l.Firmware.Queue.Laws.{push_frame-status, push_end_of_stream-status}
use cpp_embedded_telemetry_l.Firmware.Producer.{ProducerThread}
use cpp_embedded_telemetry_l.Firmware.Transmitter.{TransmitterThread, TransmitterStep}
use cpp_embedded_telemetry_l.Firmware.Main.{MainThread, MainStep, System, Step, Reach, start}
use cpp_embedded_telemetry_l.Firmware.Main.Hangs.{IsHung, failed_push-hangs, failed_pop-hangs}
use cpp_embedded_telemetry_l.Common.Inevitable.{Inevitably}
use cpp_embedded_telemetry_l.Firmware.Main.Examples.{
  refusing, refusing-pops, refused_state, refused_state-Reach,
}

failing_get : Fifo TelemetryQueueItem → GetOutcome TelemetryQueueItem (Fifo TelemetryQueueItem)
failing_get q = GetOutcome.returns (negsuc 34) end_item q

failing_get-ne-blocked :
    (q : Fifo TelemetryQueueItem) → failing_get q ≡ GetOutcome.blocked → q.items ≡ []
unfolding failing_get
failing_get-ne-blocked q e = absurd (cc e)

failing_get-ne-taken :
    (q : Fifo TelemetryQueueItem) (x : TelemetryQueueItem) (t : Fifo TelemetryQueueItem)
    → failing_get q ≡ GetOutcome.returns (pos 0) x t
    → (q.items ≡ x ∷ t.items) × (t.bound ≡ q.bound)
unfolding failing_get
failing_get-ne-taken q x t e = absurd (cc e)

failing_get-keeps :
    (q : Fifo TelemetryQueueItem) (status : ℤ) (x : TelemetryQueueItem)
    (t : Fifo TelemetryQueueItem)
    → failing_get q ≡ GetOutcome.returns status x t
    → status ≢ pos 0
    → (t.items ≡ q.items) × (t.bound ≡ q.bound)
unfolding failing_get
failing_get-keeps q status x t e ne = (cc e, cc e)

-- It stores what is put and gives an error for each get.
abbrev failing : MessageQueue TelemetryQueueItem
failing = record (fifo TelemetryQueueItem false 0) {
  get = failing_get;
  get-blocked = failing_get-ne-blocked;
  get-taken = failing_get-ne-taken;
  get-failed = failing_get-keeps;
}

status_lem : (status : ℤ) → status ≡ pos 0 → is_zero status ≢ false
status_lem status e h = absurd (cc (h, ap is_zero e))

failing-frames :
    (s t : Fifo TelemetryQueueItem) (bytes : List ℕ)
    → push_frame failing s bytes ≢ PushResult.returns false t
failing-frames s t bytes e =
    let (status, p, z) = push_frame-status failing s t bytes false e in
    status_lem status (fifo_put_status TelemetryQueueItem s _ status t p) z

failing-ends :
    (s t : Fifo TelemetryQueueItem) → push_end_of_stream failing s ≢ PushResult.returns false t
failing-ends s t e =
    let (status, p, z) = push_end_of_stream-status failing s t false e in
    status_lem status (fifo_put_status TelemetryQueueItem s _ status t p) z

abbrev failed_state : System failing
failed_state = record (start failing) {
  main = MainThread.taking_producer;
  producer = ProducerThread.testing;
  transmitter = TransmitterThread.pop_failed;
}

failed_pop :
    pop failing (telemetry_queue failing)
    ≡ PopResult.returns false end_item (telemetry_queue failing)
unfolding pop get_result failing_get
failed_pop = refl

failed_state-Reach : Reach failing (start failing) failed_state
unfolding start
failed_state-Reach =
    Reach.then_step
      (Reach.then_step (Reach.then_step Reach.here (Step.main_step MainStep.create_transmitter))
        (Step.main_step MainStep.create_producer))
      (Step.transmitter_step (TransmitterStep.fail_pop 0 end_item failed_pop))

nothing_printed : length failed_state.output < 5
unfolding start
nothing_printed = omega arith

failed_pop-hangs_example : Inevitably (Step failing) (IsHung failing) failed_state
failed_pop-hangs_example =
    failed_pop-hangs failing failing-frames failing-ends failed_state failed_state-Reach tt
      nothing_printed

failed_push-hangs_example : Inevitably (Step refusing) (IsHung refusing) refused_state
failed_push-hangs_example =
    failed_push-hangs refusing refusing-pops refused_state refused_state-Reach tt

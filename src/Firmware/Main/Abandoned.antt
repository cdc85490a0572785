-- ===== src/Firmware/Main/Abandoned.antt =====
-- What becomes of the firmware when a pop of the transmitter has failed early
-- (telemetry_transmitter.cpp, main.cpp).
use cpp_embedded_telemetry_l.Common.{
  ℕ, ◌+◌, ◌-◌, ◌<◌, ◌≤◌, ◌≡◌, ◌≢◌, refl, ◌∙◌, ap, arith, Bool, false, List, [], ◌∷◌, length,
  length-append,
}
use cpp_embedded_telemetry_l.Firmware.SensorModel.{next_value, has_next-ge}
use cpp_embedded_telemetry_l.Firmware.Metrics.{FirmwareMetrics}
use cpp_embedded_telemetry_l.Firmware.MessageQueue.{MessageQueue}
use cpp_embedded_telemetry_l.Firmware.Queue.{
  TelemetryQueueItem, frame_item, end_item, PushResult, push_frame, push_end_of_stream,
}
use cpp_embedded_telemetry_l.Firmware.Queue.Laws.{
  push_frame-true, push_frame-room, push_end_of_stream-true, push_end_of_stream-room, pop-true,
  pop-false, telemetry_queue-contents,
}
use cpp_embedded_telemetry_l.Firmware.Producer.{ProducerThread, ProducerStep}
use cpp_embedded_telemetry_l.Firmware.Transmitter.{Printk, TransmitterThread, TransmitterStep}
use cpp_embedded_telemetry_l.Firmware.Main.{MainThread, MainStep, System, Step, Reach, start}
use cpp_embedded_telemetry_l.Firmware.Main.Places.{Reach-capacity}
use cpp_embedded_telemetry_l.Firmware.Main.Conditions.{TransmitterFailed}

-- How many items the producer has pushed, if no push of it has failed.
abbrev pushed_count : ProducerThread → ℕ → ℕ
pushed_count ProducerThread.not_started i = i
pushed_count ProducerThread.testing i = i
pushed_count (ProducerThread.serializing f) i = i - 1
pushed_count (ProducerThread.pushing bytes) i = i - 1
pushed_count ProducerThread.pushed i = i
pushed_count ProducerThread.ending i = 8
pushed_count _ i = 9

-- The transmitter has met the end marker; the item that it has in hand.
abbrev end_is_met : TransmitterThread → Bool
end_is_met (TransmitterThread.returned ok) = ok
end_is_met (TransmitterThread.finished ok) = ok
end_is_met _ = false

abbrev held_count : TransmitterThread → ℕ
held_count (TransmitterThread.handling n item) = 1
held_count _ = 0

failed_lem :
    (t : TransmitterThread) → TransmitterFailed t → (end_is_met t ≡ false) × (held_count t ≡ 0)
failed_lem t h = ground arith

module _ (k : MessageQueue TelemetryQueueItem) where
  open k use {State, contents, capacity}

  -- The queue is within its bound, and an item that has been pushed is in the queue, in hand or
  -- printed.
  record Kept (p : ProducerThread) (i : ℕ) (t : TransmitterThread) (s : State) (out : List Printk)
      : Type 0 where
    within : length (contents s) ≤ capacity s
    kept : end_is_met t ≡ false → pushed_count p i ≤ length (contents s) + length out + held_count t

  MainStep-Kept :
      {m : FirmwareMetrics} {s : State} {out : List Printk} {g : MainThread} {p : ProducerThread}
      {t : TransmitterThread} {g' : MainThread} {p' : ProducerThread} {t' : TransmitterThread}
      {out' : List Printk} (i : ℕ)
      → MainStep k m s out g p t g' p' t' out'
      → Kept p i t s out
      → Kept p' i t' s out'
  MainStep-Kept i MainStep.create_transmitter h = record { within = h.within; kept = h.kept }
  MainStep-Kept i MainStep.create_producer h = record { within = h.within; kept = h.kept }
  MainStep-Kept i (MainStep.take_producer ok) h = h
  MainStep-Kept i (MainStep.take_transmitter ok) h = h
  MainStep-Kept {out} i (MainStep.conclude p_ok t_ok) h = record {
    within = h.within;
    kept = λ e. omega (arith, h.kept e, length-append out _);
  }

  module _
      (frames : (s t : State) (bytes : List ℕ) → push_frame k s bytes ≢ PushResult.returns false t)
      (ends : (s t : State) → push_end_of_stream k s ≢ PushResult.returns false t) where
    ProducerStep-Kept :
        {p : ProducerThread} {i : ℕ} {m : FirmwareMetrics} {s : State} {p' : ProducerThread}
        {i' : ℕ} {m' : FirmwareMetrics} {s' : State} (t : TransmitterThread) (out : List Printk)
        → ProducerStep k p i m s p' i' m' s'
        → Kept p i t s out
        → Kept p' i' t s' out
    ProducerStep-Kept {i} t out (ProducerStep.take_sample e) h =
        rw (next_value i e) (record { within = h.within; kept = λ met. omega (arith, h.kept met) })
    ProducerStep-Kept {i} t out (ProducerStep.serialize_frame f) h = record {
      within = h.within;
      kept = h.kept;
    }
    ProducerStep-Kept {i} {s} {s'} t out (ProducerStep.push bytes e) h =
        let law = push_frame-true k s s' bytes e in
        let items = ap length law.0 ∙ length-append (contents s) (frame_item bytes ∷ []) in
        record {
          within = omega (arith, items, law.1, push_frame-room k s s' bytes e);
          kept = λ met. omega (arith, items, h.kept met);
        }
    ProducerStep-Kept {s} {s'} t out (ProducerStep.fail_push bytes e) h =
        absurd (frames s s' bytes e)
    ProducerStep-Kept t out ProducerStep.count_enqueued h = record {
      within = h.within;
      kept = h.kept;
    }
    ProducerStep-Kept {i} t out (ProducerStep.leave_loop e) h = record {
      within = h.within;
      kept = λ met. omega (arith, has_next-ge i e, h.kept met);
    }
    ProducerStep-Kept {s} {s'} t out (ProducerStep.push_end e) h =
        let law = push_end_of_stream-true k s s' e in
        let items = ap length law.0 ∙ length-append (contents s) (end_item ∷ []) in
        record {
          within = omega (arith, items, law.1, push_end_of_stream-room k s s' e);
          kept = λ met. omega (arith, items, h.kept met);
        }
    ProducerStep-Kept {s} {s'} t out (ProducerStep.fail_push_end e) h = absurd (ends s s' e)
    ProducerStep-Kept t out ProducerStep.count_failure h = record {
      within = h.within;
      kept = h.kept;
    }
    ProducerStep-Kept t out ProducerStep.count_end h = record { within = h.within; kept = h.kept }
    ProducerStep-Kept t out (ProducerStep.give_semaphore ok) h = record {
      within = h.within;
      kept = h.kept;
    }

    TransmitterStep-Kept :
        {t : TransmitterThread} {m : FirmwareMetrics} {s : State} {out : List Printk}
        {t' : TransmitterThread} {m' : FirmwareMetrics} {s' : State} {out' : List Printk}
        (p : ProducerThread) (i : ℕ)
        → TransmitterStep k t m s out t' m' s' out'
        → Kept p i t s out
        → Kept p i t' s' out'
    TransmitterStep-Kept {s} {s'} p i (TransmitterStep.pop_item n item e) h =
        let law = pop-true k s s' item e in
        record {
          within = omega (arith, ap length law.0, law.1, h.within);
          kept = λ met. omega (arith, ap length law.0, h.kept met);
        }
    TransmitterStep-Kept {s} {s'} p i (TransmitterStep.fail_pop n item e) h =
        let law = pop-false k s s' item e in
        record {
          within = omega (arith, ap length law.0, law.1, h.within);
          kept = λ met. omega (arith, ap length law.0, h.kept refl);
        }
    TransmitterStep-Kept p i TransmitterStep.count_failure h = record {
      within = h.within;
      kept = λ met. h.kept refl;
    }
    TransmitterStep-Kept p i (TransmitterStep.count_end n item e) h = record {
      within = h.within;
      kept = λ met. absurd (cc met);
    }
    TransmitterStep-Kept {out} p i (TransmitterStep.print_frame n item e) h = record {
      within = h.within;
      kept = λ met. omega (arith, h.kept refl, length-append out _);
    }
    TransmitterStep-Kept p i (TransmitterStep.count_transmitted n) h = record {
      within = h.within;
      kept = h.kept;
    }
    TransmitterStep-Kept p i (TransmitterStep.give_semaphore ok) h = record {
      within = h.within;
      kept = h.kept;
    }

    Reach-Kept :
        {y : System k}
        → Reach k (start k) y
        → Kept y.producer y.next_index y.transmitter y.queue y.output
    unfolding start
    Reach-Kept Reach.here = record {
      within = omega (arith, ap length (telemetry_queue-contents k));
      kept = λ met. omega arith;
    }
    Reach-Kept (Reach.then_step {z} r (Step.main_step st)) =
        MainStep-Kept z.next_index st (Reach-Kept r)
    Reach-Kept (Reach.then_step {z} r (Step.producer_step st)) =
        ProducerStep-Kept z.transmitter z.output st (Reach-Kept r)
    Reach-Kept (Reach.then_step {z} r (Step.transmitter_step st)) =
        TransmitterStep-Kept z.producer z.next_index st (Reach-Kept r)

    -- Then the producer does not come to its end.
    pub failed_pop-unfinished :
        (y : System k)
        → Reach k (start k) y
        → TransmitterFailed y.transmitter
        → length y.output < 5
        → (ok : Bool) → y.producer ≢ ProducerThread.finished ok
    failed_pop-unfinished y r f few ok e =
        let h = Reach-Kept r in
        let (met, held) = failed_lem y.transmitter f in
        omega (
          arith,
          h.within,
          h.kept met,
          held,
          Reach-capacity k r,
          ap (λ p. pushed_count p y.next_index) e,
          few,
        )

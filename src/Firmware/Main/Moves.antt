-- ===== src/Firmware/Main/Moves.antt =====
-- The firmware's producer keeps the invariant, or its call on the queue has failed
-- (telemetry_producer.cpp).
use mathlib.Core.List.{append_assoc}
use cpp_embedded_telemetry_l.Common.{
  ℕ, ◌+◌, ◌≤◌, ◌<◌, ◌≡◌, refl, sym, ap, ◌∙◌, subst, arith, Bool, true, false, List, [], ◌∷◌, ◌++◌,
  ◌⊎◌, inl, inr,
}
use cpp_embedded_telemetry_l.Protocol.Serializer.{serialize}
use cpp_embedded_telemetry_l.Firmware.SensorModel.{next_value, has_next-lt, has_next-ge, frame_at}
use cpp_embedded_telemetry_l.Protocol.Types.{TelemetryFrame}
use cpp_embedded_telemetry_l.Firmware.Metrics.{
  FirmwareMetrics, record_sample_generated, record_frame_serialized, record_frame_enqueued,
  record_end_marker_sent,
}
use cpp_embedded_telemetry_l.Firmware.MessageQueue.{MessageQueue}
use cpp_embedded_telemetry_l.Firmware.Queue.{
  TelemetryQueueItem, frame_item, end_item, PushResult, PopResult, push_frame, push_end_of_stream,
  pop,
}
use cpp_embedded_telemetry_l.Firmware.Queue.Laws.{push_frame-true, push_end_of_stream-true}
use cpp_embedded_telemetry_l.Firmware.Producer.{ProducerThread, ProducerStep}
use cpp_embedded_telemetry_l.Firmware.Transmitter.{Printk, TransmitterThread}
use cpp_embedded_telemetry_l.Firmware.Main.{MainThread}
use cpp_embedded_telemetry_l.Firmware.Main.Stream.{
  items_from, items_from-next, items_from-end, in_hand, pending, transmission_index, transmit,
  frame_count,
}
use cpp_embedded_telemetry_l.Firmware.Main.Conditions.{
  ProducerFailed, Unsuccessful, Loop, Tail, Running, ProducerFinished, TransmitterFinished, Prints,
  Counted, Good,
}

-- A call on the queue that gave false.
module _ (k : MessageQueue TelemetryQueueItem) where
  open k use {State, contents}

  pub data CallFailed : Type 0 where
    push :
        (s t : State) (bytes : List ℕ)
        → push_frame k s bytes ≡ PushResult.returns false t
        → CallFailed
    push_end : (s t : State) → push_end_of_stream k s ≡ PushResult.returns false t → CallFailed
    pop_item :
        (s t : State) (item : TelemetryQueueItem)
        → pop k s ≡ PopResult.returns false item t
        → CallFailed

pub Prints-next :
    (g : MainThread) (n n' : ℕ) (out out' : List Printk) (items items' : List TelemetryQueueItem)
    → Running g
    → transmit n out items ≡ transmit n' out' items'
    → Prints g n out items
    → Prints g n' out' items'
Prints-next MainThread.creating_transmitter n n' out out' items items' r e h = sym e ∙ h
Prints-next MainThread.creating_producer n n' out out' items items' r e h = sym e ∙ h
Prints-next MainThread.taking_producer n n' out out' items items' r e h = sym e ∙ h
Prints-next MainThread.taking_transmitter n n' out out' items items' r e h = sym e ∙ h
Prints-next MainThread.concluding n n' out out' items items' r e h = sym e ∙ h
Prints-next (MainThread.exited code) n n' out out' items items' r e h = absurd r

Running-producer :
    (g : MainThread) (t : TransmitterThread) → Running g ⊎ (⊥ × TransmitterFinished t) → Running g
Running-producer g t (inl h) = h
Running-producer g t (inr h) = absurd h.0

pub Running-transmitter :
    (g : MainThread) (p : ProducerThread) → Running g ⊎ (ProducerFinished p × ⊥) → Running g
Running-transmitter g p (inl h) = h
Running-transmitter g p (inr h) = absurd h.1

pub Unsuccessful-Running : (g : MainThread) → Running g → Unsuccessful g
Unsuccessful-Running (MainThread.exited code) r = absurd r
Unsuccessful-Running _ r = ground arith

-- The producer takes a step that leaves the stream as it is.
producer_moved :
    {g : MainThread} {p : ProducerThread} {t : TransmitterThread} {i : ℕ} {m : FirmwareMetrics}
    {q : List TelemetryQueueItem} {out : List Printk} (p' : ProducerThread) (i' : ℕ)
    (m' : FirmwareMetrics) (q' : List TelemetryQueueItem)
    → Good g p t i m q out
    → Running g
    → pending t q p i ≡ pending t q' p' i'
    → Loop p' i'
    → Counted p' t i' m' (frame_count (pending t q p i))
    → Good g p' t i' m' q' out
producer_moved {g} {t} {out} p' i' m' q' h r flow l c = record {
  joined = inl r;
  loop = l;
  tail = subst (Tail t) flow h.tail;
  counted = subst (λ x. Counted p' t i' m' (frame_count x)) flow c;
  prints = subst (Prints g (transmission_index t) out) flow h.prints;
}

-- The counters after each step that writes one.
module _ {t : TransmitterThread} {i : ℕ} {m : FirmwareMetrics} {n : ℕ} where
  counted_sample :
      (f : TelemetryFrame)
      → Counted ProducerThread.testing t i m n
      → i < 8
      → Counted (ProducerThread.serializing f) t (i + 1) (record_sample_generated m) n
  unfolding record_sample_generated
  counted_sample f c l = ground arith

  counted_serialized :
      (f : TelemetryFrame) (bytes : List ℕ)
      → Counted (ProducerThread.serializing f) t i m n
      → i ≤ 8
      → Counted (ProducerThread.pushing bytes) t i (record_frame_serialized m) n
  unfolding record_frame_serialized
  counted_serialized f bytes c l = ground arith

  counted_enqueued :
      Counted ProducerThread.pushed t i m n
      → i ≤ 8
      → Counted ProducerThread.testing t i (record_frame_enqueued m) n
  unfolding record_frame_enqueued
  counted_enqueued c l = ground arith

  counted_sent :
      (ok : Bool)
      → Counted ProducerThread.end_pushed t i m n
      → Counted (ProducerThread.returned ok) t i (record_end_marker_sent m) n
  unfolding record_end_marker_sent
  counted_sent ok c = ground arith

module _ (k : MessageQueue TelemetryQueueItem) where
  open k use {State, contents}

  -- An item moves from the producer to the queue's end.
  pub push_flow :
      (t : TransmitterThread) (q q' : List TelemetryQueueItem) (x : TelemetryQueueItem)
      (rest : List TelemetryQueueItem)
      → q' ≡ q ++ (x ∷ [])
      → in_hand t ++ (q ++ (x ∷ rest)) ≡ in_hand t ++ (q' ++ rest)
  push_flow t q q' x rest e =
      ap (λ l. in_hand t ++ l) (sym (append_assoc q (x ∷ []) rest) ∙ ap (λ l. l ++ rest) (sym e))

  pub ProducerStep-Good :
      {p : ProducerThread} {i : ℕ} {m : FirmwareMetrics} {s : State} {p' : ProducerThread} {i' : ℕ}
      {m' : FirmwareMetrics} {s' : State} (g : MainThread) (t : TransmitterThread)
      (out : List Printk)
      → ProducerStep k p i m s p' i' m' s'
      → Good g p t i m (contents s) out
      → Good g p' t i' m' (contents s') out ⊎ (CallFailed k × ProducerFailed p' × Unsuccessful g)
  unfolding record_sample_generated record_frame_serialized record_frame_enqueued
      record_end_marker_sent
  ProducerStep-Good {i} {m} {s} g t out (ProducerStep.take_sample e) h =
      let l = has_next-lt i e in
      let flow = ap (λ items. in_hand t ++ (contents s ++ items)) (items_from-next i l) in
      rw (next_value i e) (
        inl (
          producer_moved (ProducerThread.serializing (frame_at i)) (i + 1)
            (record_sample_generated m) (contents s) h (Running-producer g t h.joined) flow
            (omega arith) (counted_sample (frame_at i) h.counted l)))
  ProducerStep-Good {i} {m} {s} g t out (ProducerStep.serialize_frame f) h = inl (
      producer_moved (ProducerThread.pushing (serialize f)) i (record_frame_serialized m)
        (contents s) h (Running-producer g t h.joined) refl h.loop
        (counted_serialized f (serialize f) h.counted h.loop))
  ProducerStep-Good {i} {m} {s} {s'} g t out (ProducerStep.push bytes e) h = inl (
      producer_moved ProducerThread.pushed i m (contents s') h (Running-producer g t h.joined)
        (push_flow t (contents s) (contents s') (frame_item bytes) (items_from i)
          (push_frame-true k s s' bytes e).0)
        h.loop (ground (arith, h.counted)))
  ProducerStep-Good {s} {s'} g t out (ProducerStep.fail_push bytes e) h =
      inr (CallFailed.push s s' bytes e, tt, Unsuccessful-Running g (Running-producer g t h.joined))
  ProducerStep-Good {i} {m} {s} g t out ProducerStep.count_enqueued h = inl (
      producer_moved ProducerThread.testing i (record_frame_enqueued m) (contents s) h
        (Running-producer g t h.joined) refl h.loop (counted_enqueued h.counted h.loop))
  ProducerStep-Good {i} {m} {s} g t out (ProducerStep.leave_loop e) h =
      let l = has_next-ge i e in
      let flow = ap (λ items. in_hand t ++ (contents s ++ items)) (items_from-end i l) in
      inl (
        producer_moved ProducerThread.ending i m (contents s) h (Running-producer g t h.joined) flow
          (omega (arith, h.loop)) (ground (arith, h.counted)))
  ProducerStep-Good {i} {m} {s} {s'} g t out (ProducerStep.push_end e) h = inl (
      producer_moved ProducerThread.end_pushed i m (contents s') h (Running-producer g t h.joined)
        (push_flow t (contents s) (contents s') end_item [] (push_end_of_stream-true k s s' e).0)
        h.loop (ground (arith, h.counted)))
  ProducerStep-Good {s} {s'} g t out (ProducerStep.fail_push_end e) h =
      inr (CallFailed.push_end s s' e, tt, Unsuccessful-Running g (Running-producer g t h.joined))
  ProducerStep-Good g t out ProducerStep.count_failure h = absurd h.loop
  ProducerStep-Good {i} {m} {s} g t out ProducerStep.count_end h = inl (
      producer_moved (ProducerThread.returned true) i (record_end_marker_sent m) (contents s) h
        (Running-producer g t h.joined) refl (h.loop, refl) (counted_sent true h.counted))
  ProducerStep-Good {i} {m} {s} g t out (ProducerStep.give_semaphore ok) h = inl (
      producer_moved (ProducerThread.finished ok) i m (contents s) h (Running-producer g t h.joined)
        refl h.loop (ground (arith, h.counted)))

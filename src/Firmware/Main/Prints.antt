-- ===== src/Firmware/Main/Prints.antt =====
-- The firmware's transmitter keeps the invariant, or its call on the queue has failed
-- (telemetry_transmitter.cpp).
use cpp_embedded_telemetry_l.Common.{
  ℕ, suc, ◌≡◌, refl, ap, subst, arith, Bool, true, List, [], ◌∷◌, ◌++◌, ◌⊎◌, inl, inr,
}
use cpp_embedded_telemetry_l.Firmware.Metrics.{
  FirmwareMetrics, record_frame_transmitted, record_end_marker_received,
}
use cpp_embedded_telemetry_l.Firmware.MessageQueue.{MessageQueue}
use cpp_embedded_telemetry_l.Firmware.Queue.{QueueItemKind, TelemetryQueueItem}
use cpp_embedded_telemetry_l.Firmware.Queue.Laws.{pop-true}
use cpp_embedded_telemetry_l.Firmware.Producer.{ProducerThread}
use cpp_embedded_telemetry_l.Firmware.Transmitter.{
  Printk, frame_line, next_transmission, TransmitterThread, TransmitterStep,
}
use cpp_embedded_telemetry_l.Firmware.Main.{MainThread}
use cpp_embedded_telemetry_l.Firmware.Main.Stream.{to_push, transmit, EndsOnce, frame_count}
use cpp_embedded_telemetry_l.Firmware.Main.Conditions.{
  TransmitterFailed, Unsuccessful, Prints, Counted, Good,
}
use cpp_embedded_telemetry_l.Firmware.Main.Moves.{
  CallFailed, Prints-next, Running-transmitter, Unsuccessful-Running,
}

-- The counters after the transmitter's steps; `n` frames are pending.
module _ {p : ProducerThread} {i : ℕ} {m : FirmwareMetrics} {n : ℕ} where
  counted_printed :
      (index index' : ℕ) (item : TelemetryQueueItem)
      → Counted p (TransmitterThread.handling index item) i m (suc n)
      → Counted p (TransmitterThread.printed index') i m n
  counted_printed index index' item c = ground arith

  counted_transmitted :
      (index : ℕ)
      → Counted p (TransmitterThread.printed index) i m n
      → Counted p (TransmitterThread.popping index) i (record_frame_transmitted m) n
  unfolding record_frame_transmitted
  counted_transmitted index c = ground arith

  counted_received :
      (index : ℕ) (item : TelemetryQueueItem) (ok : Bool)
      → Counted p (TransmitterThread.handling index item) i m n
      → Counted p (TransmitterThread.returned ok) i (record_end_marker_received m) n
  unfolding record_end_marker_received
  counted_received index item ok c = ground arith

-- The head of the stream, by its kind.
module _ (x : TelemetryQueueItem) (xs : List TelemetryQueueItem) where
  pub transmit_frame :
      (n : ℕ) (out : List Printk)
      → x.kind ≡ QueueItemKind.frame
      → transmit n out (x ∷ xs)
        ≡ transmit (next_transmission n) (out ++ (frame_line (next_transmission n) x.bytes ∷ [])) xs
  transmit_frame n out e = rw e refl

  transmit_end :
      (n n' : ℕ) (out : List Printk)
      → x.kind ≡ QueueItemKind.end_of_stream
      → xs ≡ []
      → transmit n out (x ∷ xs) ≡ transmit n' out xs
  transmit_end n n' out e z = rw (e, z) refl

  EndsOnce-frame : x.kind ≡ QueueItemKind.frame → EndsOnce (x ∷ xs) → EndsOnce xs
  EndsOnce-frame e h = rw e at h

  EndsOnce-end : x.kind ≡ QueueItemKind.end_of_stream → EndsOnce (x ∷ xs) → xs ≡ []
  EndsOnce-end e h = rw e at h

  frame_count-frame : x.kind ≡ QueueItemKind.frame → frame_count (x ∷ xs) ≡ suc (frame_count xs)
  frame_count-frame e = rw e refl

  frame_count-end : x.kind ≡ QueueItemKind.end_of_stream → frame_count (x ∷ xs) ≡ frame_count xs
  frame_count-end e = rw e refl

module _ (k : MessageQueue TelemetryQueueItem) where
  open k use {State, contents}

  pub TransmitterStep-Good :
      {t : TransmitterThread} {m : FirmwareMetrics} {s : State} {out : List Printk}
      {t' : TransmitterThread} {m' : FirmwareMetrics} {s' : State} {out' : List Printk}
      (g : MainThread) (p : ProducerThread) (i : ℕ)
      → TransmitterStep k t m s out t' m' s' out'
      → Good g p t i m (contents s) out
      → Good g p t' i m' (contents s') out' ⊎ (CallFailed k × TransmitterFailed t' × Unsuccessful g)
  TransmitterStep-Good {m} {s} {out} {s'} g p i (TransmitterStep.pop_item n item e) h =
      let flow = ap (λ q. q ++ to_push p i) ((pop-true k s s' item e).0) in
      inl (record {
        joined = inl (Running-transmitter g p h.joined);
        loop = h.loop;
        tail = subst EndsOnce flow h.tail;
        counted =
            subst (λ x. Counted p (TransmitterThread.handling n item) i m (frame_count x)) flow
              (ground (arith, h.counted));
        prints = subst (Prints g n out) flow h.prints;
      })
  TransmitterStep-Good {s} {s'} g p i (TransmitterStep.fail_pop n item e) h = inr (
    CallFailed.pop_item s s' item e,
    tt,
    Unsuccessful-Running g (Running-transmitter g p h.joined),
  )
  TransmitterStep-Good g p i TransmitterStep.count_failure h = absurd h.tail
  TransmitterStep-Good {m} {s} {out} g p i (TransmitterStep.count_end n item e) h =
      let rest = contents s ++ to_push p i in
      let last = EndsOnce-end item rest e h.tail in
      let r = Running-transmitter g p h.joined in
      inl (record {
        joined = inl r;
        loop = h.loop;
        tail = (refl, last);
        counted = counted_received n item true (
            subst (Counted p (TransmitterThread.handling n item) i m) (frame_count-end item rest e)
              h.counted);
        prints =
            Prints-next g n 0 out out (item ∷ rest) rest r (transmit_end item rest n 0 out e last)
              h.prints;
      })
  TransmitterStep-Good {m} {s} {out} g p i (TransmitterStep.print_frame n item e) h =
      let rest = contents s ++ to_push p i in
      let r = Running-transmitter g p h.joined in
      let n' = next_transmission n in
      inl (record {
        joined = inl r;
        loop = h.loop;
        tail = EndsOnce-frame item rest e h.tail;
        counted = counted_printed n n' item (
            subst (Counted p (TransmitterThread.handling n item) i m)
              (frame_count-frame item rest e) h.counted);
        prints =
            Prints-next g n n' out (out ++ (frame_line n' item.bytes ∷ [])) (item ∷ rest) rest r
              (transmit_frame item rest n out e) h.prints;
      })
  TransmitterStep-Good {m} {s} {out} g p i (TransmitterStep.count_transmitted n) h = inl (record {
    joined = inl (Running-transmitter g p h.joined);
    loop = h.loop;
    tail = h.tail;
    counted = counted_transmitted n h.counted;
    prints = h.prints;
  })
  TransmitterStep-Good {m} {s} {out} g p i (TransmitterStep.give_semaphore ok) h = inl (record {
    joined = inl (Running-transmitter g p h.joined);
    loop = h.loop;
    tail = h.tail;
    counted = ground (arith, h.counted);
    prints = h.prints;
  })

-- ===== src/Firmware/Main/Invariant.antt =====
-- What holds between two steps of the firmware's threads, as long as no call on the queue has
-- failed (main.cpp).
use mathlib.Core.List.{append-nil}
use cpp_embedded_telemetry_l.Common.{
  ℕ, ◌≡◌, refl, sym, ap, ap₂, ◌∙◌, arith, Bool, true, List, [], ◌++◌, inl, inr,
}
use cpp_embedded_telemetry_l.Firmware.Metrics.{FirmwareMetrics, zero_metrics, metrics_are_valid}
use cpp_embedded_telemetry_l.Firmware.MessageQueue.{MessageQueue}
use cpp_embedded_telemetry_l.Firmware.Queue.{TelemetryQueueItem}
use cpp_embedded_telemetry_l.Firmware.Queue.Laws.{empty-contents}
use cpp_embedded_telemetry_l.Firmware.Producer.{ProducerThread}
use cpp_embedded_telemetry_l.Firmware.Transmitter.{Printk, TransmitterThread}
use cpp_embedded_telemetry_l.Firmware.Main.{
  MainThread, MainStep, conclusion, exit_code, has_succeeded,
}
use cpp_embedded_telemetry_l.Firmware.Main.Stream.{
  items_from-EndsOnce, transmit, frame_count, frame_lines,
}
use cpp_embedded_telemetry_l.Firmware.Main.Conditions.{full_metrics, Loop, Counted, Good}

pub start-Good :
    Good MainThread.creating_transmitter ProducerThread.not_started TransmitterThread.not_started 0
      zero_metrics [] []
start-Good = record {
  joined = inl tt;
  loop = omega arith;
  tail = items_from-EndsOnce;
  counted = record {
    samples = refl;
    serialized = refl;
    enqueued = refl;
    transmitted = refl;
    push_failures = refl;
    pop_failures = refl;
    sent = refl;
    received = refl;
  };
  prints = refl;
}

module _ (k : MessageQueue TelemetryQueueItem) where
  open k use {State, contents}

  -- The program has succeeded when both threads have finished.
  finished-full :
      (p_ok t_ok : Bool) (i : ℕ) (m : FirmwareMetrics) (items : List TelemetryQueueItem)
      → Loop (ProducerThread.finished p_ok) i
      → items ++ [] ≡ []
      → Counted
          (ProducerThread.finished p_ok)
          (TransmitterThread.finished t_ok)
          i
          m
          (frame_count (items ++ []))
      → m ≡ full_metrics
  finished-full p_ok t_ok i m items l e c = ground (arith, ap frame_count e, c.transmitted)

  has_succeeded-full :
      (s : State) → contents s ≡ [] → has_succeeded k true true full_metrics s ≡ true
  unfolding has_succeeded metrics_are_valid
  has_succeeded-full s e = rw (empty-contents k s e) refl

  success :
      {p_ok t_ok : Bool} {i : ℕ} {m : FirmwareMetrics} {s : State} {out : List Printk}
      → Good MainThread.concluding
          (ProducerThread.finished p_ok)
          (TransmitterThread.finished t_ok)
          i
          m
          (contents s)
          out
      → (has_succeeded k p_ok t_ok m s ≡ true) × (m ≡ full_metrics) × (out ≡ frame_lines)
  success {p_ok} {t_ok} {i} {m} {s} {out} h =
      let full = finished-full p_ok t_ok i m (contents s) h.loop h.tail.1 h.counted in
      let drained = sym (append-nil (contents s)) ∙ h.tail.1 in
      (
        rw (h.loop.1, h.tail.0, full) (has_succeeded-full s drained),
        full,
        sym (ap (transmit 0 out) h.tail.1) ∙ h.prints,
      )

  pub MainStep-Good :
      {m : FirmwareMetrics} {s : State} {out : List Printk} {g : MainThread} {p : ProducerThread}
      {t : TransmitterThread} {g' : MainThread} {p' : ProducerThread} {t' : TransmitterThread}
      {out' : List Printk} (i : ℕ)
      → MainStep k m s out g p t g' p' t' out'
      → Good g p t i m (contents s) out
      → Good g' p' t' i m (contents s) out'
  MainStep-Good i MainStep.create_transmitter h = record {
    joined = inl tt;
    loop = h.loop;
    tail = h.tail;
    counted = record {
      samples = h.counted.samples;
      serialized = h.counted.serialized;
      enqueued = h.counted.enqueued;
      transmitted = h.counted.transmitted;
      push_failures = h.counted.push_failures;
      pop_failures = h.counted.pop_failures;
      sent = h.counted.sent;
      received = h.counted.received;
    };
    prints = h.prints;
  }
  MainStep-Good i MainStep.create_producer h = record {
    joined = inl tt;
    loop = h.loop;
    tail = h.tail;
    counted = record {
      samples = h.counted.samples;
      serialized = h.counted.serialized;
      enqueued = h.counted.enqueued;
      transmitted = h.counted.transmitted;
      push_failures = h.counted.push_failures;
      pop_failures = h.counted.pop_failures;
      sent = h.counted.sent;
      received = h.counted.received;
    };
    prints = h.prints;
  }
  MainStep-Good i (MainStep.take_producer ok) h = record {
    joined = inl tt;
    loop = h.loop;
    tail = h.tail;
    counted = h.counted;
    prints = h.prints;
  }
  MainStep-Good i (MainStep.take_transmitter ok) h = record {
    joined = inl tt;
    loop = h.loop;
    tail = h.tail;
    counted = h.counted;
    prints = h.prints;
  }
  MainStep-Good {m} {s} {out} i (MainStep.conclude p_ok t_ok) h =
      let (ok, full, lines) = success h in
      record {
        joined = inr (tt, tt);
        loop = h.loop;
        tail = h.tail;
        counted = h.counted;
        prints = (ap exit_code ok, ap₂ ◌++◌ lines (ap₂ conclusion ok full));
      }

-- ===== src/Firmware/Main/Conditions.antt =====
-- What a state of the firmware without failed calls is like (main.cpp).
use cpp_embedded_telemetry_l.Common.{ℕ, ◌+◌, ◌≤◌, ◌≡◌, true, false, List, [], ◌∷◌, ◌++◌, codes, ◌⊎◌}
use cpp_embedded_telemetry_l.Firmware.Metrics.{FirmwareMetrics}
use cpp_embedded_telemetry_l.Firmware.Queue.{TelemetryQueueItem}
use cpp_embedded_telemetry_l.Firmware.Producer.{ProducerThread}
use cpp_embedded_telemetry_l.Firmware.Transmitter.{Argument, Printk, TransmitterThread}
use cpp_embedded_telemetry_l.Firmware.Main.{MainThread}
use cpp_embedded_telemetry_l.Firmware.Main.Stream.{
  pending, transmission_index, transmit, EndsOnce, frame_count, frame_lines,
}

-- The counters of a run without failures.
abbrev pub full_metrics : FirmwareMetrics
full_metrics = record {
  samples_generated = 8;
  frames_serialized = 8;
  frames_enqueued = 8;
  frames_transmitted = 8;
  queue_push_failures = 0;
  queue_pop_failures = 0;
  end_markers_sent = 1;
  end_markers_received = 1;
}

-- What the program prints.
abbrev pub program_output : List Printk
program_output =
    frame_lines
    ++ (record {
      template = codes "TLFIRMWARE SUMMARY produced=%llu transmitted=%llu queue_errors=%llu\n";
      arguments = Argument.number 8 ∷ Argument.number 8 ∷ Argument.number 0 ∷ [];
    }
        ∷ record { template = codes "TLFIRMWARE DONE\n"; arguments = [] }
        ∷ [])

-- How far the producer's counters are behind the model.
abbrev pub unserialized : ProducerThread → ℕ
unserialized (ProducerThread.serializing f) = 1
unserialized _ = 0

abbrev pub unqueued : ProducerThread → ℕ
unqueued (ProducerThread.serializing f) = 1
unqueued (ProducerThread.pushing bytes) = 1
unqueued ProducerThread.pushed = 1
unqueued _ = 0

abbrev pub ends_sent : ProducerThread → ℕ
ends_sent (ProducerThread.returned ok) = 1
ends_sent (ProducerThread.finished ok) = 1
ends_sent _ = 0

abbrev pub uncounted : TransmitterThread → ℕ
uncounted (TransmitterThread.printed n) = 1
uncounted _ = 0

abbrev pub ends_received : TransmitterThread → ℕ
ends_received (TransmitterThread.returned ok) = 1
ends_received (TransmitterThread.finished ok) = 1
ends_received _ = 0

-- The loop of the producer ends at eight; no call has failed.
abbrev pub Loop : ProducerThread → ℕ → Type 0
Loop ProducerThread.push_failed i = ⊥
Loop ProducerThread.ending i = i ≡ 8
Loop ProducerThread.end_pushed i = i ≡ 8
Loop (ProducerThread.returned ok) i = (i ≡ 8) × (ok ≡ true)
Loop (ProducerThread.finished ok) i = (i ≡ 8) × (ok ≡ true)
Loop _ i = i ≤ 8

-- The end marker comes once, and nothing comes after it.
abbrev pub Tail : TransmitterThread → List TelemetryQueueItem → Type 0
Tail TransmitterThread.pop_failed items = ⊥
Tail (TransmitterThread.returned ok) items = (ok ≡ true) × (items ≡ [])
Tail (TransmitterThread.finished ok) items = (ok ≡ true) × (items ≡ [])
Tail _ items = EndsOnce items

abbrev pub Running : MainThread → Type 0
Running (MainThread.exited code) = ⊥
Running _ = Unit

abbrev pub ProducerFinished : ProducerThread → Type 0
ProducerFinished (ProducerThread.finished ok) = Unit
ProducerFinished _ = ⊥

abbrev pub TransmitterFinished : TransmitterThread → Type 0
TransmitterFinished (TransmitterThread.finished ok) = Unit
TransmitterFinished _ = ⊥

-- What has been printed, with what is pending, makes the program's output.
abbrev pub Prints : MainThread → ℕ → List Printk → List TelemetryQueueItem → Type 0
Prints (MainThread.exited code) n out items = (code ≡ 0) × (out ≡ program_output)
Prints _ n out items = transmit n out items ≡ frame_lines

-- A thread that has met a failed call, or has returned false.
abbrev pub ProducerFailed : ProducerThread → Type 0
ProducerFailed ProducerThread.push_failed = Unit
ProducerFailed (ProducerThread.returned ok) = ok ≡ false
ProducerFailed (ProducerThread.finished ok) = ok ≡ false
ProducerFailed _ = ⊥

abbrev pub TransmitterFailed : TransmitterThread → Type 0
TransmitterFailed TransmitterThread.pop_failed = Unit
TransmitterFailed (TransmitterThread.returned ok) = ok ≡ false
TransmitterFailed (TransmitterThread.finished ok) = ok ≡ false
TransmitterFailed _ = ⊥

abbrev pub Unsuccessful : MainThread → Type 0
Unsuccessful (MainThread.exited code) = code ≡ 1
Unsuccessful _ = Unit

pub record Counted (p : ProducerThread) (t : TransmitterThread) (i : ℕ) (m : FirmwareMetrics)
    (frames : ℕ) : Type 0 where
  pub samples : m.samples_generated ≡ i
  pub serialized : m.frames_serialized + unserialized p ≡ i
  pub enqueued : m.frames_enqueued + unqueued p ≡ i
  pub transmitted : m.frames_transmitted + uncounted t + frames ≡ 8
  pub push_failures : m.queue_push_failures ≡ 0
  pub pop_failures : m.queue_pop_failures ≡ 0
  pub sent : m.end_markers_sent ≡ ends_sent p
  pub received : m.end_markers_received ≡ ends_received t

pub record Good (g : MainThread) (p : ProducerThread) (t : TransmitterThread) (i : ℕ)
    (m : FirmwareMetrics) (items : List TelemetryQueueItem) (out : List Printk) : Type 0 where
  pub joined : Running g ⊎ (ProducerFinished p × TransmitterFinished t)
  pub loop : Loop p i
  pub tail : Tail t (pending t items p i)
  pub counted : Counted p t i m (frame_count (pending t items p i))
  pub prints : Prints g (transmission_index t) out (pending t items p i)

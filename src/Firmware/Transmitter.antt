-- ===== src/Firmware/Transmitter.antt =====
-- telemetry_transmitter.cpp: `run` as the steps of a thread, and the calls of `printk`. A call is
-- kept with its format and its arguments; what the kernel prints for them is its own.
use cpp_embedded_telemetry_l.Common.{
  ℕ, ◌+◌, ◌%◌, ◌^◌, ◌≡◌, Bool, true, false, List, [], ◌∷◌, ◌++◌, codes,
}
use cpp_embedded_telemetry_l.Firmware.HexFormatter.{format}
use cpp_embedded_telemetry_l.Firmware.Metrics.{
  FirmwareMetrics, record_frame_transmitted, record_queue_pop_failure, record_end_marker_received,
}
use cpp_embedded_telemetry_l.Firmware.MessageQueue.{MessageQueue}
use cpp_embedded_telemetry_l.Firmware.Queue.{QueueItemKind, TelemetryQueueItem, PopResult, pop}

-- An argument of `printk`: an unsigned number, or the characters of a buffer.
pub data Argument : Type 0 where
  number : ℕ → Argument
  buffer : List ℕ → Argument

pub record Printk : Type 0 where
  pub template : List ℕ
  pub arguments : List Argument

-- The line of a frame.
abbrev pub frame_line : ℕ → List ℕ → Printk
frame_line transmission_index bytes = record {
  template = codes "TLFRAME %04u %s\n";
  arguments = Argument.number transmission_index ∷ Argument.buffer (format bytes) ∷ [];
}

abbrev pub next_transmission : ℕ → ℕ
next_transmission transmission_index = (transmission_index + 1) % 2 ^ 32

-- Where the transmitter's thread stands, with `transmission_index`.
pub data TransmitterThread : Type 0 where
  not_started : TransmitterThread
  -- before `pop`; with an item; after the line has been printed
  popping : ℕ → TransmitterThread
  handling : ℕ → TelemetryQueueItem → TransmitterThread
  printed : ℕ → TransmitterThread
  -- `pop` has given false
  pop_failed : TransmitterThread
  -- `run` has returned; the semaphore has been given
  returned finished : Bool → TransmitterThread

module _ (k : MessageQueue TelemetryQueueItem) where
  open k use {State}

  -- A step changes the thread's place, the counters, the queue and what has been printed.
  pub data TransmitterStep
      : TransmitterThread
        → FirmwareMetrics
        → State
        → List Printk
        → TransmitterThread
        → FirmwareMetrics
        → State
        → List Printk
        → Type 0 where
    pop_item :
        {m : FirmwareMetrics} {s t : State} {out : List Printk} (n : ℕ) (item : TelemetryQueueItem)
        → pop k s ≡ PopResult.returns true item t
        → TransmitterStep (popping n) m s out (handling n item) m t out
    fail_pop :
        {m : FirmwareMetrics} {s t : State} {out : List Printk} (n : ℕ) (item : TelemetryQueueItem)
        → pop k s ≡ PopResult.returns false item t
        → TransmitterStep (popping n) m s out pop_failed m t out
    count_failure :
        {m : FirmwareMetrics} {s : State} {out : List Printk}
        → TransmitterStep pop_failed m s out (returned false) (record_queue_pop_failure m) s out
    count_end :
        {m : FirmwareMetrics} {s : State} {out : List Printk} (n : ℕ) (item : TelemetryQueueItem)
        → item.kind ≡ QueueItemKind.end_of_stream
        → TransmitterStep
            (handling n item)
            m
            s
            out
            (returned true)
            (record_end_marker_received m)
            s
            out
    print_frame :
        {m : FirmwareMetrics} {s : State} {out : List Printk} (n : ℕ) (item : TelemetryQueueItem)
        → item.kind ≡ QueueItemKind.frame
        → TransmitterStep
            (handling n item)
            m
            s
            out
            (printed (next_transmission n))
            m
            s
            (out ++ (frame_line (next_transmission n) item.bytes ∷ []))
    count_transmitted :
        {m : FirmwareMetrics} {s : State} {out : List Printk} (n : ℕ)
        → TransmitterStep (printed n) m s out (popping n) (record_frame_transmitted m) s out
    give_semaphore :
        {m : FirmwareMetrics} {s : State} {out : List Printk} (ok : Bool)
        → TransmitterStep (returned ok) m s out (finished ok) m s out

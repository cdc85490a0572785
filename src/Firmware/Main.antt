-- ===== src/Firmware/Main.antt =====
-- main.cpp of the firmware: it starts the two threads, waits for both and prints a summary. The
-- threads and `main` run interleaved in any order.
-- The kernel is not under this repository: creating a thread is the step that starts it, and taking
-- a semaphore is a step that waits until the other thread has given it. A run under the kernel's
-- priorities is one of these interleavings.
pub mod Stream
pub mod Conditions
pub mod Invariant
pub mod Moves
pub mod Prints
pub mod Outcome
pub mod Work
pub mod Places
pub mod Waits
pub mod Progress
pub mod Stuck
pub mod Failure
pub mod Abandoned
pub mod Hangs
pub mod Prefix
pub mod Order
pub mod Conclusion
pub mod Received
pub mod Examples
use cpp_embedded_telemetry_l.Common.{
  ℕ, ◌+◌, ◌%◌, ◌^◌, ◌≡◌, Bool, true, false, ◌&&◌, List, [], ◌∷◌, ◌++◌, if◌then◌else◌, codes,
}
use cpp_embedded_telemetry_l.Firmware.Metrics.{
  FirmwareMetrics, FirmwareMetricsSnapshot, zero_metrics, metrics_snapshot, metrics_are_valid,
}
use cpp_embedded_telemetry_l.Firmware.MessageQueue.{MessageQueue}
use cpp_embedded_telemetry_l.Firmware.Queue.{TelemetryQueueItem, telemetry_queue, empty}
use cpp_embedded_telemetry_l.Firmware.Producer.{ProducerThread, ProducerStep}
use cpp_embedded_telemetry_l.Firmware.Transmitter.{
  Argument, Printk, TransmitterThread, TransmitterStep,
}

-- Where `main` stands.
pub data MainThread : Type 0 where
  creating_transmitter creating_producer : MainThread
  taking_producer taking_transmitter : MainThread
  concluding : MainThread
  exited : ℕ → MainThread

abbrev queue_errors : FirmwareMetricsSnapshot → ℕ
queue_errors metrics = (metrics.queue_push_failures + metrics.queue_pop_failures) % 2 ^ 64

abbrev totals : FirmwareMetricsSnapshot → List Argument
totals metrics =
    Argument.number metrics.frames_enqueued
    ∷ Argument.number metrics.frames_transmitted
    ∷ Argument.number (queue_errors metrics)
    ∷ []

-- What is printed at the end.
abbrev pub conclusion : Bool → FirmwareMetricsSnapshot → List Printk
conclusion succeeded metrics =
    if succeeded
    then record {
      template = codes "TLFIRMWARE SUMMARY produced=%llu transmitted=%llu queue_errors=%llu\n";
      arguments = totals metrics;
    }
      ∷ record { template = codes "TLFIRMWARE DONE\n"; arguments = [] }
      ∷ []
    else record {
      template = codes "TLFIRMWARE ERROR produced=%llu transmitted=%llu queue_errors=%llu\n";
      arguments = totals metrics;
    }
      ∷ []

abbrev pub exit_code : Bool → ℕ
exit_code succeeded = if succeeded then 0 else 1

module _ (k : MessageQueue TelemetryQueueItem) where
  open k use {State}

  pub has_succeeded : Bool → Bool → FirmwareMetricsSnapshot → State → Bool
  has_succeeded producer transmitter metrics s =
      producer && transmitter && metrics_are_valid metrics && empty k s

  pub record System : Type 0 where
    pub main : MainThread
    pub producer : ProducerThread
    pub transmitter : TransmitterThread
    pub next_index : ℕ
    pub metrics : FirmwareMetrics
    pub queue : State
    pub output : List Printk

  -- A step of `main`, which starts the other threads and reads their results.
  pub data MainStep (m : FirmwareMetrics) (s : State) (out : List Printk)
      : MainThread
        → ProducerThread
        → TransmitterThread
        → MainThread
        → ProducerThread
        → TransmitterThread
        → List Printk
        → Type 0 where
    create_transmitter :
        {p : ProducerThread}
        → MainStep m s out creating_transmitter p TransmitterThread.not_started creating_producer p
            (TransmitterThread.popping 0)
            out
    create_producer :
        {t : TransmitterThread}
        → MainStep m s out creating_producer ProducerThread.not_started t taking_producer
            ProducerThread.testing t out
    take_producer :
        {t : TransmitterThread} (ok : Bool)
        → MainStep m s out taking_producer
            (ProducerThread.finished ok)
            t
            taking_transmitter
            (ProducerThread.finished ok)
            t
            out
    take_transmitter :
        {p : ProducerThread} (ok : Bool)
        → MainStep m s out taking_transmitter p
            (TransmitterThread.finished ok)
            concluding
            p
            (TransmitterThread.finished ok)
            out
    conclude :
        (p_ok t_ok : Bool)
        → MainStep m s out concluding
            (ProducerThread.finished p_ok)
            (TransmitterThread.finished t_ok)
            (exited (exit_code (has_succeeded p_ok t_ok (metrics_snapshot m) s)))
            (ProducerThread.finished p_ok)
            (TransmitterThread.finished t_ok)
            (out
              ++ conclusion (has_succeeded p_ok t_ok (metrics_snapshot m) s) (metrics_snapshot m))

  pub data Step (y : System) : System → Type 0 where
    main_step :
        {g : MainThread} {p : ProducerThread} {t : TransmitterThread} {out : List Printk}
        → MainStep y.metrics y.queue y.output y.main y.producer y.transmitter g p t out
        → Step y (record y { main = g; producer = p; transmitter = t; output = out })
    producer_step :
        {p : ProducerThread} {i : ℕ} {m : FirmwareMetrics} {s : State}
        → ProducerStep k y.producer y.next_index y.metrics y.queue p i m s
        → Step y (record y { producer = p; next_index = i; metrics = m; queue = s })
    transmitter_step :
        {t : TransmitterThread} {m : FirmwareMetrics} {s : State} {out : List Printk}
        → TransmitterStep k y.transmitter y.metrics y.queue y.output t m s out
        → Step y (record y { transmitter = t; metrics = m; queue = s; output = out })

  -- The objects that `main` constructs.
  unfoldable pub start : System
  start = record {
    main = creating_transmitter;
    producer = ProducerThread.not_started;
    transmitter = TransmitterThread.not_started;
    next_index = 0;
    metrics = zero_metrics;
    queue = telemetry_queue k;
    output = [];
  }

  -- `Reach y z`: the program can come from the state `y` to `z`.
  pub data Reach (y : System) : System → Type 0 where
    here : Reach y y
    then_step : {z w : System} → Reach y z → Step z w → Reach y w

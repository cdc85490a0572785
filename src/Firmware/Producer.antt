-- ===== src/Firmware/Producer.antt =====
-- telemetry_producer.cpp: `run` as the steps of a thread. A step is one call on the model, the
-- counters or the queue, or one test.
use cpp_embedded_telemetry_l.Common.{ℕ, ◌≡◌, Bool, true, false, List}
use cpp_embedded_telemetry_l.Protocol.Types.{TelemetryFrame}
use cpp_embedded_telemetry_l.Protocol.Serializer.{serialize}
use cpp_embedded_telemetry_l.Firmware.SensorModel.{has_next, next}
use cpp_embedded_telemetry_l.Firmware.Metrics.{
  FirmwareMetrics, record_sample_generated, record_frame_serialized, record_frame_enqueued,
  record_queue_push_failure, record_end_marker_sent,
}
use cpp_embedded_telemetry_l.Firmware.MessageQueue.{MessageQueue}
use cpp_embedded_telemetry_l.Firmware.Queue.{
  TelemetryQueueItem, PushResult, push_frame, push_end_of_stream,
}

-- Where the producer's thread stands.
pub data ProducerThread : Type 0 where
  not_started : ProducerThread
  -- at the loop's test; in its body, with the frame taken and then its bytes; after the push
  testing : ProducerThread
  serializing : TelemetryFrame → ProducerThread
  pushing : List ℕ → ProducerThread
  pushed : ProducerThread
  -- after the loop; after the push of the end marker
  ending : ProducerThread
  end_pushed : ProducerThread
  -- a push has given false
  push_failed : ProducerThread
  -- `run` has returned; the semaphore has been given
  returned finished : Bool → ProducerThread

module _ (k : MessageQueue TelemetryQueueItem) where
  open k use {State}

  -- A step changes the thread's place, the model's `next_index_`, the counters and the queue.
  pub data ProducerStep
      : ProducerThread
        → ℕ
        → FirmwareMetrics
        → State
        → ProducerThread
        → ℕ
        → FirmwareMetrics
        → State
        → Type 0 where
    take_sample :
        {i : ℕ} {m : FirmwareMetrics} {s : State}
        → has_next i ≡ true
        → ProducerStep testing i m s
            (serializing ((next i).0))
            ((next i).1)
            (record_sample_generated m)
            s
    serialize_frame :
        {i : ℕ} {m : FirmwareMetrics} {s : State} (f : TelemetryFrame)
        → ProducerStep (serializing f) i m s (pushing (serialize f)) i (record_frame_serialized m) s
    push :
        {i : ℕ} {m : FirmwareMetrics} {s t : State} (bytes : List ℕ)
        → push_frame k s bytes ≡ PushResult.returns true t
        → ProducerStep (pushing bytes) i m s pushed i m t
    fail_push :
        {i : ℕ} {m : FirmwareMetrics} {s t : State} (bytes : List ℕ)
        → push_frame k s bytes ≡ PushResult.returns false t
        → ProducerStep (pushing bytes) i m s push_failed i m t
    count_enqueued :
        {i : ℕ} {m : FirmwareMetrics} {s : State}
        → ProducerStep pushed i m s testing i (record_frame_enqueued m) s
    leave_loop :
        {i : ℕ} {m : FirmwareMetrics} {s : State}
        → has_next i ≡ false
        → ProducerStep testing i m s ending i m s
    push_end :
        {i : ℕ} {m : FirmwareMetrics} {s t : State}
        → push_end_of_stream k s ≡ PushResult.returns true t
        → ProducerStep ending i m s end_pushed i m t
    fail_push_end :
        {i : ℕ} {m : FirmwareMetrics} {s t : State}
        → push_end_of_stream k s ≡ PushResult.returns false t
        → ProducerStep ending i m s push_failed i m t
    count_failure :
        {i : ℕ} {m : FirmwareMetrics} {s : State}
        → ProducerStep push_failed i m s (returned false) i (record_queue_push_failure m) s
    count_end :
        {i : ℕ} {m : FirmwareMetrics} {s : State}
        → ProducerStep end_pushed i m s (returned true) i (record_end_marker_sent m) s
    give_semaphore :
        {i : ℕ} {m : FirmwareMetrics} {s : State} (ok : Bool)
        → ProducerStep (returned ok) i m s (finished ok) i m s

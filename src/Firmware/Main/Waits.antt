-- ===== src/Firmware/Main/Waits.antt =====
-- What each of the firmware's threads can do in a state: take a step, or wait, and for what
-- (telemetry_producer.cpp, telemetry_transmitter.cpp).
use cpp_embedded_telemetry_l.Common.{ℕ, ◌≤◌, ◌≡◌, refl, ap, Bool, true, false, List, [], length}
use cpp_embedded_telemetry_l.Firmware.SensorModel.{has_next}
use cpp_embedded_telemetry_l.Firmware.Metrics.{FirmwareMetrics}
use cpp_embedded_telemetry_l.Firmware.MessageQueue.{MessageQueue}
use cpp_embedded_telemetry_l.Firmware.Queue.{
  QueueItemKind, TelemetryQueueItem, PushResult, PopResult, push_frame, push_end_of_stream, pop,
}
use cpp_embedded_telemetry_l.Firmware.Queue.Laws.{
  push_frame-waits, push_end_of_stream-waits, pop-waits,
}
use cpp_embedded_telemetry_l.Firmware.Producer.{ProducerThread, ProducerStep}
use cpp_embedded_telemetry_l.Firmware.Transmitter.{Printk, TransmitterThread, TransmitterStep}

-- If a call on the queue, or a thread, does not wait.
module _ {S : Type 0} where
  abbrev pub push_returns : PushResult S → Bool
  push_returns PushResult.waits = false
  push_returns (PushResult.returns ok s) = true

  abbrev pub pop_returns : PopResult S → Bool
  pop_returns PopResult.waits = false
  pop_returns (PopResult.returns ok item s) = true

module _ (k : MessageQueue TelemetryQueueItem) where
  open k use {State, contents, capacity}

  abbrev pub producer_is_ready : ProducerThread → State → Bool
  producer_is_ready ProducerThread.not_started s = false
  producer_is_ready (ProducerThread.pushing bytes) s = push_returns (push_frame k s bytes)
  producer_is_ready ProducerThread.ending s = push_returns (push_end_of_stream k s)
  producer_is_ready (ProducerThread.finished ok) s = false
  producer_is_ready _ s = true

  abbrev pub transmitter_is_ready : TransmitterThread → State → Bool
  transmitter_is_ready TransmitterThread.not_started s = false
  transmitter_is_ready (TransmitterThread.popping n) s = pop_returns (pop k s)
  transmitter_is_ready (TransmitterThread.finished ok) s = false
  transmitter_is_ready _ s = true

  pub data ProducerMove (p : ProducerThread) (i : ℕ) (m : FirmwareMetrics) (s : State)
      : Type 0 where
    moves :
        {p' : ProducerThread} {i' : ℕ} {m' : FirmwareMetrics} {s' : State}
        → ProducerStep k p i m s p' i' m' s'
        → ProducerMove p i m s
    waits : producer_is_ready p s ≡ false → capacity s ≤ length (contents s) → ProducerMove p i m s
    unstarted : p ≡ ProducerThread.not_started → ProducerMove p i m s
    done : (ok : Bool) → p ≡ ProducerThread.finished ok → ProducerMove p i m s

  pub data TransmitterMove (t : TransmitterThread) (m : FirmwareMetrics) (s : State)
      (out : List Printk) : Type 0 where
    moves :
        {t' : TransmitterThread} {m' : FirmwareMetrics} {s' : State} {out' : List Printk}
        → TransmitterStep k t m s out t' m' s' out'
        → TransmitterMove t m s out
    waits :
        (n : ℕ)
        → t ≡ TransmitterThread.popping n
        → pop_returns (pop k s) ≡ false
        → contents s ≡ []
        → TransmitterMove t m s out
    unstarted : t ≡ TransmitterThread.not_started → TransmitterMove t m s out
    done : (ok : Bool) → t ≡ TransmitterThread.finished ok → TransmitterMove t m s out

  module _ (i : ℕ) (m : FirmwareMetrics) (s : State) where
    test-ProducerMove :
        (more : Bool) → has_next i ≡ more → ProducerMove ProducerThread.testing i m s
    test-ProducerMove true e = ProducerMove.moves (ProducerStep.take_sample e)
    test-ProducerMove false e = ProducerMove.moves (ProducerStep.leave_loop e)

    push-ProducerMove :
        (bytes : List ℕ) (o : PushResult State)
        → push_frame k s bytes ≡ o
        → ProducerMove (ProducerThread.pushing bytes) i m s
    push-ProducerMove bytes PushResult.waits e =
        ProducerMove.waits (ap push_returns e) (push_frame-waits k s bytes e)
    push-ProducerMove bytes (PushResult.returns true t) e =
        ProducerMove.moves (ProducerStep.push bytes e)
    push-ProducerMove bytes (PushResult.returns false t) e =
        ProducerMove.moves (ProducerStep.fail_push bytes e)

    end-ProducerMove :
        (o : PushResult State)
        → push_end_of_stream k s ≡ o
        → ProducerMove ProducerThread.ending i m s
    end-ProducerMove PushResult.waits e =
        ProducerMove.waits (ap push_returns e) (push_end_of_stream-waits k s e)
    end-ProducerMove (PushResult.returns true t) e = ProducerMove.moves (ProducerStep.push_end e)
    end-ProducerMove (PushResult.returns false t) e =
        ProducerMove.moves (ProducerStep.fail_push_end e)

    pub producer_move : (p : ProducerThread) → ProducerMove p i m s
    producer_move ProducerThread.not_started = ProducerMove.unstarted refl
    producer_move ProducerThread.testing = test-ProducerMove (has_next i) refl
    producer_move (ProducerThread.serializing f) =
        ProducerMove.moves (ProducerStep.serialize_frame f)
    producer_move (ProducerThread.pushing bytes) =
        push-ProducerMove bytes (push_frame k s bytes) refl
    producer_move ProducerThread.pushed = ProducerMove.moves ProducerStep.count_enqueued
    producer_move ProducerThread.ending = end-ProducerMove (push_end_of_stream k s) refl
    producer_move ProducerThread.end_pushed = ProducerMove.moves ProducerStep.count_end
    producer_move ProducerThread.push_failed = ProducerMove.moves ProducerStep.count_failure
    producer_move (ProducerThread.returned ok) = ProducerMove.moves (ProducerStep.give_semaphore ok)
    producer_move (ProducerThread.finished ok) = ProducerMove.done ok refl

  module _ (m : FirmwareMetrics) (s : State) (out : List Printk) where
    pop-TransmitterMove :
        (n : ℕ) (o : PopResult State)
        → pop k s ≡ o
        → TransmitterMove (TransmitterThread.popping n) m s out
    pop-TransmitterMove n PopResult.waits e =
        TransmitterMove.waits n refl (ap pop_returns e) (pop-waits k s e)
    pop-TransmitterMove n (PopResult.returns true x t) e =
        TransmitterMove.moves (TransmitterStep.pop_item n x e)
    pop-TransmitterMove n (PopResult.returns false x t) e =
        TransmitterMove.moves (TransmitterStep.fail_pop n x e)

    item-TransmitterMove :
        (n : ℕ) (x : TelemetryQueueItem) (kind : QueueItemKind)
        → x.kind ≡ kind
        → TransmitterMove (TransmitterThread.handling n x) m s out
    item-TransmitterMove n x QueueItemKind.frame e =
        TransmitterMove.moves (TransmitterStep.print_frame n x e)
    item-TransmitterMove n x QueueItemKind.end_of_stream e =
        TransmitterMove.moves (TransmitterStep.count_end n x e)

    pub transmitter_move : (t : TransmitterThread) → TransmitterMove t m s out
    transmitter_move TransmitterThread.not_started = TransmitterMove.unstarted refl
    transmitter_move (TransmitterThread.popping n) = pop-TransmitterMove n (pop k s) refl
    transmitter_move (TransmitterThread.handling n x) = item-TransmitterMove n x x.kind refl
    transmitter_move (TransmitterThread.printed n) =
        TransmitterMove.moves (TransmitterStep.count_transmitted n)
    transmitter_move TransmitterThread.pop_failed =
        TransmitterMove.moves TransmitterStep.count_failure
    transmitter_move (TransmitterThread.returned ok) =
        TransmitterMove.moves (TransmitterStep.give_semaphore ok)
    transmitter_move (TransmitterThread.finished ok) = TransmitterMove.done ok refl

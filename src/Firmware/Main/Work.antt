-- ===== src/Firmware/Main/Work.antt =====
-- What is left to do in a state of the firmware, and how long a run can take (main.cpp).
use cpp_embedded_telemetry_l.Common.{
  ℕ, suc, ◌+◌, ◌-◌, ◌*◌, ◌<◌, ◌≤◌, ap, arith, List, [], ◌∷◌, length, length-append,
}
use cpp_embedded_telemetry_l.Firmware.SensorModel.{next_value, has_next-lt}
use cpp_embedded_telemetry_l.Firmware.Metrics.{FirmwareMetrics}
use cpp_embedded_telemetry_l.Firmware.MessageQueue.{MessageQueue}
use cpp_embedded_telemetry_l.Firmware.Queue.{TelemetryQueueItem, frame_item, end_item}
use cpp_embedded_telemetry_l.Firmware.Queue.Laws.{
  push_frame-true, push_frame-false, push_end_of_stream-true, push_end_of_stream-false, pop-true,
  pop-false, telemetry_queue-contents,
}
use cpp_embedded_telemetry_l.Firmware.Producer.{ProducerThread, ProducerStep}
use cpp_embedded_telemetry_l.Firmware.Transmitter.{Printk, TransmitterThread, TransmitterStep}
use cpp_embedded_telemetry_l.Firmware.Main.{MainThread, MainStep, System, Step, Reach, start}

main_work : MainThread → ℕ
main_work MainThread.creating_transmitter = 5
main_work MainThread.creating_producer = 4
main_work MainThread.taking_producer = 3
main_work MainThread.taking_transmitter = 2
main_work MainThread.concluding = 1
main_work (MainThread.exited code) = 0

-- A sample left costs the producer four steps and the transmitter three.
producer_work : ProducerThread → ℕ → ℕ
producer_work ProducerThread.not_started i = 7 * (8 - i) + 8
producer_work ProducerThread.testing i = 7 * (8 - i) + 8
producer_work (ProducerThread.serializing f) i = 7 * (8 - i) + 14
producer_work (ProducerThread.pushing bytes) i = 7 * (8 - i) + 13
producer_work ProducerThread.pushed i = 7 * (8 - i) + 9
producer_work ProducerThread.ending i = 7
producer_work ProducerThread.end_pushed i = 2
producer_work ProducerThread.push_failed i = 2
producer_work (ProducerThread.returned ok) i = 1
producer_work (ProducerThread.finished ok) i = 0

transmitter_work : TransmitterThread → ℕ
transmitter_work TransmitterThread.not_started = 3
transmitter_work (TransmitterThread.popping n) = 3
transmitter_work (TransmitterThread.handling n item) = 5
transmitter_work (TransmitterThread.printed n) = 4
transmitter_work TransmitterThread.pop_failed = 2
transmitter_work (TransmitterThread.returned ok) = 1
transmitter_work (TransmitterThread.finished ok) = 0

module _ (k : MessageQueue TelemetryQueueItem) where
  open k use {State, contents}

  pub work : System k → ℕ
  work y =
      main_work y.main
      + producer_work y.producer y.next_index
      + transmitter_work y.transmitter
      + 3 * length (contents y.queue)

  MainStep-work :
      {m : FirmwareMetrics} {s : State} {out : List Printk} {g : MainThread} {p : ProducerThread}
      {t : TransmitterThread} {g' : MainThread} {p' : ProducerThread} {t' : TransmitterThread}
      {out' : List Printk} (i : ℕ)
      → MainStep k m s out g p t g' p' t' out'
      → main_work g' + producer_work p' i + transmitter_work t'
        < main_work g + producer_work p i + transmitter_work t
  unfolding main_work producer_work transmitter_work
  MainStep-work i MainStep.create_transmitter = omega arith
  MainStep-work i st = omega arith

  ProducerStep-work :
      {p : ProducerThread} {i : ℕ} {m : FirmwareMetrics} {s : State} {p' : ProducerThread} {i' : ℕ}
      {m' : FirmwareMetrics} {s' : State}
      → ProducerStep k p i m s p' i' m' s'
      → producer_work p' i' + 3 * length (contents s') < producer_work p i + 3 * length (contents s)
  unfolding producer_work
  ProducerStep-work {i} (ProducerStep.take_sample e) =
      omega (arith, has_next-lt i e, ap (λ n. n.1) (next_value i e))
  ProducerStep-work {s} {s'} (ProducerStep.push bytes e) = omega (
    arith,
    ap length ((push_frame-true k s s' bytes e).0),
    length-append (contents s) (frame_item bytes ∷ []),
  )
  ProducerStep-work {s} {s'} (ProducerStep.fail_push bytes e) =
      omega (arith, ap length ((push_frame-false k s s' bytes e).0))
  ProducerStep-work {s} {s'} (ProducerStep.push_end e) = omega (
    arith,
    ap length ((push_end_of_stream-true k s s' e).0),
    length-append (contents s) (end_item ∷ []),
  )
  ProducerStep-work {s} {s'} (ProducerStep.fail_push_end e) =
      omega (arith, ap length ((push_end_of_stream-false k s s' e).0))
  ProducerStep-work st = omega arith

  TransmitterStep-work :
      {t : TransmitterThread} {m : FirmwareMetrics} {s : State} {out : List Printk}
      {t' : TransmitterThread} {m' : FirmwareMetrics} {s' : State} {out' : List Printk}
      → TransmitterStep k t m s out t' m' s' out'
      → transmitter_work t' + 3 * length (contents s')
        < transmitter_work t + 3 * length (contents s)
  unfolding transmitter_work
  TransmitterStep-work {s} {s'} (TransmitterStep.pop_item n item e) =
      omega (arith, ap length ((pop-true k s s' item e).0))
  TransmitterStep-work {s} {s'} (TransmitterStep.fail_pop n item e) =
      omega (arith, ap length ((pop-false k s s' item e).0))
  TransmitterStep-work st = omega arith

  pub Step-work : {y z : System k} → Step k y z → work z < work y
  unfolding work
  Step-work {y} (Step.main_step st) = omega (arith, MainStep-work y.next_index st)
  Step-work (Step.producer_step st) = omega (arith, ProducerStep-work st)
  Step-work (Step.transmitter_step st) = omega (arith, TransmitterStep-work st)

  -- A run of `n` steps.
  pub data Run (y : System k) : ℕ → System k → Type 0 where
    none : Run y 0 y
    more : {n : ℕ} {z w : System k} → Run y n z → Step k z w → Run y (suc n) w

  pub Run-Reach : {x y : System k} {n : ℕ} {z : System k} → Reach k x y → Run y n z → Reach k x z
  Run-Reach r Run.none = r
  Run-Reach r (Run.more run st) = Reach.then_step (Run-Reach r run) st

  Run-work : {y : System k} {n : ℕ} {z : System k} → Run y n z → n + work z ≤ work y
  Run-work Run.none = omega arith
  Run-work (Run.more r st) = omega (arith, Run-work r, Step-work st)

  -- No run takes more than 72 steps, in each interleaving and also with failed calls.
  pub Run-steps-bounded : (n : ℕ) (y : System k) → Run (start k) n y → n ≤ 72
  unfolding work start main_work producer_work transmitter_work
  Run-steps-bounded n y r = omega (arith, Run-work r, ap length (telemetry_queue-contents k))

-- ===== src/Firmware/Main/Places.antt =====
-- How far each thread is, by where `main` stands, and the bound of the queue (main.cpp).
use cpp_embedded_telemetry_l.Common.{ℕ, ◌≡◌, refl, ◌∙◌, arith, Bool, true, false, List}
use cpp_embedded_telemetry_l.Firmware.Metrics.{FirmwareMetrics}
use cpp_embedded_telemetry_l.Firmware.MessageQueue.{MessageQueue}
use cpp_embedded_telemetry_l.Firmware.Queue.{TelemetryQueueItem, telemetry_queue_capacity}
use cpp_embedded_telemetry_l.Firmware.Queue.Laws.{
  push_frame-true, push_frame-false, push_end_of_stream-true, push_end_of_stream-false, pop-true,
  pop-false, telemetry_queue-capacity,
}
use cpp_embedded_telemetry_l.Firmware.Producer.{ProducerThread, ProducerStep}
use cpp_embedded_telemetry_l.Firmware.Transmitter.{Printk, TransmitterThread, TransmitterStep}
use cpp_embedded_telemetry_l.Firmware.Main.{MainThread, MainStep, System, Step, Reach, start}

abbrev pub producer_started : ProducerThread → Bool
producer_started ProducerThread.not_started = false
producer_started _ = true

abbrev pub producer_runs : ProducerThread → Bool
producer_runs ProducerThread.not_started = false
producer_runs (ProducerThread.finished ok) = false
producer_runs _ = true

abbrev pub transmitter_started : TransmitterThread → Bool
transmitter_started TransmitterThread.not_started = false
transmitter_started _ = true

abbrev pub transmitter_runs : TransmitterThread → Bool
transmitter_runs TransmitterThread.not_started = false
transmitter_runs (TransmitterThread.finished ok) = false
transmitter_runs _ = true

-- What each thread has been through, by where `main` stands.
abbrev pub Started : MainThread → ProducerThread → TransmitterThread → Type 0
Started MainThread.creating_transmitter p t =
    (p ≡ ProducerThread.not_started) × (t ≡ TransmitterThread.not_started)
Started MainThread.creating_producer p t =
    (p ≡ ProducerThread.not_started) × (transmitter_started t ≡ true)
Started MainThread.taking_producer p t =
    (producer_started p ≡ true) × (transmitter_started t ≡ true)
Started MainThread.taking_transmitter p t =
    ((ok : Bool) × (p ≡ ProducerThread.finished ok)) × (transmitter_started t ≡ true)
Started MainThread.concluding p t =
    ((ok : Bool) × (p ≡ ProducerThread.finished ok))
    × ((ok : Bool) × (t ≡ TransmitterThread.finished ok))
Started (MainThread.exited code) p t =
    ((ok : Bool) × (p ≡ ProducerThread.finished ok))
    × ((ok : Bool) × (t ≡ TransmitterThread.finished ok))

module _ (k : MessageQueue TelemetryQueueItem) where
  open k use {State, contents, capacity}

  ProducerStep-capacity :
      {p : ProducerThread} {i : ℕ} {m : FirmwareMetrics} {s : State} {p' : ProducerThread} {i' : ℕ}
      {m' : FirmwareMetrics} {s' : State}
      → ProducerStep k p i m s p' i' m' s'
      → capacity s' ≡ capacity s
  ProducerStep-capacity {s} {s'} (ProducerStep.push bytes e) = (push_frame-true k s s' bytes e).1
  ProducerStep-capacity {s} {s'} (ProducerStep.fail_push bytes e) =
      (push_frame-false k s s' bytes e).1
  ProducerStep-capacity {s} {s'} (ProducerStep.push_end e) = (push_end_of_stream-true k s s' e).1
  ProducerStep-capacity {s} {s'} (ProducerStep.fail_push_end e) =
      (push_end_of_stream-false k s s' e).1
  ProducerStep-capacity st = ground arith

  TransmitterStep-capacity :
      {t : TransmitterThread} {m : FirmwareMetrics} {s : State} {out : List Printk}
      {t' : TransmitterThread} {m' : FirmwareMetrics} {s' : State} {out' : List Printk}
      → TransmitterStep k t m s out t' m' s' out'
      → capacity s' ≡ capacity s
  TransmitterStep-capacity {s} {s'} (TransmitterStep.pop_item n item e) = (pop-true k s s' item e).1
  TransmitterStep-capacity {s} {s'} (TransmitterStep.fail_pop n item e) =
      (pop-false k s s' item e).1
  TransmitterStep-capacity st = ground arith

  pub Reach-capacity :
      {y : System k} → Reach k (start k) y → capacity y.queue ≡ telemetry_queue_capacity
  unfolding start
  Reach-capacity Reach.here = telemetry_queue-capacity k
  Reach-capacity (Reach.then_step r (Step.main_step st)) = Reach-capacity r
  Reach-capacity (Reach.then_step r (Step.producer_step st)) =
      ProducerStep-capacity st ∙ Reach-capacity r
  Reach-capacity (Reach.then_step r (Step.transmitter_step st)) =
      TransmitterStep-capacity st ∙ Reach-capacity r

  MainStep-Started :
      {m : FirmwareMetrics} {s : State} {out : List Printk} {g : MainThread} {p : ProducerThread}
      {t : TransmitterThread} {g' : MainThread} {p' : ProducerThread} {t' : TransmitterThread}
      {out' : List Printk}
      → MainStep k m s out g p t g' p' t' out'
      → Started g p t
      → Started g' p' t'
  MainStep-Started MainStep.create_transmitter h = (h.0, refl)
  MainStep-Started MainStep.create_producer h = (refl, h.1)
  MainStep-Started (MainStep.take_producer ok) h = ((ok, refl), h.1)
  MainStep-Started (MainStep.take_transmitter ok) h = (h.0, (ok, refl))
  MainStep-Started (MainStep.conclude p_ok t_ok) h = ((p_ok, refl), (t_ok, refl))

  pub ProducerStep-places :
      {p : ProducerThread} {i : ℕ} {m : FirmwareMetrics} {s : State} {p' : ProducerThread} {i' : ℕ}
      {m' : FirmwareMetrics} {s' : State}
      → ProducerStep k p i m s p' i' m' s'
      → (producer_runs p ≡ true) × (producer_started p' ≡ true)
  ProducerStep-places (ProducerStep.take_sample e) = (refl, refl)
  ProducerStep-places (ProducerStep.serialize_frame f) = (refl, refl)
  ProducerStep-places (ProducerStep.push bytes e) = (refl, refl)
  ProducerStep-places (ProducerStep.fail_push bytes e) = (refl, refl)
  ProducerStep-places ProducerStep.count_enqueued = (refl, refl)
  ProducerStep-places (ProducerStep.leave_loop e) = (refl, refl)
  ProducerStep-places (ProducerStep.push_end e) = (refl, refl)
  ProducerStep-places (ProducerStep.fail_push_end e) = (refl, refl)
  ProducerStep-places ProducerStep.count_failure = (refl, refl)
  ProducerStep-places ProducerStep.count_end = (refl, refl)
  ProducerStep-places (ProducerStep.give_semaphore ok) = (refl, refl)

  pub TransmitterStep-places :
      {t : TransmitterThread} {m : FirmwareMetrics} {s : State} {out : List Printk}
      {t' : TransmitterThread} {m' : FirmwareMetrics} {s' : State} {out' : List Printk}
      → TransmitterStep k t m s out t' m' s' out'
      → (transmitter_runs t ≡ true) × (transmitter_started t' ≡ true)
  TransmitterStep-places (TransmitterStep.pop_item n item e) = (refl, refl)
  TransmitterStep-places (TransmitterStep.fail_pop n item e) = (refl, refl)
  TransmitterStep-places TransmitterStep.count_failure = (refl, refl)
  TransmitterStep-places (TransmitterStep.count_end n item e) = (refl, refl)
  TransmitterStep-places (TransmitterStep.print_frame n item e) = (refl, refl)
  TransmitterStep-places (TransmitterStep.count_transmitted n) = (refl, refl)
  TransmitterStep-places (TransmitterStep.give_semaphore ok) = (refl, refl)

producer_Started :
    (g : MainThread) (t : TransmitterThread) (p p' : ProducerThread)
    → (producer_runs p ≡ true) × (producer_started p' ≡ true)
    → Started g p t
    → Started g p' t
producer_Started MainThread.creating_transmitter t p p' h j = absurd (cc (h.0, j.0))
producer_Started MainThread.creating_producer t p p' h j = absurd (cc (h.0, j.0))
producer_Started MainThread.taking_producer t p p' h j = (h.1, j.1)
producer_Started MainThread.taking_transmitter t p p' h j = ground (arith, h.0, j.0.1)
producer_Started MainThread.concluding t p p' h j = ground (arith, h.0, j.0.1)
producer_Started (MainThread.exited code) t p p' h j = ground (arith, h.0, j.0.1)

transmitter_Started :
    (g : MainThread) (p : ProducerThread) (t t' : TransmitterThread)
    → (transmitter_runs t ≡ true) × (transmitter_started t' ≡ true)
    → Started g p t
    → Started g p t'
transmitter_Started MainThread.creating_transmitter p t t' h j = absurd (cc (h.0, j.1))
transmitter_Started MainThread.creating_producer p t t' h j = (j.0, h.1)
transmitter_Started MainThread.taking_producer p t t' h j = (j.0, h.1)
transmitter_Started MainThread.taking_transmitter p t t' h j = (j.0, h.1)
transmitter_Started MainThread.concluding p t t' h j = ground (arith, h.0, j.1.1)
transmitter_Started (MainThread.exited code) p t t' h j = ground (arith, h.0, j.1.1)

module _ (k : MessageQueue TelemetryQueueItem) where
  pub Reach-Started : {y : System k} → Reach k (start k) y → Started y.main y.producer y.transmitter
  unfolding start
  Reach-Started Reach.here = (refl, refl)
  Reach-Started (Reach.then_step r (Step.main_step st)) = MainStep-Started k st (Reach-Started r)
  Reach-Started (Reach.then_step {z} r (Step.producer_step {p} st)) =
      producer_Started z.main z.transmitter z.producer p (ProducerStep-places k st)
        (Reach-Started r)
  Reach-Started (Reach.then_step {z} r (Step.transmitter_step {t} st)) =
      transmitter_Started z.main z.producer z.transmitter t (TransmitterStep-places k st)
        (Reach-Started r)

-- ===== src/Firmware/Main/Hangs.antt =====
-- What the runs of the firmware come to after a call on the queue that failed
-- (telemetry_producer.cpp, telemetry_transmitter.cpp, main.cpp).
mod Examples
use cpp_embedded_telemetry_l.Common.{
  ℕ, ◌<◌, ◌≡◌, ◌≢◌, refl, sym, subst, arith, Bool, false, List, length, ◌⊎◌, inl, inr,
}
use cpp_embedded_telemetry_l.Common.Inevitable.{Inevitably, inevitable}
use cpp_embedded_telemetry_l.Firmware.Metrics.{FirmwareMetrics}
use cpp_embedded_telemetry_l.Firmware.MessageQueue.{MessageQueue}
use cpp_embedded_telemetry_l.Firmware.Queue.{
  TelemetryQueueItem, PushResult, PopResult, push_frame, push_end_of_stream, pop,
}
use cpp_embedded_telemetry_l.Firmware.Producer.{ProducerThread, ProducerStep}
use cpp_embedded_telemetry_l.Firmware.Transmitter.{Printk, TransmitterThread, TransmitterStep}
use cpp_embedded_telemetry_l.Firmware.Main.{MainThread, MainStep, System, Step, Reach, start}
use cpp_embedded_telemetry_l.Firmware.Main.Conditions.{ProducerFailed, TransmitterFailed}
use cpp_embedded_telemetry_l.Firmware.Main.Places.{Started, Reach-Started}
use cpp_embedded_telemetry_l.Firmware.Main.Work.{work, Step-work}
use cpp_embedded_telemetry_l.Firmware.Main.Stuck.{IsStuck, IsStuck-or-Step}
use cpp_embedded_telemetry_l.Firmware.Main.Failure.{unended-exited}
use cpp_embedded_telemetry_l.Firmware.Main.Abandoned.{failed_pop-unfinished}

module _ (k : MessageQueue TelemetryQueueItem) where
  open k use {State}

  -- No thread takes a step, and the program has not exited.
  abbrev pub IsHung : System k → Type 0
  IsHung z = IsStuck k z × ((code : ℕ) → z.main ≢ MainThread.exited code)

  -- A thread that has failed stays so.
  Step-ProducerFailed :
      (y z : System k) → Step k y z → ProducerFailed y.producer → ProducerFailed z.producer
  Step-ProducerFailed y z (Step.main_step st) f = main st f
    where
      main :
          {m : FirmwareMetrics} {s : State} {out : List Printk} {g : MainThread}
          {p : ProducerThread} {t : TransmitterThread} {g' : MainThread} {p' : ProducerThread}
          {t' : TransmitterThread} {out' : List Printk}
          → MainStep k m s out g p t g' p' t' out'
          → ProducerFailed p
          → ProducerFailed p'
      main MainStep.create_transmitter f = f
      main MainStep.create_producer f = absurd f
      main (MainStep.take_producer ok) f = f
      main (MainStep.take_transmitter ok) f = f
      main (MainStep.conclude p_ok t_ok) f = f
  Step-ProducerFailed y z (Step.producer_step st) f = producer st f
    where
      producer :
          {p : ProducerThread} {i : ℕ} {m : FirmwareMetrics} {s : State} {p' : ProducerThread}
          {i' : ℕ} {m' : FirmwareMetrics} {s' : State}
          → ProducerStep k p i m s p' i' m' s'
          → ProducerFailed p
          → ProducerFailed p'
      producer ProducerStep.count_failure f = refl
      producer (ProducerStep.give_semaphore ok) f = f
      producer st f = ground arith
  Step-ProducerFailed y z (Step.transmitter_step st) f = f

  -- If no `pop` of the queue fails, then from each reachable state in which a push of the producer
  -- has given false every run comes to a state that no thread leaves, and in which the program has
  -- not exited.
  pub failed_push-hangs :
      ((s t : State) (item : TelemetryQueueItem) → pop k s ≢ PopResult.returns false item t)
      → (y : System k) → Reach k (start k) y
      → ProducerFailed y.producer
      → Inevitably (Step k) IsHung y
  failed_push-hangs pops y r f =
      inevitable (Step k) IsHung (λ z. Reach k (start k) z × ProducerFailed z.producer) (work k)
        (λ w z st h. (Reach.then_step h.0 st, Step-ProducerFailed w z st h.1))
        (λ w z st. Step-work k st) hung_or_step y (r, f)
    where
      hung_or_step :
          (z : System k)
          → Reach k (start k) z × ProducerFailed z.producer
          → IsHung z ⊎ ((w : System k) × Step k z w)
      hung_or_step z (r, f) = elim (IsStuck-or-Step k z) [
        | inl stuck ↦ inl (stuck, unended-exited k pops z r f)
        | inr step ↦ inr step
      ]

  abbrev Abandoned : TransmitterThread → List Printk → Type 0
  Abandoned t out = TransmitterFailed t × (length out < 5)

  MainStep-Abandoned :
      {m : FirmwareMetrics} {s : State} {out : List Printk} {g : MainThread} {p : ProducerThread}
      {t : TransmitterThread} {g' : MainThread} {p' : ProducerThread} {t' : TransmitterThread}
      {out' : List Printk}
      → MainStep k m s out g p t g' p' t' out'
      → ((ok : Bool) → p ≢ ProducerThread.finished ok)
      → Abandoned t out
      → Abandoned t' out'
  MainStep-Abandoned MainStep.create_transmitter unfinished h = absurd h.0
  MainStep-Abandoned MainStep.create_producer unfinished h = h
  MainStep-Abandoned (MainStep.take_producer ok) unfinished h = h
  MainStep-Abandoned (MainStep.take_transmitter ok) unfinished h = h
  MainStep-Abandoned (MainStep.conclude p_ok t_ok) unfinished h = absurd (unfinished p_ok refl)

  TransmitterStep-Abandoned :
      {t : TransmitterThread} {m : FirmwareMetrics} {s : State} {out : List Printk}
      {t' : TransmitterThread} {m' : FirmwareMetrics} {s' : State} {out' : List Printk}
      → TransmitterStep k t m s out t' m' s' out'
      → Abandoned t out
      → Abandoned t' out'
  TransmitterStep-Abandoned TransmitterStep.count_failure h = (refl, h.1)
  TransmitterStep-Abandoned (TransmitterStep.give_semaphore ok) h = h
  TransmitterStep-Abandoned st h = ground arith

  -- If no push fails, then from each reachable state in which a pop of the transmitter has given
  -- false and fewer than five lines are printed every run comes to a state that no thread leaves,
  -- and in which the program has not exited.
  pub failed_pop-hangs :
      ((s t : State) (bytes : List ℕ) → push_frame k s bytes ≢ PushResult.returns false t)
      → ((s t : State) → push_end_of_stream k s ≢ PushResult.returns false t)
      → (y : System k) → Reach k (start k) y
      → TransmitterFailed y.transmitter
      → length y.output < 5
      → Inevitably (Step k) IsHung y
  failed_pop-hangs frames ends y r f few =
      inevitable (Step k) IsHung Left (work k) step (λ w z st. Step-work k st) hung_or_step y
        (r, (f, few))
    where
      Left : System k → Type 0
      Left z = Reach k (start k) z × Abandoned z.transmitter z.output

      unfinished : (z : System k) → Left z → (ok : Bool) → z.producer ≢ ProducerThread.finished ok
      unfinished z (r, (f, few)) = failed_pop-unfinished k frames ends z r f few

      step : (w z : System k) → Step k w z → Left w → Left z
      step w z (Step.main_step st) h =
          (Reach.then_step h.0 (Step.main_step st), MainStep-Abandoned st (unfinished w h) h.1)
      step w z (Step.producer_step st) h = (Reach.then_step h.0 (Step.producer_step st), h.1)
      step w z (Step.transmitter_step st) h =
          (Reach.then_step h.0 (Step.transmitter_step st), TransmitterStep-Abandoned st h.1)

      hung_or_step : (z : System k) → Left z → IsHung z ⊎ ((w : System k) × Step k z w)
      hung_or_step z h = elim (IsStuck-or-Step k z) [
        | inl stuck ↦ inl (
          stuck,
          λ code e.
              let started =
                subst (λ g. Started g z.producer z.transmitter) e (Reach-Started k h.0) in
              unfinished z h started.0.0 started.0.1,
        )
        | inr step ↦ inr step
      ]

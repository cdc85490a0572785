-- ===== src/Firmware/Main/Outcome.antt =====
-- What a run of the firmware prints and returns (main.cpp).
use cpp_embedded_telemetry_l.Common.{
  ℕ, ◌≡◌, refl, sym, subst, arith, Bool, false, List, [], ◌⊎◌, inl, inr,
}
use cpp_embedded_telemetry_l.Firmware.Metrics.{FirmwareMetrics, zero_metrics}
use cpp_embedded_telemetry_l.Firmware.MessageQueue.{MessageQueue}
use cpp_embedded_telemetry_l.Firmware.Queue.{TelemetryQueueItem}
use cpp_embedded_telemetry_l.Firmware.Queue.Laws.{telemetry_queue-contents}
use cpp_embedded_telemetry_l.Firmware.Producer.{ProducerThread, ProducerStep}
use cpp_embedded_telemetry_l.Firmware.Transmitter.{Printk, TransmitterThread, TransmitterStep}
use cpp_embedded_telemetry_l.Firmware.Main.{
  MainThread, MainStep, System, Step, Reach, start, has_succeeded, exit_code,
}
use cpp_embedded_telemetry_l.Firmware.Main.Invariant.{start-Good, MainStep-Good}
use cpp_embedded_telemetry_l.Firmware.Main.Conditions.{
  ProducerFailed, TransmitterFailed, Unsuccessful, Prints, program_output, Good,
}
use cpp_embedded_telemetry_l.Firmware.Main.Stream.{pending, transmission_index}
use cpp_embedded_telemetry_l.Firmware.Main.Moves.{CallFailed, ProducerStep-Good}
use cpp_embedded_telemetry_l.Firmware.Main.Prints.{TransmitterStep-Good}

abbrev Failed : MainThread → ProducerThread → TransmitterThread → Type 0
Failed g p t = Unsuccessful g × (ProducerFailed p ⊎ TransmitterFailed t)

module _ (k : MessageQueue TelemetryQueueItem) where
  open k use {State, contents}

  abbrev Inv : System k → Type 0
  Inv y =
      Good y.main y.producer y.transmitter y.next_index y.metrics (contents y.queue) y.output
      ⊎ (CallFailed k × Failed y.main y.producer y.transmitter)

  failed_code :
      (p_ok t_ok : Bool) (m : FirmwareMetrics) (s : State)
      → (p_ok ≡ false) ⊎ (t_ok ≡ false)
      → exit_code (has_succeeded k p_ok t_ok m s) ≡ 1
  unfolding has_succeeded
  failed_code p_ok t_ok m s h = ground arith

  MainStep-Failed :
      {m : FirmwareMetrics} {s : State} {out : List Printk} {g : MainThread} {p : ProducerThread}
      {t : TransmitterThread} {g' : MainThread} {p' : ProducerThread} {t' : TransmitterThread}
      {out' : List Printk}
      → MainStep k m s out g p t g' p' t' out'
      → Failed g p t
      → Failed g' p' t'
  MainStep-Failed MainStep.create_transmitter (u, inl h) = (tt, inl h)
  MainStep-Failed MainStep.create_transmitter (u, inr h) = absurd h
  MainStep-Failed MainStep.create_producer (u, inl h) = absurd h
  MainStep-Failed MainStep.create_producer (u, inr h) = (tt, inr h)
  MainStep-Failed (MainStep.take_producer ok) (u, h) = (tt, h)
  MainStep-Failed (MainStep.take_transmitter ok) (u, h) = (tt, h)
  MainStep-Failed {m} {s} (MainStep.conclude p_ok t_ok) (u, h) = (failed_code p_ok t_ok m s h, h)

  ProducerStep-Failed :
      {p : ProducerThread} {i : ℕ} {m : FirmwareMetrics} {s : State} {p' : ProducerThread} {i' : ℕ}
      {m' : FirmwareMetrics} {s' : State}
      → ProducerStep k p i m s p' i' m' s'
      → ProducerFailed p
      → ProducerFailed p'
  ProducerStep-Failed ProducerStep.count_failure h = refl
  ProducerStep-Failed (ProducerStep.give_semaphore ok) h = h
  ProducerStep-Failed st h = ground arith

  TransmitterStep-Failed :
      {t : TransmitterThread} {m : FirmwareMetrics} {s : State} {out : List Printk}
      {t' : TransmitterThread} {m' : FirmwareMetrics} {s' : State} {out' : List Printk}
      → TransmitterStep k t m s out t' m' s' out'
      → TransmitterFailed t
      → TransmitterFailed t'
  TransmitterStep-Failed TransmitterStep.count_failure h = refl
  TransmitterStep-Failed (TransmitterStep.give_semaphore ok) h = h
  TransmitterStep-Failed st h = ground arith

  -- One step from a state without failure.
  Good-Step :
      {y z : System k}
      → Good y.main y.producer y.transmitter y.next_index y.metrics (contents y.queue) y.output
      → Step k y z
      → Inv z
  Good-Step {y} h (Step.main_step st) = inl (MainStep-Good k y.next_index st h)
  Good-Step {y} h (Step.producer_step st) =
      elim (ProducerStep-Good k y.main y.transmitter y.output st h) [
        | inl g ↦ inl g
        | inr (c, f, u) ↦ inr (c, (u, inl f))
      ]
  Good-Step {y} h (Step.transmitter_step st) =
      elim (TransmitterStep-Good k y.main y.producer y.next_index st h) [
        | inl g ↦ inl g
        | inr (c, f, u) ↦ inr (c, (u, inr f))
      ]

  Failed-Step :
      {y z : System k}
      → Failed y.main y.producer y.transmitter
      → Step k y z
      → Failed z.main z.producer z.transmitter
  Failed-Step h (Step.main_step st) = MainStep-Failed st h
  Failed-Step (u, inl h) (Step.producer_step st) = (u, inl (ProducerStep-Failed st h))
  Failed-Step (u, inr h) (Step.producer_step st) = (u, inr h)
  Failed-Step (u, inl h) (Step.transmitter_step st) = (u, inl h)
  Failed-Step (u, inr h) (Step.transmitter_step st) = (u, inr (TransmitterStep-Failed st h))

  pub Reach-Inv : {y : System k} → Reach k (start k) y → Inv y
  unfolding start
  Reach-Inv Reach.here = inl (
      subst
        (λ q.
          Good MainThread.creating_transmitter ProducerThread.not_started
            TransmitterThread.not_started 0 zero_metrics q [])
        (sym (telemetry_queue-contents k)) start-Good)
  Reach-Inv (Reach.then_step r st) = elim (Reach-Inv r) [
    | inl h ↦ Good-Step h st
    | inr (c, h) ↦ inr (c, Failed-Step h st)
  ]

  -- If the program exits with 0, in whatever order the steps come and whatever the calls on the
  -- queue give, it has printed the eight frames in order, the summary and the last line, and no more.
  pub exited_success :
      (y : System k)
      → Reach k (start k) y
      → y.main ≡ MainThread.exited 0
      → y.output ≡ program_output
  exited_success y r e = elim (Reach-Inv r) [
    | inl h ↦
        (subst
          (λ g.
            Prints g (transmission_index y.transmitter) y.output
              (pending y.transmitter (contents y.queue) y.producer y.next_index))
          e h.prints).1
    | inr (c, (u, h)) ↦ absurd (omega (arith, subst Unsuccessful e u))
  ]

  -- If no call on the queue fails, a run can only exit with 0.
  pub exited_code :
      ¬ CallFailed k
      → (y : System k) → Reach k (start k) y
      → (code : ℕ) → y.main ≡ MainThread.exited code
      → (code ≡ 0) × (y.output ≡ program_output)
  exited_code reliable y r code e = elim (Reach-Inv r) [
    | inl h ↦
        subst
          (λ g.
            Prints g (transmission_index y.transmitter) y.output
              (pending y.transmitter (contents y.queue) y.producer y.next_index))
          e h.prints
    | inr (c, (u, h)) ↦ absurd (reliable c)
  ]

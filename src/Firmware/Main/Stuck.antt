-- ===== src/Firmware/Main/Stuck.antt =====
-- When no thread of the firmware can take a step (main.cpp, telemetry_producer.cpp,
-- telemetry_transmitter.cpp).
use cpp_embedded_telemetry_l.Common.{
  ℕ, ◌≡◌, ◌∙◌, refl, ap, arith, Bool, true, false, Bool-cases, List, ◌⊎◌, inl, inr,
}
use cpp_embedded_telemetry_l.Firmware.Metrics.{FirmwareMetrics}
use cpp_embedded_telemetry_l.Firmware.MessageQueue.{MessageQueue}
use cpp_embedded_telemetry_l.Firmware.Queue.{TelemetryQueueItem}
use cpp_embedded_telemetry_l.Firmware.Main.Waits.{
  push_returns, pop_returns, producer_is_ready, transmitter_is_ready, ProducerMove, TransmitterMove,
  producer_move, transmitter_move,
}
use cpp_embedded_telemetry_l.Firmware.Producer.{ProducerThread, ProducerStep}
use cpp_embedded_telemetry_l.Firmware.Transmitter.{Printk, TransmitterThread, TransmitterStep}
use cpp_embedded_telemetry_l.Firmware.Main.{MainThread, MainStep, System, Step}

-- `main` waits for no thread.
abbrev main_is_ready : MainThread → ProducerThread → TransmitterThread → Bool
main_is_ready MainThread.creating_transmitter p TransmitterThread.not_started = true
main_is_ready MainThread.creating_producer ProducerThread.not_started t = true
main_is_ready MainThread.taking_producer (ProducerThread.finished ok) t = true
main_is_ready MainThread.taking_transmitter p (TransmitterThread.finished ok) = true
main_is_ready MainThread.concluding (ProducerThread.finished p_ok)
      (TransmitterThread.finished t_ok) =
    true
main_is_ready _ _ _ = false

module _ (k : MessageQueue TelemetryQueueItem) where
  open k use {State}

  -- A thread that takes a step was ready.
  MainStep-is_ready :
      {m : FirmwareMetrics} {s : State} {out : List Printk} {g : MainThread} {p : ProducerThread}
      {t : TransmitterThread} {g' : MainThread} {p' : ProducerThread} {t' : TransmitterThread}
      {out' : List Printk}
      → MainStep k m s out g p t g' p' t' out'
      → main_is_ready g p t ≡ true
  MainStep-is_ready MainStep.create_transmitter = refl
  MainStep-is_ready MainStep.create_producer = refl
  MainStep-is_ready (MainStep.take_producer ok) = refl
  MainStep-is_ready (MainStep.take_transmitter ok) = refl
  MainStep-is_ready (MainStep.conclude p_ok t_ok) = refl

  ProducerStep-is_ready :
      {p : ProducerThread} {i : ℕ} {m : FirmwareMetrics} {s : State} {p' : ProducerThread} {i' : ℕ}
      {m' : FirmwareMetrics} {s' : State}
      → ProducerStep k p i m s p' i' m' s'
      → producer_is_ready k p s ≡ true
  ProducerStep-is_ready (ProducerStep.push bytes e) = ap push_returns e
  ProducerStep-is_ready (ProducerStep.fail_push bytes e) = ap push_returns e
  ProducerStep-is_ready (ProducerStep.push_end e) = ap push_returns e
  ProducerStep-is_ready (ProducerStep.fail_push_end e) = ap push_returns e
  ProducerStep-is_ready st = ground arith

  TransmitterStep-is_ready :
      {t : TransmitterThread} {m : FirmwareMetrics} {s : State} {out : List Printk}
      {t' : TransmitterThread} {m' : FirmwareMetrics} {s' : State} {out' : List Printk}
      → TransmitterStep k t m s out t' m' s' out'
      → transmitter_is_ready k t s ≡ true
  TransmitterStep-is_ready (TransmitterStep.pop_item n item e) = ap pop_returns e
  TransmitterStep-is_ready (TransmitterStep.fail_pop n item e) = ap pop_returns e
  TransmitterStep-is_ready st = ground arith

  -- A thread that is ready takes a step.
  module _ (i : ℕ) (m : FirmwareMetrics) (s : State) (out : List Printk) where
    abbrev at : MainThread → ProducerThread → TransmitterThread → System k
    at g p t = record {
      main = g;
      producer = p;
      transmitter = t;
      next_index = i;
      metrics = m;
      queue = s;
      output = out;
    }

    abbrev Advances : MainThread → ProducerThread → TransmitterThread → Type 0
    Advances g p t = (z : System k) × Step k (at g p t) z

    main_Advances :
        (g : MainThread) (p : ProducerThread) (t : TransmitterThread)
        → main_is_ready g p t ≡ true
        → Advances g p t
    main_Advances MainThread.creating_transmitter p TransmitterThread.not_started h =
        (_, Step.main_step MainStep.create_transmitter)
    main_Advances MainThread.creating_producer ProducerThread.not_started t h =
        (_, Step.main_step MainStep.create_producer)
    main_Advances MainThread.taking_producer (ProducerThread.finished ok) t h =
        (_, Step.main_step (MainStep.take_producer ok))
    main_Advances MainThread.taking_transmitter p (TransmitterThread.finished ok) h =
        (_, Step.main_step (MainStep.take_transmitter ok))
    main_Advances MainThread.concluding (ProducerThread.finished p_ok)
          (TransmitterThread.finished t_ok) h =
        (_, Step.main_step (MainStep.conclude p_ok t_ok))
    main_Advances _ _ _ h = absurd (cc h)

    producer_Advances :
        (g : MainThread) (p : ProducerThread) (t : TransmitterThread)
        → ProducerMove k p i m s
        → (producer_is_ready k p s ≡ false) ⊎ Advances g p t
    producer_Advances g p t (ProducerMove.moves st) = inr (_, Step.producer_step st)
    producer_Advances g p t (ProducerMove.waits idle full) = inl idle
    producer_Advances g p t (ProducerMove.unstarted e) = inl (ap (λ q. producer_is_ready k q s) e)
    producer_Advances g p t (ProducerMove.done ok e) = inl (ap (λ q. producer_is_ready k q s) e)

    transmitter_Advances :
        (g : MainThread) (p : ProducerThread) (t : TransmitterThread)
        → TransmitterMove k t m s out
        → (transmitter_is_ready k t s ≡ false) ⊎ Advances g p t
    transmitter_Advances g p t (TransmitterMove.moves st) = inr (_, Step.transmitter_step st)
    transmitter_Advances g p t (TransmitterMove.waits n e idle none_) =
        inl (ap (λ q. transmitter_is_ready k q s) e ∙ idle)
    transmitter_Advances g p t (TransmitterMove.unstarted e) =
        inl (ap (λ q. transmitter_is_ready k q s) e)
    transmitter_Advances g p t (TransmitterMove.done ok e) =
        inl (ap (λ q. transmitter_is_ready k q s) e)

  -- No thread takes a step, for ever.
  abbrev pub IsStuck : System k → Type 0
  IsStuck y = (z : System k) → ¬ Step k y z

  unready-IsStuck :
      (y : System k)
      → main_is_ready y.main y.producer y.transmitter ≡ false
      → producer_is_ready k y.producer y.queue ≡ false
      → transmitter_is_ready k y.transmitter y.queue ≡ false
      → IsStuck y
  unready-IsStuck y a b c z (Step.main_step st) = absurd (cc (a, MainStep-is_ready st))
  unready-IsStuck y a b c z (Step.producer_step st) = absurd (cc (b, ProducerStep-is_ready st))
  unready-IsStuck y a b c z (Step.transmitter_step st) =
      absurd (cc (c, TransmitterStep-is_ready st))

  pub IsStuck-or-Step : (y : System k) → IsStuck y ⊎ ((z : System k) × Step k y z)
  IsStuck-or-Step y = elim (Bool-cases (main_is_ready y.main y.producer y.transmitter)) [
    | inl h ↦ inr (main_Advances i m s out y.main y.producer y.transmitter h)
    | inr a ↦
        elim (producer_Advances i m s out y.main y.producer y.transmitter
          (producer_move k i m s y.producer)) [
            | inr next ↦ inr next
            | inl b ↦
                elim (transmitter_Advances i m s out y.main y.producer y.transmitter
                  (transmitter_move k m s out y.transmitter)) [
                    | inr next ↦ inr next
                    | inl c ↦ inl (unready-IsStuck y a b c)
                  ]
          ]
  ]
    where
      i : ℕ
      i = y.next_index

      m : FirmwareMetrics
      m = y.metrics

      s : State
      s = y.queue

      out : List Printk
      out = y.output

-- ===== src/Firmware/Main/Progress.antt =====
-- Which of the firmware's threads can go on in a reachable state, and what every run comes to
-- (main.cpp).
use cpp_embedded_telemetry_l.Common.{
  ℕ, ◌≤◌, ◌≡◌, refl, sym, ◌∙◌, ap, subst, arith, Bool, true, List, [], ◌∷◌, ◌++◌, length, ◌⊎◌, inl,
  inr,
}
use cpp_embedded_telemetry_l.Common.Inevitable.{Inevitably, inevitable}
use cpp_embedded_telemetry_l.Firmware.Metrics.{FirmwareMetrics}
use cpp_embedded_telemetry_l.Firmware.MessageQueue.{MessageQueue}
use cpp_embedded_telemetry_l.Firmware.Queue.{TelemetryQueueItem, telemetry_queue_capacity}
use cpp_embedded_telemetry_l.Firmware.Producer.{ProducerThread}
use cpp_embedded_telemetry_l.Firmware.Transmitter.{Printk, TransmitterThread}
use cpp_embedded_telemetry_l.Firmware.Main.{MainThread, MainStep, System, Step, Reach, start}
use cpp_embedded_telemetry_l.Firmware.Main.Stream.{pending, to_push}
use cpp_embedded_telemetry_l.Firmware.Main.Conditions.{program_output, Tail}
use cpp_embedded_telemetry_l.Firmware.Main.Moves.{CallFailed}
use cpp_embedded_telemetry_l.Firmware.Main.Outcome.{Reach-Inv, exited_code}
use cpp_embedded_telemetry_l.Firmware.Main.Places.{
  Started, Reach-Started, Reach-capacity, producer_started, transmitter_started,
}
use cpp_embedded_telemetry_l.Firmware.Main.Waits.{
  ProducerMove, TransmitterMove, producer_move, transmitter_move,
}
use cpp_embedded_telemetry_l.Firmware.Main.Work.{work, Step-work, Run}

-- Once the transmitter is through the queue is empty.
drained :
    (p : ProducerThread) (i : ℕ) (items : List TelemetryQueueItem)
    → items ++ to_push p i ≡ []
    → items ≡ []
drained p i [] e = refl
drained p i (x ∷ items) e = absurd (cc e)

module _ (k : MessageQueue TelemetryQueueItem) where
  open k use {State, contents, capacity}

  module _ (i : ℕ) (m : FirmwareMetrics) (s : State) (out : List Printk) where
    abbrev at : MainThread → ProducerThread → TransmitterThread → System k
    at g p t = record {
      main = g;
      producer = p;
      transmitter = t;
      next_index = i;
      metrics = m;
      queue = s;
      output = out;
    }

    abbrev Advances : MainThread → ProducerThread → TransmitterThread → Type 0
    Advances g p t = (z : System k) × Step k (at g p t) z

    -- While the queue is full the transmitter can go on.
    full-Advances :
        (g : MainThread) (p : ProducerThread) (t : TransmitterThread)
        → Tail t (pending t (contents s) p i)
        → transmitter_started t ≡ true
        → 4 ≤ length (contents s)
        → TransmitterMove k t m s out
        → Advances g p t
    full-Advances g p t h started full (TransmitterMove.moves st) = (_, Step.transmitter_step st)
    full-Advances g p t h started full (TransmitterMove.waits n e idle d) =
        absurd (omega (arith, ap length d))
    full-Advances g p t h started full (TransmitterMove.unstarted e) =
        absurd (cc (started, ap transmitter_started e))
    full-Advances g p t h started full (TransmitterMove.done ok e) =
        let tail = subst (λ x. Tail x (pending x (contents s) p i)) e h in
        absurd (omega (arith, ap length (drained p i (contents s) tail.1)))

    -- `main` waits for the producer.
    producer-Advances :
        (p : ProducerThread) (t : TransmitterThread)
        → Tail t (pending t (contents s) p i)
        → Started MainThread.taking_producer p t
        → capacity s ≡ telemetry_queue_capacity
        → ProducerMove k p i m s
        → Advances MainThread.taking_producer p t
    producer-Advances p t h started bound (ProducerMove.moves st) = (_, Step.producer_step st)
    producer-Advances p t h started bound (ProducerMove.waits idle full) =
        full-Advances MainThread.taking_producer p t h started.1 (omega (arith, bound))
          (transmitter_move k m s out t)
    producer-Advances p t h started bound (ProducerMove.unstarted e) =
        absurd (cc (started.0, ap producer_started e))
    producer-Advances p t h started bound (ProducerMove.done ok e) =
        subst (λ x. Advances MainThread.taking_producer x t) (sym e)
          (_, Step.main_step (MainStep.take_producer ok))

    -- `main` waits for the transmitter.
    transmitter-Advances :
        (p_ok : Bool) (t : TransmitterThread)
        → Tail t (pending t (contents s) (ProducerThread.finished p_ok) i)
        → transmitter_started t ≡ true
        → TransmitterMove k t m s out
        → Advances MainThread.taking_transmitter (ProducerThread.finished p_ok) t
    transmitter-Advances p_ok t h started (TransmitterMove.moves st) = (_, Step.transmitter_step st)
    transmitter-Advances p_ok t h started (TransmitterMove.waits n e idle d) =
        let tail =
          subst (λ x. Tail x (pending x (contents s) (ProducerThread.finished p_ok) i)) e h in
        absurd (subst (λ q. Tail (TransmitterThread.popping n) (q ++ [])) d tail)
    transmitter-Advances p_ok t h started (TransmitterMove.unstarted e) =
        absurd (cc (started, ap transmitter_started e))
    transmitter-Advances p_ok t h started (TransmitterMove.done ok e) =
        subst (λ x. Advances MainThread.taking_transmitter (ProducerThread.finished p_ok) x) (sym e)
          (_, Step.main_step (MainStep.take_transmitter ok))

    abbrev ExitsOrAdvances : MainThread → ProducerThread → TransmitterThread → Type 0
    ExitsOrAdvances g p t = ((code : ℕ) × (g ≡ MainThread.exited code)) ⊎ Advances g p t

    place-Advances :
        (g : MainThread) (p : ProducerThread) (t : TransmitterThread)
        → Tail t (pending t (contents s) p i)
        → Started g p t
        → capacity s ≡ telemetry_queue_capacity
        → ExitsOrAdvances g p t
    place-Advances MainThread.creating_transmitter p t h started bound = inr (
        subst (λ x. Advances MainThread.creating_transmitter p x) (sym started.1)
          (_, Step.main_step MainStep.create_transmitter))
    place-Advances MainThread.creating_producer p t h started bound = inr (
        subst (λ x. Advances MainThread.creating_producer x t) (sym started.0)
          (_, Step.main_step MainStep.create_producer))
    place-Advances MainThread.taking_producer p t h started bound =
        inr (producer-Advances p t h started bound (producer_move k i m s p))
    place-Advances MainThread.taking_transmitter p t h ((ok, e), started) bound = inr (
        subst (λ x. Advances MainThread.taking_transmitter x t) (sym e)
          (transmitter-Advances ok t (subst (λ x. Tail t (pending t (contents s) x i)) e h) started
            (transmitter_move k m s out t)))
    place-Advances MainThread.concluding p t h ((p_ok, e), (t_ok, d)) bound = inr (
        subst (λ x. Advances MainThread.concluding x t) (sym e)
          (subst (λ x. Advances MainThread.concluding (ProducerThread.finished p_ok) x) (sym d)
            (_, Step.main_step (MainStep.conclude p_ok t_ok))))
    place-Advances (MainThread.exited code) p t h started bound = inl (code, refl)

  module _ (reliable : ¬ CallFailed k) where
    -- If no call on the queue fails, a reachable state has exited or some thread can take a step.
    pub thread_can-Step :
        (y : System k)
        → Reach k (start k) y
        → ((code : ℕ) × (y.main ≡ MainThread.exited code)) ⊎ ((z : System k) × Step k y z)
    thread_can-Step y r = elim (Reach-Inv k r) [
      | inl h ↦
          place-Advances y.next_index y.metrics y.queue y.output y.main y.producer y.transmitter
            h.tail (Reach-Started k r) (Reach-capacity k r)
      | inr (c, h) ↦ absurd (reliable c)
    ]

    abbrev pub Completed : System k → Type 0
    Completed z = (z.main ≡ MainThread.exited 0) × (z.output ≡ program_output)

    exited_or_step :
        (y : System k) → Reach k (start k) y → Completed y ⊎ ((z : System k) × Step k y z)
    exited_or_step y r = elim (thread_can-Step y r) [
      | inl (code, e) ↦
          let (zero_, printed) = exited_code k reliable y r code e in
          inl (e ∙ ap MainThread.exited zero_, printed)
      | inr next ↦ inr next
    ]

    -- If no call on the queue fails, every run from a reachable state comes to the exit with 0, by
    -- which the whole output has been printed, whichever thread takes each step.
    pub firmware-Completes : (y : System k) → Reach k (start k) y → Inevitably (Step k) Completed y
    firmware-Completes y r =
        inevitable (Step k) Completed (Reach k (start k)) (work k)
          (λ x z st h. Reach.then_step h st) (λ x z st. Step-work k st) exited_or_step y r

    Run-Completed :
        {y z : System k} {n : ℕ}
        → Run k y n z
        → Inevitably (Step k) Completed z
        → (m : ℕ) × (w : System k) × Run k y m w × Completed w
    Run-Completed {n} run (Inevitably.now c) = (n, _, run, c)
    Run-Completed run (Inevitably.later w st f) = Run-Completed (Run.more run st) (f w st)

    -- So there is such a run.
    pub Completed-Run :
        (y : System k) → Reach k (start k) y → (n : ℕ) × (z : System k) × Run k y n z × Completed z
    Completed-Run y r = Run-Completed Run.none (firmware-Completes y r)

-- ===== src/Firmware/Main/Conclusion.antt =====
-- How the firmware's output ends (main.cpp).
use cpp_embedded_telemetry_l.Common.{
  ℕ, ◌≡◌, ◌≢◌, refl, ap, subst, arith, Bool, true, false, List, ◌++◌, ◌⊎◌, inl, inr,
}
use cpp_embedded_telemetry_l.Firmware.Metrics.{FirmwareMetrics, metrics_snapshot}
use cpp_embedded_telemetry_l.Firmware.MessageQueue.{MessageQueue}
use cpp_embedded_telemetry_l.Firmware.Queue.{TelemetryQueueItem}
use cpp_embedded_telemetry_l.Firmware.Producer.{ProducerThread}
use cpp_embedded_telemetry_l.Firmware.Transmitter.{Printk, TransmitterThread}
use cpp_embedded_telemetry_l.Firmware.Main.{
  MainThread, MainStep, System, Step, Reach, start, conclusion, exit_code, has_succeeded,
}
use cpp_embedded_telemetry_l.Firmware.Main.Conditions.{Prints, Unsuccessful, program_output}
use cpp_embedded_telemetry_l.Firmware.Main.Stream.{pending, transmission_index}
use cpp_embedded_telemetry_l.Firmware.Main.Moves.{CallFailed}
use cpp_embedded_telemetry_l.Firmware.Main.Outcome.{Reach-Inv}
use cpp_embedded_telemetry_l.Firmware.Main.Places.{
  Started, Reach-Started, ProducerStep-places, TransmitterStep-places, producer_runs,
  transmitter_runs,
}

abbrev Concluded : MainThread → FirmwareMetrics → List Printk → Type 0
Concluded (MainThread.exited code) m out =
    (succeeded : Bool) × (before : List Printk) × (code ≡ exit_code succeeded)
    × (out ≡ before ++ conclusion succeeded (metrics_snapshot m))
Concluded _ m out = Unit

-- A thread that runs has not been waited for.
other_Concluded :
    (g : MainThread) (m : FirmwareMetrics) (out : List Printk)
    → ((code : ℕ) → g ≢ MainThread.exited code)
    → Concluded g m out
other_Concluded MainThread.creating_transmitter m out h = tt
other_Concluded MainThread.creating_producer m out h = tt
other_Concluded MainThread.taking_producer m out h = tt
other_Concluded MainThread.taking_transmitter m out h = tt
other_Concluded MainThread.concluding m out h = tt
other_Concluded (MainThread.exited code) m out h = absurd (h code refl)

producer_waited :
    (g : MainThread) (p : ProducerThread) (t : TransmitterThread) (code : ℕ)
    → producer_runs p ≡ true
    → Started g p t
    → g ≢ MainThread.exited code
producer_waited g p t code r h e =
    let ((ok, d), u) = subst (λ x. Started x p t) e h in absurd (cc (r, ap producer_runs d))

transmitter_waited :
    (g : MainThread) (p : ProducerThread) (t : TransmitterThread) (code : ℕ)
    → transmitter_runs t ≡ true
    → Started g p t
    → g ≢ MainThread.exited code
transmitter_waited g p t code r h e =
    let (u, (ok, d)) = subst (λ x. Started x p t) e h in absurd (cc (r, ap transmitter_runs d))

module _ (k : MessageQueue TelemetryQueueItem) where
  open k use {State, contents}

  MainStep-Concluded :
      {m : FirmwareMetrics} {s : State} {out : List Printk} {g : MainThread} {p : ProducerThread}
      {t : TransmitterThread} {g' : MainThread} {p' : ProducerThread} {t' : TransmitterThread}
      {out' : List Printk}
      → MainStep k m s out g p t g' p' t' out'
      → Concluded g' m out'
  MainStep-Concluded MainStep.create_transmitter = tt
  MainStep-Concluded MainStep.create_producer = tt
  MainStep-Concluded (MainStep.take_producer ok) = tt
  MainStep-Concluded (MainStep.take_transmitter ok) = tt
  MainStep-Concluded {m} {s} {out} (MainStep.conclude p_ok t_ok) =
      (has_succeeded k p_ok t_ok (metrics_snapshot m) s, out, refl, refl)

  Reach-Concluded : {y : System k} → Reach k (start k) y → Concluded y.main y.metrics y.output
  unfolding start
  Reach-Concluded Reach.here = tt
  Reach-Concluded (Reach.then_step r (Step.main_step st)) = MainStep-Concluded st
  Reach-Concluded (Reach.then_step {z} r (Step.producer_step {m} st)) =
      other_Concluded z.main m z.output (λ code.
        producer_waited z.main z.producer z.transmitter code ((ProducerStep-places k st).0)
          (Reach-Started k r))
  Reach-Concluded (Reach.then_step {z} r (Step.transmitter_step {m} {out} st)) =
      other_Concluded z.main m out (λ code.
        transmitter_waited z.main z.producer z.transmitter code ((TransmitterStep-places k st).0)
          (Reach-Started k r))

  ended_by :
      (code : ℕ) (m : FirmwareMetrics) (out : List Printk)
      → Concluded (MainThread.exited code) m out
      → code ≡ 1
      → (before : List Printk) × (out ≡ before ++ conclusion false (metrics_snapshot m))
  ended_by code m out (true, before, c, e) one = absurd (omega (arith, c, one))
  ended_by code m out (false, before, c, e) one = (before, e)

  -- If the program exits, it has the code 0 and has printed the eight frames in order, the summary
  -- and the last line, and no more; or it has the code 1 and its last line is the one of `TLFIRMWARE
  -- ERROR` with the counters of that state, and then a call on the queue can fail. So it is in each
  -- interleaving.
  pub exited-Outcome :
      (y : System k)
      → Reach k (start k) y
      → (code : ℕ) → y.main ≡ MainThread.exited code
      → ((code ≡ 0) × (y.output ≡ program_output))
        ⊎ ((code ≡ 1)
            × CallFailed k
            × ((before : List Printk) × (y.output
                  ≡ before ++ conclusion false (metrics_snapshot y.metrics))))
  exited-Outcome y r code e = elim (Reach-Inv k r) [
    | inl h ↦ inl (
        subst
          (λ g.
            Prints g (transmission_index y.transmitter) y.output
              (pending y.transmitter (contents y.queue) y.producer y.next_index))
          e h.prints)
    | inr (c, (u, h)) ↦
        let one = subst Unsuccessful e u in
        inr (
          one,
          c,
          ended_by code y.metrics y.output
              (subst (λ g. Concluded g y.metrics y.output) e (Reach-Concluded r)) one,
        )
  ]

-- ===== src/Host/Pipeline/Progress.antt =====
-- Which thread can go on in a reachable state, and what every run comes to (main.cpp).
use cpp_embedded_telemetry_l.Common.{
  ℕ, ◌≤◌, ◌≡◌, sym, ◌∙◌, ap, subst, arith, Bool, false, List, [], length, All, ◌⊎◌, inl, inr,
}
use cpp_embedded_telemetry_l.Protocol.Types.{IsByte}
use cpp_embedded_telemetry_l.Host.Buffer.{ConcurrentBuffer}
use cpp_embedded_telemetry_l.Common.Inevitable.{Inevitably, inevitable}
use cpp_embedded_telemetry_l.Host.Ingestor.{copy_bytes}
use cpp_embedded_telemetry_l.Host.Metrics.{snapshot}
use cpp_embedded_telemetry_l.Host.Pipeline.{
  Exit, MainThread, MainStep, System, Step, Reach, main_result, queue_capacity,
}
use cpp_embedded_telemetry_l.Host.Pipeline.Forecast.{expected, IsCalm}
use cpp_embedded_telemetry_l.Host.Pipeline.Invariant.{Throws, Good, Ended, after_close}
use cpp_embedded_telemetry_l.Host.Pipeline.Outcome.{Reach-Inv, exited-expected}
use cpp_embedded_telemetry_l.Host.Pipeline.Work.{work, Step-work}
use cpp_embedded_telemetry_l.Host.Pipeline.Moves.{
  ConsumerMove, MainMove, consumer_move, main_move, Reach-capacity,
}

module _ (b : ConcurrentBuffer) where
  open b use {
    State, push, pop, contents, capacity, is_closed, push-blocked, push-pushed, push-refused,
    pop-blocked, pop-popped, pop-drained, close-capacity, create-capacity,
  }

  module _ (inputs : List (List ℕ)) (bytes : All (All IsByte) inputs)
      (quiet : ¬ Throws b inputs) where
    abbrev Progress : System b → Type 0
    Progress y = ((e : Exit) × (y.main ≡ MainThread.exited e)) ⊎ ((z : System b) × Step b y z)

    -- With a full queue, and while the main thread waits in `join`.
    full-Progress :
        (y : System b)
        → Good b inputs y.main y.consumer y.metrics y.buffer
        → capacity y.buffer ≡ queue_capacity
        → is_closed y.buffer ≡ false
        → capacity y.buffer ≤ length (contents y.buffer)
        → ConsumerMove b y.consumer y.metrics y.buffer
        → Progress y
    full-Progress y g k open_ full (ConsumerMove.moves st) = inr (_, Step.consumer_step st)
    full-Progress y g k open_ full (ConsumerMove.waits o e) = absurd (omega (arith, k, ap length e))
    full-Progress y g k open_ full (ConsumerMove.ended r e) =
        ground (arith, (subst (λ c. Ended b inputs c y.buffer) e g.ended).1)

    join-Progress :
        (y : System b) (ok : Bool)
        → Good b inputs y.main y.consumer y.metrics y.buffer
        → y.main ≡ MainThread.joining ok
        → ConsumerMove b y.consumer y.metrics y.buffer
        → Progress y
    join-Progress y ok g p (ConsumerMove.moves st) = inr (_, Step.consumer_step st)
    join-Progress y ok g p (ConsumerMove.waits o e) =
        ground (arith, g.closed ∙ ap (after_close b inputs) p)
    join-Progress y ok g p (ConsumerMove.ended r e) = inr (
      _,
      Step.main_step (
          subst
            (λ q.
              MainStep b y.consumer q y.metrics y.buffer
                (MainThread.exited (main_result ok r (snapshot y.metrics))) y.metrics y.buffer)
            (sym p) (MainStep.join_consumer ok r e)),
    )

    Good-Progress :
        (y : System b)
        → Good b inputs y.main y.consumer y.metrics y.buffer
        → capacity y.buffer ≡ queue_capacity
        → MainMove b y.consumer y.main y.metrics y.buffer
        → Progress y
    Good-Progress y g k (MainMove.moves st) = inr (_, Step.main_step st)
    Good-Progress y g k (MainMove.waits x rest p e) =
        let (open_, full) = push-blocked y.buffer (copy_bytes [] x) e in
        full-Progress y g k open_ full (consumer_move b y.consumer y.metrics y.buffer)
    Good-Progress y g k (MainMove.joins ok p) =
        join-Progress y ok g p (consumer_move b y.consumer y.metrics y.buffer)
    Good-Progress y g k (MainMove.unwinds p) = absurd (subst (IsCalm b) p g.calm)
    Good-Progress y g k (MainMove.done e p) = inl (e, p)

    -- If the inputs are bytes and no call on the queue throws, a reachable state has exited or can
    -- take a step: the two threads never wait for each other.
    pub progress : (y : System b) → Reach b inputs y → Progress y
    progress y r = elim (Reach-Inv b inputs bytes r) [
      | inl g ↦
          Good-Progress y g (Reach-capacity b r) (main_move b y.consumer y.main y.metrics y.buffer)
      | inr d ↦ absurd (quiet d.0)
    ]

    abbrev pub Completed : System b → Type 0
    Completed z = z.main ≡ MainThread.exited (Exit.reported (snapshot (expected inputs)))

    exited_or_step : (y : System b) → Reach b inputs y → Completed y ⊎ ((z : System b) × Step b y z)
    exited_or_step y r = elim (progress y r) [
      | inl (code, e) ↦
          inl (e ∙ ap MainThread.exited (exited-expected b inputs bytes quiet y r code e))
      | inr next ↦ inr next
    ]

    -- If the inputs are bytes and no call on the queue throws, every run from a reachable state
    -- comes to the report of the program with one thread, whichever thread takes each step.
    pub run-Completes : (y : System b) → Reach b inputs y → Inevitably (Step b) Completed y
    run-Completes y r =
        inevitable (Step b) Completed (Reach b inputs) (work b) (λ x z st h. Reach.next h st)
          (λ x z st. Step-work b st) exited_or_step y r

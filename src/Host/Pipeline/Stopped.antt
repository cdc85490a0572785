-- ===== src/Host/Pipeline/Stopped.antt =====
-- What becomes of the main thread when the consumer's thread has stopped before it (main.cpp,
-- telemetry_processor.cpp).
mod Examples
use cpp_embedded_telemetry_l.Common.{
  ℕ, suc, ◌+◌, ◌<◌, ◌≤◌, ◌≡◌, ◌≢◌, if◌then◌else◌, refl, sym, ◌∙◌, ap, subst, arith, Bool, true,
  false, List, [], ◌∷◌, length, length-append, ◌⊎◌, inl, inr,
}
use cpp_embedded_telemetry_l.Common.Inevitable.{Inevitably, inevitable}
use cpp_embedded_telemetry_l.Protocol.Deserializer.{has_value, deserialize}
use cpp_embedded_telemetry_l.Host.Buffer.{PushOutcome, ConcurrentBuffer}
use cpp_embedded_telemetry_l.Host.Metrics.{TelemetryMetrics}
use cpp_embedded_telemetry_l.Host.Ingestor.{copy_bytes}
use cpp_embedded_telemetry_l.Host.Processor.{ConsumerResult}
use cpp_embedded_telemetry_l.Host.Pipeline.{
  MainThread, ConsumerThread, MainStep, ConsumerStep, System, Step,
}
use cpp_embedded_telemetry_l.Host.Pipeline.Forecast.{valid_inputs, to_push}
use cpp_embedded_telemetry_l.Host.Pipeline.Moves.{MainMove, main_move}
use cpp_embedded_telemetry_l.Host.Pipeline.Work.{work, Step-work}

module _ (b : ConcurrentBuffer) where
  open b use {
    State, push, contents, capacity, is_closed, push-blocked, push-pushed, push-room, push-refused,
    pop-popped, pop-drained,
  }

  -- The queue is open, and its room is not enough for what the main thread has left to push.
  pub record Overfull (p : MainThread) (s : State) : Type 0 where
    pub is_open : is_closed s ≡ false
    pub within : length (contents s) ≤ capacity s
    pub beyond : capacity s < length (contents s) + length (to_push p)

  MainStep-Overfull :
      {c : ConsumerThread} {p : MainThread} {m : TelemetryMetrics} {s : State} {p' : MainThread}
      {m' : TelemetryMetrics} {s' : State}
      → ((x : List ℕ) → ¬ (push s x ≡ PushOutcome.throws))
      → MainStep b c p m s p' m' s'
      → Overfull p s
      → Overfull p' s'
  MainStep-Overfull quiet (MainStep.count_input x rest) h = record {
    is_open = h.is_open;
    within = h.within;
    beyond = h.beyond;
  }
  MainStep-Overfull {s} quiet (MainStep.reject_input x rest v) h = record {
    is_open = h.is_open;
    within = h.within;
    beyond =
        subst
          (λ v.
            capacity s
            < length (contents s) + length (if v then x ∷ valid_inputs rest else valid_inputs rest))
          v h.beyond;
  }
  MainStep-Overfull {s} quiet (MainStep.pass_input x rest v) h = record {
    is_open = h.is_open;
    within = h.within;
    beyond =
        subst
          (λ v.
            capacity s
            < length (contents s) + length (if v then x ∷ valid_inputs rest else valid_inputs rest))
          v h.beyond;
  }
  MainStep-Overfull {s} {s'} quiet (MainStep.push_input x rest e) h =
      let law = push-pushed s (copy_bytes [] x) s' e in
      let items = ap length law.1 ∙ length-append (contents s) (copy_bytes [] x ∷ []) in
      record {
        is_open = law.3;
        within = omega (arith, items, law.2, push-room s (copy_bytes [] x) s' e);
        beyond = omega (arith, items, law.2, h.beyond);
      }
  MainStep-Overfull {s} {s'} quiet (MainStep.push_refused x rest e) h =
      ground (arith, (push-refused s (copy_bytes [] x) s' e).0, h.is_open)
  MainStep-Overfull quiet (MainStep.push_throws x rest e) h = absurd (quiet (copy_bytes [] x) e)
  MainStep-Overfull quiet (MainStep.count_accepted rest) h = record {
    is_open = h.is_open;
    within = h.within;
    beyond = h.beyond;
  }
  MainStep-Overfull quiet st h = absurd (omega (arith, h.within, h.beyond))

  -- A thread that has stopped takes no step, nor does a `push` that waits.
  abbrev IsRunning : ConsumerThread → Type 0
  IsRunning (ConsumerThread.popping n) = Unit
  IsRunning (ConsumerThread.holding x n) = Unit
  IsRunning (ConsumerThread.stopped r) = ⊥

  ConsumerStep-IsRunning :
      {c : ConsumerThread} {m : TelemetryMetrics} {s : State} {c' : ConsumerThread}
      {m' : TelemetryMetrics} {s' : State}
      → ConsumerStep b c m s c' m' s'
      → IsRunning c
  ConsumerStep-IsRunning (ConsumerStep.pop_item x n e) = tt
  ConsumerStep-IsRunning (ConsumerStep.pop_end n e) = tt
  ConsumerStep-IsRunning (ConsumerStep.pop_throws n e) = tt
  ConsumerStep-IsRunning (ConsumerStep.process_item x n e) = tt
  ConsumerStep-IsRunning (ConsumerStep.fail_item x n e) = tt

  abbrev Unblocked : State → MainThread → Type 0
  Unblocked s (MainThread.pushing x rest) = push s (copy_bytes [] x) ≢ PushOutcome.blocked
  Unblocked s _ = Unit

  MainStep-Unblocked :
      {c : ConsumerThread} {p : MainThread} {m : TelemetryMetrics} {s : State} {p' : MainThread}
      {m' : TelemetryMetrics} {s' : State}
      → MainStep b c p m s p' m' s'
      → Unblocked s p
  MainStep-Unblocked (MainStep.push_input x rest e) = λ blocked. cc
  MainStep-Unblocked (MainStep.push_refused x rest e) = λ blocked. cc
  MainStep-Unblocked (MainStep.push_throws x rest e) = λ blocked. cc
  MainStep-Unblocked st = tt

  -- The main thread waits in `push`, and no thread takes a step.
  abbrev pub IsHung : System b → Type 0
  IsHung z =
      ((x : List ℕ) × (rest : List (List ℕ)) × (z.main ≡ MainThread.pushing x rest))
      × ((w : System b) → ¬ Step b z w)

  blocked-IsHung :
      (y : System b) (r : ConsumerResult) (x : List ℕ) (rest : List (List ℕ))
      → y.consumer ≡ ConsumerThread.stopped r
      → y.main ≡ MainThread.pushing x rest
      → push y.buffer (copy_bytes [] x) ≡ PushOutcome.blocked
      → (w : System b) → ¬ Step b y w
  blocked-IsHung y r x rest c p e w (Step.main_step st) =
      subst (Unblocked y.buffer) p (MainStep-Unblocked st) e
  blocked-IsHung y r x rest c p e w (Step.consumer_step st) =
      subst IsRunning c (ConsumerStep-IsRunning st)

  nothing_to_push : {p q : MainThread} {s : State} → p ≡ q → Overfull p s → length (to_push q) ≢ 0
  nothing_to_push {p} {q} {s} e h none =
      omega (arith, h.within, h.beyond, ap (λ p. length (to_push p)) e, none)

  module _ (never : (s : State) (x : List ℕ) → ¬ (push s x ≡ PushOutcome.throws))
      (r : ConsumerResult) where
    Left : System b → Type 0
    Left y = (y.consumer ≡ ConsumerThread.stopped r) × Overfull y.main y.buffer

    Step-Left : (y z : System b) → Step b y z → Left y → Left z
    unfolding Left
    Step-Left y z (Step.main_step st) (e, h) = (e, MainStep-Overfull (never y.buffer) st h)
    Step-Left y z (Step.consumer_step st) (e, h) =
        absurd (subst IsRunning e (ConsumerStep-IsRunning st))

    IsHung-or_step : (y : System b) → Left y → IsHung y ⊎ ((z : System b) × Step b y z)
    unfolding Left
    IsHung-or_step y (e, h) = elim (main_move b y.consumer y.main y.metrics y.buffer) [
      | MainMove.moves st ↦ inr (_, Step.main_step st)
      | MainMove.waits x rest p blocked ↦ inl ((x, rest, p), blocked-IsHung y r x rest e p blocked)
      | MainMove.joins ok p ↦ absurd (nothing_to_push p h refl)
      | MainMove.unwinds p ↦ absurd (nothing_to_push p h refl)
      | MainMove.done code p ↦ absurd (nothing_to_push p h refl)
    ]

    -- If the consumer has stopped before the main thread, the queue is open and within its bound,
    -- what the main thread has left to push is more than its room, and `push` never throws, then
    -- every run comes to a state that no thread leaves, in which the main thread waits in `push`:
    -- the program does not exit.
    pub stopped_consumer-IsHung :
        (y : System b)
        → y.consumer ≡ ConsumerThread.stopped r
        → Overfull y.main y.buffer
        → Inevitably (Step b) IsHung y
    unfolding Left
    stopped_consumer-IsHung y e h =
        inevitable (Step b) IsHung Left (work b) Step-Left (λ x z st. Step-work b st) IsHung-or_step
          y (e, h)

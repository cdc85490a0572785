-- ===== src/Host/Pipeline/Outcome.antt =====
-- The consumer keeps the invariant, and what a run of the program reports (main.cpp).
use cpp_embedded_telemetry_l.Common.{
  ℕ, ◌≡◌, ◌≢◌, refl, sym, ap, ◌∙◌, subst, arith, Bool, true, false, List, ◌++◌, All, ◌⊎◌, inl, inr,
}
use cpp_embedded_telemetry_l.Protocol.Types.{IsByte}
use cpp_embedded_telemetry_l.Protocol.Deserializer.{read_frame}
use cpp_embedded_telemetry_l.Host.Metrics.{
  TelemetryMetricsSnapshot, TelemetryMetrics, initial, snapshot,
}
use cpp_embedded_telemetry_l.Host.Metrics.Frames.{record_processed-atomic}
use cpp_embedded_telemetry_l.Host.Buffer.{ConcurrentBuffer}
use cpp_embedded_telemetry_l.Host.Processor.{ConsumerResult, ItemOutcome}
use cpp_embedded_telemetry_l.Host.Processor.Drain.{
  IsItem, consume_item-IsItem, process_all, count_all,
}
use cpp_embedded_telemetry_l.Host.Pipeline.{
  caught, Exit, MainThread, ConsumerThread, MainStep, ConsumerStep, System, Step, Reach, start,
  main_result,
}
use cpp_embedded_telemetry_l.Host.Pipeline.Forecast.{
  expected, rest_metrics, rest_metrics-processed, to_push, pop-pending,
}
use cpp_embedded_telemetry_l.Host.Pipeline.Invariant.{
  Throws, Good, Running, Unreported, Failed, Unwinds, Stands, Doomed, Inv, start-Good, MainStep-Inv,
}

ItemOutcome-inj :
    {m m' : TelemetryMetrics} → ItemOutcome.consumed m ≡ ItemOutcome.consumed m' → m ≡ m'
ItemOutcome-inj e = cc e

reported-inj : {x y : TelemetryMetricsSnapshot} → Exit.reported x ≡ Exit.reported y → x ≡ y
reported-inj e = cc e

failed-ne_consumed : {m : TelemetryMetrics} → ItemOutcome.failed ≢ ItemOutcome.consumed m
failed-ne_consumed e = cc e

module _ (b : ConcurrentBuffer) (inputs : List (List ℕ)) where
  open b use {State, push, pop, contents, is_closed, pop-popped, pop-drained}

  Running-busy : (p : MainThread) → Running b inputs p ⊎ ⊥ → Running b inputs p
  Running-busy p (inl h) = h
  Running-busy p (inr h) = absurd h

  Unreported-Running : (p : MainThread) → Running b inputs p → Unreported b inputs p
  Unreported-Running (MainThread.exited (Exit.reported snap)) h = h
  Unreported-Running _ h = ground arith

  ConsumerStep-Inv :
      {p : MainThread} {c : ConsumerThread} {m : TelemetryMetrics} {s : State} {c' : ConsumerThread}
      {m' : TelemetryMetrics} {s' : State}
      → Good b inputs p c m s
      → ConsumerStep b c m s c' m' s'
      → Good b inputs p c' m' s' ⊎ Doomed b inputs p c'
  ConsumerStep-Inv {p} {s} {s'} g (ConsumerStep.pop_item x n e) =
      let flow = pop-pending b x n p e in
      inl (record {
        calm = g.calm;
        stands = g.stands;
        joined = inl (Running-busy p g.joined);
        closed = (pop-popped s x s' e).2 ∙ g.closed;
        ended = tt;
        items = subst (All IsItem) flow g.items;
        forecast = ap (process_all _) (sym flow) ∙ g.forecast;
        counts = ap (count_all n) (sym flow) ∙ g.counts;
      })
  ConsumerStep-Inv {p} {s} {s'} g (ConsumerStep.pop_end n e) =
      let law = pop-drained s s' e in
      let flow = ap (λ q. q ++ to_push p) (law.1 ∙ sym law.2) in
      inl (record {
        calm = g.calm;
        stands = g.stands;
        joined = inr tt;
        closed = law.3 ∙ sym law.0 ∙ g.closed;
        ended = (refl, law.3, law.2);
        items = subst (All IsItem) flow g.items;
        forecast = ap (process_all _) (sym flow) ∙ g.forecast;
        counts = ap (count_all n) (sym flow) ∙ g.counts;
      })
  ConsumerStep-Inv {p} {s} g (ConsumerStep.pop_throws n e) =
      inr (inr (s, e), inr (refl, Unreported-Running p (Running-busy p g.joined)))
  ConsumerStep-Inv {p} {m} {s} {m'} g (ConsumerStep.process_item x n e) =
      let f = read_frame x in
      let same = ItemOutcome-inj (sym e ∙ consume_item-IsItem m x g.items.0) in
      let moved = ap (rest_metrics p) same ∙ rest_metrics-processed p m f in
      inl (record {
        calm = g.calm;
        stands = g.stands;
        joined = inl (Running-busy p g.joined);
        closed = g.closed;
        ended = tt;
        items = g.items.1;
        forecast = ap (λ k. process_all k (contents s ++ to_push p)) moved ∙ g.forecast;
        counts =
            g.counts
            ∙ sym (
                ap (λ k. k.frames_accepted) moved
                ∙ ap (λ k. k.frames_accepted) (record_processed-atomic (rest_metrics p m) f));
      })
  ConsumerStep-Inv {m} g (ConsumerStep.fail_item x n e) =
      absurd (failed-ne_consumed (sym e ∙ consume_item-IsItem m x g.items.0))

  failed-Unreported :
      (ok : Bool) (r : ConsumerResult) (m : TelemetryMetrics)
      → r.success ≡ false
      → Unreported b inputs (MainThread.exited (main_result ok r (snapshot m)))
  unfolding main_result
  failed-Unreported ok r m h = ground arith

  MainStep-Doomed :
      {c : ConsumerThread} {p : MainThread} {m : TelemetryMetrics} {s : State} {p' : MainThread}
      {m' : TelemetryMetrics} {s' : State}
      → Unwinds b inputs p ⊎ (Failed b inputs c × Unreported b inputs p)
      → MainStep b c p m s p' m' s'
      → Unwinds b inputs p' ⊎ (Failed b inputs c × Unreported b inputs p')
  unfolding caught
  MainStep-Doomed {m} (inr (h, u)) (MainStep.join_consumer ok r e) =
      inr (h, failed-Unreported ok r m (subst (Failed b inputs) e h))
  MainStep-Doomed (inl h) (MainStep.join_consumer ok r e) = absurd h
  MainStep-Doomed (inl h) MainStep.unwind_close = inl tt
  MainStep-Doomed (inl h) (MainStep.unwind_join true r e) = inl tt
  MainStep-Doomed (inl h) (MainStep.unwind_join false r e) = inl tt
  MainStep-Doomed h st = ground arith

  ConsumerStep-Doomed :
      (p : MainThread) {c : ConsumerThread} {m : TelemetryMetrics} {s : State} {c' : ConsumerThread}
      {m' : TelemetryMetrics} {s' : State}
      → Unwinds b inputs p ⊎ (Failed b inputs c × Unreported b inputs p)
      → ConsumerStep b c m s c' m' s'
      → Unwinds b inputs p ⊎ (Failed b inputs c' × Unreported b inputs p)
  ConsumerStep-Doomed p (inl h) st = inl h
  ConsumerStep-Doomed p (inr (h, u)) (ConsumerStep.pop_item x n e) = absurd h
  ConsumerStep-Doomed p (inr (h, u)) (ConsumerStep.pop_end n e) = absurd h
  ConsumerStep-Doomed p (inr (h, u)) (ConsumerStep.pop_throws n e) = absurd h
  ConsumerStep-Doomed p (inr (h, u)) (ConsumerStep.process_item x n e) = absurd h
  ConsumerStep-Doomed p (inr (h, u)) (ConsumerStep.fail_item x n e) = absurd h

  Step-Inv :
      {y z : System b}
      → Inv b inputs y.main y.consumer y.metrics y.buffer
      → Step b y z
      → Inv b inputs z.main z.consumer z.metrics z.buffer
  Step-Inv (inl g) (Step.main_step st) = MainStep-Inv b inputs g st
  Step-Inv (inl g) (Step.consumer_step st) = ConsumerStep-Inv g st
  Step-Inv (inr d) (Step.main_step st) = inr (d.0, MainStep-Doomed d.1 st)
  Step-Inv (inr d) (Step.consumer_step st) = inr (d.0, ConsumerStep-Doomed _ d.1 st)

  pub Reach-Inv :
      All (All IsByte) inputs
      → {y : System b} → Reach b inputs y
      → Inv b inputs y.main y.consumer y.metrics y.buffer
  unfolding start initial
  Reach-Inv h Reach.here = inl (start-Good b inputs h)
  Reach-Inv h (Reach.next r st) = Step-Inv (Reach-Inv h r) st

  Doomed-reported :
      (p : MainThread) (c : ConsumerThread) {snap : TelemetryMetricsSnapshot}
      → Doomed b inputs p c
      → p ≢ MainThread.exited (Exit.reported snap)
  Doomed-reported p c (_, inl h) e = subst (Unwinds b inputs) e h
  Doomed-reported p c (_, inr (h, u)) e = subst (Unreported b inputs) e u

  -- If the inputs are bytes and a run exits with a report, in whatever order the steps come and
  -- whether or not calls on the queue throw, it is the report of the program with one thread.
  pub reported-expected :
      All (All IsByte) inputs
      → (y : System b) → Reach b inputs y
      → (snap : TelemetryMetricsSnapshot) → y.main ≡ MainThread.exited (Exit.reported snap)
      → snap ≡ snapshot (expected inputs)
  reported-expected h y r snap e = elim (Reach-Inv h r) [
    | inl g ↦ reported-inj (subst (Stands b inputs) e g.stands)
    | inr d ↦ absurd (Doomed-reported y.main y.consumer d e)
  ]

  -- If the inputs are bytes and no call on the queue throws, a run can only exit with the report of
  -- the program with one thread.
  pub exited-expected :
      All (All IsByte) inputs
      → ¬ Throws b inputs
      → (y : System b) → Reach b inputs y
      → (e : Exit) → y.main ≡ MainThread.exited e
      → e ≡ Exit.reported (snapshot (expected inputs))
  exited-expected h quiet y r e q = elim (Reach-Inv h r) [
    | inl g ↦ subst (Stands b inputs) q g.stands
    | inr d ↦ absurd (quiet d.0)
  ]

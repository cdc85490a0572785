-- ===== src/Host/Pipeline/Invariant.antt =====
-- The invariant of the two threads, and that the main thread keeps it (main.cpp).
use mathlib.Core.List.{append-nil}
use cpp_embedded_telemetry_l.Common.{
  ℕ, ◌≡◌, refl, sym, ap, ap₂, ◌∙◌, subst, arith, Bool, true, false, List, [], ◌∷◌, ◌++◌, All,
  All-append_right, ◌⊎◌, inl, inr, if◌then◌else◌,
}
use cpp_embedded_telemetry_l.Protocol.Types.{IsByte}
use cpp_embedded_telemetry_l.Protocol.Deserializer.{has_value, deserialize}
use cpp_embedded_telemetry_l.Host.Metrics.{
  TelemetryMetrics, initial, snapshot, record_input, record_accepted, record_parse_rejected,
}
use cpp_embedded_telemetry_l.Host.Metrics.Threads.{
  record_parse_rejected-accepted, record_accepted-accepted,
}
use cpp_embedded_telemetry_l.Host.Buffer.{PushOutcome, PopOutcome, ConcurrentBuffer}
use cpp_embedded_telemetry_l.Host.Ingestor.{copy_bytes}
use cpp_embedded_telemetry_l.Host.Processor.{ConsumerResult}
use cpp_embedded_telemetry_l.Host.Processor.Drain.{IsItem, process_all, count_all}
use cpp_embedded_telemetry_l.Host.Pipeline.{
  Exit, MainThread, ConsumerThread, MainStep, main_result, queue_capacity,
}
use cpp_embedded_telemetry_l.Host.Pipeline.Forecast.{
  valid_inputs, valid_inputs-IsItem, ingest_all, expected, rest_metrics, to_push, in_hand,
  consumed_count, pending, IsCalm, MainStep-rest_metrics, MainStep-pending,
}

count_all-valid :
    (m : TelemetryMetrics) (xs : List (List ℕ))
    → count_all m.frames_accepted (valid_inputs xs) ≡ (ingest_all m xs).frames_accepted
count_all-valid m [] = refl
count_all-valid m (x ∷ xs) =
    elim (has_value (deserialize x))
      as (λ v.
        count_all m.frames_accepted (if v then x ∷ valid_inputs xs else valid_inputs xs)
        ≡ (ingest_all
            (if v
              then record_accepted (record_input m)
              else record_parse_rejected (record_input m) (deserialize x).error)
            xs).frames_accepted) [
              | true ↦
                  ap (λ n. count_all n (valid_inputs xs)) (sym (record_accepted-accepted m))
                  ∙ count_all-valid (record_accepted (record_input m)) xs
              | false ↦
                  ap (λ n. count_all n (valid_inputs xs))
                    (sym (record_parse_rejected-accepted m (deserialize x).error))
                  ∙ count_all-valid (record_parse_rejected (record_input m) (deserialize x).error)
                      xs
            ]

module _ (b : ConcurrentBuffer) (inputs : List (List ℕ)) where
  open b use {
    State, push, pop, close, create, contents, is_closed, push-pushed, push-refused, pop-popped,
    pop-drained, close-contents, close-is_closed, create-contents, create-is_closed,
  }

  -- Some call on the queue throws.
  abbrev pub Throws : Type 0
  Throws =
      ((s : State) × (x : List ℕ) × (push s x ≡ PushOutcome.throws))
      ⊎ ((s : State) × (pop s ≡ PopOutcome.throws))

  -- The queue is closed after the main thread's loop, by the main thread.
  abbrev pub after_close : MainThread → Bool
  after_close (MainThread.joining ok) = true
  after_close (MainThread.exited e) = true
  after_close _ = false

  abbrev pub Stands : MainThread → Type 0
  Stands (MainThread.closing ok) = ok ≡ true
  Stands (MainThread.joining ok) = ok ≡ true
  Stands (MainThread.exited e) = e ≡ Exit.reported (snapshot (expected inputs))
  Stands _ = Unit

  abbrev pub Ended : ConsumerThread → State → Type 0
  Ended (ConsumerThread.stopped r) s = (r.success ≡ true) × (is_closed s ≡ true) × (contents s ≡ [])
  Ended _ s = Unit

  -- The main thread exits only after the consumer has stopped.
  abbrev pub Running : MainThread → Type 0
  Running (MainThread.exited e) = ⊥
  Running _ = Unit

  abbrev pub IsStopped : ConsumerThread → Type 0
  IsStopped (ConsumerThread.stopped r) = Unit
  IsStopped _ = ⊥

  pub record Good (p : MainThread) (c : ConsumerThread) (m : TelemetryMetrics) (s : State)
      : Type 0 where
    pub calm : IsCalm b p
    pub stands : Stands p
    pub joined : Running p ⊎ IsStopped c
    pub closed : is_closed s ≡ after_close p
    pub ended : Ended c s
    pub items : All IsItem (pending b c s p)
    pub forecast : process_all (rest_metrics p m) (pending b c s p) ≡ expected inputs
    pub counts : count_all (consumed_count c) (pending b c s p) ≡ (rest_metrics p m).frames_accepted

  -- An exception has been met: the program cannot report any more.
  abbrev pub Unreported : MainThread → Type 0
  Unreported (MainThread.exited (Exit.reported snap)) = ⊥
  Unreported _ = Unit

  abbrev pub Failed : ConsumerThread → Type 0
  Failed (ConsumerThread.stopped r) = r.success ≡ false
  Failed _ = ⊥

  abbrev pub Unwinds : MainThread → Type 0
  Unwinds MainThread.unwinding = Unit
  Unwinds MainThread.unwound = Unit
  Unwinds (MainThread.exited Exit.failed_by_exception) = Unit
  Unwinds (MainThread.exited Exit.failed_unexpectedly) = Unit
  Unwinds _ = ⊥

  abbrev pub Doomed : MainThread → ConsumerThread → Type 0
  Doomed p c = Throws × (Unwinds p ⊎ (Failed c × Unreported p))

  abbrev pub Inv : MainThread → ConsumerThread → TelemetryMetrics → State → Type 0
  Inv p c m s = Good p c m s ⊎ Doomed p c

  pub start-Good :
      All (All IsByte) inputs
      → Good
          (MainThread.ingesting inputs)
          (ConsumerThread.popping 0)
          initial
          (create queue_capacity)
  unfolding initial
  start-Good h = record {
    calm = tt;
    stands = tt;
    joined = inl tt;
    closed = create-is_closed queue_capacity;
    ended = tt;
    items = rw (create-contents queue_capacity) (valid_inputs-IsItem inputs h);
    forecast = rw (create-contents queue_capacity) refl;
    counts = rw (create-contents queue_capacity) (count_all-valid initial inputs);
  }

  -- A calm step of the main thread keeps what is on its way.
  carry :
      {c : ConsumerThread} {p : MainThread} {m : TelemetryMetrics} {s : State} {p' : MainThread}
      {m' : TelemetryMetrics} {s' : State}
      → Good p c m s
      → MainStep b c p m s p' m' s'
      → IsCalm b p'
      → Stands p'
      → Running p' ⊎ IsStopped c
      → is_closed s' ≡ after_close p'
      → Ended c s'
      → Good p' c m' s'
  carry {c} {p} {m} {s} {p'} {m'} {s'} g st calm stands joined closed ended =
      let rest = MainStep-rest_metrics b st g.calm calm in
      let flow = MainStep-pending b st g.calm calm (
        All-append_right IsItem (contents s) (to_push p)
          (All-append_right IsItem (in_hand c) (contents s ++ to_push p) g.items)) in
      record {
        calm = calm;
        stands = stands;
        joined = joined;
        closed = closed;
        ended = ended;
        items = subst (All IsItem) flow g.items;
        forecast = ap₂ process_all (sym rest) (sym flow) ∙ g.forecast;
        counts =
            ap (count_all (consumed_count c)) (sym flow)
            ∙ g.counts
            ∙ ap (λ m. m.frames_accepted) rest;
      }

  -- An open queue has no consumer that has ended.
  Ended-open : (c : ConsumerThread) (s t : State) → Ended c s → is_closed s ≡ false → Ended c t
  Ended-open (ConsumerThread.popping n) s t h e = tt
  Ended-open (ConsumerThread.holding x n) s t h e = tt
  Ended-open (ConsumerThread.stopped r) s t h e = ground (arith, h.1)

  Ended-close : (c : ConsumerThread) (s : State) → Ended c s → Ended c (close s)
  Ended-close (ConsumerThread.popping n) s h = tt
  Ended-close (ConsumerThread.holding x n) s h = tt
  Ended-close (ConsumerThread.stopped r) s h = (h.0, close-is_closed s, close-contents s ∙ h.2)

  pub main_result-success :
      (ok : Bool) (r : ConsumerResult) (m : TelemetryMetrics)
      → ok ≡ true
      → r.success ≡ true
      → r.frames_consumed ≡ m.frames_accepted
      → main_result ok r (snapshot m) ≡ Exit.reported (snapshot m)
  unfolding main_result snapshot
  main_result-success ok r m h1 h2 h3 = ground arith

  join-Stands :
      (m : TelemetryMetrics) (s : State) (ok : Bool) (r : ConsumerResult)
      → Good (MainThread.joining ok) (ConsumerThread.stopped r) m s
      → main_result ok r (snapshot m) ≡ Exit.reported (snapshot (expected inputs))
  join-Stands m s ok r g =
      let flow = sym (append-nil (contents s) ∙ g.ended.2) in
      main_result-success ok r m g.stands g.ended.0
        (ap (count_all r.frames_consumed) flow ∙ g.counts)
      ∙ ap (λ m. Exit.reported (snapshot m)) (ap (process_all m) flow ∙ g.forecast)

  pub MainStep-Inv :
      {c : ConsumerThread} {p : MainThread} {m : TelemetryMetrics} {s : State} {p' : MainThread}
      {m' : TelemetryMetrics} {s' : State}
      → Good p c m s
      → MainStep b c p m s p' m' s'
      → Good p' c m' s' ⊎ Doomed p' c
  MainStep-Inv g (MainStep.count_input x rest) =
      inl (carry g (MainStep.count_input x rest) tt tt (inl tt) g.closed g.ended)
  MainStep-Inv g (MainStep.reject_input x rest v) =
      inl (carry g (MainStep.reject_input x rest v) tt tt (inl tt) g.closed g.ended)
  MainStep-Inv g (MainStep.pass_input x rest v) =
      inl (carry g (MainStep.pass_input x rest v) tt tt (inl tt) g.closed g.ended)
  MainStep-Inv {c} {s} {s'} g (MainStep.push_input x rest e) = inl (
      carry g (MainStep.push_input x rest e) tt tt (inl tt)
        ((push-pushed s (copy_bytes [] x) s' e).3) (Ended-open c s s' g.ended g.closed))
  MainStep-Inv {s} {s'} g (MainStep.push_refused x rest e) =
      ground (arith, push-refused s (copy_bytes [] x) s' e, g.closed)
  MainStep-Inv {s} g (MainStep.push_throws x rest e) = inr (inl (s, copy_bytes [] x, e), inl tt)
  MainStep-Inv g (MainStep.count_accepted rest) =
      inl (carry g (MainStep.count_accepted rest) tt tt (inl tt) g.closed g.ended)
  MainStep-Inv g MainStep.count_refused = absurd g.calm
  MainStep-Inv g MainStep.end_inputs =
      inl (carry g MainStep.end_inputs tt refl (inl tt) g.closed g.ended)
  MainStep-Inv {c} {s} g (MainStep.close_buffer ok) = inl (
      carry g (MainStep.close_buffer ok) tt g.stands (inl tt) (close-is_closed s)
        (Ended-close c s g.ended))
  MainStep-Inv {m} {s} g (MainStep.join_consumer ok r e) = inl (
      carry g (MainStep.join_consumer ok r e) tt
        (join-Stands m s ok r (subst (λ c. Good (MainThread.joining ok) c m s) e g))
        (inr (subst IsStopped (sym e) tt)) g.closed g.ended)
  MainStep-Inv g MainStep.unwind_close = absurd g.calm
  MainStep-Inv g (MainStep.unwind_join standard r e) = absurd g.calm

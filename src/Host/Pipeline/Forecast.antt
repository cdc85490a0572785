-- ===== src/Host/Pipeline/Forecast.antt =====
-- What the host will have counted once both threads are through: a value that no step of theirs
-- changes (main.cpp).
use mathlib.Core.List.{append_assoc}
use cpp_embedded_telemetry_l.Common.{
  ℕ, ◌≡◌, refl, sym, ap, ◌∙◌, Bool, true, false, List, [], ◌∷◌, ◌++◌, All, if◌then◌else◌,
}
use cpp_embedded_telemetry_l.Protocol.Types.{IsByte, TelemetryFrame}
use cpp_embedded_telemetry_l.Protocol.Deserializer.{has_value, deserialize}
use cpp_embedded_telemetry_l.Host.Metrics.{
  TelemetryMetrics, initial, record_input, record_accepted, record_parse_rejected, record_processed,
}
use cpp_embedded_telemetry_l.Host.Metrics.Threads.{
  record_input-processed, record_accepted-processed, record_parse_rejected-processed,
}
use cpp_embedded_telemetry_l.Host.Buffer.{PopOutcome, ConcurrentBuffer}
use cpp_embedded_telemetry_l.Host.Ingestor.{copy_bytes}
use cpp_embedded_telemetry_l.Host.Ingestor.Accounting.{copy_bytes_id}
use cpp_embedded_telemetry_l.Host.Processor.Drain.{IsItem, process_all}
use cpp_embedded_telemetry_l.Host.Pipeline.{MainThread, ConsumerThread, MainStep}

-- The inputs that a queue takes, in their order.
abbrev pub valid_inputs : List (List ℕ) → List (List ℕ)
valid_inputs [] = []
valid_inputs (x ∷ xs) =
    let rest = valid_inputs xs in if has_value (deserialize x) then x ∷ rest else rest

-- The counters after the inputs, one after the other, when the queue takes each valid one.
abbrev pub check_one : TelemetryMetrics → List ℕ → TelemetryMetrics
check_one m x =
    if has_value (deserialize x)
    then record_accepted m
    else record_parse_rejected m (deserialize x).error

abbrev pub ingest_all : TelemetryMetrics → List (List ℕ) → TelemetryMetrics
ingest_all m [] = m
ingest_all m (x ∷ xs) = ingest_all (check_one (record_input m) x) xs

-- The whole program with one thread: all inputs are ingested, then all valid ones processed.
abbrev pub expected : List (List ℕ) → TelemetryMetrics
expected inputs = process_all (ingest_all initial inputs) (valid_inputs inputs)

-- The metrics once the main thread has ingested what is left.
abbrev pub rest_metrics : MainThread → TelemetryMetrics → TelemetryMetrics
rest_metrics (MainThread.ingesting rest) m = ingest_all m rest
rest_metrics (MainThread.checking x rest) m = ingest_all (check_one m x) rest
rest_metrics (MainThread.pushing x rest) m = ingest_all (record_accepted m) rest
rest_metrics (MainThread.accepting rest) m = ingest_all (record_accepted m) rest
rest_metrics _ m = m

-- The items that the main thread still has to push, and those that the consumer has in hand.
abbrev pub to_push : MainThread → List (List ℕ)
to_push (MainThread.ingesting rest) = valid_inputs rest
to_push (MainThread.checking x rest) = valid_inputs (x ∷ rest)
to_push (MainThread.pushing x rest) = x ∷ valid_inputs rest
to_push (MainThread.accepting rest) = valid_inputs rest
to_push _ = []

abbrev pub in_hand : ConsumerThread → List (List ℕ)
in_hand (ConsumerThread.popping n) = []
in_hand (ConsumerThread.holding x n) = x ∷ []
in_hand (ConsumerThread.stopped r) = []

abbrev pub consumed_count : ConsumerThread → ℕ
consumed_count (ConsumerThread.popping n) = n
consumed_count (ConsumerThread.holding x n) = n
consumed_count (ConsumerThread.stopped r) = r.frames_consumed

check_one-processed :
    (m : TelemetryMetrics) (x : List ℕ) (f : TelemetryFrame)
    → check_one (record_processed m f) x ≡ record_processed (check_one m x) f
check_one-processed m x f =
    elim (has_value (deserialize x))
      as (λ v.
        (if v
          then record_accepted (record_processed m f)
          else record_parse_rejected (record_processed m f) (deserialize x).error)
        ≡ record_processed
            (if v then record_accepted m else record_parse_rejected m (deserialize x).error) f) [
              | true ↦ record_accepted-processed m f
              | false ↦ record_parse_rejected-processed m f (deserialize x).error
            ]

ingest_all-processed :
    (m : TelemetryMetrics) (xs : List (List ℕ)) (f : TelemetryFrame)
    → ingest_all (record_processed m f) xs ≡ record_processed (ingest_all m xs) f
ingest_all-processed m [] f = refl
ingest_all-processed m (x ∷ xs) f =
    ap (λ m. ingest_all m xs)
      (ap (λ m. check_one m x) (record_input-processed m f)
        ∙ check_one-processed (record_input m) x f)
    ∙ ingest_all-processed (check_one (record_input m) x) xs f

-- The consumer's writes leave the main thread's alone.
pub rest_metrics-processed :
    (p : MainThread) (m : TelemetryMetrics) (f : TelemetryFrame)
    → rest_metrics p (record_processed m f) ≡ record_processed (rest_metrics p m) f
rest_metrics-processed (MainThread.ingesting rest) m f = ingest_all-processed m rest f
rest_metrics-processed (MainThread.checking x rest) m f =
    ap (λ m. ingest_all m rest) (check_one-processed m x f)
    ∙ ingest_all-processed (check_one m x) rest f
rest_metrics-processed (MainThread.pushing x rest) m f =
    ap (λ m. ingest_all m rest) (record_accepted-processed m f)
    ∙ ingest_all-processed (record_accepted m) rest f
rest_metrics-processed (MainThread.accepting rest) m f =
    ap (λ m. ingest_all m rest) (record_accepted-processed m f)
    ∙ ingest_all-processed (record_accepted m) rest f
rest_metrics-processed _ m f = refl

if_All :
    (v : Bool) (x : List ℕ) (xs : List (List ℕ))
    → (v ≡ true → IsItem x)
    → All IsItem xs
    → All IsItem (if v then x ∷ xs else xs)
if_All true x xs h hs = (h refl, hs)
if_All false x xs h hs = hs

-- The inputs left are bytes, so the valid ones are items.
pub valid_inputs-IsItem : (xs : List (List ℕ)) → All (All IsByte) xs → All IsItem (valid_inputs xs)
valid_inputs-IsItem [] h = tt
valid_inputs-IsItem (x ∷ xs) h =
    if_All (has_value (deserialize x)) x (valid_inputs xs)
      (λ v. record { are_bytes = h.0; is_valid = v }) (valid_inputs-IsItem xs h.1)

module _ (b : ConcurrentBuffer) where
  open b use {State, contents, pop, push-pushed, pop-popped, close-contents}

  -- The items on their way, the next one to be processed first.
  abbrev pub pending : ConsumerThread → State → MainThread → List (List ℕ)
  pending c s p = in_hand c ++ (contents s ++ to_push p)

  pub pop-pending :
      {s t : State} (x : List ℕ) (n : ℕ) (p : MainThread)
      → pop s ≡ PopOutcome.popped x t
      → pending (ConsumerThread.popping n) s p ≡ pending (ConsumerThread.holding x n) t p
  pop-pending {s} {t} x n p e = ap (λ q. q ++ to_push p) ((pop-popped s x t e).0)

  -- A step of the main thread that meets no exception and no closed queue.
  abbrev pub IsCalm : MainThread → Type 0
  IsCalm MainThread.refusing = ⊥
  IsCalm MainThread.unwinding = ⊥
  IsCalm MainThread.unwound = ⊥
  IsCalm _ = Unit

  pub MainStep-rest_metrics :
      {c : ConsumerThread} {p : MainThread} {m : TelemetryMetrics} {s : State} {p' : MainThread}
      {m' : TelemetryMetrics} {s' : State}
      → MainStep b c p m s p' m' s'
      → IsCalm p
      → IsCalm p'
      → rest_metrics p m ≡ rest_metrics p' m'
  MainStep-rest_metrics (MainStep.count_input x rest) h h' = refl
  MainStep-rest_metrics {m} (MainStep.reject_input x rest v) h h' = rw v refl
  MainStep-rest_metrics {m} (MainStep.pass_input x rest v) h h' = rw v refl
  MainStep-rest_metrics (MainStep.push_input x rest e) h h' = refl
  MainStep-rest_metrics (MainStep.push_refused x rest e) h h' = absurd h'
  MainStep-rest_metrics (MainStep.push_throws x rest e) h h' = absurd h'
  MainStep-rest_metrics (MainStep.count_accepted rest) h h' = refl
  MainStep-rest_metrics MainStep.count_refused h h' = absurd h
  MainStep-rest_metrics MainStep.end_inputs h h' = refl
  MainStep-rest_metrics (MainStep.close_buffer ok) h h' = refl
  MainStep-rest_metrics (MainStep.join_consumer ok r e) h h' = refl
  MainStep-rest_metrics MainStep.unwind_close h h' = absurd h
  MainStep-rest_metrics (MainStep.unwind_join standard r e) h h' = absurd h

  pub MainStep-pending :
      {c : ConsumerThread} {p : MainThread} {m : TelemetryMetrics} {s : State} {p' : MainThread}
      {m' : TelemetryMetrics} {s' : State}
      → MainStep b c p m s p' m' s'
      → IsCalm p
      → IsCalm p'
      → All IsItem (to_push p)
      → pending c s p ≡ pending c s' p'
  MainStep-pending (MainStep.count_input x rest) h h' items = refl
  MainStep-pending {c} {s} (MainStep.reject_input x rest v) h h' items = rw v refl
  MainStep-pending {c} {s} (MainStep.pass_input x rest v) h h' items = rw v refl
  MainStep-pending {c} {s} {s'} (MainStep.push_input x rest e) h h' items =
      let law = (push-pushed s (copy_bytes [] x) s' e).1 in
      ap (λ q. in_hand c ++ q)
        (sym (append_assoc (contents s) (x ∷ []) (valid_inputs rest))
          ∙ ap (λ q. q ++ valid_inputs rest)
              (ap (λ y. contents s ++ (y ∷ [])) (sym (copy_bytes_id x items.0.are_bytes))
                ∙ sym law))
  MainStep-pending (MainStep.push_refused x rest e) h h' items = absurd h'
  MainStep-pending (MainStep.push_throws x rest e) h h' items = absurd h'
  MainStep-pending (MainStep.count_accepted rest) h h' items = refl
  MainStep-pending MainStep.count_refused h h' items = absurd h
  MainStep-pending MainStep.end_inputs h h' items = refl
  MainStep-pending {c} {s} (MainStep.close_buffer ok) h h' items =
      ap (λ q. in_hand c ++ (q ++ [])) (sym (close-contents s))
  MainStep-pending (MainStep.join_consumer ok r e) h h' items = refl
  MainStep-pending MainStep.unwind_close h h' items = absurd h
  MainStep-pending (MainStep.unwind_join standard r e) h h' items = absurd h

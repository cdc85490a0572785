-- ===== src/Host/Pipeline.antt =====
-- main.cpp of the host: the main thread ingests the inputs, closes the queue and joins the
-- consumer's thread; the two threads run interleaved in any order.
-- A step is one call on the shared queue or on the shared metrics, or one check between two of
-- them. `std::jthread`, its `join` and the output streams are not under this repository: `join` is
-- a step that waits until the consumer has stopped, and the report is the snapshot it is made of.
pub mod Forecast
pub mod Invariant
pub mod Outcome
pub mod Moves
pub mod Progress
pub mod Work
pub mod Stopped
pub mod Simulated
mod Examples
use cpp_embedded_telemetry_l.Common.{
  ℕ, ◌≡◌, Bool, true, false, not, ◌||◌, List, [], ◌∷◌, ◌==◌, if◌then◌else◌,
}
use cpp_embedded_telemetry_l.Protocol.Deserializer.{ParseResult, has_value, deserialize}
use cpp_embedded_telemetry_l.Host.Metrics.{
  TelemetryMetrics, TelemetryMetricsSnapshot, initial, inc64, record_input, record_accepted,
  record_parse_rejected, record_queue_closed, snapshot,
}
use cpp_embedded_telemetry_l.Host.Buffer.{PushOutcome, PopOutcome, ConcurrentBuffer}
use cpp_embedded_telemetry_l.Host.Ingestor.{copy_bytes}
use cpp_embedded_telemetry_l.Host.Processor.{ConsumerResult, ItemOutcome, consume_item}

abbrev pub queue_capacity : ℕ
queue_capacity = 3

-- How `main` ends: the report and 0, or one of three messages on the error stream and 1.
pub data Exit : Type 0 where
  reported : TelemetryMetricsSnapshot → Exit
  failed_operationally failed_by_exception failed_unexpectedly : Exit

-- Where the main thread stands; the inputs that are left, the next one first.
pub data MainThread : Type 0 where
  -- before the next call of `ingest`
  ingesting : List (List ℕ) → MainThread
  -- in `ingest`: the input is counted; it has been found valid; it has been pushed; it has been
  -- refused
  checking : List ℕ → List (List ℕ) → MainThread
  pushing : List ℕ → List (List ℕ) → MainThread
  accepting : List (List ℕ) → MainThread
  refusing : MainThread
  -- after the loop, with `ingestion_succeeded`
  closing : Bool → MainThread
  joining : Bool → MainThread
  -- in the handler of an exception
  unwinding unwound : MainThread
  exited : Exit → MainThread

-- Where the consumer's thread stands, with the count of items consumed.
pub data ConsumerThread : Type 0 where
  popping : ℕ → ConsumerThread
  holding : List ℕ → ℕ → ConsumerThread
  stopped : ConsumerResult → ConsumerThread

-- The checks after the join.
pub main_result : Bool → ConsumerResult → TelemetryMetricsSnapshot → Exit
main_result ingestion_succeeded consumer_result snap =
    if not ingestion_succeeded
      || not consumer_result.success
      || not (consumer_result.frames_consumed == snap.frames_accepted)
    then Exit.failed_operationally
    else Exit.reported snap

-- The two handlers: of a `std::exception`, and of anything else.
unfoldable pub caught : Bool → Exit
caught standard = if standard then Exit.failed_by_exception else Exit.failed_unexpectedly

module _ (b : ConcurrentBuffer) where
  open b use {State, create, push, pop, close}

  pub record System : Type 0 where
    pub main : MainThread
    pub consumer : ConsumerThread
    pub metrics : TelemetryMetrics
    pub buffer : State

  -- A step of the main thread.
  pub data MainStep (c : ConsumerThread)
      : MainThread → TelemetryMetrics → State → MainThread → TelemetryMetrics → State → Type 0 where
    count_input :
        {m : TelemetryMetrics} {s : State} (x : List ℕ) (rest : List (List ℕ))
        → MainStep c (ingesting (x ∷ rest)) m s (checking x rest) (record_input m) s
    reject_input :
        {m : TelemetryMetrics} {s : State} (x : List ℕ) (rest : List (List ℕ))
        → has_value (deserialize x) ≡ false
        → MainStep c
            (checking x rest)
            m
            s
            (ingesting rest)
            (record_parse_rejected m (deserialize x).error)
            s
    pass_input :
        {m : TelemetryMetrics} {s : State} (x : List ℕ) (rest : List (List ℕ))
        → has_value (deserialize x) ≡ true
        → MainStep c (checking x rest) m s (pushing x rest) m s
    push_input :
        {m : TelemetryMetrics} {s t : State} (x : List ℕ) (rest : List (List ℕ))
        → push s (copy_bytes [] x) ≡ PushOutcome.pushed t
        → MainStep c (pushing x rest) m s (accepting rest) m t
    push_refused :
        {m : TelemetryMetrics} {s t : State} (x : List ℕ) (rest : List (List ℕ))
        → push s (copy_bytes [] x) ≡ PushOutcome.refused t
        → MainStep c (pushing x rest) m s refusing m t
    push_throws :
        {m : TelemetryMetrics} {s : State} (x : List ℕ) (rest : List (List ℕ))
        → push s (copy_bytes [] x) ≡ PushOutcome.throws
        → MainStep c (pushing x rest) m s unwinding m s
    count_accepted :
        {m : TelemetryMetrics} {s : State} (rest : List (List ℕ))
        → MainStep c (accepting rest) m s (ingesting rest) (record_accepted m) s
    count_refused :
        {m : TelemetryMetrics} {s : State}
        → MainStep c refusing m s (closing false) (record_queue_closed m) s
    end_inputs :
        {m : TelemetryMetrics} {s : State} → MainStep c (ingesting []) m s (closing true) m s
    close_buffer :
        {m : TelemetryMetrics} {s : State} (ok : Bool)
        → MainStep c (closing ok) m s (joining ok) m (close s)
    join_consumer :
        {m : TelemetryMetrics} {s : State} (ok : Bool) (r : ConsumerResult)
        → c ≡ stopped r
        → MainStep c (joining ok) m s (exited (main_result ok r (snapshot m))) m s
    unwind_close : {m : TelemetryMetrics} {s : State} → MainStep c unwinding m s unwound m (close s)
    -- What a call throws is not said of the queue: either handler may take it.
    unwind_join :
        {m : TelemetryMetrics} {s : State} (standard : Bool) (r : ConsumerResult)
        → c ≡ stopped r
        → MainStep c unwound m s (exited (caught standard)) m s

  -- A step of the consumer's thread: one round of its loop is a `pop` and the rest of the body.
  pub data ConsumerStep
      : ConsumerThread
        → TelemetryMetrics
        → State
        → ConsumerThread
        → TelemetryMetrics
        → State
        → Type 0 where
    pop_item :
        {m : TelemetryMetrics} {s t : State} (x : List ℕ) (n : ℕ)
        → pop s ≡ PopOutcome.popped x t
        → ConsumerStep (popping n) m s (holding x n) m t
    pop_end :
        {m : TelemetryMetrics} {s t : State} (n : ℕ)
        → pop s ≡ PopOutcome.drained t
        → ConsumerStep
            (popping n)
            m
            s
            (stopped (record { success = true; frames_consumed = n }))
            m
            t
    pop_throws :
        {m : TelemetryMetrics} {s : State} (n : ℕ)
        → pop s ≡ PopOutcome.throws
        → ConsumerStep
            (popping n)
            m
            s
            (stopped (record { success = false; frames_consumed = n }))
            m
            s
    process_item :
        {m m' : TelemetryMetrics} {s : State} (x : List ℕ) (n : ℕ)
        → consume_item m x ≡ ItemOutcome.consumed m'
        → ConsumerStep (holding x n) m s (popping (inc64 n)) m' s
    fail_item :
        {m : TelemetryMetrics} {s : State} (x : List ℕ) (n : ℕ)
        → consume_item m x ≡ ItemOutcome.failed
        → ConsumerStep
            (holding x n)
            m
            s
            (stopped (record { success = false; frames_consumed = n }))
            m
            s

  pub data Step (y : System) : System → Type 0 where
    main_step :
        {p : MainThread} {m : TelemetryMetrics} {s : State}
        → MainStep y.consumer y.main y.metrics y.buffer p m s
        → Step y (record { main = p; consumer = y.consumer; metrics = m; buffer = s })
    consumer_step :
        {c : ConsumerThread} {m : TelemetryMetrics} {s : State}
        → ConsumerStep y.consumer y.metrics y.buffer c m s
        → Step y (record { main = y.main; consumer = c; metrics = m; buffer = s })

  -- The objects that `main` constructs, with the inputs of the source.
  unfoldable pub start : List (List ℕ) → System
  start inputs = record {
    main = ingesting inputs;
    consumer = popping 0;
    metrics = initial;
    buffer = create queue_capacity;
  }

  pub data Reach (inputs : List (List ℕ)) : System → Type 0 where
    here : Reach inputs (start inputs)
    next : {y z : System} → Reach inputs y → Step y z → Reach inputs z

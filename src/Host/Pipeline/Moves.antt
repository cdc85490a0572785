-- ===== src/Host/Pipeline/Moves.antt =====
-- What each thread can do in a state: take a step, or wait, and for what (main.cpp).
use cpp_embedded_telemetry_l.Common.{ℕ, ◌≡◌, refl, ◌∙◌, arith, Bool, true, false, List, [], ◌∷◌}
use cpp_embedded_telemetry_l.Protocol.Deserializer.{has_value, deserialize}
use cpp_embedded_telemetry_l.Host.Buffer.{PushOutcome, PopOutcome, ConcurrentBuffer}
use cpp_embedded_telemetry_l.Host.Metrics.{TelemetryMetrics}
use cpp_embedded_telemetry_l.Host.Ingestor.{copy_bytes}
use cpp_embedded_telemetry_l.Host.Processor.{ConsumerResult, ItemOutcome, consume_item}
use cpp_embedded_telemetry_l.Host.Pipeline.{
  Exit, MainThread, ConsumerThread, MainStep, ConsumerStep, System, Step, Reach, start,
  queue_capacity,
}

module _ (b : ConcurrentBuffer) where
  open b use {
    State, push, pop, contents, capacity, is_closed, push-blocked, push-pushed, push-refused,
    pop-blocked, pop-popped, pop-drained, close-capacity, create-capacity,
  }

  -- The bound of the queue is always the one it was made with.
  MainStep-capacity :
      {c : ConsumerThread} {p : MainThread} {m : TelemetryMetrics} {s : State} {p' : MainThread}
      {m' : TelemetryMetrics} {s' : State}
      → MainStep b c p m s p' m' s'
      → capacity s' ≡ capacity s
  MainStep-capacity {s} {s'} (MainStep.push_input x rest e) =
      (push-pushed s (copy_bytes [] x) s' e).2
  MainStep-capacity {s} {s'} (MainStep.push_refused x rest e) =
      (push-refused s (copy_bytes [] x) s' e).2
  MainStep-capacity {s} (MainStep.close_buffer ok) = close-capacity s
  MainStep-capacity {s} MainStep.unwind_close = close-capacity s
  MainStep-capacity st = ground arith

  ConsumerStep-capacity :
      {c : ConsumerThread} {m : TelemetryMetrics} {s : State} {c' : ConsumerThread}
      {m' : TelemetryMetrics} {s' : State}
      → ConsumerStep b c m s c' m' s'
      → capacity s' ≡ capacity s
  ConsumerStep-capacity {s} {s'} (ConsumerStep.pop_item x n e) = (pop-popped s x s' e).1
  ConsumerStep-capacity {s} {s'} (ConsumerStep.pop_end n e) = (pop-drained s s' e).4
  ConsumerStep-capacity st = ground arith

  pub Reach-capacity :
      {inputs : List (List ℕ)} {y : System b}
      → Reach b inputs y
      → capacity y.buffer ≡ queue_capacity
  unfolding start
  Reach-capacity Reach.here = create-capacity queue_capacity
  Reach-capacity (Reach.next r (Step.main_step st)) = MainStep-capacity st ∙ Reach-capacity r
  Reach-capacity (Reach.next r (Step.consumer_step st)) =
      ConsumerStep-capacity st ∙ Reach-capacity r

  -- Each thread takes a step or waits, and what it waits for.
  pub data ConsumerMove (c : ConsumerThread) (m : TelemetryMetrics) (s : State) : Type 0 where
    moves :
        {c' : ConsumerThread} {m' : TelemetryMetrics} {s' : State}
        → ConsumerStep b c m s c' m' s'
        → ConsumerMove c m s
    waits : is_closed s ≡ false → contents s ≡ [] → ConsumerMove c m s
    ended : (r : ConsumerResult) → c ≡ ConsumerThread.stopped r → ConsumerMove c m s

  pub data MainMove (c : ConsumerThread) (p : MainThread) (m : TelemetryMetrics) (s : State)
      : Type 0 where
    moves :
        {p' : MainThread} {m' : TelemetryMetrics} {s' : State}
        → MainStep b c p m s p' m' s'
        → MainMove c p m s
    waits :
        (x : List ℕ) (rest : List (List ℕ))
        → p ≡ MainThread.pushing x rest
        → push s (copy_bytes [] x) ≡ PushOutcome.blocked
        → MainMove c p m s
    joins : (ok : Bool) → p ≡ MainThread.joining ok → MainMove c p m s
    unwinds : p ≡ MainThread.unwound → MainMove c p m s
    done : (e : Exit) → p ≡ MainThread.exited e → MainMove c p m s

  pop-ConsumerMove :
      (n : ℕ) (m : TelemetryMetrics) (s : State) (o : PopOutcome State)
      → pop s ≡ o
      → ConsumerMove (ConsumerThread.popping n) m s
  pop-ConsumerMove n m s PopOutcome.blocked e =
      ConsumerMove.waits ((pop-blocked s e).0) ((pop-blocked s e).1)
  pop-ConsumerMove n m s (PopOutcome.popped x t) e =
      ConsumerMove.moves (ConsumerStep.pop_item x n e)
  pop-ConsumerMove n m s (PopOutcome.drained t) e = ConsumerMove.moves (ConsumerStep.pop_end n e)
  pop-ConsumerMove n m s PopOutcome.throws e = ConsumerMove.moves (ConsumerStep.pop_throws n e)

  item-ConsumerMove :
      (x : List ℕ) (n : ℕ) (m : TelemetryMetrics) (s : State) (o : ItemOutcome)
      → consume_item m x ≡ o
      → ConsumerMove (ConsumerThread.holding x n) m s
  item-ConsumerMove x n m s (ItemOutcome.consumed m') e =
      ConsumerMove.moves (ConsumerStep.process_item x n e)
  item-ConsumerMove x n m s ItemOutcome.failed e = ConsumerMove.moves (ConsumerStep.fail_item x n e)

  pub consumer_move : (c : ConsumerThread) (m : TelemetryMetrics) (s : State) → ConsumerMove c m s
  consumer_move (ConsumerThread.popping n) m s = pop-ConsumerMove n m s (pop s) refl
  consumer_move (ConsumerThread.holding x n) m s = item-ConsumerMove x n m s (consume_item m x) refl
  consumer_move (ConsumerThread.stopped r) m s = ConsumerMove.ended r refl

  push-MainMove :
      (c : ConsumerThread) (x : List ℕ) (rest : List (List ℕ)) (m : TelemetryMetrics) (s : State)
      (o : PushOutcome State)
      → push s (copy_bytes [] x) ≡ o
      → MainMove c (MainThread.pushing x rest) m s
  push-MainMove c x rest m s PushOutcome.blocked e = MainMove.waits x rest refl e
  push-MainMove c x rest m s (PushOutcome.pushed t) e =
      MainMove.moves (MainStep.push_input x rest e)
  push-MainMove c x rest m s (PushOutcome.refused t) e =
      MainMove.moves (MainStep.push_refused x rest e)
  push-MainMove c x rest m s PushOutcome.throws e = MainMove.moves (MainStep.push_throws x rest e)

  check-MainMove :
      (c : ConsumerThread) (x : List ℕ) (rest : List (List ℕ)) (m : TelemetryMetrics) (s : State)
      (v : Bool)
      → has_value (deserialize x) ≡ v
      → MainMove c (MainThread.checking x rest) m s
  check-MainMove c x rest m s true e = MainMove.moves (MainStep.pass_input x rest e)
  check-MainMove c x rest m s false e = MainMove.moves (MainStep.reject_input x rest e)

  pub main_move :
      (c : ConsumerThread) (p : MainThread) (m : TelemetryMetrics) (s : State) → MainMove c p m s
  main_move c (MainThread.ingesting []) m s = MainMove.moves MainStep.end_inputs
  main_move c (MainThread.ingesting (x ∷ rest)) m s = MainMove.moves (MainStep.count_input x rest)
  main_move c (MainThread.checking x rest) m s =
      check-MainMove c x rest m s (has_value (deserialize x)) refl
  main_move c (MainThread.pushing x rest) m s =
      push-MainMove c x rest m s (push s (copy_bytes [] x)) refl
  main_move c (MainThread.accepting rest) m s = MainMove.moves (MainStep.count_accepted rest)
  main_move c MainThread.refusing m s = MainMove.moves MainStep.count_refused
  main_move c (MainThread.closing ok) m s = MainMove.moves (MainStep.close_buffer ok)
  main_move c (MainThread.joining ok) m s = MainMove.joins ok refl
  main_move c MainThread.unwinding m s = MainMove.moves MainStep.unwind_close
  main_move c MainThread.unwound m s = MainMove.unwinds refl
  main_move c (MainThread.exited e) m s = MainMove.done e refl

-- ===== src/Host/Pipeline/Work.antt =====
-- What is left to do in a state of the host, and how long a run can take (main.cpp).
use cpp_embedded_telemetry_l.Common.{
  ℕ, suc, ◌+◌, ◌*◌, ◌<◌, ◌≤◌, ap, arith, List, [], ◌∷◌, length, length-append,
}
use cpp_embedded_telemetry_l.Host.Buffer.{ConcurrentBuffer}
use cpp_embedded_telemetry_l.Host.Metrics.{TelemetryMetrics}
use cpp_embedded_telemetry_l.Host.Ingestor.{copy_bytes}
use cpp_embedded_telemetry_l.Host.Pipeline.{
  MainThread, ConsumerThread, MainStep, ConsumerStep, System, Step, start, queue_capacity,
}

main_work : MainThread → ℕ
main_work (MainThread.ingesting rest) = 6 * length rest + 4
main_work (MainThread.checking x rest) = 6 * length rest + 9
main_work (MainThread.pushing x rest) = 6 * length rest + 8
main_work (MainThread.accepting rest) = 6 * length rest + 5
main_work MainThread.refusing = 4
main_work (MainThread.closing ok) = 3
main_work (MainThread.joining ok) = 2
main_work MainThread.unwinding = 3
main_work MainThread.unwound = 2
main_work (MainThread.exited e) = 0

consumer_work : ConsumerThread → ℕ
consumer_work (ConsumerThread.popping n) = 1
consumer_work (ConsumerThread.holding x n) = 2
consumer_work (ConsumerThread.stopped r) = 0

module _ (b : ConcurrentBuffer) where
  open b use {
    State, contents, create-contents, push-pushed, push-refused, pop-popped, pop-drained,
    close-contents,
  }

  -- What is left to do: an input costs the main thread at most five steps and, in the queue, two
  -- steps of the consumer.
  pub work : System b → ℕ
  work y = main_work y.main + 2 * length (contents y.buffer) + consumer_work y.consumer

  MainStep-work :
      {c : ConsumerThread} {p : MainThread} {m : TelemetryMetrics} {s : State} {p' : MainThread}
      {m' : TelemetryMetrics} {s' : State}
      → MainStep b c p m s p' m' s'
      → main_work p' + 2 * length (contents s') < main_work p + 2 * length (contents s)
  unfolding main_work
  MainStep-work {s} {s'} (MainStep.push_input x rest e) = omega (
    arith,
    ap length ((push-pushed s (copy_bytes [] x) s' e).1),
    length-append (contents s) (copy_bytes [] x ∷ []),
  )
  MainStep-work {s} {s'} (MainStep.push_refused x rest e) =
      omega (arith, ap length ((push-refused s (copy_bytes [] x) s' e).1))
  MainStep-work {s} (MainStep.close_buffer ok) = omega (arith, ap length (close-contents s))
  MainStep-work {s} MainStep.unwind_close = omega (arith, ap length (close-contents s))
  MainStep-work st = omega arith

  ConsumerStep-work :
      {c : ConsumerThread} {m : TelemetryMetrics} {s : State} {c' : ConsumerThread}
      {m' : TelemetryMetrics} {s' : State}
      → ConsumerStep b c m s c' m' s'
      → consumer_work c' + 2 * length (contents s') < consumer_work c + 2 * length (contents s)
  unfolding consumer_work
  ConsumerStep-work {s} {s'} (ConsumerStep.pop_item x n e) =
      omega (arith, ap length ((pop-popped s x s' e).0))
  ConsumerStep-work {s} {s'} (ConsumerStep.pop_end n e) =
      omega (arith, ap length ((pop-drained s s' e).2))
  ConsumerStep-work st = omega arith

  pub Step-work : {y z : System b} → Step b y z → work z < work y
  unfolding work
  Step-work (Step.main_step st) = omega (arith, MainStep-work st)
  Step-work (Step.consumer_step st) = omega (arith, ConsumerStep-work st)

  -- A run of `n` steps.
  pub data Run : ℕ → System b → System b → Type 0 where
    none : {y : System b} → Run 0 y y
    more : {n : ℕ} {y z w : System b} → Run n y z → Step b z w → Run (suc n) y w

  Run-work : {n : ℕ} {y z : System b} → Run n y z → n + work z ≤ work y
  Run-work Run.none = omega arith
  Run-work (Run.more r st) = omega (arith, Run-work r, Step-work st)

  -- No run of the program takes more than six steps for each input and five more, whatever the
  -- order of its steps and whatever the calls on the queue give.
  pub Run-bounded :
      (inputs : List (List ℕ)) (n : ℕ) (y : System b)
      → Run n (start b inputs) y
      → n ≤ 6 * length inputs + 5
  unfolding work start main_work consumer_work
  Run-bounded inputs n y r = omega (arith, Run-work r, ap length (create-contents queue_capacity))

-- ===== src/Firmware/Main/Order.antt =====
-- The order of the firmware's lines, also when calls on the queue have failed
-- (telemetry_producer.cpp, telemetry_transmitter.cpp, main.cpp).
use cpp_embedded_telemetry_l.Common.{
  ℕ, ◌≡◌, ◌≢◌, refl, sym, ap, ◌∙◌, subst, arith, List, [], ◌∷◌, ◌++◌, ◌⊎◌, inl, inr,
}
use cpp_embedded_telemetry_l.Firmware.SensorModel.{next_value, has_next-lt, has_next-ge}
use cpp_embedded_telemetry_l.Firmware.Metrics.{FirmwareMetrics}
use cpp_embedded_telemetry_l.Firmware.MessageQueue.{MessageQueue}
use cpp_embedded_telemetry_l.Firmware.Queue.{TelemetryQueueItem, frame_item, end_item}
use cpp_embedded_telemetry_l.Firmware.Queue.Laws.{
  push_frame-true, push_frame-false, push_end_of_stream-true, push_end_of_stream-false, pop-true,
  telemetry_queue-contents,
}
use cpp_embedded_telemetry_l.Firmware.Producer.{ProducerThread, ProducerStep}
use cpp_embedded_telemetry_l.Firmware.Transmitter.{Printk, TransmitterThread, TransmitterStep}
use cpp_embedded_telemetry_l.Firmware.Main.{MainThread, MainStep, System, Step, Reach, start}
use cpp_embedded_telemetry_l.Firmware.Main.Stream.{
  items_from, items_from-next, items_from-end, to_push, in_hand, transmit, frame_lines-transmit,
}
use cpp_embedded_telemetry_l.Firmware.Main.Conditions.{ProducerFailed}
use cpp_embedded_telemetry_l.Firmware.Main.Moves.{push_flow}
use cpp_embedded_telemetry_l.Firmware.Main.Prints.{transmit_frame}
use cpp_embedded_telemetry_l.Firmware.Main.Prefix.{
  IsPrefix, transmit-IsPrefix, Streaming-IsPrefix, Streaming,
}

-- The items behind those in the queue: the ones that the producer still pushes, or that it has not
-- pushed when it failed.
record Ordered (p : ProducerThread) (t : TransmitterThread) (i : ℕ)
    (items : List TelemetryQueueItem) (out : List Printk) : Type 0 where
  behind : List TelemetryQueueItem
  pushed : ProducerFailed p ⊎ (behind ≡ to_push p i)
  streaming : Streaming t out (in_hand t ++ (items ++ behind))

module _ (k : MessageQueue TelemetryQueueItem) where
  open k use {State, contents}

  -- A step of the producer fails and leaves the queue, or the stream is the same after it.
  ProducerStep-flow :
      {p : ProducerThread} {i : ℕ} {m : FirmwareMetrics} {s : State} {p' : ProducerThread} {i' : ℕ}
      {m' : FirmwareMetrics} {s' : State} (t : TransmitterThread)
      → ProducerStep k p i m s p' i' m' s'
      → (ProducerFailed p' × (contents s' ≡ contents s))
        ⊎ (in_hand t ++ (contents s ++ to_push p i) ≡ in_hand t ++ (contents s' ++ to_push p' i'))
  ProducerStep-flow {i} {s} t (ProducerStep.take_sample e) =
      rw (next_value i e) (
        inr
          (ap (λ items. in_hand t ++ (contents s ++ items)) (items_from-next i (has_next-lt i e))))
  ProducerStep-flow t (ProducerStep.serialize_frame f) = inr refl
  ProducerStep-flow {i} {s} {s'} t (ProducerStep.push bytes e) = inr (
      push_flow k t (contents s) (contents s') (frame_item bytes) (items_from i)
        (push_frame-true k s s' bytes e).0)
  ProducerStep-flow {s} {s'} t (ProducerStep.fail_push bytes e) =
      inl (tt, (push_frame-false k s s' bytes e).0)
  ProducerStep-flow t ProducerStep.count_enqueued = inr refl
  ProducerStep-flow {i} {s} t (ProducerStep.leave_loop e) =
      inr (ap (λ items. in_hand t ++ (contents s ++ items)) (items_from-end i (has_next-ge i e)))
  ProducerStep-flow {s} {s'} t (ProducerStep.push_end e) =
      inr
        (push_flow k t (contents s) (contents s') end_item [] (push_end_of_stream-true k s s' e).0)
  ProducerStep-flow {s} {s'} t (ProducerStep.fail_push_end e) =
      inl (tt, (push_end_of_stream-false k s s' e).0)
  ProducerStep-flow t ProducerStep.count_failure = inr refl
  ProducerStep-flow t ProducerStep.count_end = inr refl
  ProducerStep-flow t (ProducerStep.give_semaphore ok) = inr refl

  ProducerStep-failed :
      {p : ProducerThread} {i : ℕ} {m : FirmwareMetrics} {s : State} {p' : ProducerThread} {i' : ℕ}
      {m' : FirmwareMetrics} {s' : State}
      → ProducerStep k p i m s p' i' m' s'
      → ProducerFailed p
      → ProducerFailed p' × (contents s' ≡ contents s)
  ProducerStep-failed ProducerStep.count_failure f = (refl, refl)
  ProducerStep-failed (ProducerStep.give_semaphore ok) f = (f, refl)
  ProducerStep-failed st f = ground arith

  -- The rest of the stream is lost when the producer has failed.
  failed-Ordered :
      {p' : ProducerThread} {s s' : State} {out : List Printk} (t : TransmitterThread) (i' : ℕ)
      (behind : List TelemetryQueueItem)
      → ProducerFailed p' × (contents s' ≡ contents s)
      → Streaming t out (in_hand t ++ (contents s ++ behind))
      → Ordered p' t i' (contents s') out
  failed-Ordered {out} t i' behind (f, e) h = record {
    behind = behind;
    pushed = inl f;
    streaming = subst (λ q. Streaming t out (in_hand t ++ (q ++ behind))) (sym e) h;
  }

  ProducerStep-Ordered :
      {p : ProducerThread} {i : ℕ} {m : FirmwareMetrics} {s : State} {p' : ProducerThread} {i' : ℕ}
      {m' : FirmwareMetrics} {s' : State} (t : TransmitterThread) (out : List Printk)
      → ProducerStep k p i m s p' i' m' s'
      → Ordered p t i (contents s) out
      → Ordered p' t i' (contents s') out
  ProducerStep-Ordered {p} {i} {s} {p'} {i'} {s'} t out st h = elim h.pushed [
    | inl f ↦ failed-Ordered {s = s} t i' h.behind (ProducerStep-failed st f) h.streaming
    | inr e ↦ elim (ProducerStep-flow t st) [
      | inl f ↦ failed-Ordered {s = s} t i' h.behind f h.streaming
      | inr flow ↦ record {
        behind = to_push p' i';
        pushed = inr refl;
        streaming =
            subst (Streaming t out) flow
              (subst (λ l. Streaming t out (in_hand t ++ (contents s ++ l))) e h.streaming);
      }
    ]
  ]

  TransmitterStep-Streaming :
      {t : TransmitterThread} {m : FirmwareMetrics} {s : State} {out : List Printk}
      {t' : TransmitterThread} {m' : FirmwareMetrics} {s' : State} {out' : List Printk}
      (behind : List TelemetryQueueItem)
      → TransmitterStep k t m s out t' m' s' out'
      → Streaming t out (in_hand t ++ (contents s ++ behind))
      → Streaming t' out' (in_hand t' ++ (contents s' ++ behind))
  TransmitterStep-Streaming {s} {out} {s'} behind (TransmitterStep.pop_item n item e) h =
      ap (λ q. transmit n out (q ++ behind)) (sym ((pop-true k s s' item e).0)) ∙ h
  TransmitterStep-Streaming {s} {out} behind (TransmitterStep.fail_pop n item e) h =
      transmit-IsPrefix n out (contents s ++ behind) h
  TransmitterStep-Streaming behind TransmitterStep.count_failure h = h
  TransmitterStep-Streaming {s} {out} behind (TransmitterStep.count_end n item e) h =
      transmit-IsPrefix n out (item ∷ (contents s ++ behind)) h
  TransmitterStep-Streaming {s} {out} behind (TransmitterStep.print_frame n item e) h =
      sym (transmit_frame item (contents s ++ behind) n out e) ∙ h
  TransmitterStep-Streaming behind (TransmitterStep.count_transmitted n) h = h
  TransmitterStep-Streaming behind (TransmitterStep.give_semaphore ok) h = h

  abbrev OrderedUntilExit :
      MainThread → ProducerThread → TransmitterThread → ℕ → State → List Printk → Type 0
  OrderedUntilExit g p t i s out =
      ((code : ℕ) × (g ≡ MainThread.exited code)) ⊎ Ordered p t i (contents s) out

  MainStep-Ordered :
      {m : FirmwareMetrics} {s : State} {out : List Printk} {g : MainThread} {p : ProducerThread}
      {t : TransmitterThread} {g' : MainThread} {p' : ProducerThread} {t' : TransmitterThread}
      {out' : List Printk} (i : ℕ)
      → MainStep k m s out g p t g' p' t' out'
      → Ordered p t i (contents s) out
      → OrderedUntilExit g' p' t' i s out'
  MainStep-Ordered i MainStep.create_transmitter h =
      inr (record { behind = h.behind; pushed = h.pushed; streaming = h.streaming })
  MainStep-Ordered i MainStep.create_producer h =
      inr (record { behind = h.behind; pushed = h.pushed; streaming = h.streaming })
  MainStep-Ordered i (MainStep.take_producer ok) h = inr h
  MainStep-Ordered i (MainStep.take_transmitter ok) h = inr h
  MainStep-Ordered i (MainStep.conclude p_ok t_ok) h = inl (_, refl)

  exited_step :
      {m : FirmwareMetrics} {s : State} {out : List Printk} {g : MainThread} {p : ProducerThread}
      {t : TransmitterThread} {g' : MainThread} {p' : ProducerThread} {t' : TransmitterThread}
      {out' : List Printk}
      → MainStep k m s out g p t g' p' t' out'
      → (code : ℕ) → g ≢ MainThread.exited code
  exited_step MainStep.create_transmitter code e = absurd (cc e)
  exited_step MainStep.create_producer code e = absurd (cc e)
  exited_step (MainStep.take_producer ok) code e = absurd (cc e)
  exited_step (MainStep.take_transmitter ok) code e = absurd (cc e)
  exited_step (MainStep.conclude p_ok t_ok) code e = absurd (cc e)

  Step-Ordered :
      {y z : System k}
      → Step k y z
      → OrderedUntilExit y.main y.producer y.transmitter y.next_index y.queue y.output
      → OrderedUntilExit z.main z.producer z.transmitter z.next_index z.queue z.output
  Step-Ordered (Step.main_step st) (inl (code, e)) = absurd (exited_step st code e)
  Step-Ordered (Step.producer_step st) (inl e) = inl e
  Step-Ordered (Step.transmitter_step st) (inl e) = inl e
  Step-Ordered {y} (Step.main_step st) (inr h) = MainStep-Ordered y.next_index st h
  Step-Ordered {y} (Step.producer_step st) (inr h) =
      inr (ProducerStep-Ordered y.transmitter y.output st h)
  Step-Ordered (Step.transmitter_step st) (inr h) = inr (record {
    behind = h.behind;
    pushed = h.pushed;
    streaming = TransmitterStep-Streaming h.behind st h.streaming;
  })

  Reach-Ordered :
      {y : System k}
      → Reach k (start k) y
      → OrderedUntilExit y.main y.producer y.transmitter y.next_index y.queue y.output
  unfolding start
  Reach-Ordered Reach.here = inr (record {
    behind = items_from 0;
    pushed = inr refl;
    streaming =
        ap (λ q. transmit 0 [] (q ++ items_from 0)) (telemetry_queue-contents k)
        ∙ frame_lines-transmit;
  })
  Reach-Ordered (Reach.then_step r st) = Step-Ordered st (Reach-Ordered r)

  -- Until the program has exited, what has been printed is a beginning of the lines of the eight
  -- frames with their indices, in each interleaving and also after failed calls: no line is left
  -- out, repeated or out of order.
  pub output-IsPrefix :
      (y : System k)
      → Reach k (start k) y
      → ((code : ℕ) → y.main ≢ MainThread.exited code)
      → IsPrefix y.output
  output-IsPrefix y r running = elim (Reach-Ordered r) [
    | inl (code, e) ↦ absurd (running code e)
    | inr h ↦
        Streaming-IsPrefix y.transmitter y.output
          (in_hand y.transmitter ++ (contents y.queue ++ h.behind)) h.streaming
  ]

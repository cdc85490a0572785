-- ===== src/Firmware/Main/Failure.antt =====
-- What becomes of the firmware when a push of the producer has failed (telemetry_producer.cpp,
-- main.cpp).
use cpp_embedded_telemetry_l.Common.{
  ℕ, ◌≡◌, ◌≢◌, refl, sym, subst, arith, Bool, true, false, List, [], ◌∷◌, ◌++◌, ◌⊎◌, inl, inr,
}
use cpp_embedded_telemetry_l.Firmware.Metrics.{FirmwareMetrics}
use cpp_embedded_telemetry_l.Firmware.MessageQueue.{MessageQueue}
use cpp_embedded_telemetry_l.Firmware.Queue.{
  QueueItemKind, TelemetryQueueItem, frame_item, PopResult, pop,
}
use cpp_embedded_telemetry_l.Firmware.Queue.Laws.{
  push_frame-true, push_frame-false, push_end_of_stream-false, pop-true, telemetry_queue-contents,
}
use cpp_embedded_telemetry_l.Firmware.Producer.{ProducerThread, ProducerStep}
use cpp_embedded_telemetry_l.Firmware.Transmitter.{Printk, TransmitterThread, TransmitterStep}
use cpp_embedded_telemetry_l.Firmware.Main.{MainThread, MainStep, System, Step, Reach, start}
use cpp_embedded_telemetry_l.Firmware.Main.Conditions.{ProducerFailed}

-- The producer has put the end marker into the queue.
abbrev end_is_sent : ProducerThread → Bool
end_is_sent ProducerThread.end_pushed = true
end_is_sent (ProducerThread.returned ok) = ok
end_is_sent (ProducerThread.finished ok) = ok
end_is_sent _ = false

abbrev AllFrames : List TelemetryQueueItem → Type 0
AllFrames [] = Unit
AllFrames (x ∷ xs) = (x.kind ≡ QueueItemKind.frame) × AllFrames xs

-- The transmitter is in its loop, with no end marker in hand.
abbrev Looping : TransmitterThread → Type 0
Looping (TransmitterThread.handling n item) = item.kind ≡ QueueItemKind.frame
Looping TransmitterThread.pop_failed = ⊥
Looping (TransmitterThread.returned ok) = ⊥
Looping (TransmitterThread.finished ok) = ⊥
Looping _ = Unit

-- `main` has not come past the transmitter's semaphore.
abbrev Waiting : MainThread → Type 0
Waiting MainThread.concluding = ⊥
Waiting (MainThread.exited code) = ⊥
Waiting _ = Unit

abbrev Unended : MainThread → TransmitterThread → List TelemetryQueueItem → Type 0
Unended g t items = Waiting g × Looping t × AllFrames items

AllFrames-append :
    (items : List TelemetryQueueItem) (bytes : List ℕ)
    → AllFrames items
    → AllFrames (items ++ (frame_item bytes ∷ []))
AllFrames-append [] bytes h = (refl, tt)
AllFrames-append (x ∷ xs) bytes (e, h) = (e, AllFrames-append xs bytes h)

module _ (k : MessageQueue TelemetryQueueItem) where
  open k use {State, contents}

  abbrev SentOrUnended : MainThread → ProducerThread → TransmitterThread → State → Type 0
  SentOrUnended g p t s = (end_is_sent p ≡ true) ⊎ Unended g t (contents s)

  MainStep-SentOrUnended :
      {m : FirmwareMetrics} {s : State} {out : List Printk} {g : MainThread} {p : ProducerThread}
      {t : TransmitterThread} {g' : MainThread} {p' : ProducerThread} {t' : TransmitterThread}
      {out' : List Printk}
      → MainStep k m s out g p t g' p' t' out'
      → SentOrUnended g p t s
      → SentOrUnended g' p' t' s
  MainStep-SentOrUnended MainStep.create_transmitter (inl h) = inl h
  MainStep-SentOrUnended MainStep.create_transmitter (inr (w, l, a)) = inr (tt, tt, a)
  MainStep-SentOrUnended MainStep.create_producer (inl h) = absurd (cc h)
  MainStep-SentOrUnended MainStep.create_producer (inr (w, l, a)) = inr (tt, l, a)
  MainStep-SentOrUnended (MainStep.take_producer ok) (inl h) = inl h
  MainStep-SentOrUnended (MainStep.take_producer ok) (inr (w, l, a)) = inr (tt, l, a)
  MainStep-SentOrUnended (MainStep.take_transmitter ok) (inl h) = inl h
  MainStep-SentOrUnended (MainStep.take_transmitter ok) (inr (w, l, a)) = absurd l
  MainStep-SentOrUnended (MainStep.conclude p_ok t_ok) (inl h) = inl h
  MainStep-SentOrUnended (MainStep.conclude p_ok t_ok) (inr (w, l, a)) = absurd w

  -- No step of the producer takes the end marker back, and before it only frames are put.
  ProducerStep-sent :
      {p : ProducerThread} {i : ℕ} {m : FirmwareMetrics} {s : State} {p' : ProducerThread} {i' : ℕ}
      {m' : FirmwareMetrics} {s' : State}
      → ProducerStep k p i m s p' i' m' s'
      → end_is_sent p ≡ true
      → end_is_sent p' ≡ true
  ProducerStep-sent ProducerStep.count_end h = refl
  ProducerStep-sent (ProducerStep.give_semaphore ok) h = h
  ProducerStep-sent st h = ground arith

  ProducerStep-AllFrames :
      {p : ProducerThread} {i : ℕ} {m : FirmwareMetrics} {s : State} {p' : ProducerThread} {i' : ℕ}
      {m' : FirmwareMetrics} {s' : State}
      → ProducerStep k p i m s p' i' m' s'
      → AllFrames (contents s)
      → (end_is_sent p' ≡ true) ⊎ AllFrames (contents s')
  ProducerStep-AllFrames (ProducerStep.take_sample e) h = inr h
  ProducerStep-AllFrames (ProducerStep.serialize_frame f) h = inr h
  ProducerStep-AllFrames {s} {s'} (ProducerStep.push bytes e) h = inr (
      subst AllFrames (sym ((push_frame-true k s s' bytes e).0))
        (AllFrames-append (contents s) bytes h))
  ProducerStep-AllFrames {s} {s'} (ProducerStep.fail_push bytes e) h =
      inr (subst AllFrames (sym ((push_frame-false k s s' bytes e).0)) h)
  ProducerStep-AllFrames ProducerStep.count_enqueued h = inr h
  ProducerStep-AllFrames (ProducerStep.leave_loop e) h = inr h
  ProducerStep-AllFrames (ProducerStep.push_end e) h = inl refl
  ProducerStep-AllFrames {s} {s'} (ProducerStep.fail_push_end e) h =
      inr (subst AllFrames (sym ((push_end_of_stream-false k s s' e).0)) h)
  ProducerStep-AllFrames ProducerStep.count_failure h = inr h
  ProducerStep-AllFrames ProducerStep.count_end h = inl refl
  ProducerStep-AllFrames (ProducerStep.give_semaphore ok) h = inr h

  module _
      (pops : (s t : State) (item : TelemetryQueueItem)
        → pop k s ≢ PopResult.returns false item t) where
    TransmitterStep-Looping :
        {t : TransmitterThread} {m : FirmwareMetrics} {s : State} {out : List Printk}
        {t' : TransmitterThread} {m' : FirmwareMetrics} {s' : State} {out' : List Printk}
        → TransmitterStep k t m s out t' m' s' out'
        → Looping t
        → AllFrames (contents s)
        → Looping t' × AllFrames (contents s')
    TransmitterStep-Looping {s} {s'} (TransmitterStep.pop_item n item e) l a =
        subst AllFrames ((pop-true k s s' item e).0) a
    TransmitterStep-Looping {s} {s'} (TransmitterStep.fail_pop n item e) l a =
        absurd (pops s s' item e)
    TransmitterStep-Looping TransmitterStep.count_failure l a = absurd l
    TransmitterStep-Looping (TransmitterStep.count_end n item e) l a = absurd (cc (e, l))
    TransmitterStep-Looping (TransmitterStep.print_frame n item e) l a = (tt, a)
    TransmitterStep-Looping (TransmitterStep.count_transmitted n) l a = (tt, a)
    TransmitterStep-Looping (TransmitterStep.give_semaphore ok) l a = absurd l

    Step-SentOrUnended :
        {y z : System k}
        → Step k y z
        → SentOrUnended y.main y.producer y.transmitter y.queue
        → SentOrUnended z.main z.producer z.transmitter z.queue
    Step-SentOrUnended (Step.main_step st) h = MainStep-SentOrUnended st h
    Step-SentOrUnended (Step.producer_step st) (inl h) = inl (ProducerStep-sent st h)
    Step-SentOrUnended (Step.producer_step st) (inr (w, l, a)) =
        elim (ProducerStep-AllFrames st a) [ inl h ↦ inl h | inr b ↦ inr (w, l, b) ]
    Step-SentOrUnended (Step.transmitter_step st) (inl h) = inl h
    Step-SentOrUnended (Step.transmitter_step st) (inr (w, l, a)) =
        let (l', a') = TransmitterStep-Looping st l a in inr (w, l', a')

    Reach-SentOrUnended :
        {y : System k} → Reach k (start k) y → SentOrUnended y.main y.producer y.transmitter y.queue
    unfolding start
    Reach-SentOrUnended Reach.here =
        inr (tt, tt, subst AllFrames (sym (telemetry_queue-contents k)) tt)
    Reach-SentOrUnended (Reach.then_step r st) = Step-SentOrUnended st (Reach-SentOrUnended r)

    failed_push_lem : (p : ProducerThread) → ProducerFailed p → end_is_sent p ≢ true
    failed_push_lem p f e = ground arith

    -- If no `pop` of the queue fails, then in no reachable state in which a push of the producer has
    -- given false has the program exited.
    pub unended-exited :
        (y : System k)
        → Reach k (start k) y
        → ProducerFailed y.producer
        → (code : ℕ) → y.main ≢ MainThread.exited code
    unended-exited y r f code e = elim (Reach-SentOrUnended r) [
      | inl h ↦ failed_push_lem y.producer f h
      | inr (w, l, a) ↦ subst Waiting e w
    ]

-- ===== src/Firmware/Queue/Laws.antt =====
-- What the firmware's queue does, by the answers of the kernel's queue (telemetry_queue.cpp).
use cpp_embedded_telemetry_l.Common.{
  ℕ, ◌≤◌, ◌<◌, ◌≡◌, ◌≢◌, refl, ◌∙◌, ap, arith, Bool, true, false, List, [], ◌∷◌, ◌++◌, length,
}
use cpp_embedded_telemetry_l.Common.Int.{ℤ, pos}
use cpp_embedded_telemetry_l.Firmware.MessageQueue.{PutOutcome, GetOutcome, MessageQueue}
use cpp_embedded_telemetry_l.Firmware.Queue.{
  TelemetryQueueItem, frame_item, end_item, telemetry_queue_capacity, is_zero, PushResult,
  PopResult, put_result, get_result, telemetry_queue, push_frame, push_end_of_stream, pop, empty,
}

is_zero-true : (z : ℤ) → is_zero z ≡ true → z ≡ pos 0
is_zero-true z h = ground arith

is_zero-false : (z : ℤ) → is_zero z ≡ false → z ≢ pos 0
is_zero-false z h e = ground arith

module _ (k : MessageQueue TelemetryQueueItem) where
  open k use {
    State, put, get, contents, capacity, put-blocked, put-stored, put-room, put-failed, get-blocked,
    get-taken, get-failed, num_used_get-length, purge-contents, purge-capacity, create,
    create-capacity,
  }

  put_waits :
      (s : State) (x : TelemetryQueueItem) (o : PutOutcome State)
      → put s x ≡ o
      → put_result k o ≡ PushResult.waits
      → capacity s ≤ length (contents s)
  unfolding put_result
  put_waits s x PutOutcome.blocked p e = put-blocked s x p
  put_waits s x (PutOutcome.returns status t) p e = ground arith

  put_returns :
      (s t : State) (x : TelemetryQueueItem) (ok : Bool) (o : PutOutcome State)
      → put s x ≡ o
      → put_result k o ≡ PushResult.returns ok t
      → (status : ℤ) × (put s x ≡ PutOutcome.returns status t) × (is_zero status ≡ ok)
  unfolding put_result
  put_returns s t x ok PutOutcome.blocked p e = absurd (cc e)
  put_returns s t x ok (PutOutcome.returns status u) p e = (status, cc (p, e), cc e)

  put_true :
      (s t : State) (x : TelemetryQueueItem)
      → put_result k (put s x) ≡ PushResult.returns true t
      → (contents t ≡ contents s ++ (x ∷ [])) × (capacity t ≡ capacity s)
  put_true s t x e =
      let (status, p, z) = put_returns s t x true (put s x) refl e in
      put-stored s x t (p ∙ ap (λ n. PutOutcome.returns n t) (is_zero-true status z))

  put_room :
      (s t : State) (x : TelemetryQueueItem)
      → put_result k (put s x) ≡ PushResult.returns true t
      → length (contents s) < capacity s
  put_room s t x e =
      let (status, p, z) = put_returns s t x true (put s x) refl e in
      put-room s x t (p ∙ ap (λ n. PutOutcome.returns n t) (is_zero-true status z))

  put_false :
      (s t : State) (x : TelemetryQueueItem)
      → put_result k (put s x) ≡ PushResult.returns false t
      → (contents t ≡ contents s) × (capacity t ≡ capacity s)
  put_false s t x e =
      let (status, p, z) = put_returns s t x false (put s x) refl e in
      put-failed s x status t p (is_zero-false status z)

  get_returns :
      (s t : State) (x : TelemetryQueueItem) (ok : Bool) (o : GetOutcome TelemetryQueueItem State)
      → get s ≡ o
      → get_result k o ≡ PopResult.returns ok x t
      → (status : ℤ) × (get s ≡ GetOutcome.returns status x t) × (is_zero status ≡ ok)
  unfolding get_result
  get_returns s t x ok GetOutcome.blocked p e = absurd (cc e)
  get_returns s t x ok (GetOutcome.returns status y u) p e = (status, cc (p, e), cc e)

  get_waits :
      (s : State) (o : GetOutcome TelemetryQueueItem State)
      → get s ≡ o
      → get_result k o ≡ PopResult.waits
      → contents s ≡ []
  unfolding get_result
  get_waits s GetOutcome.blocked p e = get-blocked s p
  get_waits s (GetOutcome.returns status x t) p e = absurd (cc e)

  -- The status behind a `bool`.
  pub push_frame-status :
      (s t : State) (bytes : List ℕ) (ok : Bool)
      → push_frame k s bytes ≡ PushResult.returns ok t
      → (status : ℤ) × (put s (frame_item bytes) ≡ PutOutcome.returns status t)
        × (is_zero status ≡ ok)
  unfolding push_frame
  push_frame-status s t bytes ok e =
      put_returns s t (frame_item bytes) ok (put s (frame_item bytes)) refl e

  pub push_end_of_stream-status :
      (s t : State) (ok : Bool)
      → push_end_of_stream k s ≡ PushResult.returns ok t
      → (status : ℤ) × (put s end_item ≡ PutOutcome.returns status t) × (is_zero status ≡ ok)
  unfolding push_end_of_stream
  push_end_of_stream-status s t ok e = put_returns s t end_item ok (put s end_item) refl e

  pub pop-status :
      (s t : State) (x : TelemetryQueueItem) (ok : Bool)
      → pop k s ≡ PopResult.returns ok x t
      → (status : ℤ) × (get s ≡ GetOutcome.returns status x t) × (is_zero status ≡ ok)
  unfolding pop
  pop-status s t x ok e = get_returns s t x ok (get s) refl e

  -- A push waits only while the queue is full; it gives true exactly if the item now stands at the
  -- end, and false leaves the items as they were.
  pub push_frame-waits :
      (s : State) (bytes : List ℕ)
      → push_frame k s bytes ≡ PushResult.waits
      → capacity s ≤ length (contents s)
  unfolding push_frame
  push_frame-waits s bytes e = put_waits s (frame_item bytes) (put s (frame_item bytes)) refl e

  pub push_frame-true :
      (s t : State) (bytes : List ℕ)
      → push_frame k s bytes ≡ PushResult.returns true t
      → (contents t ≡ contents s ++ (frame_item bytes ∷ [])) × (capacity t ≡ capacity s)
  unfolding push_frame
  push_frame-true s t bytes e = put_true s t (frame_item bytes) e

  pub push_frame-room :
      (s t : State) (bytes : List ℕ)
      → push_frame k s bytes ≡ PushResult.returns true t
      → length (contents s) < capacity s
  unfolding push_frame
  push_frame-room s t bytes e = put_room s t (frame_item bytes) e

  pub push_frame-false :
      (s t : State) (bytes : List ℕ)
      → push_frame k s bytes ≡ PushResult.returns false t
      → (contents t ≡ contents s) × (capacity t ≡ capacity s)
  unfolding push_frame
  push_frame-false s t bytes e = put_false s t (frame_item bytes) e

  pub push_end_of_stream-waits :
      (s : State) → push_end_of_stream k s ≡ PushResult.waits → capacity s ≤ length (contents s)
  unfolding push_end_of_stream
  push_end_of_stream-waits s e = put_waits s end_item (put s end_item) refl e

  pub push_end_of_stream-true :
      (s t : State)
      → push_end_of_stream k s ≡ PushResult.returns true t
      → (contents t ≡ contents s ++ (end_item ∷ [])) × (capacity t ≡ capacity s)
  unfolding push_end_of_stream
  push_end_of_stream-true s t e = put_true s t end_item e

  pub push_end_of_stream-room :
      (s t : State)
      → push_end_of_stream k s ≡ PushResult.returns true t
      → length (contents s) < capacity s
  unfolding push_end_of_stream
  push_end_of_stream-room s t e = put_room s t end_item e

  pub push_end_of_stream-false :
      (s t : State)
      → push_end_of_stream k s ≡ PushResult.returns false t
      → (contents t ≡ contents s) × (capacity t ≡ capacity s)
  unfolding push_end_of_stream
  push_end_of_stream-false s t e = put_false s t end_item e

  pub pop-waits : (s : State) → pop k s ≡ PopResult.waits → contents s ≡ []
  unfolding pop
  pop-waits s e = get_waits s (get s) refl e

  pub pop-true :
      (s t : State) (x : TelemetryQueueItem)
      → pop k s ≡ PopResult.returns true x t
      → (contents s ≡ x ∷ contents t) × (capacity t ≡ capacity s)
  unfolding pop
  pop-true s t x e =
      let (status, p, z) = get_returns s t x true (get s) refl e in
      get-taken s x t (p ∙ ap (λ n. GetOutcome.returns n x t) (is_zero-true status z))

  pub pop-false :
      (s t : State) (x : TelemetryQueueItem)
      → pop k s ≡ PopResult.returns false x t
      → (contents t ≡ contents s) × (capacity t ≡ capacity s)
  unfolding pop
  pop-false s t x e =
      let (status, p, z) = get_returns s t x false (get s) refl e in
      get-failed s status x t p (is_zero-false status z)

  pub telemetry_queue-contents : contents (telemetry_queue k) ≡ []
  unfolding telemetry_queue
  telemetry_queue-contents = purge-contents (create telemetry_queue_capacity)

  pub telemetry_queue-capacity : capacity (telemetry_queue k) ≡ telemetry_queue_capacity
  unfolding telemetry_queue
  telemetry_queue-capacity =
      purge-capacity (create telemetry_queue_capacity) ∙ create-capacity telemetry_queue_capacity

  pub empty-contents : (s : State) → contents s ≡ [] → empty k s ≡ true
  unfolding empty
  empty-contents s e = rw (num_used_get-length s ∙ ap length e) refl

-- ===== src/Firmware/Queue.antt =====
-- firmware_types.hpp, telemetry_queue.hpp and telemetry_queue.cpp: the firmware's queue over the
-- kernel's message queue. The class has no members: its state is that of the static queue.
pub mod Laws
use cpp_embedded_telemetry_l.Common.{ℕ, Bool, true, false, List, replicate, ◌==◌}
use cpp_embedded_telemetry_l.Common.Int.{ℤ, pos, negsuc}
use cpp_embedded_telemetry_l.Protocol.Types.{frame_size}
use cpp_embedded_telemetry_l.Firmware.MessageQueue.{PutOutcome, GetOutcome, MessageQueue}

pub data QueueItemKind : Type 0 where
  frame end_of_stream : QueueItemKind

pub record TelemetryQueueItem : Type 0 where
  pub kind : QueueItemKind
  pub bytes : List ℕ

abbrev pub telemetry_queue_capacity : ℕ
telemetry_queue_capacity = 4

-- The items of `push_frame` and `push_end_of_stream`.
abbrev pub frame_item : List ℕ → TelemetryQueueItem
frame_item bytes = record { kind = QueueItemKind.frame; bytes = bytes }

abbrev pub end_item : TelemetryQueueItem
end_item = record { kind = QueueItemKind.end_of_stream; bytes = replicate frame_size 0 }

-- `status == 0`
abbrev pub is_zero : ℤ → Bool
is_zero (pos n) = n == 0
is_zero (negsuc n) = false

-- A call that waits, or that returns a `bool`.
pub data PushResult (S : Type 0) : Type 0 where
  waits : PushResult S
  returns : Bool → S → PushResult S

-- `pop` also fills the caller's item.
pub data PopResult (S : Type 0) : Type 0 where
  waits : PopResult S
  returns : Bool → TelemetryQueueItem → S → PopResult S

module _ (k : MessageQueue TelemetryQueueItem) where
  open k use {State, create, purge, put, get, num_used_get}

  unfoldable pub put_result : PutOutcome State → PushResult State
  put_result PutOutcome.blocked = PushResult.waits
  put_result (PutOutcome.returns status s) = PushResult.returns (is_zero status) s

  unfoldable pub get_result : GetOutcome TelemetryQueueItem State → PopResult State
  get_result GetOutcome.blocked = PopResult.waits
  get_result (GetOutcome.returns status item s) = PopResult.returns (is_zero status) item s

  -- The static queue and the constructor.
  unfoldable pub telemetry_queue : State
  telemetry_queue = purge (create telemetry_queue_capacity)

  unfoldable pub push_frame : State → List ℕ → PushResult State
  unfolding put_result
  push_frame s bytes = put_result (put s (frame_item bytes))

  pub push_end_of_stream : State → PushResult State
  unfolding put_result
  push_end_of_stream s = put_result (put s end_item)

  unfoldable pub pop : State → PopResult State
  unfolding get_result
  pop s = get_result (get s)

  pub empty : State → Bool
  empty s = num_used_get s == 0

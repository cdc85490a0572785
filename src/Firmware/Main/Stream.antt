-- ===== src/Firmware/Main/Stream.antt =====
-- The items between the two threads, and what will have been printed when they are through
-- (telemetry_producer.cpp, telemetry_transmitter.cpp).
use cpp_embedded_telemetry_l.Common.{
  ℕ, suc, ◌+◌, ◌-◌, ◌≤◌, ◌<◌, ◌≡◌, refl, ap, arith, List, [], ◌∷◌, ◌++◌, map,
}
use cpp_embedded_telemetry_l.Protocol.Serializer.{serialize}
use cpp_embedded_telemetry_l.Firmware.SensorModel.{frame_at, count_up}
use cpp_embedded_telemetry_l.Firmware.Queue.{
  QueueItemKind, TelemetryQueueItem, frame_item, end_item,
}
use cpp_embedded_telemetry_l.Firmware.Producer.{ProducerThread}
use cpp_embedded_telemetry_l.Firmware.Transmitter.{
  Printk, frame_line, next_transmission, TransmitterThread,
}

-- The items that the producer pushes when the model stands at `i`: a frame for each sample left,
-- then the end marker.
abbrev pub item_at : ℕ → TelemetryQueueItem
item_at i = frame_item (serialize (frame_at i))

abbrev pub items_from : ℕ → List TelemetryQueueItem
items_from i = map item_at (count_up (8 - i) i) ++ (end_item ∷ [])

pub items_from-next : (i : ℕ) → i < 8 → items_from i ≡ item_at i ∷ items_from (i + 1)
items_from-next i h =
    let e : 8 - i ≡ suc (8 - (i + 1)) = omega arith in
    ap (λ n. map item_at (count_up n i) ++ (end_item ∷ [])) e

pub items_from-end : (i : ℕ) → 8 ≤ i → items_from i ≡ end_item ∷ []
items_from-end i h =
    let e : 8 - i ≡ 0 = omega arith in ap (λ n. map item_at (count_up n i) ++ (end_item ∷ [])) e

-- What the producer still has to push, and what the transmitter has in hand.
abbrev pub to_push : ProducerThread → ℕ → List TelemetryQueueItem
to_push ProducerThread.not_started i = items_from i
to_push ProducerThread.testing i = items_from i
to_push (ProducerThread.serializing f) i = frame_item (serialize f) ∷ items_from i
to_push (ProducerThread.pushing bytes) i = frame_item bytes ∷ items_from i
to_push ProducerThread.pushed i = items_from i
to_push ProducerThread.ending i = end_item ∷ []
to_push _ i = []

abbrev pub in_hand : TransmitterThread → List TelemetryQueueItem
in_hand (TransmitterThread.handling n item) = item ∷ []
in_hand _ = []

-- The items on their way, the next one to be printed first.
abbrev pub pending :
    TransmitterThread → List TelemetryQueueItem → ProducerThread → ℕ → List TelemetryQueueItem
pending t items p i = in_hand t ++ (items ++ to_push p i)

-- The index of the last line.
abbrev pub transmission_index : TransmitterThread → ℕ
transmission_index (TransmitterThread.popping n) = n
transmission_index (TransmitterThread.handling n item) = n
transmission_index (TransmitterThread.printed n) = n
transmission_index _ = 0

-- The lines of the frames before the end marker, on top of those that have been printed.
abbrev pub transmit : ℕ → List Printk → List TelemetryQueueItem → List Printk
transmit n out [] = out
transmit n out (x ∷ xs) = elim x.kind [
  | QueueItemKind.frame ↦
      transmit (next_transmission n) (out ++ (frame_line (next_transmission n) x.bytes ∷ [])) xs
  | QueueItemKind.end_of_stream ↦ out
]

-- One end marker, as the last item.
abbrev pub EndsOnce : List TelemetryQueueItem → Type 0
EndsOnce [] = ⊥
EndsOnce (x ∷ xs) = elim x.kind [
  | QueueItemKind.frame ↦ EndsOnce xs
  | QueueItemKind.end_of_stream ↦ xs ≡ []
]

abbrev pub frame_count : List TelemetryQueueItem → ℕ
frame_count [] = 0
frame_count (x ∷ xs) = elim x.kind [
  | QueueItemKind.frame ↦ suc (frame_count xs)
  | QueueItemKind.end_of_stream ↦ frame_count xs
]

-- The stream of all eight frames.
pub items_from-EndsOnce : EndsOnce (items_from 0)
items_from-EndsOnce = refl

pub frame_count-items_from : frame_count (items_from 0) ≡ 8
frame_count-items_from = refl

-- What is printed for the whole stream.
abbrev pub frame_lines : List Printk
frame_lines = map (λ i. frame_line (i + 1) (serialize (frame_at i))) (count_up 8 0)

pub frame_lines-transmit : transmit 0 [] (items_from 0) ≡ frame_lines
frame_lines-transmit = refl

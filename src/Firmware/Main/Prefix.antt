-- ===== src/Firmware/Main/Prefix.antt =====
-- Outputs that are a beginning of the lines of the eight frames (telemetry_transmitter.cpp).
use mathlib.Core.List.{append-nil, append_assoc}
use cpp_embedded_telemetry_l.Common.{ℕ, ◌≡◌, refl, sym, ◌∙◌, List, [], ◌∷◌, ◌++◌}
use cpp_embedded_telemetry_l.Firmware.Queue.{QueueItemKind, TelemetryQueueItem}
use cpp_embedded_telemetry_l.Firmware.Transmitter.{
  Printk, frame_line, next_transmission, TransmitterThread,
}
use cpp_embedded_telemetry_l.Firmware.Main.Stream.{transmission_index, transmit, frame_lines}
use cpp_embedded_telemetry_l.Firmware.Main.Prints.{transmit_frame}

abbrev pub IsPrefix : List Printk → Type 0
IsPrefix out = (rest : List Printk) × (out ++ rest ≡ frame_lines)

abbrev line_of : ℕ → TelemetryQueueItem → Printk
line_of n x = frame_line (next_transmission n) x.bytes

item-append :
    (n : ℕ) (out : List Printk) (x : TelemetryQueueItem) (items : List TelemetryQueueItem)
    (kind : QueueItemKind)
    → x.kind ≡ kind
    → (rest : List Printk) × ((out ++ (line_of n x ∷ [])) ++ rest
        ≡ transmit (next_transmission n) (out ++ (line_of n x ∷ [])) items)
    → (rest : List Printk) × (out ++ rest ≡ transmit n out (x ∷ items))
item-append n out x items QueueItemKind.frame e (rest, d) = (
  line_of n x ∷ rest,
  sym (append_assoc out (line_of n x ∷ []) rest) ∙ d ∙ sym (transmit_frame x items n out e),
)
item-append n out x items QueueItemKind.end_of_stream e (rest, d) = ([], append-nil out ∙ rw e refl)

-- What is printed comes on top of what has been printed.
transmit-append :
    (n : ℕ) (out : List Printk) (items : List TelemetryQueueItem)
    → (rest : List Printk) × (out ++ rest ≡ transmit n out items)
transmit-append n out [] = ([], append-nil out)
transmit-append n out (x ∷ items) =
    item-append n out x items x.kind refl
      (transmit-append (next_transmission n) (out ++ (line_of n x ∷ [])) items)

pub transmit-IsPrefix :
    (n : ℕ) (out : List Printk) (items : List TelemetryQueueItem)
    → transmit n out items ≡ frame_lines
    → IsPrefix out
transmit-IsPrefix n out items e = let (rest, d) = transmit-append n out items in (rest, d ∙ e)

-- While the transmitter is in its loop, the lines of the items on their way complete the output.
abbrev pub Streaming : TransmitterThread → List Printk → List TelemetryQueueItem → Type 0
Streaming TransmitterThread.pop_failed out items = IsPrefix out
Streaming (TransmitterThread.returned ok) out items = IsPrefix out
Streaming (TransmitterThread.finished ok) out items = IsPrefix out
Streaming t out items = transmit (transmission_index t) out items ≡ frame_lines

pub Streaming-IsPrefix :
    (t : TransmitterThread) (out : List Printk) (items : List TelemetryQueueItem)
    → Streaming t out items
    → IsPrefix out
Streaming-IsPrefix TransmitterThread.not_started out items h = transmit-IsPrefix 0 out items h
Streaming-IsPrefix (TransmitterThread.popping n) out items h = transmit-IsPrefix n out items h
Streaming-IsPrefix (TransmitterThread.handling n x) out items h = transmit-IsPrefix n out items h
Streaming-IsPrefix (TransmitterThread.printed n) out items h = transmit-IsPrefix n out items h
Streaming-IsPrefix TransmitterThread.pop_failed out items h = h
Streaming-IsPrefix (TransmitterThread.returned ok) out items h = h
Streaming-IsPrefix (TransmitterThread.finished ok) out items h = h

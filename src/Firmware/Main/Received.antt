-- ===== src/Firmware/Main/Received.antt =====
-- What a reader of the firmware's output gets: the lines of the frames read back (main.cpp,
-- telemetry_transmitter.cpp).
use cpp_embedded_telemetry_l.Common.{
  ℕ, ◌<◌, ◌≡◌, refl, sym, ap, ◌∙◌, arith, List, [], ◌∷◌, ◌++◌, All, true, map, take, Option,
}
use mathlib.Core.List.{append-nil, append_assoc}
use cpp_embedded_telemetry_l.Protocol.Serializer.Layout.{serialize_shape}
use cpp_embedded_telemetry_l.Protocol.RoundTrip.{deserialize-serialize}
use cpp_embedded_telemetry_l.Protocol.Types.{TelemetryFrame}
use cpp_embedded_telemetry_l.Protocol.Serializer.{serialize}
use cpp_embedded_telemetry_l.Protocol.Deserializer.{deserialize}
use cpp_embedded_telemetry_l.Firmware.SensorModel.{frame_at, count_up, sample-IsFrame}
use cpp_embedded_telemetry_l.Firmware.HexFormatter.{
  read_hex, read_hex-format, hexadecimal_frame_length,
}
use cpp_embedded_telemetry_l.Firmware.MessageQueue.{MessageQueue}
use cpp_embedded_telemetry_l.Firmware.Queue.{TelemetryQueueItem, end_item}
use cpp_embedded_telemetry_l.Firmware.Transmitter.{Argument, Printk, frame_line, next_transmission}
use cpp_embedded_telemetry_l.Firmware.Main.{MainThread, System, Reach, start, conclusion}
use cpp_embedded_telemetry_l.Firmware.Main.Conditions.{program_output, full_metrics}
use cpp_embedded_telemetry_l.Firmware.Main.Stream.{
  item_at, frame_lines, frame_lines-transmit, transmit,
}
use cpp_embedded_telemetry_l.Firmware.Main.Outcome.{exited_success}

-- The frame that a line shows: its digits read as bytes, and these deserialized.
pub read_arguments : List Argument → Option TelemetryFrame
read_arguments (Argument.number n ∷ Argument.buffer text ∷ []) =
    (deserialize (read_hex (take hexadecimal_frame_length text))).frame
read_arguments _ = Option.none

abbrev keep : Option TelemetryFrame → List TelemetryFrame → List TelemetryFrame
keep Option.none frames = frames
keep (Option.some f) frames = f ∷ frames

keep-append :
    (o : Option TelemetryFrame) (fs gs hs : List TelemetryFrame)
    → hs ≡ fs ++ gs
    → keep o hs ≡ keep o fs ++ gs
keep-append Option.none fs gs hs e = e
keep-append (Option.some f) fs gs hs e = ap (λ l. f ∷ l) e

-- The frames of all lines that show one.
abbrev pub received_frames : List Printk → List TelemetryFrame
received_frames [] = []
received_frames (line ∷ lines) = keep (read_arguments line.arguments) (received_frames lines)

line-frame :
    (i n : ℕ)
    → i < 8
    → read_arguments ((frame_line n (serialize (frame_at i))).arguments) ≡ Option.some (frame_at i)
unfolding read_arguments
line-frame i n h =
    let (size, bytes) = serialize_shape (frame_at i) in
    ap (λ b. (deserialize b).frame) (read_hex-format (serialize (frame_at i)) bytes size)
    ∙ ap (λ r. r.frame) (deserialize-serialize (frame_at i) (sample-IsFrame i h))

received_frames-append :
    (a b : List Printk) → received_frames (a ++ b) ≡ received_frames a ++ received_frames b
received_frames-append [] b = refl
received_frames-append (x ∷ a) b =
    keep-append (read_arguments x.arguments) (received_frames a) (received_frames b)
      (received_frames (a ++ b)) (received_frames-append a b)

received_frames-transmit :
    (n : ℕ) (out : List Printk) (indices : List ℕ)
    → All (λ i. i < 8) indices
    → received_frames (transmit n out (map item_at indices ++ (end_item ∷ [])))
      ≡ received_frames out ++ map frame_at indices
received_frames-transmit n out [] h = sym (append-nil (received_frames out))
received_frames-transmit n out (i ∷ indices) (l, h) =
    let line = frame_line (next_transmission n) (serialize (frame_at i)) in
    received_frames-transmit (next_transmission n) (out ++ (line ∷ [])) indices h
    ∙ ap (λ a. a ++ map frame_at indices)
        (received_frames-append out (line ∷ [])
          ∙ ap (λ o. received_frames out ++ keep o []) (line-frame i (next_transmission n) l))
    ∙ append_assoc (received_frames out) (frame_at i ∷ []) (map frame_at indices)

program_output-frames : received_frames program_output ≡ map frame_at (count_up 8 0)
unfolding read_arguments
program_output-frames =
    received_frames-append frame_lines (conclusion true full_metrics)
    ∙ append-nil (received_frames frame_lines)
    ∙ ap received_frames (sym frame_lines-transmit)
    ∙ received_frames-transmit 0 [] (count_up 8 0) (omega arith)

module _ (k : MessageQueue TelemetryQueueItem) where
  -- If the program exits with 0, the frames read back from its lines are the eight frames of the
  -- model's samples, in order, whatever the interleaving and whatever the calls on the queue give.
  pub exited-received_frames :
      (y : System k)
      → Reach k (start k) y
      → y.main ≡ MainThread.exited 0
      → received_frames y.output ≡ map frame_at (count_up 8 0)
  exited-received_frames y r e = ap received_frames (exited_success k y r e) ∙ program_output-frames

-- ===== src/Link.antt =====
-- The two programs together: the host run on the bytes of the firmware's lines (firmware main.cpp,
-- telemetry_transmitter.cpp; host main.cpp).
mod Examples
use cpp_embedded_telemetry_l.Common.{
  ℕ, ◌^◌, ◌≡◌, refl, sym, ap, ap₂, ◌+◌, ◌∙◌, subst, arith, true, List, [], ◌∷◌, ◌++◌, map, take,
  All, Option, some,
}
use cpp_embedded_telemetry_l.Common.Int.{pos, negsuc, wrap_i64, ◌+ℤ◌}
use cpp_embedded_telemetry_l.Protocol.Types.{IsByte, bits_of_int32, int32_of_bits}
use cpp_embedded_telemetry_l.Protocol.Crc32.{calculate_crc32}
use cpp_embedded_telemetry_l.Protocol.Serializer.{serialize}
use cpp_embedded_telemetry_l.Protocol.Serializer.Layout.{serialize_shape}
use cpp_embedded_telemetry_l.Protocol.Deserializer.{
  read_u16, read_u32, read_u64, read_frame, deserialize,
}
use cpp_embedded_telemetry_l.Firmware.SensorModel.{frame_at, count_up}
use cpp_embedded_telemetry_l.Firmware.HexFormatter.{
  format, read_hex, read_hex-format, hexadecimal_frame_length,
}
use cpp_embedded_telemetry_l.Firmware.MessageQueue.{MessageQueue}
use cpp_embedded_telemetry_l.Firmware.Queue.{TelemetryQueueItem}
use cpp_embedded_telemetry_l.Firmware.Transmitter.{Argument, Printk, frame_line}
use cpp_embedded_telemetry_l.Firmware.Main as Firmware
use cpp_embedded_telemetry_l.Firmware.Main.Conditions.{program_output, full_metrics}
use cpp_embedded_telemetry_l.Firmware.Main.Outcome.{exited_success}
use cpp_embedded_telemetry_l.Host.Metrics.{
  TelemetryMetricsSnapshot, initial, record_input, record_accepted, count_error,
  record_parse_rejected, record_sequence, record_flags, record_temperature, record_supply,
  record_processed, snapshot, has_flag, later_sequence,
}
use cpp_embedded_telemetry_l.Common.Inevitable.{Inevitably, Inevitably-map}
use cpp_embedded_telemetry_l.Host.Buffer.{ConcurrentBuffer}
use cpp_embedded_telemetry_l.Host.Pipeline as Host
use cpp_embedded_telemetry_l.Host.Pipeline.Forecast.{expected}
use cpp_embedded_telemetry_l.Host.Pipeline.Invariant.{Throws}
use cpp_embedded_telemetry_l.Host.Pipeline.Progress.{run-Completes}

-- The bytes of the lines that show a buffer, one input for each.
abbrev pub received_inputs : List Printk → List (List ℕ)
received_inputs [] = []
received_inputs (line ∷ lines) = elim line.arguments [
  | Argument.number n ∷ Argument.buffer text ∷ [] ↦
      read_hex (take hexadecimal_frame_length text) ∷ received_inputs lines
  | other ↦ received_inputs lines
]

-- The serialized frames of the model's samples.
abbrev pub firmware_inputs : List (List ℕ)
firmware_inputs = map (λ i. serialize (frame_at i)) (count_up 8 0)

received_inputs-map :
    (indices : List ℕ) (lines : List Printk)
    → received_inputs (map (λ i. frame_line (i + 1) (serialize (frame_at i))) indices ++ lines)
      ≡ map (λ i. serialize (frame_at i)) indices ++ received_inputs lines
received_inputs-map [] lines = refl
received_inputs-map (i ∷ indices) lines =
    let (size, bytes) = serialize_shape (frame_at i) in
    ap₂ ◌∷◌ (read_hex-format (serialize (frame_at i)) bytes size)
      (received_inputs-map indices lines)

received_inputs-firmware : received_inputs program_output ≡ firmware_inputs
received_inputs-firmware =
    received_inputs-map (count_up 8 0) (Firmware.conclusion true full_metrics)

frames-IsByte : (indices : List ℕ) → All (All IsByte) (map (λ i. serialize (frame_at i)) indices)
frames-IsByte [] = tt
frames-IsByte (i ∷ indices) = ((serialize_shape (frame_at i)).1, frames-IsByte indices)

abbrev pub firmware_snapshot : TelemetryMetricsSnapshot
firmware_snapshot = record {
  inputs_received = 8;
  frames_accepted = 8;
  frames_rejected = 0;
  queue_closed_rejections = 0;
  frames_processed = 8;
  parse_errors = record {
    invalid_frame_size = 0;
    invalid_magic = 0;
    unsupported_version = 0;
    unsupported_message_type = 0;
    invalid_payload_size = 0;
    checksum_mismatch = 0;
  };
  first_sequence = some 1000;
  last_sequence = some 1007;
  missing_sequences = 0;
  duplicate_sequences = 0;
  out_of_order_sequences = 0;
  sensor_warnings = 2;
  voltage_warnings = 2;
  communication_warnings = 2;
  watchdog_events = 2;
  minimum_temperature_millicelsius = some (negsuc 5499);
  maximum_temperature_millicelsius = some (pos 45000);
  temperature_sum_millicelsius = pos 152000;
  minimum_supply_millivolts = some 2800;
  maximum_supply_millivolts = some 3350;
  supply_sum_millivolts = 25050;
}

expected-firmware : snapshot (expected firmware_inputs) ≡ firmware_snapshot
unfolding serialize calculate_crc32 int32_of_bits read_u16 read_u32 read_u64 read_frame deserialize
    initial record_input record_accepted record_parse_rejected record_processed snapshot count_error
    record_sequence record_flags record_temperature record_supply has_flag later_sequence
    bits_of_int32 wrap_i64 ◌+ℤ◌
expected-firmware = refl

module _ (k : MessageQueue TelemetryQueueItem) (b : ConcurrentBuffer) where
  -- If the firmware exits with 0, and no call on the host's queue throws, every run of the host on
  -- the bytes of the firmware's lines comes, from each state that it can reach, to its report, which
  -- counts eight inputs, all accepted and processed, no sequence number missing, repeated or out of
  -- order, and these extremes and sums. So it is in each interleaving of both programs.
  pub host_reads-firmware :
      (y : Firmware.System k)
      → Firmware.Reach k (Firmware.start k) y
      → y.main ≡ Firmware.MainThread.exited 0
      → ¬ Throws b (received_inputs y.output)
      → (x : Host.System b) → Host.Reach b (received_inputs y.output) x
      → Inevitably
          (Host.Step b)
          (λ z. z.main ≡ Host.MainThread.exited (Host.Exit.reported firmware_snapshot))
          x
  host_reads-firmware y r e quiet x reach =
      let same = ap received_inputs (exited_success k y r e) ∙ received_inputs-firmware in
      let bytes = subst (All (All IsByte)) (sym same) (frames-IsByte (count_up 8 0)) in
      let shown = ap (λ inputs. snapshot (expected inputs)) same ∙ expected-firmware in
      Inevitably-map
        (λ z report. report ∙ ap (λ s. Host.MainThread.exited (Host.Exit.reported s)) shown)
        (run-Completes b (received_inputs y.output) bytes quiet x reach)

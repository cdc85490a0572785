-- ===== src/Host/Pipeline/Simulated.antt =====
-- The program on the inputs of its own source (main.cpp, simulated_frame_source.cpp).
use cpp_embedded_telemetry_l.Common.{
  ◌^◌, ℕ, ◌≡◌, refl, ap, ◌∙◌, arith, Bool, true, false, List, [], ◌∷◌, All, ltb, ◌&&◌, some,
}
use cpp_embedded_telemetry_l.Common.Int.{pos, negsuc, wrap_i64, ◌+ℤ◌}
use cpp_embedded_telemetry_l.Protocol.Types.{IsByte, bits_of_int32, int32_of_bits}
use cpp_embedded_telemetry_l.Protocol.Crc32.{calculate_crc32}
use cpp_embedded_telemetry_l.Protocol.Serializer.{serialize}
use cpp_embedded_telemetry_l.Protocol.Deserializer.{
  read_u16, read_u32, read_u64, read_frame, deserialize,
}
use cpp_embedded_telemetry_l.Host.Metrics.{
  TelemetryMetricsSnapshot, initial, record_input, record_accepted, count_error,
  record_parse_rejected, record_sequence, record_flags, record_temperature, record_supply,
  record_processed, snapshot, has_flag, later_sequence,
}
use cpp_embedded_telemetry_l.Common.Inevitable.{Inevitably, Inevitably-map}
use cpp_embedded_telemetry_l.Host.Buffer.{ConcurrentBuffer}
use cpp_embedded_telemetry_l.Host.Source.{
  generate, simulated_input_count, simulated_valid_frame_count,
}
use cpp_embedded_telemetry_l.Host.Pipeline.{Exit, MainThread, System, Step, Reach}
use cpp_embedded_telemetry_l.Host.Pipeline.Forecast.{expected}
use cpp_embedded_telemetry_l.Host.Pipeline.Invariant.{Throws}
use cpp_embedded_telemetry_l.Host.Pipeline.Progress.{run-Completes}

-- Eight frames are accepted and seven inputs rejected; 102 is missing at first and comes late, and
-- 103 comes twice.
abbrev pub simulated_snapshot : TelemetryMetricsSnapshot
simulated_snapshot = record {
  inputs_received = simulated_input_count;
  frames_accepted = simulated_valid_frame_count;
  frames_rejected = 7;
  queue_closed_rejections = 0;
  frames_processed = simulated_valid_frame_count;
  parse_errors = record {
    invalid_frame_size = 1;
    invalid_magic = 1;
    unsupported_version = 1;
    unsupported_message_type = 1;
    invalid_payload_size = 1;
    checksum_mismatch = 2;
  };
  first_sequence = some 100;
  last_sequence = some 106;
  missing_sequences = 1;
  duplicate_sequences = 1;
  out_of_order_sequences = 1;
  sensor_warnings = 3;
  voltage_warnings = 3;
  communication_warnings = 3;
  watchdog_events = 3;
  minimum_temperature_millicelsius = some (negsuc 9999);
  maximum_temperature_millicelsius = some (pos 30000);
  temperature_sum_millicelsius = pos 65000;
  minimum_supply_millivolts = some 2900;
  maximum_supply_millivolts = some 3600;
  supply_sum_millivolts = 26000;
}

-- The inputs are bytes, by a run of the test.
all_bytes : List ℕ → Bool
all_bytes [] = true
all_bytes (x ∷ xs) = ltb x (2 ^ 8) && all_bytes xs

all_inputs : List (List ℕ) → Bool
all_inputs [] = true
all_inputs (x ∷ xs) = all_bytes x && all_inputs xs

both : {P Q : Type 0} (a b : Bool) → (a && b) ≡ true → (a ≡ true → P) → (b ≡ true → Q) → P × Q
both true true h p q = (p refl, q refl)
both true false h p q = ground arith
both false b h p q = ground arith

all_bytes-IsByte : (xs : List ℕ) → all_bytes xs ≡ true → All IsByte xs
unfolding all_bytes
all_bytes-IsByte [] h = tt
all_bytes-IsByte (x ∷ xs) h =
    both (ltb x (2 ^ 8)) (all_bytes xs) h (λ e. ground arith) (all_bytes-IsByte xs)

all_inputs-IsByte : (xs : List (List ℕ)) → all_inputs xs ≡ true → All (All IsByte) xs
unfolding all_inputs
all_inputs-IsByte [] h = tt
all_inputs-IsByte (x ∷ xs) h =
    both (all_bytes x) (all_inputs xs) h (all_bytes-IsByte x) (all_inputs-IsByte xs)

generate-IsByte : All (All IsByte) generate
unfolding generate serialize calculate_crc32 all_inputs all_bytes bits_of_int32
generate-IsByte = all_inputs-IsByte generate refl

expected-simulated : snapshot (expected generate) ≡ simulated_snapshot
unfolding generate serialize calculate_crc32 int32_of_bits read_u16 read_u32 read_u64 read_frame
    deserialize initial record_input record_accepted record_parse_rejected record_processed snapshot
    count_error record_sequence record_flags record_temperature record_supply has_flag
    later_sequence bits_of_int32 wrap_i64 ◌+ℤ◌
expected-simulated = refl

-- If no call on the queue throws, every run of the program on its own inputs comes, from each state
-- that it can reach, to its report, which shows these numbers, whichever thread takes each step.
pub simulated-report :
    (b : ConcurrentBuffer)
    → ¬ Throws b generate
    → (y : System b) → Reach b generate y
    → Inevitably (Step b) (λ z. z.main ≡ MainThread.exited (Exit.reported simulated_snapshot)) y
simulated-report b quiet y r =
    Inevitably-map (λ z e. e ∙ ap (λ s. MainThread.exited (Exit.reported s)) expected-simulated)
      (run-Completes b generate generate-IsByte quiet y r)

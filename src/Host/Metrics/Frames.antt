-- ===== src/Host/Metrics/Frames.antt =====
-- Metrics after a history of processed frames, and what each block of `record_processed` leaves
-- alone (telemetry_metrics.cpp).
use cpp_embedded_telemetry_l.Common.{ℕ, ◌≡◌, arith, Option, List, [], ◌∷◌}
use cpp_embedded_telemetry_l.Common.Int.{ℤ}
use cpp_embedded_telemetry_l.Protocol.Types.{TelemetryFrame}
use cpp_embedded_telemetry_l.Host.Metrics.{
  TelemetryMetrics, inc64, record_sequence, record_flags, record_temperature, record_supply,
  record_processed,
}

-- The frames processed so far, the newest first, on top of `m`.
abbrev pub after : TelemetryMetrics → List TelemetryFrame → TelemetryMetrics
after m [] = m
after m (f ∷ fs) = record_processed (after m fs) f

-- The fields in groups: each block of `record_processed` changes one group.
pub record SequenceFields : Type 0 where
  pub first : Option ℕ
  pub last : Option ℕ
  pub missing : ℕ
  pub duplicates : ℕ
  pub out_of_order : ℕ

abbrev pub sequence_fields : TelemetryMetrics → SequenceFields
sequence_fields m = record {
  first = m.first_sequence;
  last = m.last_sequence;
  missing = m.missing_sequences;
  duplicates = m.duplicate_sequences;
  out_of_order = m.out_of_order_sequences;
}

pub record FlagFields : Type 0 where
  pub sensor : ℕ
  pub voltage : ℕ
  pub communication : ℕ
  pub watchdog : ℕ

abbrev pub flag_fields : TelemetryMetrics → FlagFields
flag_fields m = record {
  sensor = m.sensor_warnings;
  voltage = m.voltage_warnings;
  communication = m.communication_warnings;
  watchdog = m.watchdog_events;
}

pub record TemperatureFields : Type 0 where
  pub minimum : Option ℤ
  pub maximum : Option ℤ
  pub sum : ℤ

abbrev pub temperature_fields : TelemetryMetrics → TemperatureFields
temperature_fields m = record {
  minimum = m.minimum_temperature_millicelsius;
  maximum = m.maximum_temperature_millicelsius;
  sum = m.temperature_sum_millicelsius;
}

pub record SupplyFields : Type 0 where
  pub minimum : Option ℕ
  pub maximum : Option ℕ
  pub sum : ℕ

abbrev pub supply_fields : TelemetryMetrics → SupplyFields
supply_fields m = record {
  minimum = m.minimum_supply_millivolts;
  maximum = m.maximum_supply_millivolts;
  sum = m.supply_sum_millivolts;
}

-- The atomic counters, which the ingesting thread writes.
pub record AtomicFields : Type 0 where
  pub inputs_received : ℕ
  pub frames_accepted : ℕ
  pub frames_rejected : ℕ
  pub queue_closed_rejections : ℕ
  pub invalid_frame_size : ℕ
  pub invalid_magic : ℕ
  pub unsupported_version : ℕ
  pub unsupported_message_type : ℕ
  pub invalid_payload_size : ℕ
  pub checksum_mismatch : ℕ

abbrev pub atomic_fields : TelemetryMetrics → AtomicFields
atomic_fields m = record {
  inputs_received = m.inputs_received;
  frames_accepted = m.frames_accepted;
  frames_rejected = m.frames_rejected;
  queue_closed_rejections = m.queue_closed_rejections;
  invalid_frame_size = m.invalid_frame_size;
  invalid_magic = m.invalid_magic;
  unsupported_version = m.unsupported_version;
  unsupported_message_type = m.unsupported_message_type;
  invalid_payload_size = m.invalid_payload_size;
  checksum_mismatch = m.checksum_mismatch;
}

module _ (m : TelemetryMetrics) (f : TelemetryFrame) where
  pub record_processed-sequence :
      sequence_fields (record_processed m f) ≡ sequence_fields (record_sequence m f.header.sequence)
  unfolding record_processed record_sequence record_flags record_temperature record_supply
  record_processed-sequence = ground arith

  pub record_processed-flags :
      flag_fields (record_processed m f) ≡ flag_fields (record_flags m f.payload.status_flags)
  unfolding record_processed record_sequence record_flags record_temperature record_supply
  record_processed-flags = ground arith

  pub record_processed-temperature :
      temperature_fields (record_processed m f)
      ≡ temperature_fields (record_temperature m f.payload.temperature_millicelsius)
  unfolding record_processed record_sequence record_flags record_temperature record_supply
  record_processed-temperature = ground arith

  pub record_processed-supply :
      supply_fields (record_processed m f)
      ≡ supply_fields (record_supply m f.payload.supply_millivolts)
  unfolding record_processed record_sequence record_flags record_temperature record_supply
  record_processed-supply = ground arith

  pub record_processed-atomic : atomic_fields (record_processed m f) ≡ atomic_fields m
  unfolding record_processed record_sequence record_flags record_temperature record_supply
  record_processed-atomic = ground arith

  pub record_processed-count : (record_processed m f).frames_processed ≡ inc64 m.frames_processed
  unfolding record_processed record_sequence record_flags record_temperature record_supply
  record_processed-count = ground arith

-- ===== src/Host/Metrics.antt =====
-- telemetry_metrics.hpp and telemetry_metrics.cpp: the counters and statistics of the host.
-- The atomic counters and the plain fields are numbers that wrap at 2 ^ 64; a method returns the
-- new object.
pub mod Frames
pub mod Sequence
pub mod Statistics
pub mod Extremes
pub mod Commute
pub mod Order
pub mod Bag
pub mod Balance
pub mod Threads
use cpp_embedded_telemetry_l.Common.{
  ℕ, ◌+◌, ◌-◌, ◌%◌, ◌^◌, Bool, not, Option, none, some, ltb, ◌==◌, if◌then◌else◌, bit_and,
}
use mathlib.Core.Option
use cpp_embedded_telemetry_l.Common.Int.{ℤ, pos, ◌+ℤ◌, ltb_ℤ, wrap_i64}
use cpp_embedded_telemetry_l.Protocol.Types.{TelemetryFrame, StatusFlag, flag_value}
use cpp_embedded_telemetry_l.Protocol.Deserializer.{ParseError}

pub record ParseErrorCounters : Type 0 where
  pub invalid_frame_size : ℕ
  pub invalid_magic : ℕ
  pub unsupported_version : ℕ
  pub unsupported_message_type : ℕ
  pub invalid_payload_size : ℕ
  pub checksum_mismatch : ℕ

pub record TelemetryMetricsSnapshot : Type 0 where
  pub inputs_received : ℕ
  pub frames_accepted : ℕ
  pub frames_rejected : ℕ
  pub queue_closed_rejections : ℕ
  pub frames_processed : ℕ
  pub parse_errors : ParseErrorCounters
  pub first_sequence : Option ℕ
  pub last_sequence : Option ℕ
  pub missing_sequences : ℕ
  pub duplicate_sequences : ℕ
  pub out_of_order_sequences : ℕ
  pub sensor_warnings : ℕ
  pub voltage_warnings : ℕ
  pub communication_warnings : ℕ
  pub watchdog_events : ℕ
  pub minimum_temperature_millicelsius : Option ℤ
  pub maximum_temperature_millicelsius : Option ℤ
  pub temperature_sum_millicelsius : ℤ
  pub minimum_supply_millivolts : Option ℕ
  pub maximum_supply_millivolts : Option ℕ
  pub supply_sum_millivolts : ℕ

-- The members of the class, without the underscore at their end.
pub record TelemetryMetrics : Type 0 where
  pub inputs_received : ℕ
  pub frames_accepted : ℕ
  pub frames_rejected : ℕ
  pub queue_closed_rejections : ℕ
  pub invalid_frame_size : ℕ
  pub invalid_magic : ℕ
  pub unsupported_version : ℕ
  pub unsupported_message_type : ℕ
  pub invalid_payload_size : ℕ
  pub checksum_mismatch : ℕ
  pub frames_processed : ℕ
  pub first_sequence : Option ℕ
  pub last_sequence : Option ℕ
  pub missing_sequences : ℕ
  pub duplicate_sequences : ℕ
  pub out_of_order_sequences : ℕ
  pub sensor_warnings : ℕ
  pub voltage_warnings : ℕ
  pub communication_warnings : ℕ
  pub watchdog_events : ℕ
  pub minimum_temperature_millicelsius : Option ℤ
  pub maximum_temperature_millicelsius : Option ℤ
  pub temperature_sum_millicelsius : ℤ
  pub minimum_supply_millivolts : Option ℕ
  pub maximum_supply_millivolts : Option ℕ
  pub supply_sum_millivolts : ℕ

-- A new object, from the members' initializers.
unfoldable pub initial : TelemetryMetrics
initial = record {
  inputs_received = 0;
  frames_accepted = 0;
  frames_rejected = 0;
  queue_closed_rejections = 0;
  invalid_frame_size = 0;
  invalid_magic = 0;
  unsupported_version = 0;
  unsupported_message_type = 0;
  invalid_payload_size = 0;
  checksum_mismatch = 0;
  frames_processed = 0;
  first_sequence = none;
  last_sequence = none;
  missing_sequences = 0;
  duplicate_sequences = 0;
  out_of_order_sequences = 0;
  sensor_warnings = 0;
  voltage_warnings = 0;
  communication_warnings = 0;
  watchdog_events = 0;
  minimum_temperature_millicelsius = none;
  maximum_temperature_millicelsius = none;
  temperature_sum_millicelsius = pos 0;
  minimum_supply_millivolts = none;
  maximum_supply_millivolts = none;
  supply_sum_millivolts = 0;
}

-- Unsigned addition on `uint64_t`, and its increment.
abbrev pub add64 : ℕ → ℕ → ℕ
add64 a b = (a + b) % 2 ^ 64

abbrev pub inc64 : ℕ → ℕ
inc64 n = add64 n 1

unfoldable pub record_input : TelemetryMetrics → TelemetryMetrics
record_input m = record m { inputs_received = inc64 m.inputs_received }

unfoldable pub record_accepted : TelemetryMetrics → TelemetryMetrics
record_accepted m = record m { frames_accepted = inc64 m.frames_accepted }

-- The `switch` of `record_parse_rejected`.
unfoldable pub count_error : TelemetryMetrics → ParseError → TelemetryMetrics
count_error m ParseError.invalid_frame_size = record m {
  invalid_frame_size = inc64 m.invalid_frame_size;
}
count_error m ParseError.invalid_magic = record m { invalid_magic = inc64 m.invalid_magic }
count_error m ParseError.unsupported_version = record m {
  unsupported_version = inc64 m.unsupported_version;
}
count_error m ParseError.unsupported_message_type = record m {
  unsupported_message_type = inc64 m.unsupported_message_type;
}
count_error m ParseError.invalid_payload_size = record m {
  invalid_payload_size = inc64 m.invalid_payload_size;
}
count_error m ParseError.checksum_mismatch = record m {
  checksum_mismatch = inc64 m.checksum_mismatch;
}
count_error m ParseError.none = m

unfoldable pub record_parse_rejected : TelemetryMetrics → ParseError → TelemetryMetrics
unfolding count_error
record_parse_rejected m error =
    count_error (record m { frames_rejected = inc64 m.frames_rejected }) error

pub record_queue_closed : TelemetryMetrics → TelemetryMetrics
record_queue_closed m = record m {
  frames_rejected = inc64 m.frames_rejected;
  queue_closed_rejections = inc64 m.queue_closed_rejections;
}

unfoldable pub has_flag : ℕ → StatusFlag → Bool
has_flag flags flag = not (bit_and flags (flag_value flag) == 0)

-- A later sequence number, when `last` is the last one.
unfoldable pub later_sequence : TelemetryMetrics → ℕ → ℕ → TelemetryMetrics
later_sequence m sequence last =
    if sequence == last
    then record m { duplicate_sequences = inc64 m.duplicate_sequences }
    else if ltb last sequence
    then record m {
      missing_sequences =
          let distance = sequence - last in
          if ltb 1 distance then add64 m.missing_sequences (distance - 1) else m.missing_sequences;
      last_sequence = some sequence;
    }
    else record m { out_of_order_sequences = inc64 m.out_of_order_sequences }

-- `last_sequence_` has a value whenever `first_sequence_` has one: they are set together.
unfoldable pub record_sequence : TelemetryMetrics → ℕ → TelemetryMetrics
unfolding later_sequence
record_sequence m sequence = elim m.first_sequence [
  | none ↦ record m { first_sequence = some sequence; last_sequence = some sequence }
  | some _ ↦ elim m.last_sequence [ none ↦ m | some last ↦ later_sequence m sequence last ]
]

unfoldable pub record_flags : TelemetryMetrics → ℕ → TelemetryMetrics
record_flags m flags = record m {
  sensor_warnings =
      if has_flag flags StatusFlag.sensor_warning
      then inc64 m.sensor_warnings
      else m.sensor_warnings;
  voltage_warnings =
      if has_flag flags StatusFlag.voltage_warning
      then inc64 m.voltage_warnings
      else m.voltage_warnings;
  communication_warnings =
      if has_flag flags StatusFlag.communication_warning
      then inc64 m.communication_warnings
      else m.communication_warnings;
  watchdog_events =
      if has_flag flags StatusFlag.watchdog_event
      then inc64 m.watchdog_events
      else m.watchdog_events;
}

-- `std::min(a, b)` and `std::max(a, b)`, which give `a` when the two are equal.
abbrev pub min_ℤ : ℤ → ℤ → ℤ
min_ℤ a b = if ltb_ℤ b a then b else a

abbrev pub max_ℤ : ℤ → ℤ → ℤ
max_ℤ a b = if ltb_ℤ a b then b else a

abbrev pub min_ℕ : ℕ → ℕ → ℕ
min_ℕ a b = if ltb b a then b else a

abbrev pub max_ℕ : ℕ → ℕ → ℕ
max_ℕ a b = if ltb a b then b else a

-- The maximum has a value whenever the minimum has one: they are set together. (Without
-- it the source reads an empty optional, which the language leaves undefined.)
unfoldable pub record_temperature : TelemetryMetrics → ℤ → TelemetryMetrics
record_temperature m temperature = record m {
  minimum_temperature_millicelsius = elim m.minimum_temperature_millicelsius [
    | none ↦ some temperature
    | some lowest ↦ some (min_ℤ lowest temperature)
  ];
  maximum_temperature_millicelsius = elim m.minimum_temperature_millicelsius [
    | none ↦ some temperature
    | some _ ↦ Option.map (λ highest. max_ℤ highest temperature) m.maximum_temperature_millicelsius
  ];
  temperature_sum_millicelsius = wrap_i64 (m.temperature_sum_millicelsius +ℤ temperature);
}

unfoldable pub record_supply : TelemetryMetrics → ℕ → TelemetryMetrics
record_supply m supply = record m {
  minimum_supply_millivolts = elim m.minimum_supply_millivolts [
    | none ↦ some supply
    | some lowest ↦ some (min_ℕ lowest supply)
  ];
  maximum_supply_millivolts = elim m.minimum_supply_millivolts [
    | none ↦ some supply
    | some _ ↦ Option.map (λ highest. max_ℕ highest supply) m.maximum_supply_millivolts
  ];
  supply_sum_millivolts = add64 m.supply_sum_millivolts supply;
}

-- The blocks of `record_processed` in their order.
unfoldable pub record_processed : TelemetryMetrics → TelemetryFrame → TelemetryMetrics
record_processed m frame =
    let counted = record m { frames_processed = inc64 m.frames_processed } in
    let sequenced = record_sequence counted frame.header.sequence in
    let flagged = record_flags sequenced frame.payload.status_flags in
    let measured = record_temperature flagged frame.payload.temperature_millicelsius in
    record_supply measured frame.payload.supply_millivolts

unfoldable pub snapshot : TelemetryMetrics → TelemetryMetricsSnapshot
snapshot m = record {
  inputs_received = m.inputs_received;
  frames_accepted = m.frames_accepted;
  frames_rejected = m.frames_rejected;
  queue_closed_rejections = m.queue_closed_rejections;
  frames_processed = m.frames_processed;
  parse_errors = record {
    invalid_frame_size = m.invalid_frame_size;
    invalid_magic = m.invalid_magic;
    unsupported_version = m.unsupported_version;
    unsupported_message_type = m.unsupported_message_type;
    invalid_payload_size = m.invalid_payload_size;
    checksum_mismatch = m.checksum_mismatch;
  };
  first_sequence = m.first_sequence;
  last_sequence = m.last_sequence;
  missing_sequences = m.missing_sequences;
  duplicate_sequences = m.duplicate_sequences;
  out_of_order_sequences = m.out_of_order_sequences;
  sensor_warnings = m.sensor_warnings;
  voltage_warnings = m.voltage_warnings;
  communication_warnings = m.communication_warnings;
  watchdog_events = m.watchdog_events;
  minimum_temperature_millicelsius = m.minimum_temperature_millicelsius;
  maximum_temperature_millicelsius = m.maximum_temperature_millicelsius;
  temperature_sum_millicelsius = m.temperature_sum_millicelsius;
  minimum_supply_millivolts = m.minimum_supply_millivolts;
  maximum_supply_millivolts = m.maximum_supply_millivolts;
  supply_sum_millivolts = m.supply_sum_millivolts;
}

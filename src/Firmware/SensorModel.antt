-- ===== src/Firmware/SensorModel.antt =====
-- deterministic_sensor_model.cpp: eight fixed samples, each given once as a frame.
-- The object is its member `next_index_`; a method that changes it also returns the new one.
use cpp_embedded_telemetry_l.Common.{
  map, ◌≤◌, ◌↔◌, true, false, ℕ, zero, suc, ◌+◌, ◌-◌, ◌*◌, ◌%◌, ◌^◌, ◌<◌, ◌≡◌, refl, ap, arith,
  Bool, List, [], ◌∷◌, length, get_or, ltb, not, if◌then◌else◌, bit_or,
}
use cpp_embedded_telemetry_l.Common.Int.{ℤ, pos, negsuc}
use cpp_embedded_telemetry_l.Protocol.Types.{
  TelemetrySample, TelemetryFrame, ProtocolVersion, MessageType, StatusFlag, flag_value,
  telemetry_payload_size, supported_version, supported_message_type, IsFrame,
}

abbrev pub deterministic_sample_count : ℕ
deterministic_sample_count = 8

abbrev pub initial_sequence : ℕ
initial_sequence = 1000

abbrev pub initial_timestamp_microseconds : ℕ
initial_timestamp_microseconds = 1000000

abbrev pub timestamp_increment_microseconds : ℕ
timestamp_increment_microseconds = 250000

abbrev combine_flags : StatusFlag → StatusFlag → ℕ
combine_flags first second = bit_or (flag_value first) (flag_value second) % 2 ^ 16

abbrev sample : ℤ → ℕ → ℕ → ℕ → TelemetrySample
sample temperature pressure supply flags = record {
  temperature_millicelsius = temperature;
  pressure_pascal = pressure;
  supply_millivolts = supply;
  status_flags = flags;
}

abbrev pub samples : List TelemetrySample
samples =
    sample (negsuc 5499) 98500 2900 (flag_value StatusFlag.none)
    ∷ sample (pos 0) 100000 3300 (flag_value StatusFlag.sensor_warning)
    ∷ sample (pos 12500) 100800 3150 (flag_value StatusFlag.voltage_warning)
    ∷ sample (pos 23000) 101325 3300 (flag_value StatusFlag.communication_warning)
    ∷ sample (pos 31500) 102100 3250 (flag_value StatusFlag.watchdog_event)
    ∷ sample (pos 45000) 99500 2800
        (combine_flags StatusFlag.sensor_warning StatusFlag.voltage_warning)
    ∷ sample (pos 18500) 100500 3000
        (combine_flags StatusFlag.communication_warning StatusFlag.watchdog_event)
    ∷ sample (pos 27000) 101800 3350 (flag_value StatusFlag.none)
    ∷ []

-- `{}` for a sample and for a frame.
abbrev default_sample : TelemetrySample
default_sample = sample (pos 0) 0 0 0

abbrev pub default_frame : TelemetryFrame
default_frame = record {
  header = record {
    version = ProtocolVersion.v1;
    message_type = MessageType.telemetry_sample;
    payload_size = 0;
    sequence = 0;
    timestamp_microseconds = 0;
  };
  payload = default_sample;
}

unfoldable pub has_next : ℕ → Bool
has_next next_index = ltb next_index (length samples)

abbrev pub frame_at : ℕ → TelemetryFrame
frame_at current_index = record {
  header = record {
    version = supported_version;
    message_type = supported_message_type;
    payload_size = telemetry_payload_size;
    sequence = (initial_sequence + current_index % 2 ^ 32) % 2 ^ 32;
    timestamp_microseconds =
        (initial_timestamp_microseconds + current_index * timestamp_increment_microseconds % 2 ^ 64)
        % 2 ^ 64;
  };
  payload = get_or samples current_index default_sample;
}

pub next : ℕ → TelemetryFrame × ℕ
unfolding has_next
next next_index =
    if not (has_next next_index)
    then (default_frame, next_index)
    else (frame_at next_index, next_index + 1)

-- A `std::size_t` of the board has 32 bits.
pub remaining : ℕ → ℕ
remaining next_index = (length samples + 2 ^ 32 - next_index) % 2 ^ 32

-- The frames of the calls of `next` that the producer makes, while `has_next` holds.
pub frames_from : ℕ → ℕ → List TelemetryFrame
unfolding has_next next
frames_from zero next_index = []
frames_from (suc calls) next_index =
    let rest = frames_from calls ((next next_index).1) in
    if has_next next_index then (next next_index).0 ∷ rest else []

pub sample-IsFrame : (i : ℕ) → i < 8 → IsFrame (frame_at i)
sample-IsFrame i h = ground arith

pub next-lt : (i : ℕ) → i < 8 → has_next i ≡ true
unfolding has_next
next-lt i h = ground arith

-- `count` numbers from `first` on.
abbrev pub count_up : ℕ → ℕ → List ℕ
count_up zero first = []
count_up (suc count) first = first ∷ count_up count (first + 1)

frames_from-rest :
    (calls rest next_index : ℕ)
    → rest + next_index ≡ 8
    → rest ≤ calls
    → frames_from calls next_index ≡ map frame_at (count_up rest next_index)
unfolding frames_from
frames_from-rest zero zero next_index e h = refl
frames_from-rest zero (suc rest) next_index e h = absurd (omega arith)
frames_from-rest (suc calls) zero next_index e h = ground arith
frames_from-rest (suc calls) (suc rest) next_index e h = rw (next-lt next_index (omega arith)) (
    ap (◌∷◌ (frame_at next_index))
      (frames_from-rest calls rest (next_index + 1) (omega arith) (omega arith)))

-- A caller that may call at least eight times, while a frame is left, gets the eight frames in order.
pub frames_from-samples :
    (calls : ℕ) → 8 ≤ calls → frames_from calls 0 ≡ map frame_at (count_up 8 0)
frames_from-samples calls h = frames_from-rest calls 8 0 (omega arith) h

pub has_next-lt : (i : ℕ) → has_next i ≡ true → i < 8
unfolding has_next
has_next-lt i h = ground arith

pub has_next-ge : (i : ℕ) → has_next i ≡ false → 8 ≤ i
unfolding has_next
has_next-ge i h = ground arith

pub next_value : (i : ℕ) → has_next i ≡ true → next i ≡ (frame_at i, i + 1)
unfolding next
next_value i h = rw h refl

-- Of an index that is within the samples: a call of `next` takes one frame from those that remain,
-- and `has_next` tells if one remains.
pub next-remaining :
    (i : ℕ)
    → i ≤ 8
    → (remaining ((next i).1) ≡ remaining i - 1) × ((has_next i ≡ true) ↔ (0 < remaining i))
unfolding has_next next remaining
next-remaining i h = ground arith

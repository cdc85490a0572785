-- ===== src/Protocol/Types.antt =====
-- protocol_types.hpp: the frame, its field widths and the layout of its 34 bytes.
-- An unsigned field is its value, with the range of its width in `IsFrame`; `int32_t` is ℤ.
use cpp_embedded_telemetry_l.Common.{
  ℕ, ◌+◌, ◌-◌, ◌%◌, ◌^◌, ◌≤◌, ◌<◌, ◌≡◌, arith, List, [], ◌∷◌, ltb, if◌then◌else◌,
}
use cpp_embedded_telemetry_l.Common.Int.{ℤ, pos, negsuc, pos_part, neg_part}

pub data ProtocolVersion : Type 0 where
  v1 : ProtocolVersion

pub data MessageType : Type 0 where
  telemetry_sample : MessageType

pub data StatusFlag : Type 0 where
  none sensor_warning voltage_warning communication_warning watchdog_event : StatusFlag

-- The underlying values of the three enumerations, `static_cast<uint8_t>` and `<uint16_t>`.
abbrev pub version_value : ProtocolVersion → ℕ
version_value ProtocolVersion.v1 = 1

abbrev pub message_type_value : MessageType → ℕ
message_type_value MessageType.telemetry_sample = 1

abbrev pub flag_value : StatusFlag → ℕ
flag_value StatusFlag.none = 0
flag_value StatusFlag.sensor_warning = 1
flag_value StatusFlag.voltage_warning = 2
flag_value StatusFlag.communication_warning = 4
flag_value StatusFlag.watchdog_event = 8

pub record TelemetrySample : Type 0 where
  pub temperature_millicelsius : ℤ
  pub pressure_pascal : ℕ
  pub supply_millivolts : ℕ
  pub status_flags : ℕ

pub record FrameHeader : Type 0 where
  pub version : ProtocolVersion
  pub message_type : MessageType
  pub payload_size : ℕ
  pub sequence : ℕ
  pub timestamp_microseconds : ℕ

pub record TelemetryFrame : Type 0 where
  pub header : FrameHeader
  pub payload : TelemetrySample

abbrev pub magic : List ℕ
magic = 0x54 ∷ 0x4c ∷ []

abbrev pub header_size : ℕ
header_size = 18

abbrev pub telemetry_payload_size : ℕ
telemetry_payload_size = 12

abbrev pub crc_size : ℕ
crc_size = 4

abbrev pub frame_size : ℕ
frame_size = header_size + telemetry_payload_size + crc_size

abbrev pub supported_version : ProtocolVersion
supported_version = ProtocolVersion.v1

abbrev pub supported_message_type : MessageType
supported_message_type = MessageType.telemetry_sample

abbrev pub version_offset : ℕ
version_offset = 2

abbrev pub message_type_offset : ℕ
message_type_offset = 3

abbrev pub payload_size_offset : ℕ
payload_size_offset = 4

abbrev pub sequence_offset : ℕ
sequence_offset = 6

abbrev pub timestamp_offset : ℕ
timestamp_offset = 10

abbrev pub temperature_offset : ℕ
temperature_offset = 18

abbrev pub pressure_offset : ℕ
pressure_offset = 22

abbrev pub supply_voltage_offset : ℕ
supply_voltage_offset = 26

abbrev pub status_flags_offset : ℕ
status_flags_offset = 28

abbrev pub crc_offset : ℕ
crc_offset = 30

-- `std::bit_cast` between `int32_t` and `uint32_t`: two's complement.
unfoldable pub bits_of_int32 : ℤ → ℕ
bits_of_int32 (pos n) = n % 2 ^ 32
bits_of_int32 (negsuc n) = 2 ^ 32 - 1 - n % 2 ^ 32

unfoldable pub int32_of_bits : ℕ → ℤ
int32_of_bits w = if ltb w (2 ^ 31) then pos w else negsuc (2 ^ 32 - 1 - w)

abbrev pub IsInt32 : ℤ → Type 0
IsInt32 z = (pos_part z < 2 ^ 31) × (neg_part z ≤ 2 ^ 31)

abbrev pub IsByte : ℕ → Type 0
IsByte b = b < 2 ^ 8

-- Each field of a frame lies in the range of its C++ type.
pub record IsFrame (f : TelemetryFrame) : Type 0 where
  pub payload_size_u16 : f.header.payload_size < 2 ^ 16
  pub sequence_u32 : f.header.sequence < 2 ^ 32
  pub timestamp_u64 : f.header.timestamp_microseconds < 2 ^ 64
  pub temperature_i32 : IsInt32 f.payload.temperature_millicelsius
  pub pressure_u32 : f.payload.pressure_pascal < 2 ^ 32
  pub supply_u16 : f.payload.supply_millivolts < 2 ^ 16
  pub flags_u16 : f.payload.status_flags < 2 ^ 16

pub bits_of_int32-lt : (z : ℤ) → bits_of_int32 z < 2 ^ 32
unfolding bits_of_int32
bits_of_int32-lt (pos n) = omega arith
bits_of_int32-lt (negsuc n) = omega arith

pub int32_of_bits-bits_of_int32 : (z : ℤ) → IsInt32 z → int32_of_bits (bits_of_int32 z) ≡ z
unfolding int32_of_bits bits_of_int32
int32_of_bits-bits_of_int32 (pos n) h = ground arith
int32_of_bits-bits_of_int32 (negsuc n) h = ground arith

pub bits_of_int32-int32_of_bits : (w : ℕ) → w < 2 ^ 32 → bits_of_int32 (int32_of_bits w) ≡ w
unfolding int32_of_bits bits_of_int32
bits_of_int32-int32_of_bits w h = ground arith

pub int32_of_bits-IsInt32 : (w : ℕ) → w < 2 ^ 32 → IsInt32 (int32_of_bits w)
unfolding int32_of_bits
int32_of_bits-IsInt32 w h = ground arith

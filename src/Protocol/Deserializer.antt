-- ===== src/Protocol/Deserializer.antt =====
-- deserializer.cpp: the checks on 34 bytes in their order, and the frame that passes them.
pub mod Reads
pub mod Checks
use cpp_embedded_telemetry_l.Common.{
  ℕ, zero, suc, ◌+◌, ◌*◌, ◌%◌, ◌^◌, Bool, true, false, not, ◌||◌, Option, List, get_or, take,
  length, ◌==◌, if◌then◌else◌, bit_or,
}
use cpp_embedded_telemetry_l.Protocol.Types.{
  TelemetryFrame, version_value, message_type_value, int32_of_bits, magic, frame_size,
  telemetry_payload_size, supported_version, supported_message_type, version_offset,
  message_type_offset, payload_size_offset, sequence_offset, timestamp_offset, temperature_offset,
  pressure_offset, supply_voltage_offset, status_flags_offset, crc_offset,
}
use cpp_embedded_telemetry_l.Protocol.Crc32.{calculate_crc32}

pub data ParseError : Type 0 where
  none invalid_frame_size invalid_magic unsupported_version unsupported_message_type : ParseError
  invalid_payload_size checksum_mismatch : ParseError

pub record ParseResult : Type 0 where
  pub frame : Option TelemetryFrame
  pub error : ParseError

abbrev pub has_value : ParseResult → Bool
has_value r = elim r.frame [ Option.none ↦ false | Option.some f ↦ true ]

-- `bytes[index]`. The reads stand behind the check of the size, so none is out of range.
abbrev pub byte_at : List ℕ → ℕ → ℕ
byte_at bytes index = get_or bytes index 0

unfoldable pub read_u16 : List ℕ → ℕ → ℕ
read_u16 bytes offset =
    let high = byte_at bytes offset * 2 ^ 8 % 2 ^ 32 in
    let low = byte_at bytes (offset + 1) in bit_or high low % 2 ^ 16

-- The loops of `read_u32` and `read_u64` with the rounds that are left, for a value of `width` bits.
read_loop : ℕ → ℕ → ℕ → List ℕ → ℕ → ℕ → ℕ
read_loop width zero index bytes offset value = value
read_loop width (suc rounds) index bytes offset value =
    read_loop width rounds (index + 1) bytes offset
      (bit_or (value * 2 ^ 8 % 2 ^ width) (byte_at bytes (offset + index)))

unfoldable pub read_u32 : List ℕ → ℕ → ℕ
unfolding read_loop
read_u32 bytes offset = read_loop 32 4 0 bytes offset 0

unfoldable pub read_u64 : List ℕ → ℕ → ℕ
unfolding read_loop
read_u64 bytes offset = read_loop 64 8 0 bytes offset 0

abbrev pub failure : ParseError → ParseResult
failure error = record { frame = Option.none; error = error }

-- The frame that is read once every check has passed.
unfoldable pub read_frame : List ℕ → TelemetryFrame
read_frame bytes = record {
  header = record {
    version = supported_version;
    message_type = supported_message_type;
    payload_size = read_u16 bytes payload_size_offset;
    sequence = read_u32 bytes sequence_offset;
    timestamp_microseconds = read_u64 bytes timestamp_offset;
  };
  payload = record {
    temperature_millicelsius = int32_of_bits (read_u32 bytes temperature_offset);
    pressure_pascal = read_u32 bytes pressure_offset;
    supply_millivolts = read_u16 bytes supply_voltage_offset;
    status_flags = read_u16 bytes status_flags_offset;
  };
}

unfoldable pub deserialize : List ℕ → ParseResult
deserialize bytes =
    if not (length bytes == frame_size)
    then failure ParseError.invalid_frame_size
    else if not (byte_at bytes 0 == get_or magic 0 0) || not (byte_at bytes 1 == get_or magic 1 0)
    then failure ParseError.invalid_magic
    else if not (byte_at bytes version_offset == version_value supported_version)
    then failure ParseError.unsupported_version
    else if not (byte_at bytes message_type_offset == message_type_value supported_message_type)
    then failure ParseError.unsupported_message_type
    else if not (read_u16 bytes payload_size_offset == telemetry_payload_size)
    then failure ParseError.invalid_payload_size
    else if not (read_u32 bytes crc_offset == calculate_crc32 (take crc_offset bytes))
    then failure ParseError.checksum_mismatch
    else record { frame = Option.some (read_frame bytes); error = ParseError.none }

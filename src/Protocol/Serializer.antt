-- ===== src/Protocol/Serializer.antt =====
-- serializer.cpp: a frame as 34 bytes, big-endian, with the CRC of the first 30 at the end.
-- The output array is a list of 34 numbers that each write updates in place.
pub mod Layout
use cpp_embedded_telemetry_l.Common.{
  ℕ, zero, suc, ◌+◌, ◌-◌, ◌*◌, ◌/◌, ◌%◌, ◌^◌, List, set, take, replicate, get_or, bit_and,
}
use cpp_embedded_telemetry_l.Protocol.Types.{
  TelemetryFrame, version_value, message_type_value, bits_of_int32, magic, frame_size,
  telemetry_payload_size, version_offset, message_type_offset, payload_size_offset, sequence_offset,
  timestamp_offset, temperature_offset, pressure_offset, supply_voltage_offset, status_flags_offset,
  crc_offset,
}
use cpp_embedded_telemetry_l.Protocol.Crc32.{calculate_crc32}

abbrev pub byte_mask : ℕ
byte_mask = 0xFF

-- `static_cast<uint8_t>((value >> shift) & byte_mask)`
abbrev pub byte_of : ℕ → ℕ → ℕ
byte_of value shift = bit_and (value / 2 ^ shift) byte_mask % 2 ^ 8

pub write_u16 : List ℕ → ℕ → ℕ → List ℕ
write_u16 output offset value =
    set (set output offset (byte_of value 8)) (offset + 1) (bit_and value byte_mask % 2 ^ 8)

pub write_u32 : List ℕ → ℕ → ℕ → List ℕ
write_u32 output offset value =
    let first = set output offset (byte_of value 24) in
    let second = set first (offset + 1) (byte_of value 16) in
    let third = set second (offset + 2) (byte_of value 8) in
    set third (offset + 3) (bit_and value byte_mask % 2 ^ 8)

-- The loop of `write_u64` with the rounds that are left; `sizeof(value)` is 8.
write_u64_loop : ℕ → ℕ → List ℕ → ℕ → ℕ → List ℕ
write_u64_loop zero index output offset value = output
write_u64_loop (suc rounds) index output offset value =
    let shift = (8 - 1 - index) * 8 in
    write_u64_loop rounds (index + 1) (set output (offset + index) (byte_of value shift)) offset
      value

pub write_u64 : List ℕ → ℕ → ℕ → List ℕ
unfolding write_u64_loop
write_u64 output offset value = write_u64_loop 8 0 output offset value

-- The writes before the CRC.
pub serialize_body : TelemetryFrame → List ℕ
unfolding write_u16 write_u32 write_u64
serialize_body frame =
    let output = replicate frame_size 0 in
    let output1 = set output 0 (get_or magic 0 0) in
    let output2 = set output1 1 (get_or magic 1 0) in
    let output3 = set output2 version_offset (version_value frame.header.version) in
    let output4 = set output3 message_type_offset (message_type_value frame.header.message_type) in
    let output5 = write_u16 output4 payload_size_offset telemetry_payload_size in
    let output6 = write_u32 output5 sequence_offset frame.header.sequence in
    let output7 = write_u64 output6 timestamp_offset frame.header.timestamp_microseconds in
    let output8 =
      write_u32 output7 temperature_offset (bits_of_int32 frame.payload.temperature_millicelsius) in
    let output9 = write_u32 output8 pressure_offset frame.payload.pressure_pascal in
    let output10 = write_u16 output9 supply_voltage_offset frame.payload.supply_millivolts in
    write_u16 output10 status_flags_offset frame.payload.status_flags

unfoldable pub serialize : TelemetryFrame → List ℕ
unfolding serialize_body
serialize frame =
    let output = serialize_body frame in
    write_u32 output crc_offset (calculate_crc32 (take crc_offset output))

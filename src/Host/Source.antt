-- ===== src/Host/Source.antt =====
-- simulated_frame_source.cpp: the fifteen inputs of the host program, eight frames and seven that
-- are damaged in one way each.
use cpp_embedded_telemetry_l.Common.{
  ℕ, ◌+◌, ◌-◌, ◌%◌, ◌^◌, ◌≡◌, refl, List, [], ◌∷◌, set, get_or, take, length, bit_or, bit_xor,
}
use cpp_embedded_telemetry_l.Common.Int.{ℤ, pos, negsuc}
use cpp_embedded_telemetry_l.Protocol.Types.{
  ProtocolVersion, MessageType, StatusFlag, flag_value, telemetry_payload_size, crc_size,
  version_offset, message_type_offset, payload_size_offset, temperature_offset, crc_offset,
}
use cpp_embedded_telemetry_l.Protocol.Serializer.{serialize}

pub make_raw_frame : ℕ → ℤ → ℕ → ℕ → List ℕ
make_raw_frame sequence temperature supply flags = serialize (record {
  header = record {
    version = ProtocolVersion.v1;
    message_type = MessageType.telemetry_sample;
    payload_size = telemetry_payload_size;
    sequence = sequence;
    timestamp_microseconds = (1000000 + sequence) % 2 ^ 64;
  };
  payload = record {
    temperature_millicelsius = temperature;
    pressure_pascal = (100000 + sequence) % 2 ^ 32;
    supply_millivolts = supply;
    status_flags = flags;
  };
})

-- simulated_frame_source.hpp
abbrev pub simulated_input_count : ℕ
simulated_input_count = 15

abbrev pub simulated_valid_frame_count : ℕ
simulated_valid_frame_count = 8

-- `frame[index] ^= 0x01U`
abbrev flip : List ℕ → ℕ → List ℕ
flip frame index = set frame index (bit_xor (get_or frame index 0) 0x01 % 2 ^ 8)

-- `frame.pop_back()`
abbrev pop_back : List ℕ → List ℕ
pop_back frame = take (length frame - 1) frame

unfoldable pub generate : List (List ℕ)
unfolding make_raw_frame
generate =
    let sensor = flag_value StatusFlag.sensor_warning in
    let voltage = flag_value StatusFlag.voltage_warning in
    let communication = flag_value StatusFlag.communication_warning in
    let watchdog = flag_value StatusFlag.watchdog_event in
    let valid_100 = make_raw_frame 100 (negsuc 4999) 3000 sensor in
    let valid_101 = make_raw_frame 101 (pos 0) 3100 voltage in
    let valid_103_communication = make_raw_frame 103 (pos 10000) 3200 communication in
    let valid_103_watchdog = make_raw_frame 103 (pos 20000) 3300 watchdog in
    let valid_102 = make_raw_frame 102 (negsuc 9999) 2900 (bit_or sensor voltage) in
    let valid_104 = make_raw_frame 104 (pos 30000) 3400 (bit_or communication watchdog) in
    let valid_105 = make_raw_frame 105 (pos 5000) 3500 (flag_value StatusFlag.none) in
    let valid_106 =
      make_raw_frame 106 (pos 15000) 3600
        (bit_or (bit_or (bit_or sensor voltage) communication) watchdog) in
    let invalid_magic = set valid_100 0 0x00 in
    let invalid_version = set valid_101 version_offset 0x02 in
    let invalid_type = set valid_103_communication message_type_offset 0x02 in
    let invalid_payload_size = set valid_103_watchdog (payload_size_offset + 1) 0x0B in
    let corrupted_payload = flip valid_104 temperature_offset in
    let corrupted_crc = flip valid_105 (crc_offset + crc_size - 1) in
    let truncated = pop_back valid_106 in
    valid_100 ∷ invalid_magic ∷ valid_101 ∷ invalid_version ∷ valid_103_communication ∷ invalid_type
    ∷ valid_103_watchdog ∷ invalid_payload_size ∷ valid_102 ∷ corrupted_payload ∷ valid_104
    ∷ corrupted_crc ∷ valid_105 ∷ truncated ∷ valid_106 ∷ []

test_length : length generate ≡ 15
unfolding generate
test_length = refl

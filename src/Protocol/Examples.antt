-- ===== src/Protocol/Examples.antt =====
-- The example frame of docs/PROTOCOL.md, and the theorems on the protocol core at it.
use cpp_embedded_telemetry_l.Common.{
  ℕ, ◌≡◌, ◌↔◌, refl, arith, true, false, Option, List, [], ◌∷◌, ◌++◌, All, set, bit_xor,
}
use cpp_embedded_telemetry_l.Common.Int.{pos}
use cpp_embedded_telemetry_l.Protocol.Types.{
  TelemetryFrame, ProtocolVersion, MessageType, IsByte, IsFrame, bits_of_int32, int32_of_bits,
}
use cpp_embedded_telemetry_l.Protocol.Crc32.{initial_value, final_xor, calculate_crc32}
use cpp_embedded_telemetry_l.Protocol.Crc32.Message.{remainder, calculate_crc32-remainder}
use cpp_embedded_telemetry_l.Protocol.Serializer.{serialize}
use cpp_embedded_telemetry_l.Protocol.Serializer.Layout.{covered, be32, serialize-covered}
use cpp_embedded_telemetry_l.Protocol.Deserializer.{
  ParseError, failure, has_value, read_u16, read_u32, read_u64, read_frame, deserialize,
}
use cpp_embedded_telemetry_l.Protocol.Deserializer.Checks.{
  Check, Earlier, Passes, IsAccepted, deserialize-failure, deserialize-has_value,
}
use cpp_embedded_telemetry_l.Protocol.RoundTrip.{deserialize-serialize, serialize-deserialize}
use cpp_embedded_telemetry_l.Protocol.Corruption.{byte_rejected, burst_rejected}
use cpp_embedded_telemetry_l.Protocol.Crc32.Columns.{Distinct}
use cpp_embedded_telemetry_l.Protocol.BitFlips.{flip_bits, flip_bits_rejected}

abbrev pub sample_frame : TelemetryFrame
sample_frame = record {
  header = record {
    version = ProtocolVersion.v1;
    message_type = MessageType.telemetry_sample;
    payload_size = 12;
    sequence = 1;
    timestamp_microseconds = 2;
  };
  payload = record {
    temperature_millicelsius = pos 1000;
    pressure_pascal = 100000;
    supply_millivolts = 3300;
    status_flags = 1;
  };
}

pub sample_frame-IsFrame : IsFrame sample_frame
sample_frame-IsFrame = omega arith

-- The first 14 and the last 20 bytes of the document's example.
abbrev sample_front : List ℕ
sample_front =
    0x54 ∷ 0x4C ∷ 0x01 ∷ 0x01 ∷ 0x00 ∷ 0x0C ∷ 0x00 ∷ 0x00 ∷ 0x00 ∷ 0x01 ∷ 0x00 ∷ 0x00 ∷ 0x00 ∷ 0x00
    ∷ []

abbrev sample_rest : List ℕ
sample_rest =
    0x00 ∷ 0x00 ∷ 0x03 ∷ 0xE8 ∷ 0x00 ∷ 0x01 ∷ 0x86 ∷ 0xA0 ∷ 0x0C ∷ 0xE4 ∷ 0x00 ∷ 0x01 ∷ 0xB6 ∷ 0xFA
    ∷ 0xE4 ∷ 0xFA ∷ []

abbrev sample_timestamp : List ℕ
sample_timestamp = 0x00 ∷ 0x00 ∷ 0x00 ∷ 0x02 ∷ []

abbrev pub sample_bytes : List ℕ
sample_bytes = sample_front ++ (sample_timestamp ++ sample_rest)

serialize_sample : serialize sample_frame ≡ sample_bytes
unfolding serialize bits_of_int32 calculate_crc32
serialize_sample = refl

deserialize_sample :
    deserialize sample_bytes ≡ record { frame = Option.some sample_frame; error = ParseError.none }
unfolding deserialize read_frame read_u16 read_u32 read_u64 int32_of_bits calculate_crc32
deserialize_sample = refl

pub sample_bytes-IsByte : All IsByte sample_bytes
sample_bytes-IsByte = omega arith

pub has_value_sample : has_value (deserialize sample_bytes) ≡ true
has_value_sample = rw deserialize_sample

deserialize-serialize_example :
    deserialize (serialize sample_frame)
    ≡ record { frame = Option.some sample_frame; error = ParseError.none }
deserialize-serialize_example = deserialize-serialize sample_frame sample_frame-IsFrame

serialize-deserialize_example : (serialize sample_frame ≡ sample_bytes) × IsFrame sample_frame
serialize-deserialize_example =
    serialize-deserialize sample_bytes sample_frame sample_bytes-IsByte deserialize_sample

byte_rejected_example : has_value (deserialize (set sample_bytes 33 0xFB)) ≡ false
byte_rejected_example =
    byte_rejected sample_bytes 33 0xFB sample_bytes-IsByte (omega arith) (omega arith) (omega arith)
      has_value_sample

burst_rejected_example :
    has_value (deserialize (sample_front ++ ((0x00 ∷ 0x01 ∷ 0x00 ∷ 0x03 ∷ []) ++ sample_rest)))
    ≡ false
burst_rejected_example =
    burst_rejected sample_front sample_timestamp (0x00 ∷ 0x01 ∷ 0x00 ∷ 0x03 ∷ []) sample_rest
      sample_bytes-IsByte (omega arith) refl (omega arith) (omega arith) (λ e. cc) has_value_sample

deserialize-failure_example :
    (deserialize (0x54 ∷ []) ≡ failure ParseError.invalid_frame_size)
    ↔ (Earlier Check.size (0x54 ∷ []) × (¬ Passes Check.size (0x54 ∷ [])))
deserialize-failure_example = deserialize-failure Check.size (0x54 ∷ [])

deserialize-has_value_example :
    (has_value (deserialize sample_bytes) ≡ true) ↔ IsAccepted sample_bytes
deserialize-has_value_example = deserialize-has_value sample_bytes

calculate_crc32-remainder_example :
    calculate_crc32 (0x31 ∷ 0x32 ∷ [])
    ≡ bit_xor (remainder 16 (bit_xor initial_value 0x3231)) final_xor
calculate_crc32-remainder_example = calculate_crc32-remainder (0x31 ∷ 0x32 ∷ []) (omega arith)

serialize-covered_example :
    serialize sample_frame ≡ covered sample_frame ++ be32 (calculate_crc32 (covered sample_frame))
serialize-covered_example = serialize-covered sample_frame

-- The first bit, two of other fields and two of the CRC's.
abbrev five_places : List ℕ
five_places = 0 ∷ 250 ∷ 100 ∷ 271 ∷ 199 ∷ []

five_places-Distinct : Distinct five_places
five_places-Distinct = ground arith

flip_bits_rejected_example : has_value (deserialize (flip_bits sample_bytes five_places)) ≡ false
flip_bits_rejected_example =
    flip_bits_rejected sample_bytes five_places sample_bytes-IsByte has_value_sample
      five_places-Distinct (omega arith) (omega arith) (omega arith)

-- A window that starts inside a byte.
abbrev window_places : List ℕ
window_places = 101 ∷ 102 ∷ 105 ∷ 109 ∷ 110 ∷ 117 ∷ 132 ∷ []

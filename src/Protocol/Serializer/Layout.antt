-- ===== src/Protocol/Serializer/Layout.antt =====
-- What `serialize` (serializer.cpp) leaves in each place of the output, in plain arithmetic.
use native.Mathlib.Nat.{div-one}
use cpp_embedded_telemetry_l.Common.{
  ℕ, ◌/◌, ◌%◌, ◌^◌, ◌≡◌, refl, ap, ◌∙◌, arith, List, [], ◌∷◌, ◌++◌, length, All, take, bit_and,
}
use cpp_embedded_telemetry_l.Bits.Fields.{bit_and_mask}
use cpp_embedded_telemetry_l.Protocol.Types.{
  TelemetryFrame, ProtocolVersion, MessageType, version_value, message_type_value, bits_of_int32,
  crc_offset, IsByte,
}
use cpp_embedded_telemetry_l.Protocol.Crc32.{calculate_crc32}
use cpp_embedded_telemetry_l.Protocol.Serializer.{write_u32, serialize_body, serialize}

-- The two, four and eight bytes of a value, highest first.
abbrev pub be16 : ℕ → List ℕ
be16 v = (v / 2 ^ 8 % 2 ^ 8) ∷ (v % 2 ^ 8) ∷ []

abbrev pub be32 : ℕ → List ℕ
be32 v = (v / 2 ^ 24 % 2 ^ 8) ∷ (v / 2 ^ 16 % 2 ^ 8) ∷ be16 v

abbrev pub be64 : ℕ → List ℕ
be64 v =
    (v / 2 ^ 56 % 2 ^ 8)
    ∷ (v / 2 ^ 48 % 2 ^ 8)
    ∷ (v / 2 ^ 40 % 2 ^ 8)
    ∷ (v / 2 ^ 32 % 2 ^ 8)
    ∷ be32 v

-- The 30 bytes that the CRC covers, as the table of docs/PROTOCOL.md lists them.
abbrev pub covered : TelemetryFrame → List ℕ
covered f =
    0x54 ∷ 0x4C ∷ 1 ∷ 1 ∷ 0 ∷ 12 ∷ []
    ++ (be32 f.header.sequence
        ++ (be64 f.header.timestamp_microseconds
            ++ (be32 (bits_of_int32 f.payload.temperature_millicelsius)
                ++ (be32 f.payload.pressure_pascal
                    ++ (be16 f.payload.supply_millivolts ++ be16 f.payload.status_flags)))))

low_byte : (v : ℕ) → bit_and v 0xFF % 2 ^ 8 ≡ v % 2 ^ 8
low_byte v = rw (bit_and_mask 8 v) (omega arith)

version_one : (v : ProtocolVersion) → version_value v ≡ 1
version_one ProtocolVersion.v1 = refl

message_type_one : (t : MessageType) → message_type_value t ≡ 1
message_type_one MessageType.telemetry_sample = refl

serialize_body-covered : (f : TelemetryFrame) → serialize_body f ≡ covered f ++ (0 ∷ 0 ∷ 0 ∷ 0 ∷ [])
unfolding serialize_body
serialize_body-covered f = simp (low_byte, div-one, version_one, message_type_one)

write_crc :
    (f : TelemetryFrame) (crc : ℕ)
    → write_u32 (covered f ++ (0 ∷ 0 ∷ 0 ∷ 0 ∷ [])) crc_offset crc ≡ covered f ++ be32 crc
unfolding write_u32
write_crc f crc = simp low_byte

-- The output is the table's 30 bytes, then the CRC of these in four bytes, highest first.
pub serialize-covered :
    (f : TelemetryFrame) → serialize f ≡ covered f ++ be32 (calculate_crc32 (covered f))
unfolding serialize
serialize-covered f =
    ap (λ (o : List ℕ). write_u32 o crc_offset (calculate_crc32 (take crc_offset o)))
      (serialize_body-covered f)
    ∙ write_crc f (calculate_crc32 (covered f))

pub be16-IsByte : (v : ℕ) → All IsByte (be16 v)
be16-IsByte v = omega arith

pub covered-IsByte : (f : TelemetryFrame) → All IsByte (covered f)
covered-IsByte f = omega arith

pub length-covered : (f : TelemetryFrame) → length (covered f) ≡ 30
length-covered f = refl

-- 34 bytes, each in the range of `uint8_t`, for any frame.
pub serialize_shape : (f : TelemetryFrame) → (length (serialize f) ≡ 34) × All IsByte (serialize f)
serialize_shape f = rw serialize-covered (omega arith)

-- ===== src/Protocol/RoundTrip.antt =====
-- serializer.cpp against deserializer.cpp, both ways.
use cpp_embedded_telemetry_l.Common.{
  ℕ, suc, ◌+◌, ◌*◌, ◌^◌, ◌<◌, ◌≡◌, refl, sym, ap, ap₂, ◌∙◌, arith, Option, List, [], ◌∷◌, ◌++◌, All,
  take,
}
use cpp_embedded_telemetry_l.Protocol.Types.{
  TelemetryFrame, ProtocolVersion, MessageType, supported_version, supported_message_type,
  telemetry_payload_size, bits_of_int32, int32_of_bits, bits_of_int32-lt,
  int32_of_bits-bits_of_int32, bits_of_int32-int32_of_bits, int32_of_bits-IsInt32, IsByte, IsFrame,
}
use cpp_embedded_telemetry_l.Protocol.Crc32.{calculate_crc32}
use cpp_embedded_telemetry_l.Protocol.Crc32.Detection.{calculate_crc32-lt}
use cpp_embedded_telemetry_l.Protocol.Serializer.{serialize}
use cpp_embedded_telemetry_l.Protocol.Serializer.Layout.{
  be16, be32, be64, covered, serialize-covered, covered-IsByte,
}
use cpp_embedded_telemetry_l.Protocol.Deserializer.{
  ParseError, byte_at, read_u16, read_u32, read_u64, read_frame, deserialize,
}
use cpp_embedded_telemetry_l.Protocol.Deserializer.Reads.{
  tabulate, tabulate-byte_at, byte_at-lt, read_u16-sum, read_u32-sum, read_u64-sum,
}
use cpp_embedded_telemetry_l.Protocol.Deserializer.Checks.{
  IsAccepted, deserialize-success, deserialize-has_value,
}

version_unique : (v : ProtocolVersion) → v ≡ supported_version
version_unique ProtocolVersion.v1 = refl

message_type_unique : (t : MessageType) → t ≡ supported_message_type
message_type_unique MessageType.telemetry_sample = refl

-- The frame as `serialize` writes it: whatever its header says of the payload's size, 12 is sent.
abbrev pub canonical : TelemetryFrame → TelemetryFrame
canonical f = record f { header = record f.header { payload_size = telemetry_payload_size } }

-- Everything of a frame that the four bytes of a CRC follow.
abbrev wire : TelemetryFrame → ℕ → List ℕ
wire f crc = covered f ++ be32 crc

module _ (f : TelemetryFrame) (crc : ℕ) where
  wire-IsByte : All IsByte (wire f crc)
  wire-IsByte = omega arith

  wire_header :
      crc < 2 ^ 32
      → f.header.sequence < 2 ^ 32
      → f.header.timestamp_microseconds < 2 ^ 64
      → (read_u16 (wire f crc) 4 ≡ 12)
        × (read_u32 (wire f crc) 6 ≡ f.header.sequence)
        × (read_u64 (wire f crc) 10 ≡ f.header.timestamp_microseconds)
        × (read_u32 (wire f crc) 30 ≡ crc)
  wire_header c s t = (
    omega (arith, read_u16-sum (wire f crc) wire-IsByte 4),
    omega (arith, read_u32-sum (wire f crc) wire-IsByte 6),
    omega (
      arith,
      read_u64-sum (wire f crc) wire-IsByte 10,
      read_u32-sum (wire f crc) wire-IsByte 10,
      read_u32-sum (wire f crc) wire-IsByte 14,
    ),
    omega (arith, read_u32-sum (wire f crc) wire-IsByte 30),
  )

  wire_payload :
      IsFrame f
      → (read_u32 (wire f crc) 18 ≡ bits_of_int32 f.payload.temperature_millicelsius)
        × (read_u32 (wire f crc) 22 ≡ f.payload.pressure_pascal)
        × (read_u16 (wire f crc) 26 ≡ f.payload.supply_millivolts)
        × (read_u16 (wire f crc) 28 ≡ f.payload.status_flags)
  wire_payload v = (
    omega (
      arith,
      bits_of_int32-lt f.payload.temperature_millicelsius,
      read_u32-sum (wire f crc) wire-IsByte 18,
    ),
    omega (arith, read_u32-sum (wire f crc) wire-IsByte 22),
    omega (arith, read_u16-sum (wire f crc) wire-IsByte 26),
    omega (arith, read_u16-sum (wire f crc) wire-IsByte 28),
  )

  wire-IsAccepted : IsFrame f → crc ≡ calculate_crc32 (covered f) → IsAccepted (wire f crc)
  wire-IsAccepted v e =
      let lt : crc < 2 ^ 32 = rw e (calculate_crc32-lt (covered f) (covered-IsByte f)) in
      let (size, _, _, received) = wire_header lt v.sequence_u32 v.timestamp_u64 in
      ((refl, (refl, refl), refl, refl, size), received ∙ e)

  wire_frame : IsFrame f → crc < 2 ^ 32 → read_frame (wire f crc) ≡ canonical f
  unfolding read_frame
  wire_frame v lt =
      let (size, sequence, timestamp, _) = wire_header lt v.sequence_u32 v.timestamp_u64 in
      let (temperature, pressure, supply, flags) = wire_payload v in
      ground (
        arith,
        version_unique f.header.version,
        message_type_unique f.header.message_type,
        size,
        sequence,
        timestamp,
        temperature,
        pressure,
        supply,
        flags,
        int32_of_bits-bits_of_int32 f.payload.temperature_millicelsius v.temperature_i32,
      )

-- A frame whose fields are in range is read back as it was, with 12 for its payload's size.
pub deserialize-serialize :
    (f : TelemetryFrame)
    → IsFrame f
    → deserialize (serialize f)
      ≡ record { frame = Option.some (canonical f); error = ParseError.none }
deserialize-serialize f v = rw (serialize-covered f) (
    deserialize-success (wire f crc) (wire-IsAccepted f crc v refl)
    ∙ rw (wire_frame f crc v (calculate_crc32-lt (covered f) (covered-IsByte f))))
  where
    crc : ℕ
    crc = calculate_crc32 (covered f)

be16_bytes : (a b : ℕ) → a < 2 ^ 8 → b < 2 ^ 8 → be16 (a * 2 ^ 8 + b) ≡ a ∷ b ∷ []
be16_bytes a b p q = ap₂ ◌∷◌ (omega arith) (ap₂ ◌∷◌ (omega arith) refl)

be32_bytes :
    (a b c d : ℕ)
    → a < 2 ^ 8
    → b < 2 ^ 8
    → c < 2 ^ 8
    → d < 2 ^ 8
    → be32 (((a * 2 ^ 8 + b) * 2 ^ 8 + c) * 2 ^ 8 + d) ≡ a ∷ b ∷ c ∷ d ∷ []
be32_bytes a b c d p q r s =
    ap₂ ◌∷◌ (omega arith)
      (ap₂ ◌∷◌ (omega arith) (ap₂ ◌∷◌ (omega arith) (ap₂ ◌∷◌ (omega arith) refl)))

-- The frame's fields between the fixed bytes and the CRC.
abbrev assemble : List ℕ → List ℕ → List ℕ → List ℕ → List ℕ → List ℕ → List ℕ → List ℕ
assemble sequence timestamp temperature pressure supply flags crc =
    (0x54
      ∷ 0x4C
      ∷ 1
      ∷ 1
      ∷ 0
      ∷ 12
      ∷ (sequence ++ (timestamp ++ (temperature ++ (pressure ++ (supply ++ flags))))))
    ++ crc

be64_halves : (a b : ℕ) → a < 2 ^ 32 → b < 2 ^ 32 → be64 (a * 2 ^ 32 + b) ≡ be32 a ++ be32 b
be64_halves a b p q = ground arith

module _ (bytes : List ℕ) (h : All IsByte bytes) where
  abbrev at : ℕ → ℕ
  at = byte_at bytes

  be16-read : (o : ℕ) → be16 (read_u16 bytes o) ≡ at o ∷ at (o + 1) ∷ []
  be16-read o =
      rw (read_u16-sum bytes h o)
        (be16_bytes (at o) (at (o + 1)) (byte_at-lt bytes o h) (byte_at-lt bytes (o + 1) h))

  be32-read : (o : ℕ) → be32 (read_u32 bytes o) ≡ at o ∷ at (o + 1) ∷ at (o + 2) ∷ at (o + 3) ∷ []
  be32-read o = rw (read_u32-sum bytes h o) (
      be32_bytes (at o) (at (o + 1)) (at (o + 2)) (at (o + 3)) (byte_at-lt bytes o h)
        (byte_at-lt bytes (o + 1) h) (byte_at-lt bytes (o + 2) h) (byte_at-lt bytes (o + 3) h))

  read_u32-lt : (o : ℕ) → read_u32 bytes o < 2 ^ 32
  read_u32-lt o = omega (
    arith,
    read_u32-sum bytes h o,
    byte_at-lt bytes o h,
    byte_at-lt bytes (o + 1) h,
    byte_at-lt bytes (o + 2) h,
    byte_at-lt bytes (o + 3) h,
  )

  be64-read :
      (o : ℕ) → be64 (read_u64 bytes o) ≡ be32 (read_u32 bytes o) ++ be32 (read_u32 bytes (o + 4))
  be64-read o = rw (read_u64-sum bytes h o) (
      be64_halves (read_u32 bytes o) (read_u32 bytes (o + 4)) (read_u32-lt o) (read_u32-lt (o + 4)))

  -- An accepted string is what its own fields are written as.
  covered-read_frame :
      IsAccepted bytes → covered (read_frame bytes) ++ be32 (read_u32 bytes 30) ≡ bytes
  unfolding read_frame
  covered-read_frame ((size, magic, version, type, payload), checksum) =
      (λ i.
        assemble (be32-read 6 i) (timestamp i) (temperature i) (be32-read 22 i) (be16-read 26 i)
          (be16-read 28 i) (be32-read 30 i))
      ∙ sym (
          tabulate-byte_at bytes
          ∙ ap (λ (n : ℕ). tabulate n at) size
          ∙ (λ i. magic.0 i ∷ magic.1 i ∷ version i ∷ type i ∷ size_high i ∷ size_low i ∷ fields))
    where
      size_high : at 4 ≡ 0
      size_high = omega (arith, read_u16-sum bytes h 4, byte_at-lt bytes 4 h, byte_at-lt bytes 5 h)

      size_low : at 5 ≡ 12
      size_low = omega (arith, read_u16-sum bytes h 4, byte_at-lt bytes 4 h, byte_at-lt bytes 5 h)

      fields : List ℕ
      fields = tabulate 28 (λ i. at (suc (suc (suc (suc (suc (suc i)))))))

      timestamp :
          be64 (read_u64 bytes 10)
          ≡ at 10 ∷ at 11 ∷ at 12 ∷ at 13 ∷ at 14 ∷ at 15 ∷ at 16 ∷ at 17 ∷ []
      timestamp = be64-read 10 ∙ (λ i. be32-read 10 i ++ be32-read 14 i)

      temperature :
          be32 (bits_of_int32 (int32_of_bits (read_u32 bytes 18)))
          ≡ at 18 ∷ at 19 ∷ at 20 ∷ at 21 ∷ []
      temperature =
          ap be32 (bits_of_int32-int32_of_bits (read_u32 bytes 18) (read_u32-lt 18)) ∙ be32-read 18

  serialize-read_frame : IsAccepted bytes → serialize (read_frame bytes) ≡ bytes
  serialize-read_frame accepted =
      serialize-covered (read_frame bytes)
      ∙ ap (λ (crc : ℕ). covered (read_frame bytes) ++ be32 crc) crc_received
      ∙ covered-read_frame accepted
    where
      crc_received : calculate_crc32 (covered (read_frame bytes)) ≡ read_u32 bytes 30
      crc_received =
          ap (λ (b : List ℕ). calculate_crc32 (take 30 b)) (covered-read_frame accepted)
          ∙ sym accepted.1

  read_u16-lt : (o : ℕ) → read_u16 bytes o < 2 ^ 16
  read_u16-lt o =
      omega (arith, read_u16-sum bytes h o, byte_at-lt bytes o h, byte_at-lt bytes (o + 1) h)

  read_frame-IsFrame : IsFrame (read_frame bytes)
  unfolding read_frame
  read_frame-IsFrame = record {
    payload_size_u16 = read_u16-lt 4;
    sequence_u32 = read_u32-lt 6;
    timestamp_u64 = omega (arith, read_u64-sum bytes h 10, read_u32-lt 10, read_u32-lt 14);
    temperature_i32 = int32_of_bits-IsInt32 (read_u32 bytes 18) (read_u32-lt 18);
    pressure_u32 = read_u32-lt 22;
    supply_u16 = read_u16-lt 26;
    flags_u16 = read_u16-lt 28;
  }

-- A string of bytes from which a frame is read is the one that `serialize` writes for this frame,
-- and the frame's fields are in range: no other encoding is accepted.
pub serialize-deserialize :
    (bytes : List ℕ) (f : TelemetryFrame)
    → All IsByte bytes
    → deserialize bytes ≡ record { frame = Option.some f; error = ParseError.none }
    → (serialize f ≡ bytes) × IsFrame f
serialize-deserialize bytes f h e =
    rw (← read) (serialize-read_frame bytes h accepted, read_frame-IsFrame bytes h)
  where
    accepted : IsAccepted bytes
    accepted = (deserialize-has_value bytes).0 (rw e)

    read : read_frame bytes ≡ f
    read = cc (deserialize-success bytes accepted)

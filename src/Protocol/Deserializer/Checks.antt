-- ===== src/Protocol/Deserializer/Checks.antt =====
-- Which inputs deserializer.cpp accepts, and which error it gives to each of the others.
use cpp_embedded_telemetry_l.Common.{ℕ, ◌≡◌, ◌↔◌, arith, true, Option, List, length, take}
use cpp_embedded_telemetry_l.Protocol.Crc32.{calculate_crc32}
use cpp_embedded_telemetry_l.Protocol.Deserializer.{
  ParseError, byte_at, has_value, read_u16, read_u32, read_frame, failure, deserialize,
}

-- The six conditions of docs/PROTOCOL.md, in the order in which they are checked.
pub data Check : Type 0 where
  size magic_bytes version type payload checksum : Check

abbrev pub Passes : Check → List ℕ → Type 0
Passes Check.size bytes = length bytes ≡ 34
Passes Check.magic_bytes bytes = (byte_at bytes 0 ≡ 0x54) × (byte_at bytes 1 ≡ 0x4C)
Passes Check.version bytes = byte_at bytes 2 ≡ 1
Passes Check.type bytes = byte_at bytes 3 ≡ 1
Passes Check.payload bytes = read_u16 bytes 4 ≡ 12
Passes Check.checksum bytes = read_u32 bytes 30 ≡ calculate_crc32 (take 30 bytes)

-- The error that stands for a check, and the checks that come before it.
abbrev pub error_of : Check → ParseError
error_of Check.size = ParseError.invalid_frame_size
error_of Check.magic_bytes = ParseError.invalid_magic
error_of Check.version = ParseError.unsupported_version
error_of Check.type = ParseError.unsupported_message_type
error_of Check.payload = ParseError.invalid_payload_size
error_of Check.checksum = ParseError.checksum_mismatch

abbrev pub Earlier : Check → List ℕ → Type 0
Earlier Check.size bytes = Unit {0}
Earlier Check.magic_bytes bytes = Passes Check.size bytes
Earlier Check.version bytes = Passes Check.size bytes × Passes Check.magic_bytes bytes
Earlier Check.type bytes =
    Passes Check.size bytes × Passes Check.magic_bytes bytes × Passes Check.version bytes
Earlier Check.payload bytes =
    Passes Check.size bytes
    × Passes Check.magic_bytes bytes
    × Passes Check.version bytes
    × Passes Check.type bytes
Earlier Check.checksum bytes =
    Passes Check.size bytes
    × Passes Check.magic_bytes bytes
    × Passes Check.version bytes
    × Passes Check.type bytes
    × Passes Check.payload bytes

-- All six.
abbrev pub IsAccepted : List ℕ → Type 0
IsAccepted bytes = Earlier Check.checksum bytes × Passes Check.checksum bytes

-- An error names the first check that fails, and no frame comes with it.
pub deserialize-failure :
    (c : Check) (bytes : List ℕ)
    → (deserialize bytes ≡ failure (error_of c)) ↔ (Earlier c bytes × (¬ Passes c bytes))
unfolding deserialize
deserialize-failure Check.size bytes = ground arith
deserialize-failure Check.magic_bytes bytes = ground arith
deserialize-failure Check.version bytes = ground arith
deserialize-failure Check.type bytes = ground arith
deserialize-failure Check.payload bytes = ground arith
deserialize-failure Check.checksum bytes = ground arith

pub deserialize-success :
    (bytes : List ℕ)
    → IsAccepted bytes
    → deserialize bytes ≡ record { frame = Option.some (read_frame bytes); error = ParseError.none }
unfolding deserialize
deserialize-success bytes p = ground arith

-- A frame comes back exactly when all six checks pass.
pub deserialize-has_value :
    (bytes : List ℕ) → (has_value (deserialize bytes) ≡ true) ↔ (IsAccepted bytes)
unfolding deserialize
deserialize-has_value bytes = ground arith

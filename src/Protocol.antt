-- ===== src/Protocol.antt =====
-- The protocol core (protocol/): frame types, CRC-32, serializer and deserializer.
pub mod Types
pub mod Crc32
pub mod Serializer
pub mod Deserializer
pub mod RoundTrip
pub mod Corruption
pub mod Syndrome
pub mod CrcField
pub mod BitFlips
pub mod Bursts
pub mod Examples

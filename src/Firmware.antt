-- ===== src/Firmware.antt =====
-- The firmware's side (firmware/): the samples that it produces and the text that it sends.
pub mod SensorModel
pub mod Metrics
pub mod MessageQueue
pub mod Queue
pub mod Producer
pub mod Transmitter
pub mod Main
pub mod HexFormatter
mod Examples

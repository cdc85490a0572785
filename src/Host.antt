-- ===== src/Host.antt =====
-- The host pipeline (host/): metrics, ingestor, consumer.
pub mod Metrics
pub mod Buffer
pub mod Ingestor
pub mod Processor
pub mod Pipeline
pub mod Source
pub mod Report
mod Examples

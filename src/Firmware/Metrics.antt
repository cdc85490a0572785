-- ===== src/Firmware/Metrics.antt =====
-- firmware_metrics.hpp and firmware_metrics.cpp: the counters of the firmware.
-- The object is its member `values_`; a method returns the new one. `++` wraps at 2 ^ 64.
use cpp_embedded_telemetry_l.Common.{ℕ, ◌+◌, ◌%◌, ◌^◌, Bool, ◌&&◌, ◌==◌}
use cpp_embedded_telemetry_l.Firmware.SensorModel.{deterministic_sample_count}

pub record FirmwareMetricsSnapshot : Type 0 where
  pub samples_generated : ℕ
  pub frames_serialized : ℕ
  pub frames_enqueued : ℕ
  pub frames_transmitted : ℕ
  pub queue_push_failures : ℕ
  pub queue_pop_failures : ℕ
  pub end_markers_sent : ℕ
  pub end_markers_received : ℕ

abbrev pub FirmwareMetrics : Type 0
FirmwareMetrics = FirmwareMetricsSnapshot

abbrev pub zero_metrics : FirmwareMetrics
zero_metrics = record {
  samples_generated = 0;
  frames_serialized = 0;
  frames_enqueued = 0;
  frames_transmitted = 0;
  queue_push_failures = 0;
  queue_pop_failures = 0;
  end_markers_sent = 0;
  end_markers_received = 0;
}

abbrev next_count : ℕ → ℕ
next_count n = (n + 1) % 2 ^ 64

unfoldable pub record_sample_generated : FirmwareMetrics → FirmwareMetrics
record_sample_generated m = record m { samples_generated = next_count m.samples_generated }

unfoldable pub record_frame_serialized : FirmwareMetrics → FirmwareMetrics
record_frame_serialized m = record m { frames_serialized = next_count m.frames_serialized }

unfoldable pub record_frame_enqueued : FirmwareMetrics → FirmwareMetrics
record_frame_enqueued m = record m { frames_enqueued = next_count m.frames_enqueued }

unfoldable pub record_frame_transmitted : FirmwareMetrics → FirmwareMetrics
record_frame_transmitted m = record m { frames_transmitted = next_count m.frames_transmitted }

unfoldable pub record_queue_push_failure : FirmwareMetrics → FirmwareMetrics
record_queue_push_failure m = record m { queue_push_failures = next_count m.queue_push_failures }

unfoldable pub record_queue_pop_failure : FirmwareMetrics → FirmwareMetrics
record_queue_pop_failure m = record m { queue_pop_failures = next_count m.queue_pop_failures }

unfoldable pub record_end_marker_sent : FirmwareMetrics → FirmwareMetrics
record_end_marker_sent m = record m { end_markers_sent = next_count m.end_markers_sent }

unfoldable pub record_end_marker_received : FirmwareMetrics → FirmwareMetrics
record_end_marker_received m = record m { end_markers_received = next_count m.end_markers_received }

abbrev pub metrics_snapshot : FirmwareMetrics → FirmwareMetricsSnapshot
metrics_snapshot m = m

-- `metrics_are_valid` of main.cpp.
unfoldable pub metrics_are_valid : FirmwareMetricsSnapshot → Bool
metrics_are_valid metrics =
    metrics.samples_generated == deterministic_sample_count
    && metrics.frames_serialized == deterministic_sample_count
    && metrics.frames_enqueued == deterministic_sample_count
    && metrics.frames_transmitted == deterministic_sample_count
    && metrics.queue_push_failures == 0
    && metrics.queue_pop_failures == 0
    && metrics.end_markers_sent == 1
    && metrics.end_markers_received == 1

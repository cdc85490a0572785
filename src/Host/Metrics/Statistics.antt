-- ===== src/Host/Metrics/Statistics.antt =====
-- The warnings, extremes and sums of `record_processed` (telemetry_metrics.cpp) over the whole
-- history of frames, the newest first.
use cpp_embedded_telemetry_l.Common.{
  ℕ, ◌+◌, ◌/◌, ◌%◌, ◌^◌, ◌≤◌, ◌<◌, ◌≡◌, refl, arith, List, [], ◌∷◌, ◌==◌, if◌then◌else◌, length,
}
use cpp_embedded_telemetry_l.Bits.{bit_and_step}
use cpp_embedded_telemetry_l.Bits.Fields.{bit_and_mask}
use cpp_embedded_telemetry_l.Protocol.Types.{TelemetryFrame, StatusFlag}
use cpp_embedded_telemetry_l.Host.Metrics.{TelemetryMetrics, initial, has_flag, record_flags}
use cpp_embedded_telemetry_l.Host.Metrics.Frames.{
  after, flag_fields, record_processed-flags, record_processed-count,
}

-- Bit `k` of a word.
abbrev pub bit_at : ℕ → ℕ → ℕ
bit_at k flags = flags / 2 ^ k % 2

has_sensor : (flags : ℕ) → has_flag flags StatusFlag.sensor_warning ≡ (bit_at 0 flags == 1)
unfolding has_flag
has_sensor flags = ground (arith, bit_and_mask 1 flags)

has_voltage : (flags : ℕ) → has_flag flags StatusFlag.voltage_warning ≡ (bit_at 1 flags == 1)
unfolding has_flag
has_voltage flags = ground (arith, bit_and_step flags 2, bit_and_mask 1 (flags / 2))

has_communication :
    (flags : ℕ) → has_flag flags StatusFlag.communication_warning ≡ (bit_at 2 flags == 1)
unfolding has_flag
has_communication flags =
    ground (arith, bit_and_step flags 4, bit_and_step (flags / 2) 2, bit_and_mask 1 (flags / 2 / 2))

has_watchdog : (flags : ℕ) → has_flag flags StatusFlag.watchdog_event ≡ (bit_at 3 flags == 1)
unfolding has_flag
has_watchdog flags = ground (
  arith,
  bit_and_step flags 8,
  bit_and_step (flags / 2) 4,
  bit_and_step (flags / 2 / 2) 2,
  bit_and_mask 1 (flags / 2 / 2 / 2),
)

-- How many frames have bit `k` set in their flags.
abbrev pub occurrences : ℕ → List TelemetryFrame → ℕ
occurrences k [] = 0
occurrences k (f ∷ fs) = occurrences k fs + (if bit_at k f.payload.status_flags == 1 then 1 else 0)

occurrences-le : (k : ℕ) (fs : List TelemetryFrame) → occurrences k fs ≤ length fs
occurrences-le k [] = omega arith
occurrences-le k (f ∷ fs) = ground (arith, occurrences-le k fs)

abbrev Counted : TelemetryMetrics → List TelemetryFrame → Type 0
Counted m fs = flag_fields m ≡ record {
  sensor = occurrences 0 fs;
  voltage = occurrences 1 fs;
  communication = occurrences 2 fs;
  watchdog = occurrences 3 fs;
}

flags_step :
    (m : TelemetryMetrics) (f : TelemetryFrame) (fs : List TelemetryFrame)
    → length (f ∷ fs) < 2 ^ 64
    → Counted m fs
    → Counted (record_flags m f.payload.status_flags) (f ∷ fs)
unfolding record_flags
flags_step m f fs few e = ground (
  arith,
  has_sensor f.payload.status_flags,
  has_voltage f.payload.status_flags,
  has_communication f.payload.status_flags,
  has_watchdog f.payload.status_flags,
  occurrences-le 0 fs,
  occurrences-le 1 fs,
  occurrences-le 2 fs,
  occurrences-le 3 fs,
)

-- Each warning counter is the number of frames with its flag's bit set, whatever the other bits.
pub after-flags :
    (fs : List TelemetryFrame)
    → length fs < 2 ^ 64
    → flag_fields (after initial fs) ≡ record {
      sensor = occurrences 0 fs;
      voltage = occurrences 1 fs;
      communication = occurrences 2 fs;
      watchdog = occurrences 3 fs;
    }
after-flags [] few = unfold initial in refl
after-flags (f ∷ fs) few =
    rw (record_processed-flags (after initial fs) f)
      (flags_step (after initial fs) f fs few (after-flags fs (omega arith)))

pub after-frames_processed :
    (fs : List TelemetryFrame)
    → length fs < 2 ^ 64
    → (after initial fs).frames_processed ≡ length fs
after-frames_processed [] few = unfold initial in refl
after-frames_processed (f ∷ fs) few =
    rw (record_processed-count (after initial fs) f)
      (omega (arith, after-frames_processed fs (omega arith)))

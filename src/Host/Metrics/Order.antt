-- ===== src/Host/Metrics/Order.antt =====
-- The statistics of telemetry_metrics.cpp that forget in which order the frames came.
use cpp_embedded_telemetry_l.Common.{ℕ, ◌+◌, ◌≡◌, ap, refl, ◌∙◌, arith, if◌then◌else◌}
use cpp_embedded_telemetry_l.Common.Int.{ℤ, ◌+ℤ◌}
use cpp_embedded_telemetry_l.Protocol.Types.{TelemetryFrame, StatusFlag}
use cpp_embedded_telemetry_l.Host.Metrics.{
  TelemetryMetrics, has_flag, inc64, min_ℤ, max_ℤ, min_ℕ, max_ℕ, record_processed, record_flags,
  record_temperature, record_supply,
}
use cpp_embedded_telemetry_l.Host.Metrics.Frames.{
  FlagFields, TemperatureFields, SupplyFields, flag_fields, temperature_fields, supply_fields,
  record_processed-flags, record_processed-temperature, record_processed-supply,
  record_processed-count,
}
use cpp_embedded_telemetry_l.Host.Metrics.Commute.{
  +ℤ_right_comm, add_right_comm, min_ℤ_comm, max_ℤ_comm, min_ℤ_right_comm, max_ℤ_right_comm,
  min_ℕ_comm, max_ℕ_comm, min_ℕ_right_comm, max_ℕ_right_comm, bump_comm, next_low, next_high,
  next_low_comm, next_high_comm,
}

-- What a frame does to each group of fields, the sums being those of the integers.
abbrev next_flags : FlagFields → ℕ → FlagFields
next_flags x flags = record {
  sensor = if has_flag flags StatusFlag.sensor_warning then inc64 x.sensor else x.sensor;
  voltage = if has_flag flags StatusFlag.voltage_warning then inc64 x.voltage else x.voltage;
  communication =
      if has_flag flags StatusFlag.communication_warning
      then inc64 x.communication
      else x.communication;
  watchdog = if has_flag flags StatusFlag.watchdog_event then inc64 x.watchdog else x.watchdog;
}

abbrev next_temperature : TemperatureFields → ℤ → TemperatureFields
next_temperature x t = record {
  minimum = next_low min_ℤ max_ℤ x.minimum t;
  maximum = next_high min_ℤ max_ℤ x.minimum x.maximum t;
  sum = x.sum +ℤ t;
}

abbrev next_supply : SupplyFields → ℕ → SupplyFields
next_supply x s = record {
  minimum = next_low min_ℕ max_ℕ x.minimum s;
  maximum = next_high min_ℕ max_ℕ x.minimum x.maximum s;
  sum = x.sum + s;
}

next_flags_comm :
    (x : FlagFields) (a b : ℕ) → next_flags (next_flags x a) b ≡ next_flags (next_flags x b) a
next_flags_comm x a b i = record {
  sensor =
      bump_comm (has_flag a StatusFlag.sensor_warning) (has_flag b StatusFlag.sensor_warning)
        x.sensor i;
  voltage =
      bump_comm (has_flag a StatusFlag.voltage_warning) (has_flag b StatusFlag.voltage_warning)
        x.voltage i;
  communication =
      bump_comm (has_flag a StatusFlag.communication_warning)
        (has_flag b StatusFlag.communication_warning) x.communication i;
  watchdog =
      bump_comm (has_flag a StatusFlag.watchdog_event) (has_flag b StatusFlag.watchdog_event)
        x.watchdog i;
}

next_temperature_comm :
    (x : TemperatureFields) (a b : ℤ)
    → next_temperature (next_temperature x a) b ≡ next_temperature (next_temperature x b) a
next_temperature_comm x a b i = record {
  minimum =
      next_low_comm min_ℤ max_ℤ min_ℤ_comm min_ℤ_right_comm max_ℤ_comm max_ℤ_right_comm x.minimum a
        b i;
  maximum =
      next_high_comm min_ℤ max_ℤ min_ℤ_comm min_ℤ_right_comm max_ℤ_comm max_ℤ_right_comm x.minimum
        x.maximum a b i;
  sum = +ℤ_right_comm x.sum a b i;
}

next_supply_comm :
    (x : SupplyFields) (a b : ℕ) → next_supply (next_supply x a) b ≡ next_supply (next_supply x b) a
next_supply_comm x a b i = record {
  minimum =
      next_low_comm min_ℕ max_ℕ min_ℕ_comm min_ℕ_right_comm max_ℕ_comm max_ℕ_right_comm x.minimum a
        b i;
  maximum =
      next_high_comm min_ℕ max_ℕ min_ℕ_comm min_ℕ_right_comm max_ℕ_comm max_ℕ_right_comm x.minimum
        x.maximum a b i;
  sum = add_right_comm x.sum a b i;
}

-- All that `record_processed` counts but the sequence numbers.
pub record Statistics : Type 0 where
  pub count : ℕ
  pub flags : FlagFields
  pub temperature : TemperatureFields
  pub supply : SupplyFields

abbrev pub statistics : TelemetryMetrics → Statistics
statistics m = record {
  count = m.frames_processed;
  flags = flag_fields m;
  temperature = temperature_fields m;
  supply = supply_fields m;
}

pub next_statistics : Statistics → TelemetryFrame → Statistics
next_statistics x f = record {
  count = inc64 x.count;
  flags = next_flags x.flags f.payload.status_flags;
  temperature = next_temperature x.temperature f.payload.temperature_millicelsius;
  supply = next_supply x.supply f.payload.supply_millivolts;
}

pub next_statistics_comm :
    (x : Statistics) (f g : TelemetryFrame)
    → next_statistics (next_statistics x f) g ≡ next_statistics (next_statistics x g) f
unfolding next_statistics
next_statistics_comm x f g i = record {
  count = inc64 (inc64 x.count);
  flags = next_flags_comm x.flags f.payload.status_flags g.payload.status_flags i;
  temperature =
      next_temperature_comm x.temperature f.payload.temperature_millicelsius
        g.payload.temperature_millicelsius i;
  supply = next_supply_comm x.supply f.payload.supply_millivolts g.payload.supply_millivolts i;
}

module _ (m : TelemetryMetrics) where
  record_temperature-minimum :
      (t : ℤ)
      → (record_temperature m t).minimum_temperature_millicelsius
        ≡ next_low min_ℤ max_ℤ m.minimum_temperature_millicelsius t
  unfolding record_temperature
  record_temperature-minimum t = ground arith

  record_temperature-maximum :
      (t : ℤ)
      → (record_temperature m t).maximum_temperature_millicelsius
        ≡ next_high min_ℤ max_ℤ m.minimum_temperature_millicelsius
            m.maximum_temperature_millicelsius t
  unfolding record_temperature
  record_temperature-maximum t = ground arith

  record_supply-minimum :
      (s : ℕ)
      → (record_supply m s).minimum_supply_millivolts
        ≡ next_low min_ℕ max_ℕ m.minimum_supply_millivolts s
  unfolding record_supply
  record_supply-minimum s = ground arith

  record_supply-maximum :
      (s : ℕ)
      → (record_supply m s).maximum_supply_millivolts
        ≡ next_high min_ℕ max_ℕ m.minimum_supply_millivolts m.maximum_supply_millivolts s
  unfolding record_supply
  record_supply-maximum s = ground arith

  record_flags-next :
      (flags : ℕ) → flag_fields (record_flags m flags) ≡ next_flags (flag_fields m) flags
  unfolding record_flags
  record_flags-next flags = refl

  -- Where neither sum overflows.
  pub statistics-record_processed :
      (f : TelemetryFrame)
      → (record_processed m f).temperature_sum_millicelsius
        ≡ m.temperature_sum_millicelsius +ℤ f.payload.temperature_millicelsius
      → (record_processed m f).supply_sum_millivolts
        ≡ m.supply_sum_millivolts + f.payload.supply_millivolts
      → statistics (record_processed m f) ≡ next_statistics (statistics m) f
  unfolding next_statistics
  statistics-record_processed f ht hs i =
      let t = f.payload.temperature_millicelsius in
      let s = f.payload.supply_millivolts in
      let temperature = record_processed-temperature m f in
      let supply = record_processed-supply m f in
      record {
        count = record_processed-count m f i;
        flags = (record_processed-flags m f ∙ record_flags-next f.payload.status_flags) i;
        temperature = record {
          minimum =
              (ap (λ (x : TemperatureFields). x.minimum) temperature ∙ record_temperature-minimum t)
                i;
          maximum =
              (ap (λ (x : TemperatureFields). x.maximum) temperature ∙ record_temperature-maximum t)
                i;
          sum = ht i;
        };
        supply = record {
          minimum = (ap (λ (x : SupplyFields). x.minimum) supply ∙ record_supply-minimum s) i;
          maximum = (ap (λ (x : SupplyFields). x.maximum) supply ∙ record_supply-maximum s) i;
          sum = hs i;
        };
      }

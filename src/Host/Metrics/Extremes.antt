-- ===== src/Host/Metrics/Extremes.antt =====
-- The extremes and sums of `record_processed` (telemetry_metrics.cpp) over the whole history of
-- frames, the newest first.
use mathlib.Core.List.{Mem, mem-cons_self, mem-cons_of_mem}
use cpp_embedded_telemetry_l.Common.{
  ℕ, ◌+◌, ◌*◌, ◌^◌, ◌≤◌, ◌<◌, ◌≡◌, refl, ap, ◌∙◌, ◌⊎◌, inl, inr, arith, some, List, [], ◌∷◌, map,
  length, All,
}
use cpp_embedded_telemetry_l.Common.Int.{
  ℤ, pos, pos_part, neg_part, ◌+ℤ◌, ◌≤ℤ◌, wrap_i64, wrap_i64_in_range,
}
use cpp_embedded_telemetry_l.Protocol.Types.{TelemetryFrame, IsInt32}
use cpp_embedded_telemetry_l.Host.Metrics.{
  TelemetryMetrics, initial, add64, record_processed, record_temperature, record_supply, min_ℤ,
  max_ℤ, min_ℕ, max_ℕ,
}
use cpp_embedded_telemetry_l.Host.Metrics.Frames.{
  after, TemperatureFields, temperature_fields, SupplyFields, supply_fields,
  record_processed-temperature, record_processed-supply,
}

-- Temperatures and supplies.
abbrev pub temperature_of : TelemetryFrame → ℤ
temperature_of f = f.payload.temperature_millicelsius

abbrev pub supply_of : TelemetryFrame → ℕ
supply_of f = f.payload.supply_millivolts

abbrev pub total_temperature : List TelemetryFrame → ℤ
total_temperature [] = pos 0
total_temperature (f ∷ fs) = total_temperature fs +ℤ temperature_of f

abbrev pub total_supply : List TelemetryFrame → ℕ
total_supply [] = 0
total_supply (f ∷ fs) = total_supply fs + supply_of f

total_temperature_bounds :
    (fs : List TelemetryFrame)
    → All (λ f. IsInt32 (temperature_of f)) fs
    → (pos_part (total_temperature fs) ≤ length fs * 2 ^ 31)
      × (neg_part (total_temperature fs) ≤ length fs * 2 ^ 31)
unfolding ◌+ℤ◌
total_temperature_bounds [] h = omega arith
total_temperature_bounds (f ∷ fs) h = ground (arith, total_temperature_bounds fs h.1)

-- One of the values, and no other lies beyond it in the order `le`.
pub record IsExtreme {A : Type 0} (le : A → A → Type 0) (a : A) (values : List A) : Type 0 where
  pub member : Mem a values
  pub bound : All (le a) values

-- `c` is the better one of `a` and `t`.
abbrev IsPick : {A : Type 0} → (A → A → Type 0) → A → A → A → Type 0
IsPick le a t c = ((c ≡ a) × le a t) ⊎ ((c ≡ t) × le t a)

module _ {A : Type 0} (le : A → A → Type 0) (le-refl : (a : A) → le a a)
    (le-trans : (a b c : A) → le a b → le b c → le a c) where
  All-le : (a b : A) (values : List A) → le a b → All (le b) values → All (le a) values
  All-le a b [] h hs = tt
  All-le a b (c ∷ cs) h (hc, hs) = (le-trans a b c h hc, All-le a b cs h hs)

  IsExtreme-one : (a : A) → IsExtreme le a (a ∷ [])
  IsExtreme-one a = record { member = mem-cons_self; bound = (le-refl a, tt) }

  IsExtreme-cons :
      (a t c : A) (values : List A)
      → IsPick le a t c
      → IsExtreme le a values
      → IsExtreme le c (t ∷ values)
  IsExtreme-cons a t c values (inl (e, h)) x =
      rw e (record { member = mem-cons_of_mem t x.member; bound = (h, x.bound) })
  IsExtreme-cons a t c values (inr (e, h)) x =
      rw e (record { member = mem-cons_self; bound = (le-refl t, All-le t a values h x.bound) })

abbrev pub ◌≥ℤ◌ : ℤ → ℤ → Type 0
◌≥ℤ◌ a b = b ≤ℤ a

abbrev pub ◌≥ℕ◌ : ℕ → ℕ → Type 0
◌≥ℕ◌ a b = b ≤ a

-- What the temperatures of a history should have left, and its supplies.
pub record TemperatureExtremes (fs : List TelemetryFrame) (x : TemperatureFields) : Type 0 where
  pub lowest : ℤ
  pub highest : ℤ
  pub minimum : x.minimum ≡ some lowest
  pub maximum : x.maximum ≡ some highest
  pub is_lowest : IsExtreme ◌≤ℤ◌ lowest (map temperature_of fs)
  pub is_highest : IsExtreme ◌≥ℤ◌ highest (map temperature_of fs)

pub record SupplyExtremes (fs : List TelemetryFrame) (x : SupplyFields) : Type 0 where
  pub lowest : ℕ
  pub highest : ℕ
  pub minimum : x.minimum ≡ some lowest
  pub maximum : x.maximum ≡ some highest
  pub is_lowest : IsExtreme ◌≤◌ lowest (map supply_of fs)
  pub is_highest : IsExtreme ◌≥ℕ◌ highest (map supply_of fs)

temperature_first :
    (m : TelemetryMetrics) (f : TelemetryFrame)
    → temperature_fields m ≡ temperature_fields initial
    → TemperatureExtremes (f ∷ []) (temperature_fields (record_temperature m (temperature_of f)))
temperature_first m f e = record {
  lowest = temperature_of f;
  highest = temperature_of f;
  minimum = unfold record_temperature initial in ground arith;
  maximum = unfold record_temperature initial in ground arith;
  is_lowest = IsExtreme-one ◌≤ℤ◌ (λ a. omega arith) (λ a b c h k. omega arith) (temperature_of f);
  is_highest = IsExtreme-one ◌≥ℤ◌ (λ a. omega arith) (λ a b c h k. omega arith) (temperature_of f);
}

temperature_next :
    (m : TelemetryMetrics) (f : TelemetryFrame) (fs : List TelemetryFrame)
    → TemperatureExtremes fs (temperature_fields m)
    → TemperatureExtremes (f ∷ fs) (temperature_fields (record_temperature m (temperature_of f)))
temperature_next m f fs x = record {
  lowest = min_ℤ x.lowest (temperature_of f);
  highest = max_ℤ x.highest (temperature_of f);
  minimum = unfold record_temperature in ground (arith, x.minimum);
  maximum = unfold record_temperature in ground (arith, x.minimum, x.maximum);
  is_lowest =
      IsExtreme-cons ◌≤ℤ◌ (λ a. omega arith) (λ a b c h k. omega arith) x.lowest (temperature_of f)
        _ (map temperature_of fs) (ground arith) x.is_lowest;
  is_highest =
      IsExtreme-cons ◌≥ℤ◌ (λ a. omega arith) (λ a b c h k. omega arith) x.highest (temperature_of f)
        _ (map temperature_of fs) (ground arith) x.is_highest;
}

supply_first :
    (m : TelemetryMetrics) (f : TelemetryFrame)
    → supply_fields m ≡ supply_fields initial
    → SupplyExtremes (f ∷ []) (supply_fields (record_supply m (supply_of f)))
supply_first m f e = record {
  lowest = supply_of f;
  highest = supply_of f;
  minimum = unfold record_supply initial in ground arith;
  maximum = unfold record_supply initial in ground arith;
  is_lowest = IsExtreme-one ◌≤◌ (λ a. omega arith) (λ a b c h k. omega arith) (supply_of f);
  is_highest = IsExtreme-one ◌≥ℕ◌ (λ a. omega arith) (λ a b c h k. omega arith) (supply_of f);
}

supply_next :
    (m : TelemetryMetrics) (f : TelemetryFrame) (fs : List TelemetryFrame)
    → SupplyExtremes fs (supply_fields m)
    → SupplyExtremes (f ∷ fs) (supply_fields (record_supply m (supply_of f)))
supply_next m f fs x = record {
  lowest = min_ℕ x.lowest (supply_of f);
  highest = max_ℕ x.highest (supply_of f);
  minimum = unfold record_supply in ground (arith, x.minimum);
  maximum = unfold record_supply in ground (arith, x.minimum, x.maximum);
  is_lowest =
      IsExtreme-cons ◌≤◌ (λ a. omega arith) (λ a b c h k. omega arith) x.lowest (supply_of f) _
        (map supply_of fs) (ground arith) x.is_lowest;
  is_highest =
      IsExtreme-cons ◌≥ℕ◌ (λ a. omega arith) (λ a b c h k. omega arith) x.highest (supply_of f) _
        (map supply_of fs) (ground arith) x.is_highest;
}

-- After any history that is not empty the minimum and the maximum of the temperatures are two of
-- its temperatures, and no other lies below the one or above the other. So for the supplies.
pub after_extremes :
    (f : TelemetryFrame) (fs : List TelemetryFrame)
    → TemperatureExtremes (f ∷ fs) (temperature_fields (after initial (f ∷ fs)))
      × SupplyExtremes (f ∷ fs) (supply_fields (after initial (f ∷ fs)))
after_extremes f [] =
    rw (record_processed-temperature initial f, record_processed-supply initial f)
      (temperature_first initial f refl, supply_first initial f refl)
after_extremes f (g ∷ gs) =
    let m = after initial (g ∷ gs) in
    let (temperatures, supplies) = after_extremes g gs in
    rw (record_processed-temperature m f, record_processed-supply m f)
      (temperature_next m f (g ∷ gs) temperatures, supply_next m f (g ∷ gs) supplies)

total_supply_bound :
    (fs : List TelemetryFrame)
    → All (λ f. supply_of f < 2 ^ 16) fs
    → total_supply fs ≤ length fs * 2 ^ 16
total_supply_bound [] h = omega arith
total_supply_bound (f ∷ fs) h = omega (arith, total_supply_bound fs h.1)

sums_step :
    (m : TelemetryMetrics) (f : TelemetryFrame)
    → ((record_processed m f).temperature_sum_millicelsius
        ≡ wrap_i64 (m.temperature_sum_millicelsius +ℤ temperature_of f))
      × ((record_processed m f).supply_sum_millivolts ≡ add64 m.supply_sum_millivolts (supply_of f))
unfolding record_temperature record_supply
sums_step m f = (
  ap (λ (x : TemperatureFields). x.sum) (record_processed-temperature m f),
  ap (λ (x : SupplyFields). x.sum) (record_processed-supply m f),
)

-- After any history of fewer than 2 ^ 32 frames the two sums are the true sums: neither the signed
-- nor the unsigned 64-bit accumulator has overflowed.
pub after_sums :
    (fs : List TelemetryFrame)
    → All (λ f. IsInt32 (temperature_of f)) fs
    → All (λ f. supply_of f < 2 ^ 16) fs
    → length fs < 2 ^ 32
    → ((after initial fs).temperature_sum_millicelsius ≡ total_temperature fs)
      × ((after initial fs).supply_sum_millivolts ≡ total_supply fs)
after_sums [] ht hs few = unfold initial in (refl, refl)
after_sums (f ∷ fs) ht hs few =
    let (temperatures, supplies) = after_sums fs ht.1 hs.1 (omega arith) in
    let (high, low) = total_temperature_bounds (f ∷ fs) ht in
    let supply_bound = total_supply_bound (f ∷ fs) hs in
    let (temperature_step, supply_step) = sums_step (after initial fs) f in
    (
      temperature_step
          ∙ ap (λ (z : ℤ). wrap_i64 (z +ℤ temperature_of f)) temperatures
          ∙ wrap_i64_in_range (total_temperature (f ∷ fs)) (omega arith) (omega arith),
      supply_step ∙ omega (arith, supplies),
    )

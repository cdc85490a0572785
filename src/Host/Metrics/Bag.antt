-- ===== src/Host/Metrics/Bag.antt =====
-- The statistics of telemetry_metrics.cpp as a function of the frames without their order.
use mathlib.Core.Logic.{∥∥₁_elim}
use mathlib.Core.List.{Perm, Permᴰ}
use mathlib.Core.Quot
use mathlib.Mathlib.Data.Multiset.Defs.{Multiset, of_list}
use cpp_embedded_telemetry_l.Common.{
  ℕ, suc, ◌+◌, ◌^◌, ◌<◌, ◌≡◌, refl, sym, ap, ap₂, subst, ◌∙◌, arith, List, [], ◌∷◌, All, length,
}
use cpp_embedded_telemetry_l.Common.Int.{ℤ, ◌+ℤ◌}
use cpp_embedded_telemetry_l.Protocol.Types.{TelemetryFrame, IsInt32}
use cpp_embedded_telemetry_l.Host.Metrics.{initial}
use cpp_embedded_telemetry_l.Host.Metrics.Frames.{after}
use cpp_embedded_telemetry_l.Host.Metrics.Extremes.{temperature_of, supply_of, after_sums}
use cpp_embedded_telemetry_l.Host.Metrics.Order.{
  Statistics, statistics, next_statistics, next_statistics_comm, statistics-record_processed,
}

abbrev summary_of : Statistics → List TelemetryFrame → Statistics
summary_of x [] = x
summary_of x (f ∷ fs) = next_statistics (summary_of x fs) f

statistics-after :
    (fs : List TelemetryFrame)
    → All (λ f. IsInt32 (temperature_of f)) fs
    → All (λ f. supply_of f < 2 ^ 16) fs
    → length fs < 2 ^ 32
    → statistics (after initial fs) ≡ summary_of (statistics initial) fs
statistics-after [] ht hs few = refl
statistics-after (f ∷ fs) ht hs few =
    let (temperatures, supplies) = after_sums fs ht.1 hs.1 (omega arith) in
    let (temperature, supply) = after_sums (f ∷ fs) ht hs few in
    statistics-record_processed (after initial fs) f
      (temperature ∙ ap (λ (z : ℤ). z +ℤ temperature_of f) (sym temperatures))
      (supply ∙ ap (λ (n : ℕ). n + supply_of f) (sym supplies))
    ∙ ap (λ x. next_statistics x f) (statistics-after fs ht.1 hs.1 (omega arith))

summary_of-Permᴰ :
    {fs gs : List TelemetryFrame} (x : Statistics) → Permᴰ fs gs → summary_of x fs ≡ summary_of x gs
summary_of-Permᴰ x Permᴰ.nil = refl
summary_of-Permᴰ x (Permᴰ.cons e d) = ap₂ next_statistics (summary_of-Permᴰ x d) e
summary_of-Permᴰ x (Permᴰ.swap {a} {b} {a'} {b'} {l} p q) =
    next_statistics_comm (summary_of x l) b a
    ∙ ap₂ (λ f g. next_statistics (next_statistics (summary_of x l) f) g) p q
summary_of-Permᴰ x (Permᴰ.trans d e) = summary_of-Permᴰ x d ∙ summary_of-Permᴰ x e

Statistics-set : IsSet Statistics
Statistics-set = hlevel

summary_of-Perm :
    (x : Statistics) (fs gs : List TelemetryFrame) → Perm fs gs → summary_of x fs ≡ summary_of x gs
summary_of-Perm x fs gs p = ∥∥₁_elim p (Statistics-set _ _) (summary_of-Permᴰ x)

-- The abstract view: what the frames of a bag add to the statistics.
pub summary : Statistics → Multiset TelemetryFrame → Statistics
summary x = Quot.lift Statistics-set (summary_of x) (summary_of-Perm x)

statistics-summary :
    (fs : List TelemetryFrame)
    → All (λ f. IsInt32 (temperature_of f)) fs
    → All (λ f. supply_of f < 2 ^ 16) fs
    → length fs < 2 ^ 32
    → statistics (after initial fs) ≡ summary (statistics initial) (of_list fs)
unfolding summary
statistics-summary fs ht hs few = statistics-after fs ht hs few

-- What holds of the frames of a history holds of them in another order.
All-Permᴰ :
    (P : TelemetryFrame → Type 0) {fs gs : List TelemetryFrame} → Permᴰ fs gs → All P fs → All P gs
All-Permᴰ P Permᴰ.nil h = tt
All-Permᴰ P (Permᴰ.cons e d) (hf, h) = (subst P e hf, All-Permᴰ P d h)
All-Permᴰ P (Permᴰ.swap p q) (ha, (hb, h)) = (subst P q hb, (subst P p ha, h))
All-Permᴰ P (Permᴰ.trans d e) h = All-Permᴰ P e (All-Permᴰ P d h)

length-Permᴰ : {fs gs : List TelemetryFrame} → Permᴰ fs gs → length fs ≡ length gs
length-Permᴰ Permᴰ.nil = refl
length-Permᴰ (Permᴰ.cons e d) = ap suc (length-Permᴰ d)
length-Permᴰ (Permᴰ.swap p q) = refl
length-Permᴰ (Permᴰ.trans d e) = length-Permᴰ d ∙ length-Permᴰ e

-- If two histories hold the same frames, in any two orders, fewer than 2 ^ 32 of them and with
-- temperatures and supplies in the ranges of their types, then the count of frames, the four
-- warning counters, the extremes and the sums of a new object are the same after both.
pub statistics-Perm :
    (fs gs : List TelemetryFrame)
    → Perm fs gs
    → All (λ f. IsInt32 (temperature_of f)) fs
    → All (λ f. supply_of f < 2 ^ 16) fs
    → length fs < 2 ^ 32
    → statistics (after initial fs) ≡ statistics (after initial gs)
statistics-Perm fs gs p ht hs few = ∥∥₁_elim p (Statistics-set _ _) λ d.
    statistics-summary fs ht hs few
    ∙ ap (summary (statistics initial)) (Quot.sound p)
    ∙ sym (
        statistics-summary gs (All-Permᴰ (λ f. IsInt32 (temperature_of f)) d ht)
          (All-Permᴰ (λ f. supply_of f < 2 ^ 16) d hs) (omega (arith, length-Permᴰ d)))

-- ===== src/Host/Metrics/Sequence.antt =====
-- The sequence analysis of `record_processed` (telemetry_metrics.cpp) against its description in
-- docs/HOST_PIPELINE.md, over the whole history of sequence numbers, the newest first.
use cpp_embedded_telemetry_l.Common.{
  ℕ, suc, ◌+◌, ◌^◌, ◌<◌, max, ◌≡◌, refl, ap, arith, some, List, [], ◌∷◌, map, ltb, ◌==◌,
  if◌then◌else◌, length, All,
}
use cpp_embedded_telemetry_l.Protocol.Types.{TelemetryFrame}
use cpp_embedded_telemetry_l.Host.Metrics.{TelemetryMetrics, initial, record_sequence}
use cpp_embedded_telemetry_l.Host.Metrics.Frames.{
  after, SequenceFields, sequence_fields, record_processed-sequence,
}

abbrev pub highest : ℕ → List ℕ → ℕ
highest s [] = s
highest s (t ∷ ts) = max s (highest t ts)

abbrev pub oldest : ℕ → List ℕ → ℕ
oldest s [] = s
oldest s (t ∷ ts) = oldest t ts

-- How many numbers repeat the highest before them, fall below it, or go beyond it.
abbrev pub repeats : ℕ → List ℕ → ℕ
repeats s [] = 0
repeats s (t ∷ ts) = repeats t ts + (if s == highest t ts then 1 else 0)

abbrev pub regressions : ℕ → List ℕ → ℕ
regressions s [] = 0
regressions s (t ∷ ts) = regressions t ts + (if ltb s (highest t ts) then 1 else 0)

abbrev pub advances : ℕ → List ℕ → ℕ
advances s [] = 0
advances s (t ∷ ts) = advances t ts + (if ltb (highest t ts) s then 1 else 0)

-- What the history `s ∷ ss` should have left.
pub record IsTally (s : ℕ) (ss : List ℕ) (x : SequenceFields) : Type 0 where
  pub first : x.first ≡ some (oldest s ss)
  pub last : x.last ≡ some (highest s ss)
  pub duplicates : x.duplicates ≡ repeats s ss
  pub out_of_order : x.out_of_order ≡ regressions s ss
  pub missing : oldest s ss + advances s ss + x.missing ≡ highest s ss

tally_bound : (s : ℕ) (ss : List ℕ) → (repeats s ss + regressions s ss + advances s ss ≡ length ss)
tally_bound s [] = omega arith
tally_bound s (t ∷ ts) = ground (arith, tally_bound t ts)

highest-lt : (n s : ℕ) (ss : List ℕ) → s < n → All (λ x. x < n) ss → highest s ss < n
highest-lt n s [] h hs = h
highest-lt n s (t ∷ ts) h hs = omega (arith, highest-lt n t ts hs.0 hs.1)

start-IsTally :
    (m : TelemetryMetrics) (s : ℕ)
    → sequence_fields m ≡ sequence_fields initial
    → IsTally s [] (sequence_fields (record_sequence m s))
unfolding record_sequence initial
start-IsTally m s e = ground arith

record_sequence-IsTally :
    (m : TelemetryMetrics) (s t : ℕ) (ts : List ℕ)
    → s < 2 ^ 32
    → highest t ts < 2 ^ 32
    → length ts < 2 ^ 32
    → IsTally t ts (sequence_fields m)
    → IsTally s (t ∷ ts) (sequence_fields (record_sequence m s))
unfolding record_sequence
record_sequence-IsTally m s t ts hs ht few v = ground (arith, tally_bound t ts)

abbrev pub sequence_of : TelemetryFrame → ℕ
sequence_of f = f.header.sequence

length-map : (fs : List TelemetryFrame) → length (map sequence_of fs) ≡ length fs
length-map [] = refl
length-map (f ∷ fs) = ap suc (length-map fs)

All-map :
    (fs : List TelemetryFrame)
    → All (λ g. sequence_of g < 2 ^ 32) fs
    → All (λ x. x < 2 ^ 32) (map sequence_of fs)
All-map [] h = tt
All-map (f ∷ fs) (h, hs) = (h, All-map fs hs)

-- After any history of fewer than 2 ^ 32 frames, the newest being `f`: the first and the last
-- sequence number are the oldest and the highest one, the repeats of the highest number and the
-- falls below it are counted, and the missing numbers fill the gap from the first to the last.
pub after-IsTally :
    (f : TelemetryFrame) (fs : List TelemetryFrame)
    → sequence_of f < 2 ^ 32
    → All (λ g. sequence_of g < 2 ^ 32) fs
    → length fs < 2 ^ 32
    → IsTally (sequence_of f) (map sequence_of fs) (sequence_fields (after initial (f ∷ fs)))
after-IsTally f [] hf hs few =
    rw (record_processed-sequence initial f) (start-IsTally initial (sequence_of f) refl)
after-IsTally f (g ∷ gs) hf hs few = rw (record_processed-sequence (after initial (g ∷ gs)) f) (
    record_sequence-IsTally (after initial (g ∷ gs)) (sequence_of f) (sequence_of g)
      (map sequence_of gs) hf
      (highest-lt (2 ^ 32) (sequence_of g) (map sequence_of gs) hs.0 (All-map gs hs.1))
      (omega (arith, length-map gs)) (after-IsTally g gs hs.0 hs.1 (omega arith)))

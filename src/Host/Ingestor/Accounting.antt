-- ===== src/Host/Ingestor/Accounting.antt =====
-- What a call of `ingest` does to the queue and to the counters (frame_ingestor.cpp).
use cpp_embedded_telemetry_l.Common.{
  ℕ, ◌+◌, ◌%◌, ◌^◌, ◌<◌, ◌≡◌, ◌≢◌, refl, sym, ap, ◌∙◌, subst, arith, true, false, List, [], ◌∷◌,
  ◌++◌, All,
}
use cpp_embedded_telemetry_l.Protocol.Types.{IsByte}
use cpp_embedded_telemetry_l.Protocol.Deserializer.{ParseError, has_value, deserialize}
use cpp_embedded_telemetry_l.Host.Metrics.{
  TelemetryMetrics, record_input, record_accepted, record_parse_rejected, record_queue_closed,
}
use cpp_embedded_telemetry_l.Host.Metrics.Balance.{
  IsBalanced, record_accepted-IsBalanced, record_queue_closed-IsBalanced,
  record_parse_rejected-IsBalanced,
}
use cpp_embedded_telemetry_l.Host.Buffer.{PushOutcome, ConcurrentBuffer}
use cpp_embedded_telemetry_l.Host.Ingestor.{
  IngestStatus, IngestResult, IngestOutcome, copy_bytes, after_push, ingest,
}
use native.Mathlib.Nat.{mod-eq_of_lt}
use mathlib.Core.List.{append-nil, append_assoc}

copy_bytes-from :
    (queued bytes : List ℕ) → All IsByte bytes → copy_bytes queued bytes ≡ queued ++ bytes
unfolding copy_bytes
copy_bytes-from queued [] h = sym (append-nil queued)
copy_bytes-from queued (byte ∷ bytes) h =
    copy_bytes-from (queued ++ (byte % 2 ^ 8 ∷ [])) bytes h.1
    ∙ append_assoc queued (byte % 2 ^ 8 ∷ []) bytes
    ∙ ap (λ x. queued ++ (x ∷ bytes)) (mod-eq_of_lt h.0)

pub copy_bytes_id : (bytes : List ℕ) → All IsByte bytes → copy_bytes [] bytes ≡ bytes
copy_bytes_id bytes h = copy_bytes-from [] bytes h

-- An input that is rejected has an error.
pub deserialize-error :
    (bytes : List ℕ)
    → has_value (deserialize bytes) ≡ false
    → (deserialize bytes).error ≢ ParseError.none
unfolding deserialize
deserialize-error bytes h = ground arith

-- How a call returns, by the branch that it takes.
data Returned (b : ConcurrentBuffer) (m : TelemetryMetrics) (s : ConcurrentBuffer.State b)
    (bytes : List ℕ) (r : IngestResult) (m' : TelemetryMetrics) (t : ConcurrentBuffer.State b)
    : Type 0 where
  rejected :
      has_value (deserialize bytes) ≡ false
      → r ≡ record { status = IngestStatus.parse_rejected; parse_error = (deserialize bytes).error }
      → m' ≡ record_parse_rejected (record_input m) (deserialize bytes).error
      → t ≡ s
      → Returned b m s bytes r m' t
  queued :
      has_value (deserialize bytes) ≡ true
      → ConcurrentBuffer.push b s (copy_bytes [] bytes) ≡ PushOutcome.pushed t
      → r ≡ record { status = IngestStatus.accepted; parse_error = ParseError.none }
      → m' ≡ record_accepted (record_input m)
      → Returned b m s bytes r m' t
  closed :
      has_value (deserialize bytes) ≡ true
      → ConcurrentBuffer.push b s (copy_bytes [] bytes) ≡ PushOutcome.refused t
      → r ≡ record { status = IngestStatus.queue_closed; parse_error = ParseError.none }
      → m' ≡ record_queue_closed (record_input m)
      → Returned b m s bytes r m' t

module _ (b : ConcurrentBuffer) (m : TelemetryMetrics) (s : ConcurrentBuffer.State b)
    (bytes : List ℕ) (r : IngestResult) (m' : TelemetryMetrics) (t : ConcurrentBuffer.State b) where
  open b use {State, push, contents, is_closed, push-pushed, push-refused}

  pushed-Returned :
      (o : PushOutcome State)
      → push s (copy_bytes [] bytes) ≡ o
      → has_value (deserialize bytes) ≡ true
      → after_push b (record_input m) o ≡ IngestOutcome.returns r m' t
      → Returned b m s bytes r m' t
  unfolding after_push
  pushed-Returned PushOutcome.blocked p v e = ground arith
  pushed-Returned (PushOutcome.pushed u) p v e = ground arith
  pushed-Returned (PushOutcome.refused u) p v e = ground arith
  pushed-Returned PushOutcome.throws p v e = ground arith

  ingest-Returned : ingest b m s bytes ≡ IngestOutcome.returns r m' t → Returned b m s bytes r m' t
  unfolding ingest
  ingest-Returned e = ground (arith, pushed-Returned (push s (copy_bytes [] bytes)) refl)

  -- If the counters are balanced, with fewer than 2 ^ 64 - 1 inputs, they are balanced after a call
  -- that returns.
  pub ingest-IsBalanced :
      IsBalanced m
      → m.inputs_received + 1 < 2 ^ 64
      → ingest b m s bytes ≡ IngestOutcome.returns r m' t
      → IsBalanced m'
  ingest-IsBalanced h l e = elim (ingest-Returned e) [
    | rejected v _ p _ ↦ subst IsBalanced (sym p) (
        record_parse_rejected-IsBalanced m h l (deserialize bytes).error
          (deserialize-error bytes v))
    | queued _ _ _ p ↦ subst IsBalanced (sym p) (record_accepted-IsBalanced m h l)
    | closed _ _ _ p ↦ subst IsBalanced (sym p) (record_queue_closed-IsBalanced m h l)
  ]

  -- What each status says of the input and of the queue.
  abbrev pub Effect : IngestStatus → ParseError → Type 0
  Effect IngestStatus.accepted error =
      (has_value (deserialize bytes) ≡ true)
      × (is_closed s ≡ false)
      × (contents t ≡ contents s ++ (bytes ∷ []))
  Effect IngestStatus.parse_rejected error =
      (has_value (deserialize bytes) ≡ false) × (error ≡ (deserialize bytes).error) × (t ≡ s)
  Effect IngestStatus.queue_closed error =
      (has_value (deserialize bytes) ≡ true) × (is_closed s ≡ true) × (contents t ≡ contents s)

  as_told :
      {q : IngestResult} → r ≡ q → Effect q.status q.parse_error → Effect r.status r.parse_error
  as_told p h = subst (λ q. Effect q.status q.parse_error) (sym p) h

  -- If a call on bytes returns, its status tells what happened: accepted, the bytes are a valid
  -- frame, the queue was open and they stand at its end; rejected, they are no valid frame, the error
  -- is the deserializer's and the queue is as it was; closed, they are valid, the queue is closed
  -- and holds what it held.
  pub ingest-Effect :
      All IsByte bytes
      → ingest b m s bytes ≡ IngestOutcome.returns r m' t
      → Effect r.status r.parse_error
  ingest-Effect h e = elim (ingest-Returned e) [
    | rejected v p _ q ↦ as_told p (v, refl, q)
    | queued v push_eq p _ ↦
        let law = push-pushed s (copy_bytes [] bytes) t push_eq in
        as_told p (v, law.0, law.1 ∙ ap (λ x. contents s ++ (x ∷ [])) (copy_bytes_id bytes h))
    | closed v push_eq p _ ↦
        let law = push-refused s (copy_bytes [] bytes) t push_eq in as_told p (v, law.0, law.1)
  ]

-- ===== src/Host/Processor/Drain.antt =====
-- The consumer's loop on a queue that has been closed (telemetry_processor.cpp).
use cpp_embedded_telemetry_l.Common.{
  ℕ, zero, suc, ◌%◌, ◌^◌, ◌<◌, ◌≡◌, refl, sym, ap, ◌∙◌, subst, arith, ◌≢◌, Option, true, List, [],
  ◌∷◌, All, length, get_or,
}
use cpp_embedded_telemetry_l.Protocol.Types.{IsByte}
use cpp_embedded_telemetry_l.Protocol.Deserializer.{byte_at, has_value, read_frame, deserialize}
use cpp_embedded_telemetry_l.Protocol.Deserializer.Reads.{tabulate, byte_at-lt, tabulate-byte_at}
use cpp_embedded_telemetry_l.Host.Metrics.{TelemetryMetrics, inc64, record_processed}
use cpp_embedded_telemetry_l.Host.Buffer.{PopOutcome, ConcurrentBuffer}
use cpp_embedded_telemetry_l.Host.Processor.{
  to_array, ItemOutcome, consume_item, ConsumeOutcome, consume_loop, consume_queued_frames, process,
}
use mathlib.Core.Path.{fun_ext}
use native.Mathlib.Nat.{mod-eq_of_lt}

to_array-tabulate :
    (queued : List ℕ) → to_array queued ≡ tabulate 34 (λ i. get_or queued i 0 % 2 ^ 8)
unfolding to_array
to_array-tabulate queued = refl

to_array_id : (queued : List ℕ) → All IsByte queued → length queued ≡ 34 → to_array queued ≡ queued
to_array_id queued h l =
    to_array-tabulate queued
    ∙ ap (tabulate 34) (fun_ext (λ i. mod-eq_of_lt (byte_at-lt queued i h)))
    ∙ sym (ap (λ n. tabulate n (byte_at queued)) l)
    ∙ sym (tabulate-byte_at queued)

-- An item that the consumer does not reject.
pub record IsItem (bytes : List ℕ) : Type 0 where
  pub are_bytes : All IsByte bytes
  pub is_valid : has_value (deserialize bytes) ≡ true

accepted-length : (bytes : List ℕ) → has_value (deserialize bytes) ≡ true → length bytes ≡ 34
unfolding deserialize
accepted-length bytes h = ground arith

accepted-frame :
    (bytes : List ℕ)
    → has_value (deserialize bytes) ≡ true
    → (deserialize bytes).frame ≡ Option.some (read_frame bytes)
unfolding deserialize
accepted-frame bytes h = ground arith

pub consume_item-IsItem :
    (m : TelemetryMetrics) (bytes : List ℕ)
    → IsItem bytes
    → consume_item m bytes ≡ ItemOutcome.consumed (record_processed m (read_frame bytes))
unfolding consume_item process
consume_item-IsItem m bytes h =
    rw
      (
        to_array_id bytes h.are_bytes (accepted-length bytes h.is_valid),
        accepted-length bytes h.is_valid,
        accepted-frame bytes h.is_valid,
      )
      refl

-- The items' frames handed to the metrics, the first item first, and the count of them.
abbrev pub process_all : TelemetryMetrics → List (List ℕ) → TelemetryMetrics
process_all m [] = m
process_all m (x ∷ xs) = process_all (record_processed m (read_frame x)) xs

abbrev pub count_all : ℕ → List (List ℕ) → ℕ
count_all n [] = n
count_all n (x ∷ xs) = count_all (inc64 n) xs

module _ (b : ConcurrentBuffer)
    (no_throw : (s : ConcurrentBuffer.State b) → ConcurrentBuffer.pop b s ≢ PopOutcome.throws) where
  open b use {State, pop, contents, is_closed, pop-blocked, pop-popped, pop-drained}

  -- The loop has emptied the queue.
  record Drains (rounds : ℕ) (m : TelemetryMetrics) (s : State) (n : ℕ) (items : List (List ℕ))
      : Type 0 where
    pub final : State
    pub emptied : contents final ≡ []
    pub finishes :
        consume_loop b rounds m s n
        ≡ ConsumeOutcome.finished
            (record { success = true; frames_consumed = count_all n items })
            (process_all m items)
            final

  -- The claim for the rounds that are left.
  abbrev AllDrain : ℕ → Type 0
  AllDrain rounds =
      (m : TelemetryMetrics) (s : State) (n : ℕ)
      → is_closed s ≡ true
      → All IsItem (contents s)
      → length (contents s) < rounds
      → Drains rounds m s n (contents s)

  loop-popped :
      (rounds : ℕ) (m m' : TelemetryMetrics) (s t : State) (n : ℕ) (x : List ℕ)
      → pop s ≡ PopOutcome.popped x t
      → consume_item m x ≡ ItemOutcome.consumed m'
      → consume_loop b (suc rounds) m s n ≡ consume_loop b rounds m' t (inc64 n)
  unfolding consume_loop
  loop-popped rounds m m' s t n x p q = cc (p, q)

  pop-Drains :
      (rounds : ℕ)
      → AllDrain rounds
      → (m : TelemetryMetrics) (s : State) (n : ℕ) (o : PopOutcome State) → pop s ≡ o
      → is_closed s ≡ true
      → All IsItem (contents s)
      → length (contents s) < suc rounds
      → Drains (suc rounds) m s n (contents s)
  unfolding consume_loop
  pop-Drains rounds ih m s n PopOutcome.blocked p c h l = ground (arith, pop-blocked s p)
  pop-Drains rounds ih m s n (PopOutcome.drained t) p c h l =
      let law = pop-drained s t p in
      rw law.1 (record { final = t; emptied = law.2; finishes = rw (consume_loop, p) refl })
  pop-Drains rounds ih m s n PopOutcome.throws p c h l = absurd (no_throw s p)
  pop-Drains rounds ih m s n (PopOutcome.popped x t) p c h l =
      let law = pop-popped s x t p in
      let items = subst (All IsItem) law.0 h in
      let d =
        ih (record_processed m (read_frame x)) t (inc64 n) (law.2 ∙ c) items.1
          (omega (arith, ap length law.0)) in
      rw law.0 (record {
        final = d.final;
        emptied = d.emptied;
        finishes =
            loop-popped rounds m (record_processed m (read_frame x)) s t n x p
              (consume_item-IsItem m x items.0)
            ∙ d.finishes;
      })

  loop-Drains : (rounds : ℕ) → AllDrain rounds
  loop-Drains zero m s n c h l = absurd (omega arith)
  loop-Drains (suc rounds) m s n c h l =
      pop-Drains rounds (loop-Drains rounds) m s n (pop s) refl c h l

  -- If `pop` never throws: on a closed queue that holds fewer items than there are rounds, each valid, the thread
  -- ends with success, the count of the items, the queue empty and each frame processed in order.
  pub consume_queued_frames-Drains :
      (rounds : ℕ) (m : TelemetryMetrics) (s : State)
      → is_closed s ≡ true
      → All IsItem (contents s)
      → length (contents s) < rounds
      → (final : State) × (contents final ≡ [])
        × (consume_queued_frames b rounds m s
            ≡ ConsumeOutcome.finished
                (record { success = true; frames_consumed = count_all 0 (contents s) })
                (process_all m (contents s))
                final)
  unfolding consume_queued_frames
  consume_queued_frames-Drains rounds m s c h l =
      let d = loop-Drains rounds m s 0 c h l in (d.final, d.emptied, d.finishes)

-- ===== src/Host/Buffer/Fifo.antt =====
-- A queue that meets the interface: a list, a bound and a flag.
use cpp_embedded_telemetry_l.Common.{
  ℕ, ◌≤◌, ◌<◌, ◌≡◌, refl, arith, Bool, true, false, List, [], ◌∷◌, ◌++◌, length, ltb, if◌then◌else◌,
}
use cpp_embedded_telemetry_l.Host.Buffer.{PushOutcome, PopOutcome, ConcurrentBuffer}

pub record Fifo : Type 0 where
  pub items : List (List ℕ)
  pub bound : ℕ
  pub closed : Bool

unfoldable pub fifo_push : Fifo → List ℕ → PushOutcome Fifo
fifo_push q x =
    if q.closed
    then PushOutcome.refused q
    else if ltb (length q.items) q.bound
    then PushOutcome.pushed (record q { items = q.items ++ (x ∷ []) })
    else PushOutcome.blocked

pop_items : Fifo → List (List ℕ) → PopOutcome Fifo
pop_items q [] = if q.closed then PopOutcome.drained q else PopOutcome.blocked
pop_items q (x ∷ xs) = PopOutcome.popped x (record q { items = xs })

unfoldable pub fifo_pop : Fifo → PopOutcome Fifo
unfolding pop_items
fifo_pop q = pop_items q q.items

pub push_blocked :
    (q : Fifo) (x : List ℕ)
    → fifo_push q x ≡ PushOutcome.blocked
    → (q.closed ≡ false) × (q.bound ≤ length q.items)
unfolding fifo_push
push_blocked q x e = ground arith

pub push_pushed :
    (q : Fifo) (x : List ℕ) (t : Fifo)
    → fifo_push q x ≡ PushOutcome.pushed t
    → (q.closed ≡ false)
      × (t.items ≡ q.items ++ (x ∷ []))
      × (t.bound ≡ q.bound)
      × (t.closed ≡ false)
unfolding fifo_push
push_pushed q x t e = ground arith

pub push_room :
    (q : Fifo) (x : List ℕ) (t : Fifo)
    → fifo_push q x ≡ PushOutcome.pushed t
    → length q.items < q.bound
unfolding fifo_push
push_room q x t e = ground arith

pub push_refused :
    (q : Fifo) (x : List ℕ) (t : Fifo)
    → fifo_push q x ≡ PushOutcome.refused t
    → (q.closed ≡ true) × (t.items ≡ q.items) × (t.bound ≡ q.bound) × (t.closed ≡ true)
unfolding fifo_push
push_refused q x t e = ground arith

pub pop_blocked : (q : Fifo) → fifo_pop q ≡ PopOutcome.blocked → (q.closed ≡ false) × (q.items ≡ [])
unfolding fifo_pop
pop_blocked q e = ground arith

pub pop_popped :
    (q : Fifo) (x : List ℕ) (t : Fifo)
    → fifo_pop q ≡ PopOutcome.popped x t
    → (q.items ≡ x ∷ t.items) × (t.bound ≡ q.bound) × (t.closed ≡ q.closed)
unfolding fifo_pop
pop_popped q x t e = ground arith

pub pop_drained :
    (q : Fifo) (t : Fifo)
    → fifo_pop q ≡ PopOutcome.drained t
    → (q.closed ≡ true) × (q.items ≡ []) × (t.items ≡ []) × (t.closed ≡ true) × (t.bound ≡ q.bound)
unfolding fifo_pop
pop_drained q t e = ground arith

abbrev pub fifo : ConcurrentBuffer
fifo = record {
  State = Fifo;
  create = λ n. record { items = []; bound = n; closed = false };
  push = fifo_push;
  pop = fifo_pop;
  close = λ q. record q { closed = true };
  contents = λ q. q.items;
  capacity = λ q. q.bound;
  is_closed = λ q. q.closed;
  create-contents = λ n. refl;
  create-capacity = λ n. refl;
  create-is_closed = λ n. refl;
  push-blocked = push_blocked;
  push-pushed = push_pushed;
  push-room = push_room;
  push-refused = push_refused;
  pop-blocked = pop_blocked;
  pop-popped = pop_popped;
  pop-drained = pop_drained;
  close-contents = λ q. refl;
  close-capacity = λ q. refl;
  close-is_closed = λ q. refl;
}

-- It throws nothing.
pub fifo_push-ne-throws : (q : Fifo) (x : List ℕ) → ¬ (fifo_push q x ≡ PushOutcome.throws)
unfolding fifo_push
fifo_push-ne-throws q x e = ground arith

pub fifo_pop-ne-throws : (q : Fifo) → ¬ (fifo_pop q ≡ PopOutcome.throws)
unfolding fifo_pop
fifo_pop-ne-throws q e = ground arith

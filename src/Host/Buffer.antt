-- ===== src/Host/Buffer.antt =====
-- The interface of the bounded concurrent queue that the host links as a package
-- (`SafeConcurrentBuffer`, docs/HOST_PIPELINE.md): its operations, and what is documented of them.
pub mod Fifo
use cpp_embedded_telemetry_l.Common.{
  ℕ, ◌≤◌, ◌<◌, ◌≡◌, Bool, true, false, List, [], ◌∷◌, ◌++◌, length,
}

-- A call of `push`: it waits while the queue is full, gives true or false, or throws.
pub data PushOutcome (S : Type 0) : Type 0 where
  blocked : PushOutcome S
  pushed : S → PushOutcome S
  refused : S → PushOutcome S
  throws : PushOutcome S

-- A call of `pop`: it waits while the queue is empty and open, gives an item or no value, or
-- throws.
pub data PopOutcome (S : Type 0) : Type 0 where
  blocked : PopOutcome S
  popped : List ℕ → S → PopOutcome S
  drained : S → PopOutcome S
  throws : PopOutcome S

pub record ConcurrentBuffer : Type 1 where
  pub State : Type 0
  pub create : ℕ → State
  pub push : State → List ℕ → PushOutcome State
  pub pop : State → PopOutcome State
  pub close : State → State
  -- What an observer sees of a queue: its items, the oldest first, its bound, and if it is closed.
  pub contents : State → List (List ℕ)
  pub capacity : State → ℕ
  pub is_closed : State → Bool
  pub create-contents : (n : ℕ) → contents (create n) ≡ []
  pub create-capacity : (n : ℕ) → capacity (create n) ≡ n
  pub create-is_closed : (n : ℕ) → is_closed (create n) ≡ false
  -- `push` waits only while the queue is open and full.
  pub push-blocked :
      (s : State) (x : List ℕ)
      → push s x ≡ PushOutcome.blocked
      → (is_closed s ≡ false) × (capacity s ≤ length (contents s))
  pub push-pushed :
      (s : State) (x : List ℕ) (t : State)
      → push s x ≡ PushOutcome.pushed t
      → (is_closed s ≡ false)
        × (contents t ≡ contents s ++ (x ∷ []))
        × (capacity t ≡ capacity s)
        × (is_closed t ≡ false)
  -- The queue is bounded: `push` adds an item only where there is room.
  pub push-room :
      (s : State) (x : List ℕ) (t : State)
      → push s x ≡ PushOutcome.pushed t
      → length (contents s) < capacity s
  -- `push` gives false only when the queue is closed.
  pub push-refused :
      (s : State) (x : List ℕ) (t : State)
      → push s x ≡ PushOutcome.refused t
      → (is_closed s ≡ true)
        × (contents t ≡ contents s)
        × (capacity t ≡ capacity s)
        × (is_closed t ≡ true)
  -- `pop` waits only while the queue is open and empty.
  pub pop-blocked :
      (s : State) → pop s ≡ PopOutcome.blocked → (is_closed s ≡ false) × (contents s ≡ [])
  pub pop-popped :
      (s : State) (x : List ℕ) (t : State)
      → pop s ≡ PopOutcome.popped x t
      → (contents s ≡ x ∷ contents t) × (capacity t ≡ capacity s) × (is_closed t ≡ is_closed s)
  -- `pop` gives no value only when the queue is closed and empty.
  pub pop-drained :
      (s : State) (t : State)
      → pop s ≡ PopOutcome.drained t
      → (is_closed s ≡ true)
        × (contents s ≡ [])
        × (contents t ≡ [])
        × (is_closed t ≡ true)
        × (capacity t ≡ capacity s)
  pub close-contents : (s : State) → contents (close s) ≡ contents s
  pub close-capacity : (s : State) → capacity (close s) ≡ capacity s
  pub close-is_closed : (s : State) → is_closed (close s) ≡ true

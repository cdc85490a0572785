-- ===== src/Firmware/MessageQueue.antt =====
-- The interface of the kernel's message queue (`k_msgq`) as the firmware uses it: calls with
-- `K_FOREVER`, which wait, and what is documented of them.
pub mod Fifo
use cpp_embedded_telemetry_l.Common.{ℕ, ◌≤◌, ◌<◌, ◌≡◌, ◌≢◌, List, [], ◌∷◌, ◌++◌, length}
use cpp_embedded_telemetry_l.Common.Int.{ℤ, pos}

-- A call of `k_msgq_put`: it waits while the queue is full, or returns a status.
pub data PutOutcome (S : Type 0) : Type 0 where
  blocked : PutOutcome S
  returns : ℤ → S → PutOutcome S

-- A call of `k_msgq_get`: it waits while the queue is empty, or returns a status, with what the
-- caller's buffer then holds.
pub data GetOutcome (I S : Type 0) : Type 0 where
  blocked : GetOutcome I S
  returns : ℤ → I → S → GetOutcome I S

pub record MessageQueue (I : Type 0) : Type 1 where
  pub State : Type 0
  -- `K_MSGQ_DEFINE` with a number of places
  pub create : ℕ → State
  pub purge : State → State
  pub put : State → I → PutOutcome State
  pub get : State → GetOutcome I State
  pub num_used_get : State → ℕ
  -- What an observer sees of a queue: its items, the oldest first, and its bound.
  pub contents : State → List I
  pub capacity : State → ℕ
  pub create-capacity : (n : ℕ) → capacity (create n) ≡ n
  pub purge-contents : (s : State) → contents (purge s) ≡ []
  pub purge-capacity : (s : State) → capacity (purge s) ≡ capacity s
  pub put-blocked :
      (s : State) (x : I) → put s x ≡ PutOutcome.blocked → capacity s ≤ length (contents s)
  -- The status is 0 if the item has been put into the queue, and another number if not.
  pub put-stored :
      (s : State) (x : I) (t : State)
      → put s x ≡ PutOutcome.returns (pos 0) t
      → (contents t ≡ contents s ++ (x ∷ [])) × (capacity t ≡ capacity s)
  -- The queue is bounded: an item is put only where there is a place.
  pub put-room :
      (s : State) (x : I) (t : State)
      → put s x ≡ PutOutcome.returns (pos 0) t
      → length (contents s) < capacity s
  pub put-failed :
      (s : State) (x : I) (status : ℤ) (t : State)
      → put s x ≡ PutOutcome.returns status t
      → status ≢ pos 0
      → (contents t ≡ contents s) × (capacity t ≡ capacity s)
  pub get-blocked : (s : State) → get s ≡ GetOutcome.blocked → contents s ≡ []
  pub get-taken :
      (s : State) (x : I) (t : State)
      → get s ≡ GetOutcome.returns (pos 0) x t
      → (contents s ≡ x ∷ contents t) × (capacity t ≡ capacity s)
  pub get-failed :
      (s : State) (status : ℤ) (x : I) (t : State)
      → get s ≡ GetOutcome.returns status x t
      → status ≢ pos 0
      → (contents t ≡ contents s) × (capacity t ≡ capacity s)
  pub num_used_get-length : (s : State) → num_used_get s ≡ length (contents s)

-- ===== src/Firmware/MessageQueue/Fifo.antt =====
-- A message queue that meets the interface: a list and a bound. One that refuses fails in each call
-- of `put` after a given number of them; the other never fails.
use cpp_embedded_telemetry_l.Common.{
  ℕ, ◌-◌, ◌≤◌, ◌<◌, ◌≡◌, ◌≢◌, refl, arith, Bool, false, ◌&&◌, List, [], ◌∷◌, ◌++◌, length, ltb,
  ◌==◌, if◌then◌else◌,
}
use cpp_embedded_telemetry_l.Common.Int.{ℤ, pos, negsuc}
use cpp_embedded_telemetry_l.Firmware.MessageQueue.{PutOutcome, GetOutcome, MessageQueue}

pub record Fifo (I : Type 0) : Type 0 where
  pub items : List I
  pub bound : ℕ
  pub calls_left : ℕ

module _ {I : Type 0} (refuses : Bool) where
  unfoldable pub fifo_put : Fifo I → I → PutOutcome (Fifo I)
  fifo_put q x =
      if refuses && (q.calls_left == 0)
      then PutOutcome.returns (negsuc 34) q
      else if ltb (length q.items) q.bound
      then PutOutcome.returns (pos 0)
          (record q { items = q.items ++ (x ∷ []); calls_left = q.calls_left - 1 })
      else PutOutcome.blocked

  pub put_blocked :
      (q : Fifo I) (x : I) → fifo_put q x ≡ PutOutcome.blocked → q.bound ≤ length q.items
  unfolding fifo_put
  put_blocked q x e = ground arith

  pub put_stored :
      (q : Fifo I) (x : I) (t : Fifo I)
      → fifo_put q x ≡ PutOutcome.returns (pos 0) t
      → (t.items ≡ q.items ++ (x ∷ [])) × (t.bound ≡ q.bound)
  unfolding fifo_put
  put_stored q x t e = ground arith

  pub put_room :
      (q : Fifo I) (x : I) (t : Fifo I)
      → fifo_put q x ≡ PutOutcome.returns (pos 0) t
      → length q.items < q.bound
  unfolding fifo_put
  put_room q x t e = ground arith

  pub put_failed :
      (q : Fifo I) (x : I) (status : ℤ) (t : Fifo I)
      → fifo_put q x ≡ PutOutcome.returns status t
      → status ≢ pos 0
      → (t.items ≡ q.items) × (t.bound ≡ q.bound)
  unfolding fifo_put
  put_failed q x status t e ne = ground arith

module _ {I : Type 0} where
  get_items : Fifo I → List I → GetOutcome I (Fifo I)
  get_items q [] = GetOutcome.blocked
  get_items q (x ∷ xs) = GetOutcome.returns (pos 0) x (record q { items = xs })

  unfoldable pub fifo_get : Fifo I → GetOutcome I (Fifo I)
  unfolding get_items
  fifo_get q = get_items q q.items

  pub get_blocked : (q : Fifo I) → fifo_get q ≡ GetOutcome.blocked → q.items ≡ []
  unfolding fifo_get
  get_blocked q e = ground arith

  pub get_taken :
      (q : Fifo I) (x : I) (t : Fifo I)
      → fifo_get q ≡ GetOutcome.returns (pos 0) x t
      → (q.items ≡ x ∷ t.items) × (t.bound ≡ q.bound)
  unfolding fifo_get
  get_taken q x t e = ground arith

  pub get_failed :
      (q : Fifo I) (status : ℤ) (x : I) (t : Fifo I)
      → fifo_get q ≡ GetOutcome.returns status x t
      → status ≢ pos 0
      → (t.items ≡ q.items) × (t.bound ≡ q.bound)
  unfolding fifo_get
  get_failed q status x t e ne = ground arith

abbrev pub fifo : (I : Type 0) → Bool → ℕ → MessageQueue I
fifo I refuses calls = record {
  State = Fifo I;
  create = λ n. record { items = []; bound = n; calls_left = calls };
  purge = λ q. record q { items = [] };
  put = fifo_put refuses;
  get = fifo_get;
  num_used_get = λ q. length q.items;
  contents = λ q. q.items;
  capacity = λ q. q.bound;
  create-capacity = λ n. refl;
  purge-contents = λ q. refl;
  purge-capacity = λ q. refl;
  put-blocked = put_blocked refuses;
  put-stored = put_stored refuses;
  put-room = put_room refuses;
  put-failed = put_failed refuses;
  get-blocked = get_blocked;
  get-taken = get_taken;
  get-failed = get_failed;
  num_used_get-length = λ q. refl;
}

pub fifo_get_status :
    (I : Type 0) (q : Fifo I) (status : ℤ) (x : I) (t : Fifo I)
    → fifo_get q ≡ GetOutcome.returns status x t
    → status ≡ pos 0
unfolding fifo_get
fifo_get_status I q status x t e = ground arith

pub fifo_put_status :
    (I : Type 0) (q : Fifo I) (x : I) (status : ℤ) (t : Fifo I)
    → fifo_put false q x ≡ PutOutcome.returns status t
    → status ≡ pos 0
unfolding fifo_put
fifo_put_status I q x status t e = ground arith

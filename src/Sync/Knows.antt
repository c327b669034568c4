-- ===== src/Sync/Knows.antt =====
-- crates/causm-concurrency/src/sync.rs: what a thread that has the lock of a channel can rely on.
use causm.Prelude.{ℕ, ◌<◌, ◌≡◌, refl, true, false, ◌⊎◌, inr, some, none, length, ◌==◌, arith}
use causm.Sync.{
  BoundedChannel, Thread, idle, sent, received, send_lock, send_full, send_closed, send_wait,
  send_asleep, send_last, send_push, recv_lock, recv_pop, recv_closed, recv_wait, recv_asleep,
  close_store, close_notify,
}

module _ {V : Type 0} where
  abbrev pub Room : BoundedChannel V → Type 0
  Room c = length c.buffer < c.capacity

  -- what a thread inside the lock knows
  abbrev pub Knows : ℕ → Thread V → BoundedChannel V → Type 0
  Knows i (send_full v) c = c.lock ≡ some i
  Knows i (send_closed v) c = c.lock ≡ some i
  Knows i (send_wait v) c = c.lock ≡ some i
  Knows i (send_last v) c = (c.lock ≡ some i) × (Room c ⊎ (c.closed ≡ true))
  Knows i (send_push v) c = (c.lock ≡ some i) × Room c
  Knows i recv_pop c = c.lock ≡ some i
  Knows i recv_closed c = c.lock ≡ some i
  Knows i recv_wait c = c.lock ≡ some i
  Knows i t c = Unit {0}

  -- a thread that does not have the lock knows nothing that could change
  Knows-without :
      (j : ℕ) (t : Thread V) (c d : BoundedChannel V)
      → (c.lock ≡ some j → true ≡ false)
      → Knows j t c
      → Knows j t d
  Knows-without j (send_full v) c d out k = cc (out k)
  Knows-without j (send_closed v) c d out k = cc (out k)
  Knows-without j (send_wait v) c d out k = cc (out k)
  Knows-without j (send_last v) c d out (k, r) = cc (out k)
  Knows-without j (send_push v) c d out (k, r) = cc (out k)
  Knows-without j recv_pop c d out k = cc (out k)
  Knows-without j recv_closed c d out k = cc (out k)
  Knows-without j recv_wait c d out k = cc (out k)
  Knows-without j (send_lock v) c d out k = tt
  Knows-without j (send_asleep v) c d out k = tt
  Knows-without j idle c d out k = tt
  Knows-without j (sent b) c d out k = tt
  Knows-without j (received o) c d out k = tt
  Knows-without j recv_lock c d out k = tt
  Knows-without j recv_asleep c d out k = tt
  Knows-without j close_store c d out k = tt
  Knows-without j close_notify c d out k = tt

  pub Knows-other :
      (i j : ℕ) (t : Thread V) (c d : BoundedChannel V)
      → (j == i) ≡ false
      → c.lock ≡ some i
      → Knows j t c
      → Knows j t d
  Knows-other i j t c d n l = Knows-without j t c d clash
    where
      clash : c.lock ≡ some j → true ≡ false
      clash k = let e : i ≡ j = cc (l, k) in ground (arith, e)

  pub Knows-free :
      (j : ℕ) (t : Thread V) (c d : BoundedChannel V) → c.lock ≡ none → Knows j t c → Knows j t d
  Knows-free j t c d l = Knows-without j t c d (λ k. cc (l, k))

  pub Knows-closed :
      (j : ℕ) (t : Thread V) (c : BoundedChannel V)
      → Knows j t c
      → Knows j t (record c { closed = true })
  Knows-closed j (send_last v) c (l, r) = (l, inr refl)
  Knows-closed j t c k = k

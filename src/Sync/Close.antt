-- ===== src/Sync/Close.antt =====
-- crates/causm-concurrency/src/sync.rs: `close` does not take the lock.
use causm.Prelude.{ℕ, ◌≡◌, refl, subst, inl, inr, Bool-cases, true, false, some, none, [], ◌==◌}
use causm.Sync.{
  BoundedChannel, new, idle, recv_lock, recv_pop, recv_closed, recv_wait, recv_asleep, close_store,
  close_notify, Call, send, recv, close, quiet, notify_all, wake, move, Threads, set, quietly,
  everyone, Run, begin, calls, moves,
}
use causm.Sync.Fifo.{made, set-each, empty}

module _ {V : Type 0} where
  -- thread 0 receives once, thread 1 closes
  abbrev pub ReceiveAndClose : ℕ → Call V → Type 0
  ReceiveAndClose i recv = i ≡ 0
  ReceiveAndClose i close = i ≡ 1
  ReceiveAndClose i (send v) = true ≡ false

  module _ (n : ℕ) where
    abbrev locked : BoundedChannel V
    locked = record (empty n) { lock = some 0 }

    abbrev shut : BoundedChannel V
    shut = record (empty n) { closed = true }

    abbrev shut_locked : BoundedChannel V
    shut_locked = record (empty n) { closed = true; lock = some 0 }

    abbrev at_wait : Threads V
    at_wait =
        set (set (set (set (set (λ i. idle) 0 recv_lock) 0 recv_pop) 0 recv_closed) 0 recv_wait) 1
          close_store

    abbrev notified : Threads V
    notified = λ j. wake (set (set at_wait 1 close_notify) 1 idle j)

    asleep_run : Run ReceiveAndClose (empty n) shut (set notified 0 recv_asleep) [] []
    unfolding move
    asleep_run =
        moves
          (moves
            (moves
              (calls
                (moves
                  (moves
                    (moves (calls begin 0 recv refl refl) 0 locked recv_pop quiet _ refl
                      (quietly _))
                    0 locked recv_closed quiet _ refl (quietly _))
                  0 locked recv_wait quiet _ refl (quietly _))
                1 close refl refl)
              1 shut_locked close_notify quiet _ refl (quietly _))
            1 shut_locked idle notify_all _ refl (everyone _))
          0 shut recv_asleep quiet _ refl (quietly _)

    stuck : (j : ℕ) → move j (set notified 0 recv_asleep j) shut ≡ none
    unfolding move
    stuck = set-each (λ j t. move j t shut ≡ none) notified 0 recv_asleep refl each
      where
        each : (j : ℕ) → (j == 0) ≡ false → move j (notified j) shut ≡ none
        each j e = elim (Bool-cases (j == 1)) [ inl e' ↦ rw e' refl | inr e' ↦ rw (e', e) refl ]

  -- A call of `close` can leave a receiver asleep for good: from every new channel there is a run in
  -- which thread 0 receives, thread 1 closes and returns, and then the channel is closed, thread 0
  -- sleeps in `recv`, and no thread has a step left.
  pub close-misses_recv :
      (n : ℕ) (c : BoundedChannel V)
      → new n ≡ some c
      → (d : BoundedChannel V) × (ts : Threads V) × Run ReceiveAndClose c d ts [] []
        × (d.closed ≡ true)
        × (ts 0 ≡ recv_asleep)
        × ((j : ℕ) → move j (ts j) d ≡ none)
  close-misses_recv n c e = (
    shut n,
    (set (notified n) 0 recv_asleep),
    subst
        (λ (b : BoundedChannel V).
          Run ReceiveAndClose b (shut n) (set (notified n) 0 recv_asleep) [] [])
        (made n c e).0 (asleep_run n),
    refl,
    refl,
    stuck n,
  )

-- ===== src/Sync/Tests.antt =====
-- crates/causm-concurrency/src/sync.rs: runs of a channel and a mutex, and the theorems applied to
-- them.
use causm.Prelude.{
  ℕ, ◌+◌, ◌≤◌, ◌≡◌, refl, inl, inr, Bool-cases, true, some, none, List, [], ◌∷◌, ◌++◌, length, ◌==◌,
}
use causm.Sync.{
  BoundedChannel, new, idle, sent, send_lock, send_full, send_last, send_push, recv_asleep, Call,
  send, quiet, notify_one, move, Threads, set, quietly, nobody, Run, begin, calls, moves,
}
use causm.Sync.Fifo.{empty, channel_fifo}
use causm.Sync.Close.{ReceiveAndClose, close-misses_recv}
use causm.Sync.Mutex
use causm.Sync.Mutex.{Mutex}
use causm.Sync.Mutex.Owner.{Run-alternates, owner_lost}

abbrev AnyCall : ℕ → Call ℕ → Type 0
AnyCall i op = Unit {0}

abbrev taken_lock : BoundedChannel ℕ
taken_lock = record (empty 2) { lock = some 0 }

abbrev one_value : BoundedChannel ℕ
one_value = record (empty 2) { buffer = 7 ∷ [] }

abbrev pushing : Threads ℕ
pushing =
    set (set (set (set (λ i. idle) 0 (send_lock 7)) 0 (send_full 7)) 0 (send_last 7)) 0
      (send_push 7)

send_run : Run AnyCall (empty 2) one_value (set pushing 0 (sent true)) (7 ∷ []) []
unfolding move
send_run =
    moves
      (moves
        (moves
          (moves (calls begin 0 (send 7) tt refl) 0 taken_lock (send_full 7) quiet _ refl
            (quietly _))
          0 taken_lock (send_last 7) quiet _ refl (quietly _))
        0 taken_lock (send_push 7) quiet _ refl (quietly _))
      0 one_value (sent true) notify_one _ refl
      (nobody _ (λ w. elim (Bool-cases (w == 0)) [ inl e ↦ rw e refl | inr e ↦ rw e refl ]))

abbrev one_put : List ℕ
one_put = 7 ∷ []

channel_fifo_example : (one_put ≡ [] ++ one_value.buffer) × (length one_value.buffer ≤ 2)
unfolding new
channel_fifo_example =
    channel_fifo AnyCall 2 (empty 2) one_value (set pushing 0 (sent true)) (7 ∷ []) [] refl send_run

close-misses_recv_example :
    (d : BoundedChannel ℕ) × (ts : Threads ℕ) × Run ReceiveAndClose (empty 1) d ts [] []
    × (d.closed ≡ true)
    × (ts 0 ≡ recv_asleep)
    × ((j : ℕ) → move j (ts j) d ≡ none)
unfolding new
close-misses_recv_example = close-misses_recv 1 (empty 1) refl

owner_lost_example :
    (ts : Mutex.Threads) × Mutex.Run (record { locked = true; owner = some "b" }) ts 2 1
    × (ts 1 ≡ Mutex.returned true)
    × (Mutex.move (ts 0) (record { locked = true; owner = some "b" })
        ≡ some (record { locked = true; owner = none }, Mutex.returned true, Mutex.quiet))
    × Mutex.Run (record { locked = true; owner = none }) (Mutex.set ts 0 (Mutex.returned true)) 2 1
    × ((i : ℕ) → Mutex.is_idle (Mutex.set ts 0 (Mutex.returned true) i) ≡ true)
owner_lost_example = owner_lost "a" "b"

locked_run :
    Mutex.Run
      (record { locked = true; owner = none })
      (Mutex.set (Mutex.set (λ i. Mutex.idle) 0 (Mutex.try_lock "a")) 0 (Mutex.set_owner "a"))
      1
      0
unfolding Mutex.move
locked_run =
    Mutex.moves (Mutex.calls Mutex.begin 0 (Mutex.try_lock "a") refl refl) 0
      (record { locked = true; owner = none }) (Mutex.set_owner "a") Mutex.took refl

Run-alternates_example : 1 ≡ 0 + 1
Run-alternates_example = Run-alternates locked_run

-- ===== src/Sync.antt =====
-- crates/causm-concurrency/src/sync.rs: `BoundedChannel`, used by any number of threads. A call is
-- cut where it takes the lock, reads `closed`, falls asleep, or changes the buffer; what a thread
-- does between two such points under the lock, no other thread sees. Memory is sequentially
-- consistent, as the orderings of the source ask.
pub mod Knows
pub mod Steps
pub mod Fifo
pub mod Close
pub mod Mutex
mod Tests
use causm.Prelude.{
  ℕ, ◌≡◌, Bool, true, false, Option, some, none, List, [], ◌∷◌, ◌++◌, length, if◌then◌else◌, leb,
  ◌==◌,
}

-- `lock` is the thread that has the mutex of the buffer.
pub record BoundedChannel (V : Type 0) : Type 0 where
  pub capacity : ℕ
  pub buffer : List V
  pub closed : Bool
  pub lock : Option ℕ

pub data Call (V : Type 0) : Type 0 where
  send : V → Call V
  recv close : Call V

-- where a thread stands: outside of any call, with what the last one returned, or in one
pub data Thread (V : Type 0) : Type 0 where
  idle : Thread V
  sent : Bool → Thread V
  received : Option V → Thread V
  send_lock send_full send_closed send_wait send_asleep send_last send_push : V → Thread V
  recv_lock recv_pop recv_closed recv_wait recv_asleep : Thread V
  close_store close_notify : Thread V

-- what a step asks of the condition variable
pub data Notice : Type 0 where
  quiet notify_one notify_all : Notice

abbrev pub Moved : Type 0 → Type 0
Moved V = Option (BoundedChannel V × Thread V × Notice)

abbrev pub Threads : Type 0 → Type 0
Threads V = ℕ → Thread V

module _ {V : Type 0} where
  -- `none` is the failed assertion.
  unfoldable pub new : ℕ → Option (BoundedChannel V)
  new n =
      if n == 0
      then none
      else some (record { capacity = n; buffer = []; closed = false; lock = none })

  abbrev pub start : Call V → Thread V
  start (send v) = send_lock v
  start recv = recv_lock
  start close = close_store

  abbrev pub is_idle : Thread V → Bool
  is_idle idle = true
  is_idle (sent b) = true
  is_idle (received o) = true
  is_idle t = false

  abbrev pub asleep : Thread V → Bool
  asleep (send_asleep v) = true
  asleep recv_asleep = true
  asleep t = false

  -- A thread that is woken takes the lock again and goes on with its loop.
  abbrev pub wake : Thread V → Thread V
  wake (send_asleep v) = send_lock v
  wake recv_asleep = recv_lock
  wake t = t

  abbrev pub release : BoundedChannel V → BoundedChannel V
  release c = record c { lock = none }

  unfoldable pub acquire : ℕ → Thread V → BoundedChannel V → Option ℕ → Moved V
  acquire i t c none = some (record c { lock = some i }, t, quiet)
  acquire i t c (some _) = none

  -- `pop_front`
  unfoldable pub pop_front : BoundedChannel V → List V → Moved V
  pop_front c [] = some (c, recv_closed, quiet)
  pop_front c (v ∷ vs) = some (record c { buffer = vs; lock = none }, received (some v), notify_one)

  -- the next step of thread `i`; `none` where it waits for the lock, sleeps, or is in no call
  unfoldable pub move : ℕ → Thread V → BoundedChannel V → Moved V
  unfolding acquire pop_front
  move i (send_lock v) c = acquire i (send_full v) c c.lock
  move i (send_full v) c =
      some (c, (if leb c.capacity (length c.buffer) then send_closed v else send_last v), quiet)
  move i (send_closed v) c = some (c, (if c.closed then send_last v else send_wait v), quiet)
  move i (send_wait v) c = some (release c, send_asleep v, quiet)
  move i (send_last v) c =
      if c.closed then some (release c, sent false, quiet) else some (c, send_push v, quiet)
  move i (send_push v) c =
      some (record c { buffer = c.buffer ++ v ∷ []; lock = none }, sent true, notify_one)
  move i recv_lock c = acquire i recv_pop c c.lock
  move i recv_pop c = pop_front c c.buffer
  move i recv_closed c =
      if c.closed then some (release c, received none, quiet) else some (c, recv_wait, quiet)
  move i recv_wait c = some (release c, recv_asleep, quiet)
  move i close_store c = some (record c { closed = true }, close_notify, quiet)
  move i close_notify c = some (c, idle, notify_all)
  move i t c = none

  abbrev pub set : Threads V → ℕ → Thread V → Threads V
  set ts i t j = if j == i then t else ts j

  -- the threads behind a notice: `notify_one` wakes some sleeping thread if there is one
  pub data Wakes : Notice → Threads V → Threads V → Type 0 where
    quietly : (ts : Threads V) → Wakes quiet ts ts
    one :
        (ts : Threads V) (w : ℕ)
        → asleep (ts w) ≡ true
        → Wakes notify_one ts (set ts w (wake (ts w)))
    nobody : (ts : Threads V) → ((w : ℕ) → asleep (ts w) ≡ false) → Wakes notify_one ts ts
    everyone : (ts : Threads V) → Wakes notify_all ts (λ j. wake (ts j))

  -- the values that a step puts into the buffer and takes out of it
  abbrev pub gives : Thread V → List V
  gives (send_push v) = v ∷ []
  gives t = []

  abbrev pub takes : Thread V → List V
  takes (received (some v)) = v ∷ []
  takes t = []

  -- What the threads do from the empty channel `c` on, with the values put in and taken out:
  -- thread `i` calls what `allowed i` admits, a thread moves, or a sleeping one wakes without cause.
  pub data Run (allowed : ℕ → Call V → Type 0) (c : BoundedChannel V)
      : BoundedChannel V → Threads V → List V → List V → Type 0 where
    begin : Run allowed c c (λ i. idle) [] []
    calls :
        {d : BoundedChannel V} {ts : Threads V} {ps qs : List V}
        → Run allowed c d ts ps qs
        → (i : ℕ) (op : Call V) → allowed i op
        → is_idle (ts i) ≡ true
        → Run allowed c d (set ts i (start op)) ps qs
    moves :
        {d : BoundedChannel V} {ts : Threads V} {ps qs : List V}
        → Run allowed c d ts ps qs
        → (i : ℕ) (e : BoundedChannel V) (t : Thread V) (n : Notice) (us : Threads V)
        → move i (ts i) d ≡ some (e, t, n)
        → Wakes n (set ts i t) us
        → Run allowed c e us (ps ++ gives (ts i)) (qs ++ takes t)
    wakes :
        {d : BoundedChannel V} {ts : Threads V} {ps qs : List V}
        → Run allowed c d ts ps qs
        → (w : ℕ) → Run allowed c d (set ts w (wake (ts w))) ps qs

-- ===== src/Sync/Mutex.antt =====
-- crates/causm-concurrency/src/sync.rs: `Mutex`, whose two cells are written one after the other.
pub mod Owner
use causm.Prelude.{
  ℕ, ◌+◌, ◌≡◌, refl, Bool, true, false, Option, some, none, String, if◌then◌else◌, ◌==◌,
}

pub record Mutex : Type 0 where
  pub locked : Bool
  pub owner : Option String

abbrev pub new : Mutex
new = record { locked = false; owner = none }

-- where a thread stands: outside of any call, with what the last one returned, or in one
pub data Thread : Type 0 where
  idle : Thread
  returned : Bool → Thread
  try_lock set_owner : String → Thread
  unlock clear_owner : Thread

-- what a step did to the lock
pub data Event : Type 0 where
  quiet took freed : Event

-- the next step of a thread: a compare-and-exchange of `locked`, or the write of `owner`
unfoldable pub move : Thread → Mutex → Option (Mutex × Thread × Event)
move (try_lock o) m =
    if m.locked
    then some (m, returned false, quiet)
    else some (record m { locked = true }, set_owner o, took)
move (set_owner o) m = some (record m { owner = some o }, returned true, quiet)
move unlock m =
    if m.locked
    then some (record m { locked = false }, clear_owner, freed)
    else some (m, returned false, quiet)
move clear_owner m = some (record m { owner = none }, returned true, quiet)
move t m = none

abbrev pub is_idle : Thread → Bool
is_idle idle = true
is_idle (returned b) = true
is_idle t = false

-- a call that a thread can make
abbrev pub is_call : Thread → Bool
is_call (try_lock o) = true
is_call unlock = true
is_call t = false

abbrev pub Threads : Type 0
Threads = ℕ → Thread

abbrev pub set : Threads → ℕ → Thread → Threads
set ts i t j = if j == i then t else ts j

abbrev pub taken : Event → ℕ
taken took = 1
taken e = 0

abbrev pub given_back : Event → ℕ
given_back freed = 1
given_back e = 0

-- What the threads do from the new mutex on, with how often the lock was taken and freed.
pub data Run : Mutex → Threads → ℕ → ℕ → Type 0 where
  begin : Run new (λ i. idle) 0 0
  calls :
      {m : Mutex} {ts : Threads} {a b : ℕ}
      → Run m ts a b
      → (i : ℕ) (t : Thread) → is_call t ≡ true
      → is_idle (ts i) ≡ true
      → Run m (set ts i t) a b
  moves :
      {m : Mutex} {ts : Threads} {a b : ℕ}
      → Run m ts a b
      → (i : ℕ) (m' : Mutex) (t : Thread) (e : Event) → move (ts i) m ≡ some (m', t, e)
      → Run m' (set ts i t) (a + taken e) (b + given_back e)

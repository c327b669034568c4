-- ===== src/Sync/Mutex/Owner.antt =====
-- crates/causm-concurrency/src/sync.rs: what `locked` and `owner` of a `Mutex` say.
use causm.Prelude.{
  ℕ, ◌+◌, ◌≡◌, refl, subst, Bool, true, false, Option, some, none, String, if◌then◌else◌, arith,
}
use causm.Sync.Mutex.{
  Mutex, Thread, idle, returned, try_lock, set_owner, unlock, clear_owner, Event, quiet, took,
  freed, move, is_idle, Threads, set, taken, given_back, Run, begin, calls, moves,
}

abbrev held : Mutex → ℕ
held m = if m.locked then 1 else 0

-- a step counts what it does
abbrev Counts : Mutex → Option (Mutex × Thread × Event) → Type 0
Counts m none = Unit {0}
Counts m (some (m', t, e)) = held m' + given_back e ≡ held m + taken e

move-Counts : (t : Thread) (m : Mutex) → Counts m (move t m)
unfolding move
move-Counts (try_lock o) m = go m.locked refl
  where
    go :
        (b : Bool)
        → m.locked ≡ b
        → Counts m (
            if b
            then some (m, returned false, quiet)
            else some (record m { locked = true }, set_owner o, took))
    go true e = refl
    go false e = rw e refl
move-Counts (set_owner o) m = refl
move-Counts unlock m = go m.locked refl
  where
    go :
        (b : Bool)
        → m.locked ≡ b
        → Counts m (
            if b
            then some (record m { locked = false }, clear_owner, freed)
            else some (m, returned false, quiet))
    go true e = rw e refl
    go false e = refl
move-Counts clear_owner m = refl
move-Counts idle m = tt
move-Counts (returned b) m = tt

-- However many threads lock and unlock, the lock was taken once more than it was freed where it is
-- locked, and as often where it is not: it is never taken twice without being freed in between.
pub Run-alternates : {m : Mutex} {ts : Threads} {a b : ℕ} → Run m ts a b → a ≡ b + held m
Run-alternates begin = refl
Run-alternates (calls r i t c q) = Run-alternates r
Run-alternates (moves {m = m} {ts = ts} {a = a} {b = b} r i m' t e q) =
    go (Run-alternates r) (subst (Counts m) q (move-Counts (ts i) m))
  where
    go :
        a ≡ b + held m
        → held m' + given_back e ≡ held m + taken e
        → a + taken e ≡ b + given_back e + held m'
    go h k = omega arith

-- the threads behind the run below
abbrev before : String → Threads
before a =
    set
      (set (set (set (set (λ i. idle) 0 (try_lock a)) 0 (set_owner a)) 0 (returned true)) 0 unlock)
      0 clear_owner

abbrev between : String → String → Threads
between a b = set (set (set (before a) 1 (try_lock b)) 1 (set_owner b)) 1 (returned true)

-- One step of `unlock` can erase the owner that another thread has written: for any two owners there
-- is a run behind which the mutex is locked under the name of the second, whose call has returned
-- true. The next step of the first thread, the last of its `unlock`, clears that name and returns
-- true; then the mutex is locked without an owner and no thread has a step left.
pub owner_lost :
    (a b : String)
    → (ts : Threads) × Run (record { locked = true; owner = some b }) ts 2 1
      × (ts 1 ≡ returned true)
      × (move (ts 0) (record { locked = true; owner = some b })
          ≡ some (record { locked = true; owner = none }, returned true, quiet))
      × Run (record { locked = true; owner = none }) (set ts 0 (returned true)) 2 1
      × ((i : ℕ) → is_idle (set ts 0 (returned true) i) ≡ true)
unfolding move
owner_lost a b = (
  between a b,
  run,
  refl,
  refl,
  moves run 0 (record { locked = true; owner = none }) (returned true) quiet refl,
  idle_all,
)
  where
    run : Run (record { locked = true; owner = some b }) (between a b) 2 1
    run =
        moves
          (moves
            (calls
              (moves
                (calls
                  (moves
                    (moves (calls begin 0 (try_lock a) refl refl) 0
                      (record { locked = true; owner = none }) (set_owner a) took refl)
                    0 (record { locked = true; owner = some a }) (returned true) quiet refl)
                  0 unlock refl refl)
                0 (record { locked = false; owner = some a }) clear_owner freed refl)
              1 (try_lock b) refl refl)
            1 (record { locked = true; owner = some a }) (set_owner b) took refl)
          1 (record { locked = true; owner = some b }) (returned true) quiet refl

    idle_all : (i : ℕ) → is_idle (set (between a b) 0 (returned true) i) ≡ true
    idle_all i = ground arith

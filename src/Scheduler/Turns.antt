-- ===== src/Scheduler/Turns.antt =====
-- crates/causm-concurrency/src/scheduler/actor_pool.rs: the turns of the actors, as a relation.
use causm.Prelude.{
  ℕ, ◌≡◌, ◌⊎◌, ◌||◌, true, Option, some, none, String, str_eq, List, [], ◌∷◌, if◌then◌else◌,
}
use causm.Prelude.Assoc
use causm.Prelude.Assoc.{lookup-insert}
use causm.Smt.Names.{member, In}
use causm.Mailbox.{BoundedMailbox, pop}
use causm.Scheduler.{
  TimeSlice, ActorPool, ActorHandle, new, register_actor, get_actor_mut, send_to, next_ready_actor,
  requeue_actor,
}

-- the names without one
abbrev pub without : String → List String → List String
without name [] = []
without name (x ∷ xs) = if str_eq x name then without name xs else x ∷ without name xs

-- A pool, and the actors whose turn it is.
pub record Schedule (M : Type 0) : Type 0 where
  pub pool : ActorPool M
  pub running : List String

module _ {M : Type 0} where
  abbrev pub receive : ActorHandle M → ActorHandle M
  receive h = record h { mailbox = (pop h.mailbox).0 }

  abbrev pub keep_time : (TimeSlice → TimeSlice) → ActorHandle M → ActorHandle M
  keep_time f h = record h { slice = f h.slice }

  -- What the scheduler's loop does: an actor that gets a turn takes messages and time, and ends its
  -- turn by `requeue_actor`, or, with an empty mailbox, without it.
  pub data Step : Schedule M → Schedule M → Type 0 where
    registers :
        {p : ActorPool M} {r : List String}
        → (name : String) (mailbox : BoundedMailbox M) (budget : ℕ)
        → Step
            (record { pool = p; running = r })
            (record { pool = register_actor name mailbox budget p; running = r })
    sends :
        {p : ActorPool M} {r : List String}
        → (target : String) (message : M)
        → Step
            (record { pool = p; running = r })
            (record { pool = (send_to target message p).0; running = r })
    begins :
        {p : ActorPool M} {r : List String}
        → (name : String) → (next_ready_actor p).1 ≡ some name
        → Step
            (record { pool = p; running = r })
            (record { pool = (next_ready_actor p).0; running = name ∷ r })
    receives :
        {p : ActorPool M} {r : List String}
        → (name : String) → In name r
        → Step
            (record { pool = p; running = r })
            (record { pool = get_actor_mut name receive p; running = r })
    times :
        {p : ActorPool M} {r : List String}
        → (name : String) (f : TimeSlice → TimeSlice) → In name r
        → Step
            (record { pool = p; running = r })
            (record { pool = get_actor_mut name (keep_time f) p; running = r })
    ends :
        {p : ActorPool M} {r : List String}
        → (name : String) → In name r
        → Step
            (record { pool = p; running = r })
            (record { pool = requeue_actor name p; running = without name r })
    rests :
        {p : ActorPool M} {r : List String}
        → (name : String) (h : ActorHandle M) → Assoc.lookup name p.actors ≡ some h
        → h.mailbox.buffer ≡ []
        → Step (record { pool = p; running = r }) (record { pool = p; running = without name r })

  pub data Reached : Schedule M → Type 0 where
    begin : Reached (record { pool = new; running = [] })
    step : {s s' : Schedule M} → Reached s → Step s s' → Reached s'

  -- ready, at work, or without messages
  abbrev pub IsHeard : Schedule M → String → Option (ActorHandle M) → Type 0
  IsHeard s name none = Unit {0}
  IsHeard s name (some h) =
      (member s.pool.ready_queue name || member s.running name ≡ true) ⊎ (h.mailbox.buffer ≡ [])

  abbrev pub AllHeard : Schedule M → Type 0
  AllHeard s = (name : String) → IsHeard s name (Assoc.lookup name s.pool.actors)

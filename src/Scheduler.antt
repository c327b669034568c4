-- ===== src/Scheduler.antt =====
-- crates/causm-concurrency/src/scheduler: `ActorPool`, the actors with their mailboxes and the queue of
-- those that are ready, and `TimeSlice`. An `Instant` and a `Duration` are numbers of nanoseconds,
-- and a call that reads the clock takes the reading `now`.
pub mod Turns
pub mod Heard
mod Tests
pub mod Order
pub mod Slices
use causm.Prelude.{
  ℕ, ◌+◌, ◌-◌, Bool, true, false, Option, some, none, String, List, [], ◌∷◌, ◌++◌, length,
  if◌then◌else◌, leb, Result, ok, err,
}
use causm.Prelude.Assoc
use causm.Smt.Names.{include}
use causm.Mailbox.{
  BoundedMailbox, MailboxError, full, MailboxOverflowAction, push, pop, Pushed, take_front,
}

pub record TimeSlice : Type 0 where
  pub budget : ℕ
  pub started_at : Option ℕ
  pub accumulated : ℕ

abbrev pub new_slice : ℕ → TimeSlice
new_slice budget = record { budget = budget; started_at = none; accumulated = 0 }

-- the time since an instant, `Instant::elapsed`
abbrev pub since : ℕ → Option ℕ → ℕ
since now none = 0
since now (some start) = now - start

unfoldable pub start : ℕ → TimeSlice → TimeSlice
start now s = record s { started_at = some now }

unfoldable pub pause : ℕ → TimeSlice → TimeSlice
pause now s = record s { started_at = none; accumulated = s.accumulated + since now s.started_at }

unfoldable pub reset : TimeSlice → TimeSlice
reset s = record s { started_at = none; accumulated = 0 }

unfoldable pub elapsed : ℕ → TimeSlice → ℕ
elapsed now s = s.accumulated + since now s.started_at

unfoldable pub remaining : ℕ → TimeSlice → ℕ
unfolding elapsed
remaining now s = s.budget - elapsed now s

unfoldable pub is_expired : ℕ → TimeSlice → Bool
unfolding elapsed
is_expired now s = leb s.budget (elapsed now s)

pub record ActorHandle (M : Type 0) : Type 0 where
  pub name : String
  pub mailbox : BoundedMailbox M
  pub slice : TimeSlice

pub record ActorPool (M : Type 0) : Type 0 where
  pub actors : List (String × ActorHandle M)
  pub ready_queue : List String

abbrev pub Sent : Type 0 → Type 0
Sent M = ActorPool M × Result (MailboxError M) (Unit {0})

module _ {M : Type 0} where
  abbrev pub new : ActorPool M
  new = record { actors = []; ready_queue = [] }

  unfoldable pub register_actor : String → BoundedMailbox M → ℕ → ActorPool M → ActorPool M
  register_actor name mailbox slice_budget p = record {
    actors =
        Assoc.insert name
          (record { name = name; mailbox = mailbox; slice = new_slice slice_budget }) p.actors;
    ready_queue = p.ready_queue ++ name ∷ [];
  }

  -- what is done through the reference that `get_actor_mut` gives
  abbrev pub change :
      Option (ActorHandle M) → String → (ActorHandle M → ActorHandle M) → ActorPool M → ActorPool M
  change none name f p = p
  change (some h) name f p = record p { actors = Assoc.insert name (f h) p.actors }

  unfoldable pub get_actor_mut :
      String → (ActorHandle M → ActorHandle M) → ActorPool M → ActorPool M
  get_actor_mut name f p = change (Assoc.lookup name p.actors) name f p

  -- behind `push`: a refused message stays out of the queue
  abbrev pub finish_send : String → ActorHandle M → Pushed M → ActorPool M → Sent M
  finish_send target h (mailbox, err e) p =
      (record p { actors = Assoc.insert target (record h { mailbox = mailbox }) p.actors }, err e)
  finish_send target h (mailbox, ok action) p = (
    record {
      actors = Assoc.insert target (record h { mailbox = mailbox }) p.actors;
      ready_queue = include target p.ready_queue;
    },
    ok tt,
  )

  abbrev pub send_found : Option (ActorHandle M) → String → M → ActorPool M → Sent M
  send_found none target message p = (p, err (full message))
  send_found (some h) target message p = finish_send target h (push h.mailbox message) p

  unfoldable pub send_to : String → M → ActorPool M → Sent M
  send_to target message p = send_found (Assoc.lookup target p.actors) target message p

  unfoldable pub next_ready_actor : ActorPool M → ActorPool M × Option String
  unfolding take_front
  next_ready_actor p =
      let (front, rest) = take_front p.ready_queue in (record p { ready_queue = rest }, front)

  abbrev pub contains : Option (ActorHandle M) → Bool
  contains none = false
  contains (some h) = true

  unfoldable pub requeue_actor : String → ActorPool M → ActorPool M
  requeue_actor name p = record p {
    ready_queue =
        if contains (Assoc.lookup name p.actors) then include name p.ready_queue else p.ready_queue;
  }

  unfoldable pub active_actors_count : ActorPool M → ℕ
  active_actors_count p = length p.actors

-- ===== src/Scheduler/Tests.antt =====
-- crates/causm-concurrency/src/scheduler: runs of a pool, and the theorems applied to them.
use causm.Prelude.{ℕ, ◌≡◌, refl, true, [], ◌∷◌, arith}
use causm.Prelude.Assoc
use causm.Mailbox.{BoundedMailbox, throttle, push}
use causm.Scheduler.{
  ActorPool, new, register_actor, send_to, next_ready_actor, start, elapsed, new_slice, is_expired,
  remaining,
}
use causm.Scheduler.Order.{send, next, requeue, asked, Served, turns-Served}
use causm.Scheduler.Turns.{
  Schedule, registers, sends, begins, Reached, begin, step, IsHeard, rests, without,
}
use causm.Scheduler.Heard.{Reached-AllHeard}
use causm.Scheduler.Slices.{take_turns, total, take_turns-elapsed}

abbrev small : BoundedMailbox ℕ
small = record { buffer = []; capacity = 2; policy = throttle }

abbrev two_actors : ActorPool ℕ
two_actors = register_actor "b" small 5 (register_actor "a" small 5 new)

-- a turn of each; the first comes back to the queue behind the second
turns-Served_example :
    Served ("a" ∷ []) "b" (next ∷ send "a" 7 ∷ requeue "b" ∷ next ∷ next ∷ []) two_actors
unfolding register_actor asked
turns-Served_example =
    turns-Served (next ∷ send "a" 7 ∷ requeue "b" ∷ next ∷ next ∷ []) two_actors ("a" ∷ []) [] "b"
      refl (omega arith)

-- an actor that is registered once more stands in the queue twice
twice-queued : (register_actor "a" small 5 two_actors).ready_queue ≡ "a" ∷ "b" ∷ "a" ∷ []
unfolding register_actor
twice-queued = refl

-- 1 and 4 nanoseconds, and 2 of the turn that began at 20, of a budget of 7
three_turns :
    let s = start 20 (take_turns ((3, 4) ∷ (10, 14) ∷ []) (new_slice 7)) in
    (elapsed 22 s ≡ 7) × (is_expired 22 s ≡ true) × (remaining 22 s ≡ 0)
unfolding total
three_turns = take_turns-elapsed ((3, 4) ∷ (10, 14) ∷ []) 7 20 22

-- "a" rests with an empty mailbox, and is ready again when a message comes
abbrev resting : ActorPool ℕ
resting = (next_ready_actor two_actors).0

abbrev woken : Schedule ℕ
woken = record { pool = (send_to "a" 7 resting).0; running = without "a" ("a" ∷ []) }

woken-Reached : Reached woken
unfolding register_actor next_ready_actor Assoc.lookup Assoc.insert
woken-Reached =
    step
      (step
        (step (step (step begin (registers "a" small 5)) (registers "b" small 5)) (begins "a" refl))
        (rests "a" (record { name = "a"; mailbox = small; slice = new_slice 5 }) refl refl))
      (sends "a" 7)

Reached-AllHeard_example : IsHeard woken "a" (Assoc.lookup "a" woken.pool.actors)
Reached-AllHeard_example = Reached-AllHeard woken-Reached "a"

woken-queue : woken.pool.ready_queue ≡ "b" ∷ "a" ∷ []
unfolding register_actor next_ready_actor send_to Assoc.lookup Assoc.insert push
woken-queue = refl

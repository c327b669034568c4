-- ===== src/Timeline/Insert.antt =====
-- crates/causm-runtime/src/vm/core.rs: `insert_reg` under the saturation policies.
use causm.Prelude.{ℕ, ◌^◌, ◌<◌, ◌≡◌, ◌≢◌, refl, ◌⊎◌, inl, inr, Option, some, none, add64, ok, err}
use causm.Value.{
  EntropicState, MemoryError, already_consumed, structurally_decayed, not_a_struct,
  clone_budget_exceeded, out_of_memory, key_not_found, weight,
}
use causm.Arena
use causm.Arena.{Arena, Outcome}
use causm.Arena.Sound.{IsSound}
use causm.Arena.Keeps.{insert-IsSound}
use causm.Arena.Evict.{evict_decayed-IsSound}
use causm.Mailbox.{SaturationPolicy, evict_decayed, ring_buffer, throttle, fail_fast}
use causm.Timeline.{
  Timeline, Ran, lift_arena, full_policy, on_out_of_memory, after_insert, insert_reg,
}

-- the arena is sound, and the clock stands still but for a throttled retry
abbrev pub Inserted : Timeline → Ran (Unit {0}) → Type 0
Inserted t (t', r) =
    IsSound t'.arena
    × ((t'.local_clock ≡ t.local_clock)
        ⊎ (full_policy t.saturation_policies ≡ some throttle)
          × (t'.local_clock ≡ add64 t.local_clock 10))

lift_arena-IsSound :
    (t : Timeline) (o : Outcome (Unit {0}))
    → IsSound o.0
    → IsSound (lift_arena t o).0.arena × ((lift_arena t o).0.local_clock ≡ t.local_clock)
lift_arena-IsSound t (a, ok u) s = (s, refl)
lift_arena-IsSound t (a, err e) s = (s, refl)

on_out_of_memory-Inserted :
    (t : Timeline) (reg : ℕ) (state : EntropicState) (e : MemoryError) (p : Option SaturationPolicy)
    → weight state < 2 ^ 62
    → IsSound t.arena
    → full_policy t.saturation_policies ≡ p
    → p ≢ some ring_buffer
    → Inserted t (on_out_of_memory t reg state e p)
unfolding on_out_of_memory
on_out_of_memory-Inserted t reg state e none w s q n = (s, inl refl)
on_out_of_memory-Inserted t reg state e (some fail_fast) w s q n = (s, inl refl)
on_out_of_memory-Inserted t reg state e (some ring_buffer) w s q n = absurd (n refl)
on_out_of_memory-Inserted t reg state e (some evict_decayed) w s q n =
    let (sound, clock) =
      lift_arena-IsSound t (Arena.insert (Arena.evict_decayed t.arena) reg state)
        (insert-IsSound reg state w (evict_decayed-IsSound s)) in
    (sound, inl clock)
on_out_of_memory-Inserted t reg state e (some throttle) w s q n =
    let (sound, clock) =
      lift_arena-IsSound (record t { local_clock = add64 t.local_clock 10 })
        (Arena.insert (Arena.evict_decayed t.arena) reg state)
        (insert-IsSound reg state w (evict_decayed-IsSound s)) in
    (sound, inr (q, clock))

after_insert-Inserted :
    (t : Timeline) (reg : ℕ) (state : EntropicState) (o : Outcome (Unit {0}))
    → weight state < 2 ^ 62
    → IsSound o.0
    → full_policy t.saturation_policies ≢ some ring_buffer
    → Inserted t (after_insert t reg state o)
unfolding after_insert
after_insert-Inserted t reg state (a, ok u) w s n = (s, inl refl)
after_insert-Inserted t reg state (a, err (out_of_memory need left)) w s n =
    on_out_of_memory-Inserted (record t { arena = a }) reg state (out_of_memory need left)
      (full_policy t.saturation_policies) w s refl n
after_insert-Inserted t reg state (a, err already_consumed) w s n = (s, inl refl)
after_insert-Inserted t reg state (a, err structurally_decayed) w s n = (s, inl refl)
after_insert-Inserted t reg state (a, err not_a_struct) w s n = (s, inl refl)
after_insert-Inserted t reg state (a, err clone_budget_exceeded) w s n = (s, inl refl)
after_insert-Inserted t reg state (a, err MemoryError.leased) w s n = (s, inl refl)
after_insert-Inserted t reg state (a, err (key_not_found k)) w s n = (s, inl refl)

-- Whether `insert_reg` succeeds or fails, with a state below 2^62 bytes and any policy for a full
-- arena but the ring buffer's snapback, a sound arena stays sound. The clock moves only where the
-- policy is to throttle, and then by 10 milliseconds.
pub insert_reg-Inserted :
    (t : Timeline) (reg : ℕ) (state : EntropicState)
    → weight state < 2 ^ 62
    → IsSound t.arena
    → full_policy t.saturation_policies ≢ some ring_buffer
    → Inserted t (insert_reg t reg state)
unfolding insert_reg
insert_reg-Inserted t reg state w s n =
    after_insert-Inserted t reg state (Arena.insert t.arena reg state) w
      (insert-IsSound reg state w s) n

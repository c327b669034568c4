-- ===== src/Handlers.antt =====
-- crates/causm-runtime/src/vm/handlers/temporal.rs and entropic.rs: the instruction handlers that act
-- on the timeline of their branch.
pub mod Leases
pub mod Clock
pub mod Clones
mod Tests
use causm.Prelude.{
  ℕ, ◌-◌, Bool, true, false, Option, some, none, String, List, [], ◌∷◌, if◌then◌else◌, ltb, leb,
  ◌==◌, not, add64, Result, ok, err,
}
use causm.Prelude.Assoc
use causm.Value.{
  EntropicState, valid, leased, decayed, pending, consumed, MemoryError, already_consumed, Payload,
}
use causm.Arena
use causm.Arena.{Arena, ValueMetadata, get_metadata}
use causm.Timeline.{
  Timeline, Manifest, AnchorPoint, Policies, EntropyMode, chaos, deterministic, TemporalError,
  budget_exhausted, rewind_disabled_in_chaos, assertion_failed, memory_fault, lease_violation,
  already_leased, not_leased, exceeded, anchor_not_found, Ran, ◌>>=◌, lift_arena, consume_budget,
  peek_state, check_and_apply_decay, insert_reg, insert_reg_with_metadata,
}

-- the comparison of `AssertTime`; the other binary operators give `false`
pub data Comparison : Type 0 where
  lt gt le ge eq neq other : Comparison

unfoldable pub compares : Comparison → ℕ → ℕ → Bool
compares lt a b = ltb a b
compares gt a b = ltb b a
compares le a b = leb a b
compares ge a b = leb b a
compares eq a b = a == b
compares neq a b = not (a == b)
compares other a b = false

unfoldable pub assert_time : Timeline → Comparison → ℕ → Ran (Unit {0})
unfolding compares
assert_time t op limit_ms =
    if compares op t.local_clock limit_ms then (t, ok tt) else (t, err assertion_failed)

-- `if let Some(x) = o { field = x }`
abbrev given : {A : Type 0} → Option A → A → A
given (some x) old = x
given none old = old

-- `for (res, amount) in &manifest.resource_budgets`
unfoldable pub add_budgets : List (String × ℕ) → List (String × ℕ) → List (String × ℕ)
add_budgets [] budgets = budgets
add_budgets ((res, amount) ∷ rest) budgets = add_budgets rest (Assoc.insert res amount budgets)

-- the first block of `Isolate`
unfoldable pub enter_manifest : Timeline → Manifest → Timeline
unfolding add_budgets
enter_manifest t m = record t {
  arena = record (t.arena) { capacity = given m.memory_budget_bytes t.arena.capacity };
  entropy_mode = given m.mode t.entropy_mode;
  resource_budgets = add_budgets m.resource_budgets t.resource_budgets;
  manifest_stack = m ∷ t.manifest_stack;
}

unfoldable pub set_slice : Timeline → Option ℕ → Ran (Unit {0})
set_slice t none = (t, ok tt)
set_slice t (some ms) = (record t { slice_ms = some ms }, ok tt)

unfoldable pub isolate : Timeline → Manifest → Ran (Unit {0})
unfolding enter_manifest set_slice
isolate t m =
    let t' = enter_manifest t m in
    elim m.cpu_budget_ms [
      | none ↦ set_slice t' m.slice_ms
      | some cpu ↦
          if ltb t'.cpu_budget_ms cpu
          then (t', err budget_exhausted)
          else set_slice (record t' { cpu_budget_ms = cpu }) m.slice_ms
    ]

abbrev drop_manifest : List Manifest → List Manifest
drop_manifest [] = []
drop_manifest (_ ∷ ms) = ms

unfoldable pub end_isolate : Timeline → Ran (Unit {0})
end_isolate t = (record t { manifest_stack = drop_manifest t.manifest_stack }, ok tt)

-- `insert_with_metadata` on the arena where there is metadata, else `insert_reg`
unfoldable pub put_state : Timeline → ℕ → EntropicState → Option ValueMetadata → Ran (Unit {0})
put_state t reg state (some meta) = lift_arena t (Arena.insert_with_metadata t.arena reg state meta)
put_state t reg state none = insert_reg t reg state

-- the two insertions of `Lease`, for a source that can be leased
unfoldable pub lease_state : Timeline → ℕ → ℕ → ℕ → EntropicState → Ran (Unit {0})
unfolding put_state
lease_state t target source duration_ms state =
    let expiration_ms = add64 t.local_clock duration_ms in
    let metadata = get_metadata t.arena source in
    put_state t target state metadata >>= λ _ t'.
    put_state t' source (leased state expiration_ms) metadata

unfoldable pub lease_peeked : ℕ → ℕ → ℕ → Timeline × EntropicState → Ran (Unit {0})
unfolding lease_state
lease_peeked target source duration_ms (t, leased _ _) =
    (t, err (lease_violation (already_leased source)))
lease_peeked target source duration_ms (t, consumed) = (t, err (memory_fault already_consumed))
lease_peeked target source duration_ms (t, state) = lease_state t target source duration_ms state

unfoldable pub lease : Timeline → ℕ → ℕ → ℕ → Ran (Unit {0})
unfolding lease_peeked peek_state
lease t target source duration_ms = lease_peeked target source duration_ms (peek_state t source)

-- `if current < until { clock = until; consume_budget(until - current)? }`
unfoldable pub pad_until : Timeline → ℕ → Ran (Unit {0})
unfolding consume_budget
pad_until t until =
    if ltb t.local_clock until
    then consume_budget (record t { local_clock = until }) (until - t.local_clock)
    else (t, ok tt)

-- `clock` and `metadata` are read before the state is peeked.
unfoldable pub end_lease_peeked :
    ℕ → ℕ → Option ValueMetadata → Timeline × EntropicState → Ran (Unit {0})
unfolding pad_until put_state
end_lease_peeked source clock metadata (t, leased original expiration_ms) =
    if ltb expiration_ms clock
    then (t, err (lease_violation (exceeded source (clock - expiration_ms))))
    else (pad_until t expiration_ms >>= λ _ t'. put_state t' source original metadata)
end_lease_peeked source clock metadata (t, _) = (t, err (lease_violation (not_leased source)))

unfoldable pub end_lease : Timeline → ℕ → Ran (Unit {0})
unfolding end_lease_peeked peek_state
end_lease t source =
    end_lease_peeked source t.local_clock (get_metadata t.arena source) (peek_state t source)

unfoldable pub periodic_epoch : Timeline → Ran (Unit {0})
periodic_epoch t = (record t { arena = Arena.freeze_base_watermark t.arena }, ok tt)

unfoldable pub end_periodic_epoch : Timeline → ℕ → Ran (Unit {0})
unfolding pad_until
end_periodic_epoch t interval_ms =
    pad_until (record t { arena = Arena.reset_to_base_watermark t.arena }) interval_ms

-- `Anchor`; the snapshot of the instructions is not part of the model
unfoldable pub anchor : Timeline → String → Ran (Unit {0})
anchor t name = elim t.entropy_mode [
  | chaos ↦ (t, err rewind_disabled_in_chaos)
  | deterministic ↦
      let snapshot : AnchorPoint = record {
        clock_snapshot = t.local_clock;
        arena_snapshot = t.arena;
        cpu_budget_snapshot = t.cpu_budget_ms;
        resource_budgets_snapshot = t.resource_budgets;
        pc_snapshot = t.pc;
      } in
      (record t { anchors = Assoc.insert name snapshot t.anchors }, ok tt)
]

-- the restoration that ends `Rewind`
unfoldable pub restore : Timeline → AnchorPoint → Timeline
restore t a = record t {
  arena = a.arena_snapshot;
  local_clock = a.clock_snapshot;
  cpu_budget_ms = a.cpu_budget_snapshot;
  resource_budgets = a.resource_budgets_snapshot;
  pc = a.pc_snapshot;
  commit_horizon_passed = false;
}

-- the insertion that ends `Clone`, which asks no saturation policy
unfoldable pub clone_put : Timeline → ℕ → Payload → Option ValueMetadata → Ran (Unit {0})
clone_put t dest p (some meta) =
    lift_arena t (Arena.insert_with_metadata t.arena dest (valid p) meta)
clone_put t dest p none = lift_arena t (Arena.insert t.arena dest (valid p))

-- `Clone`; `peek` answers `none` for what cannot be read
unfoldable pub clone_peeked : Timeline → ℕ → ℕ → Option Payload → Ran (Unit {0})
unfolding consume_budget clone_put
clone_peeked t dest src none = (t, err (memory_fault already_consumed))
clone_peeked t dest src (some payload) =
    consume_budget t (Arena.calculate_clone_cost payload 1) >>= λ _ t'.
    clone_put t' dest payload (get_metadata t.arena src)

unfoldable pub clone : Timeline → ℕ → ℕ → Ran (Unit {0})
unfolding clone_peeked
clone t dest src =
    let t' = check_and_apply_decay t src in clone_peeked t' dest src (Arena.peek t'.arena src)

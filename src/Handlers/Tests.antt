-- ===== src/Handlers/Tests.antt =====
-- Handlers on a small timeline, and the theorems on them at it.
use causm.Mailbox.{throttle, ring_buffer}
use causm.Handlers.Clones.{Copied, clone_lem}
use causm.Timeline.{check_and_apply_decay}
use causm.Handlers.{clone}
use causm.Value.{payload_weight}
use causm.Value.{decayed, entry, empty_map, string}
use causm.Timeline.{full_policy, insert_reg}
use causm.Timeline.Insert.{Inserted, insert_reg-Inserted}
use causm.Prelude.{◌≢◌}
use causm.Prelude.{
  ℕ, ◌+◌, ◌-◌, ◌≤◌, ◌<◌, ◌≡◌, refl, ◌⊎◌, some, none, [], ◌∷◌, max, arith, false, ok, err, pos,
}
use causm.Prelude.Assoc
use causm.Value.{valid, leased, integer, weight}
use causm.Arena
use causm.Arena.{Arena, state_at}
use causm.Arena.Sound.{IsSound}
use causm.Timeline.{
  Timeline, AnchorPoint, deterministic, budget_exhausted, lease_violation, exceeded,
}
use causm.Handlers.{end_lease, end_periodic_epoch, anchor, restore}
use causm.Handlers.Leases.{end_lease_lem}
use causm.Handlers.Clock.{end_periodic_epoch-pads, rolled_back, anchor-restores}

abbrev one_lease : Arena
one_lease = record {
  capacity = 100;
  used = 50;
  base_watermark_used = 0;
  base_watermark_regs = 0;
  registers = leased (valid (integer (pos 5))) 40 ∷ [];
  metadata = none ∷ [];
  is_persistent_partition = false;
}

abbrev at_time : ℕ → Timeline
at_time clock = record {
  birth_global_time = 3;
  local_clock = clock;
  arena = one_lease;
  cpu_budget_ms = 30;
  slice_ms = none;
  anchors = [];
  commit_horizon_passed = false;
  manifest_stack = [];
  resource_budgets = [];
  entropy_mode = deterministic;
  break_requested = false;
  saturation_policies = record { on_full = none; on_deadline_breach = none; on_overflow = none };
  pc = 0;
}

one_lease-IsSound : IsSound one_lease
unfolding weight
one_lease-IsSound = record {
  sizes = refl;
  word = omega arith;
  used_within = omega arith;
  each_within = (omega arith, tt);
  accounted = omega arith;
}

end_lease_lem_example :
    let (t', r) = end_lease (at_time 20) 0 in
    (40 < 20) × (t' ≡ at_time 20) × (r ≡ err (lease_violation (exceeded 0 (20 - 40))))
    ⊎ (20 ≤ 40)
      × (30 < 40 - 20)
      × (t' ≡ record (at_time 20) { local_clock = 40 })
      × (r ≡ err budget_exhausted)
    ⊎ (20 ≤ 40)
      × (r ≡ ok tt)
      × (t'.local_clock ≡ 40)
      × (t'.cpu_budget_ms + 40 ≡ 30 + 20)
      × (state_at t'.arena 0 ≡ valid (integer (pos 5)))
end_lease_lem_example =
    end_lease_lem (at_time 20) 0 (valid (integer (pos 5))) 40 one_lease-IsSound (omega arith)
      (omega arith) refl

end_periodic_epoch-pads_example :
    let (t', r) = end_periodic_epoch (at_time 20) 40 in
    (t'.local_clock ≡ max 20 40)
    × (t'.arena ≡ Arena.reset_to_base_watermark one_lease)
    × ((40 ≤ 20 + 30) × (r ≡ ok tt) × (t'.local_clock + t'.cpu_budget_ms ≡ 20 + 30)
        ⊎ (20 + 30 < 40) × (r ≡ err budget_exhausted) × (t'.cpu_budget_ms ≡ 30))
end_periodic_epoch-pads_example = end_periodic_epoch-pads (at_time 20) 40

restored_start :
    let (t', r) = anchor (at_time 20) "start" in
    (r ≡ ok tt)
    × ((a : AnchorPoint) × (Assoc.lookup "start" t'.anchors ≡ some a)
        × (restore (at_time 47) a ≡ rolled_back (at_time 47) (at_time 20)))
restored_start = anchor-restores (at_time 20) (at_time 47) "start" refl

-- The arena is full, and the policy is to throttle.
abbrev throttled : Timeline
throttled = record (at_time 20) {
  saturation_policies = record {
    on_full = none;
    on_deadline_breach = none;
    on_overflow = some throttle;
  };
}

throttles : full_policy throttled.saturation_policies ≢ some ring_buffer
unfolding full_policy
throttles q = ground arith

insert_reg-Inserted_example :
    Inserted throttled
      (insert_reg throttled 0 (decayed (entry "x" (valid (string "long")) empty_map)))
unfolding weight
insert_reg-Inserted_example =
    insert_reg-Inserted throttled 0 (decayed (entry "x" (valid (string "long")) empty_map))
      (omega arith) one_lease-IsSound throttles

abbrev two_numbers : Timeline
two_numbers = record (at_time 20) {
  arena = record {
    capacity = 200;
    used = 48;
    base_watermark_used = 0;
    base_watermark_regs = 0;
    registers = valid (integer (pos 5)) ∷ valid (integer (pos 6)) ∷ [];
    metadata = none ∷ none ∷ [];
    is_persistent_partition = false;
  };
  cpu_budget_ms = 40;
}

clone_lem_example :
    let now = check_and_apply_decay two_numbers 1 in
    Copied now 0 1 (Arena.peek now.arena 1) (clone two_numbers 0 1).0
unfolding clone Arena.peek check_and_apply_decay Arena.get_metadata Arena.calculate_clone_cost
    payload_weight Arena.insert Arena.insert_at Arena.ensure_register
clone_lem_example = clone_lem two_numbers 0 1 refl

-- ===== src/Handlers/Clock.antt =====
-- crates/causm-runtime/src/vm/handlers/temporal.rs and entropic.rs: padding, epochs and anchors.
use causm.Prelude.{
  ℕ, ◌+◌, ◌-◌, ◌≤◌, ◌<◌, ◌≡◌, refl, false, some, String, List, max, arith, ltb, eq_iff, ok, err,
  Bool-cases, ◌⊎◌, inl, inr,
}
use causm.Prelude.Assoc
use causm.Prelude.Assoc.{lookup-insert}
use causm.Arena
use causm.Timeline.{Timeline, AnchorPoint, deterministic, budget_exhausted, consume_budget}
use causm.Handlers.{pad_until, end_periodic_epoch, anchor, restore}

-- The end of a periodic epoch takes the clock to the interval, unless it is past it. It succeeds
-- exactly where the budget covers the way there, and then the clock and the budget together are
-- what they were. Whatever the result, the arena is snapped back to its watermark.
pub end_periodic_epoch-pads :
    (t : Timeline) (interval_ms : ℕ)
    → let (t', r) = end_periodic_epoch t interval_ms in
      (t'.local_clock ≡ max t.local_clock interval_ms)
      × (t'.arena ≡ Arena.reset_to_base_watermark t.arena)
      × ((interval_ms ≤ t.local_clock + t.cpu_budget_ms)
            × (r ≡ ok tt)
            × (t'.local_clock + t'.cpu_budget_ms ≡ t.local_clock + t.cpu_budget_ms)
          ⊎ (t.local_clock + t.cpu_budget_ms < interval_ms)
            × (r ≡ err budget_exhausted)
            × (t'.cpu_budget_ms ≡ t.cpu_budget_ms))
unfolding end_periodic_epoch pad_until consume_budget
end_periodic_epoch-pads t interval_ms = elim (Bool-cases (ltb t.local_clock interval_ms)) [
  | inl e ↦
      let running : t.local_clock < interval_ms = ground arith in
      rw e (elim (Bool-cases (ltb t.cpu_budget_ms (interval_ms - t.local_clock))) [
        | inl short ↦
            let missing : t.cpu_budget_ms < interval_ms - t.local_clock = ground arith in
            rw short (omega arith, refl, inr (omega arith, refl, refl))
        | inr covered ↦
            let paid : interval_ms - t.local_clock ≤ t.cpu_budget_ms = ground arith in
            rw covered (omega arith, refl, inl (omega arith, refl, omega arith))
      ])
  | inr e ↦
      let over : interval_ms ≤ t.local_clock = ground arith in
      rw e (omega arith, refl, inl (omega arith, refl, refl))
]

-- the timeline with the arena, the clock, the budget, the resources and the pc of another
abbrev pub rolled_back : Timeline → Timeline → Timeline
rolled_back now then_ = record now {
  arena = then_.arena;
  local_clock = then_.local_clock;
  cpu_budget_ms = then_.cpu_budget_ms;
  resource_budgets = then_.resource_budgets;
  pc = then_.pc;
  commit_horizon_passed = false;
}

-- what `Anchor` writes down
abbrev snapshot : Timeline → AnchorPoint
snapshot t = record {
  clock_snapshot = t.local_clock;
  arena_snapshot = t.arena;
  cpu_budget_snapshot = t.cpu_budget_ms;
  resource_budgets_snapshot = t.resource_budgets;
  pc_snapshot = t.pc;
}

lookup-own :
    (name : String) (a : AnchorPoint) (m : List (String × AnchorPoint))
    → Assoc.lookup name (Assoc.insert name a m) ≡ some a
lookup-own name a m = ground (arith, eq_iff name name, lookup-insert name name a m)

-- In a deterministic timeline `Anchor` succeeds, and whatever the timeline has become later, the
-- restoration of what the anchor holds under that name gives back the arena, the clock, the
-- budgets and the program counter of that moment.
pub anchor-restores :
    (t now : Timeline) (name : String)
    → t.entropy_mode ≡ deterministic
    → let (t', r) = anchor t name in
      (r ≡ ok tt)
      × ((a : AnchorPoint) × (Assoc.lookup name t'.anchors ≡ some a)
          × (restore now a ≡ rolled_back now t))
unfolding anchor restore
anchor-restores t now name e =
    rw e (refl, (snapshot t, lookup-own name (snapshot t) t.anchors, refl))

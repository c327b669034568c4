-- ===== src/Handlers/Leases.antt =====
-- crates/causm-runtime/src/vm/handlers/temporal.rs: `EndLease` on every branch.
use causm.Prelude.{
  ℕ, ◌+◌, ◌-◌, ◌≤◌, ◌<◌, ◌≡◌, refl, Option, some, none, length, arith, ltb, lt→ltb, le→not_ltb,
  get_or-set_self, ok, err, add64, Bool-cases, ◌⊎◌, inl, inr,
}
use causm.Value.{EntropicState, leased, consumed, weight}
use causm.Arena.{
  ValueMetadata, state_at, get_metadata, insert_with_metadata, stamp_metadata, put_metadata,
}
use causm.Arena.Sound.{IsSound}
use causm.Arena.Store.{insert_fits, lease_fits_back}
use causm.Timeline.{
  Timeline, budget_exhausted, lease_violation, exceeded, consume_budget, outlived, is_valid,
  check_and_apply_decay, peek_state, insert_reg, after_insert,
}
use causm.Handlers.{pad_until, put_state, end_lease_peeked, end_lease}

-- A lease suspends decay.
no_decay :
    (t : Timeline) (reg : ℕ) (original : EntropicState) (expiration : ℕ)
    → state_at t.arena reg ≡ leased original expiration
    → check_and_apply_decay t reg ≡ t
unfolding check_and_apply_decay
no_decay t reg original expiration e =
    rw (e, is_valid)
      (elim (Bool-cases
        (outlived (add64 t.birth_global_time t.local_clock) (get_metadata t.arena reg))) [
          | inl o ↦ rw o refl
          | inr o ↦ rw o refl
        ])

-- An insertion that fits puts the state in its register and leaves the clock and the budget.
put_state_fits :
    (t : Timeline) (reg : ℕ) (state : EntropicState) (meta : Option ValueMetadata)
    → reg < length t.arena.registers
    → add64 (t.arena.used - weight (state_at t.arena reg)) (weight state) ≤ t.arena.capacity
    → let (t', r) = put_state t reg state meta in
      (r ≡ ok tt)
      × (t'.local_clock ≡ t.local_clock)
      × (t'.cpu_budget_ms ≡ t.cpu_budget_ms)
      × (state_at t'.arena reg ≡ state)
unfolding put_state insert_reg after_insert insert_with_metadata stamp_metadata put_metadata
put_state_fits t reg state (some m) h fits =
    rw (insert_fits t.arena reg state h fits)
      (refl, refl, refl, get_or-set_self t.arena.registers reg state consumed h)
put_state_fits t reg state none h fits =
    rw (insert_fits t.arena reg state h fits)
      (refl, refl, refl, get_or-set_self t.arena.registers reg state consumed h)

-- the timeline behind a padding that the budget covers
abbrev padded : Timeline → ℕ → Timeline
padded t until = record t {
  local_clock = until;
  cpu_budget_ms = t.cpu_budget_ms - (until - t.local_clock);
}

pad_until_fits :
    (t : Timeline) (until : ℕ)
    → t.local_clock ≤ until
    → until - t.local_clock ≤ t.cpu_budget_ms
    → pad_until t until ≡ (padded t until, ok tt)
unfolding pad_until consume_budget
pad_until_fits t until h b = elim (Bool-cases (ltb t.local_clock until)) [
  | inl e ↦ rw e (rw (le→not_ltb t.cpu_budget_ms (until - t.local_clock) b) refl)
  | inr e ↦
      let at_end : until ≡ t.local_clock = ground arith in
      let unpaid : t.cpu_budget_ms - (until - t.local_clock) ≡ t.cpu_budget_ms = omega arith in
      rw e (rw unpaid (rw at_end refl))
]

end_lease_leased :
    (t : Timeline) (reg : ℕ) (original : EntropicState) (expiration : ℕ)
    → state_at t.arena reg ≡ leased original expiration
    → end_lease t reg
      ≡ end_lease_peeked reg t.local_clock
          (get_metadata t.arena reg)
          (t, leased original expiration)
unfolding end_lease peek_state
end_lease_leased t reg original expiration e = rw (no_decay t reg original expiration e) (rw e refl)

in_time_paid :
    (t : Timeline) (reg : ℕ) (original : EntropicState) (expiration : ℕ)
    → IsSound t.arena
    → t.arena.used ≤ t.arena.capacity
    → reg < length t.arena.registers
    → state_at t.arena reg ≡ leased original expiration
    → t.local_clock ≤ expiration
    → expiration - t.local_clock ≤ t.cpu_budget_ms
    → let (t', r) = end_lease t reg in
      (r ≡ ok tt)
      × (t'.local_clock ≡ expiration)
      × (t'.cpu_budget_ms + expiration ≡ t.cpu_budget_ms + t.local_clock)
      × (state_at t'.arena reg ≡ original)
unfolding end_lease_peeked
in_time_paid t reg original expiration s used h e in_time paid =
    rw (end_lease_leased t reg original expiration e) (
      rw (le→not_ltb expiration t.local_clock in_time) (
        rw (pad_until_fits t expiration in_time paid) (
          let (r, clock, paid_for, back) =
            put_state_fits (padded t expiration) reg original (get_metadata t.arena reg) h
              (lease_fits_back t.arena reg original expiration s used e) in
          (r, clock, omega arith, back))))

-- A padding that the budget does not cover fails with the clock already moved.
in_time_unpaid :
    (t : Timeline) (reg : ℕ) (original : EntropicState) (expiration : ℕ)
    → state_at t.arena reg ≡ leased original expiration
    → t.local_clock ≤ expiration
    → t.cpu_budget_ms < expiration - t.local_clock
    → end_lease t reg ≡ (record t { local_clock = expiration }, err budget_exhausted)
unfolding end_lease_peeked pad_until consume_budget
in_time_unpaid t reg original expiration e in_time short =
    rw (end_lease_leased t reg original expiration e) (
      rw (le→not_ltb expiration t.local_clock in_time) (
        rw (lt→ltb t.local_clock expiration (omega arith))
          (rw (lt→ltb t.cpu_budget_ms (expiration - t.local_clock) short) refl)))

late :
    (t : Timeline) (reg : ℕ) (original : EntropicState) (expiration : ℕ)
    → state_at t.arena reg ≡ leased original expiration
    → expiration < t.local_clock
    → end_lease t reg ≡ (t, err (lease_violation (exceeded reg (t.local_clock - expiration))))
unfolding end_lease_peeked
late t reg original expiration e h =
    rw (end_lease_leased t reg original expiration e) (rw (lt→ltb expiration t.local_clock h) refl)

-- `EndLease` on a leased register, where the arena is sound and has no more than its capacity in
-- use. Past the expiration it fails with the time that the lease is late and changes nothing.
-- Before it, with a budget too small for the time that is left, it fails with the clock at the
-- expiration and the register still leased. Otherwise it succeeds: the clock stands at the
-- expiration, the budget has paid for the time that was left, and the register holds what was leased.
pub end_lease_lem :
    (t : Timeline) (reg : ℕ) (original : EntropicState) (expiration : ℕ)
    → IsSound t.arena
    → t.arena.used ≤ t.arena.capacity
    → reg < length t.arena.registers
    → state_at t.arena reg ≡ leased original expiration
    → let (t', r) = end_lease t reg in
      (expiration < t.local_clock)
        × (t' ≡ t)
        × (r ≡ err (lease_violation (exceeded reg (t.local_clock - expiration))))
      ⊎ (t.local_clock ≤ expiration)
        × (t.cpu_budget_ms < expiration - t.local_clock)
        × (t' ≡ record t { local_clock = expiration })
        × (r ≡ err budget_exhausted)
      ⊎ (t.local_clock ≤ expiration)
        × (r ≡ ok tt)
        × (t'.local_clock ≡ expiration)
        × (t'.cpu_budget_ms + expiration ≡ t.cpu_budget_ms + t.local_clock)
        × (state_at t'.arena reg ≡ original)
end_lease_lem t reg original expiration s used h e =
    elim (Bool-cases (ltb expiration t.local_clock)) [
      | inl l ↦
          let past : expiration < t.local_clock = ground arith in
          rw (late t reg original expiration e past) (inl (past, refl, refl))
      | inr l ↦
          let in_time : t.local_clock ≤ expiration = ground arith in
          elim (Bool-cases (ltb t.cpu_budget_ms (expiration - t.local_clock))) [
            | inl b ↦
                let short : t.cpu_budget_ms < expiration - t.local_clock = ground arith in
                rw (in_time_unpaid t reg original expiration e in_time short)
                  (inr (inl (in_time, short, refl, refl)))
            | inr b ↦
                let paid : expiration - t.local_clock ≤ t.cpu_budget_ms = ground arith in
                let (r, clock, budget, back) =
                  in_time_paid t reg original expiration s used h e in_time paid in
                inr (inr (in_time, r, clock, budget, back))
          ]
    ]

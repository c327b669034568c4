-- ===== src/Handlers/Clones.antt =====
-- crates/causm-runtime/src/vm/handlers/entropic.rs: what a `Clone` that succeeds has done.
use causm.Prelude.{
  ℕ, ◌+◌, ◌-◌, ◌<◌, ◌≤◌, ◌≡◌, ◌≢◌, refl, sym, ◌∙◌, Option, some, none, length, arith, ltb,
  Bool-cases, ◌==◌, ==→eq, ==_refl, if◌then◌else◌, inl, inr, get_or-set_self, get_or-set_ne, ok,
  err, add64,
}
use causm.Value.{EntropicState, valid, consumed, Payload, weight}
use causm.Arena.{
  Arena, Outcome, ValueMetadata, state_at, ensure_register, insert_at, insert, stamp_metadata,
  insert_with_metadata, put_metadata, get_metadata, peek, calculate_clone_cost,
}
use causm.Arena.Sound.{ensure_register-lt, state_at-ensure_register}
use causm.Timeline.{Timeline, Ran, lift_arena, consume_budget, check_and_apply_decay}
use causm.Handlers.{clone_put, clone_peeked, clone}

-- what an insertion leaves, if it succeeds
abbrev Put : Arena → ℕ → EntropicState → Outcome (Unit {0}) → Type 0
Put a reg state (a', r) =
    r ≡ ok tt → (state_at a' reg ≡ state) × ((j : ℕ) → reg ≢ j → state_at a' j ≡ state_at a j)

insert_at-Put :
    (a : Arena) (reg : ℕ) (state : EntropicState)
    → reg < length a.registers
    → Put a reg state (insert_at a reg state)
unfolding insert_at
insert_at-Put a reg state h =
    elim (Bool-cases (ltb a.capacity (add64 (a.used - weight (state_at a reg)) (weight state)))) [
      | inl e ↦ rw e (λ q. ground arith)
      | inr e ↦ rw e (λ q. (
        get_or-set_self a.registers reg state consumed h,
        (λ j n. get_or-set_ne a.registers reg j state consumed n),
      ))
    ]

insert-Put : (a : Arena) (reg : ℕ) (state : EntropicState) → Put a reg state (insert a reg state)
unfolding insert
insert-Put a reg state q =
    let (self, other) =
      insert_at-Put (ensure_register a reg) reg state (ensure_register-lt a reg) q in
    (self, (λ j n. other j n ∙ state_at-ensure_register a reg j))

stamp_metadata-Put :
    (a : Arena) (reg : ℕ) (state : EntropicState) (meta : ValueMetadata) (o : Outcome (Unit {0}))
    → Put a reg state o
    → Put a reg state (stamp_metadata reg meta o)
unfolding stamp_metadata put_metadata
stamp_metadata-Put a reg state meta (a', ok u) p = p
stamp_metadata-Put a reg state meta (a', err e) p = p

-- what a successful `Clone` has done to the timeline, whose registers decayed before
abbrev Cloned : Timeline → ℕ → Payload → Ran (Unit {0}) → Type 0
Cloned t dest p (t', r) =
    r ≡ ok tt
    → (t'.cpu_budget_ms ≡ t.cpu_budget_ms)
      × (state_at t'.arena dest ≡ valid p)
      × ((j : ℕ) → dest ≢ j → state_at t'.arena j ≡ state_at t.arena j)

lift_arena-Cloned :
    (t : Timeline) (dest : ℕ) (p : Payload) (o : Outcome (Unit {0}))
    → Put t.arena dest (valid p) o
    → Cloned t dest p (lift_arena t o)
lift_arena-Cloned t dest p (a, ok u) put q = let (self, other) = put refl in (refl, self, other)
lift_arena-Cloned t dest p (a, err e) put q = ground arith

clone_put-Cloned :
    (t : Timeline) (dest : ℕ) (p : Payload) (meta : Option ValueMetadata)
    → Cloned t dest p (clone_put t dest p meta)
unfolding clone_put insert_with_metadata
clone_put-Cloned t dest p (some m) =
    lift_arena-Cloned t dest p (insert_with_metadata t.arena dest (valid p) m) (
      stamp_metadata-Put t.arena dest (valid p) m (insert t.arena dest (valid p))
        (insert-Put t.arena dest (valid p)))
clone_put-Cloned t dest p none =
    lift_arena-Cloned t dest p (insert t.arena dest (valid p)) (insert-Put t.arena dest (valid p))

-- what `clone_peeked` has done where it succeeds
abbrev pub Copied : Timeline → ℕ → ℕ → Option Payload → Timeline → Type 0
Copied t dest src found t' =
    (p : Payload) × (found ≡ some p)
    × (t'.cpu_budget_ms + calculate_clone_cost p 1 ≡ t.cpu_budget_ms)
    × ((j : ℕ) → state_at t'.arena j ≡ (if dest == j then valid p else state_at t.arena j))

clone_peeked-Copied :
    (t : Timeline) (dest src : ℕ) (found : Option Payload)
    → (clone_peeked t dest src found).1 ≡ ok tt
    → Copied t dest src found (clone_peeked t dest src found).0
unfolding clone_peeked consume_budget
clone_peeked-Copied t dest src none = λ q. ground arith
clone_peeked-Copied t dest src (some p) =
    elim (Bool-cases (ltb t.cpu_budget_ms (calculate_clone_cost p 1))) [
      | inl e ↦ rw e (λ q. ground arith)
      | inr e ↦
          let paid : calculate_clone_cost p 1 ≤ t.cpu_budget_ms = ground arith in
          rw e (λ q.
            let (budget, self, other) =
              clone_put-Cloned
                (record t { cpu_budget_ms = t.cpu_budget_ms - calculate_clone_cost p 1 }) dest p
                (get_metadata t.arena src) q in
            (
              p,
              refl,
              omega arith,
              (λ j. elim (Bool-cases (dest == j)) [
                | inl m ↦ rw (sym (==→eq dest j m), ==_refl dest) self
                | inr m ↦ let ne : dest ≢ j = λ k. ground arith in rw m (other j ne)
              ]),
            ))
    ]

-- Where `Clone` succeeds, the source, once its decay was applied, had a payload to read. The budget
-- has paid the cost of that payload, the destination holds it as a valid value, and every other
-- register holds what it held.
pub clone_lem :
    (t : Timeline) (dest src : ℕ)
    → (clone t dest src).1 ≡ ok tt
    → let now = check_and_apply_decay t src in
      Copied now dest src (peek now.arena src) (clone t dest src).0
unfolding clone
clone_lem t dest src q =
    let now = check_and_apply_decay t src in clone_peeked-Copied now dest src (peek now.arena src) q

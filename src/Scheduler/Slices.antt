-- ===== src/Scheduler/Slices.antt =====
-- crates/causm-concurrency/src/scheduler/slice.rs: the time that a `TimeSlice` counts.
use causm.Prelude.{ℕ, ◌+◌, ◌-◌, ◌≡◌, refl, ◌∙◌, none, List, [], ◌∷◌, leb, arith}
use causm.Scheduler.{TimeSlice, new_slice, start, pause, elapsed, remaining, is_expired}

-- the turns of an actor, each with the readings of the clock at its `start` and its `pause`
unfoldable pub take_turns : List (ℕ × ℕ) → TimeSlice → TimeSlice
unfolding start pause
take_turns [] s = s
take_turns ((from, to) ∷ turns) s = take_turns turns (pause to (start from s))

unfoldable pub total : List (ℕ × ℕ) → ℕ
total [] = 0
total ((from, to) ∷ turns) = to - from + total turns

take_turns-total :
    (turns : List (ℕ × ℕ)) (s : TimeSlice)
    → s.started_at ≡ none
    → ((take_turns turns s).accumulated ≡ s.accumulated + total turns)
      × ((take_turns turns s).started_at ≡ none)
      × ((take_turns turns s).budget ≡ s.budget)
unfolding take_turns total
take_turns-total [] s e = (omega arith, e, refl)
take_turns-total ((from, to) ∷ turns) s e =
    let (a, e', c) = take_turns-total turns (pause to (start from s)) refl in
    (a ∙ omega arith, e', c)

-- In the middle of a turn that began at `from`, a slice has counted the turns before it and the time
-- since, and not the pauses; it is expired exactly if that is at least its budget, and what remains
-- is the rest of the budget.
pub take_turns-elapsed :
    (turns : List (ℕ × ℕ)) (budget from now : ℕ)
    → let s : TimeSlice = start from (take_turns turns (new_slice budget)) in
      (elapsed now s ≡ total turns + (now - from))
      × (is_expired now s ≡ leb budget (total turns + (now - from)))
      × (remaining now s ≡ budget - (total turns + (now - from)))
unfolding start elapsed is_expired remaining
take_turns-elapsed turns budget from now =
    let (a, e, c) = take_turns-total turns (new_slice budget) refl in
    let b : (take_turns turns (new_slice budget)).accumulated ≡ total turns = a ∙ omega arith in
    rw b (rw c (refl, refl, refl))

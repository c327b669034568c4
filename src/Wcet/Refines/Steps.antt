-- ===== src/Wcet/Refines/Steps.antt =====
-- crates/causm-wcet/src/wcet.rs: the parts of the statements behind their bodies.
use causm.Prelude.{ℕ, ap, Bool, true, false, Option, some, none, String, ok, err}
use causm.Prelude.Assoc
use causm.Wcet.Backend.{SolverBackend, IsSolver}
use causm.Wcet.Max.Largest.{Constant, find_max_value_constant}
use causm.Wcet.{
  temporal_assertion_violation, pacing_violation, WcetSolver, Outcome, clock_after, iteration_cost,
  after_for, after_for_step, after_limit, after_routine, leave_routine,
}
use causm.Wcet.Times.{
  Known, Timed, iteration_time, within_limit, routine_time, back, time_for, time_for_step,
  time_after,
}
use causm.Wcet.Cost.{Statement, estimate_statement_cost}
use causm.Wcet.Refines.{
  Decided, SameState, Refines, literal-Constant, add-Constant, both-Decided, gt-Decided,
  larger-Constant, Choosing, refuse_if-Refines,
}

module _ (b : SolverBackend) (v : IsSolver b) where
  -- a paced loop with a limit takes the longer of two times
  abbrev pub paces : Option ℕ → Option ℕ → Bool
  paces (some pacing) (some max) = true
  paces _ _ = false

  pub after_for-Refines :
      (pacing_ms max_ms : Option ℕ) (path : b.BoolTerm) (clock loop : b.IntTerm) (i j : ℕ)
      (w : WcetSolver b) (k : Known)
      → Choosing b v (paces pacing_ms max_ms)
      → Decided b v path true
      → Constant b v clock i
      → Constant b v loop j
      → SameState b v w k
      → Refines b v
          (after_for b pacing_ms max_ms path clock loop w)
          (time_for v.plus pacing_ms max_ms i j k)
  after_for-Refines pacing_ms (some max) path clock loop i j w k ch p c d s =
      let (cost, t) = iteration pacing_ms ch in
      refuse_if-Refines b v _ _ _ _ _ _ (λ actual. temporal_assertion_violation actual max) w k
        (both-Decided b v path _ _ p
          (gt-Decided b v _ (b.int_from_u64 max) _ max t (literal-Constant b v max)))
        t (add-Constant b v clock (b.int_from_u64 max) i max c (literal-Constant b v max)) s
    where
      iteration :
          (pacing : Option ℕ)
          → Choosing b v (paces pacing (some max))
          → Unit {0} × Constant b v (iteration_cost b pacing loop) (iteration_time pacing j)
      iteration none ch' = (tt, d)
      iteration (some pacing) ch' = (
        tt,
        larger-Constant b v loop (b.int_from_u64 pacing) j pacing ch' d
            (literal-Constant b v pacing),
      )
  after_for-Refines (some pacing) none path clock loop i j w k ch p c d s =
      (s, add-Constant b v clock (b.int_from_u64 pacing) i pacing c (literal-Constant b v pacing))
  after_for-Refines none none path clock loop i j w k ch p c d s =
      (s, add-Constant b v clock loop i j c d)

  pub after_for_step-Refines :
      (step_ms : Option ℕ) (path : b.BoolTerm) (clock loop : b.IntTerm) (i j : ℕ) (w : WcetSolver b)
      (k : Known)
      → Decided b v path true
      → Constant b v clock i
      → Constant b v loop j
      → SameState b v w k
      → Refines b v
          (after_for_step b step_ms path clock loop w)
          (time_for_step v.plus step_ms i j k)
  after_for_step-Refines (some ms) path clock loop i j w k p c d s =
      refuse_if-Refines b v _ _ _ _ _ _ (λ actual. pacing_violation) w k
        (both-Decided b v path _ _ p
          (gt-Decided b v loop (b.int_from_u64 ms) j ms d (literal-Constant b v ms)))
        d (add-Constant b v clock (b.int_from_u64 ms) i ms c (literal-Constant b v ms)) s
  after_for_step-Refines none path clock loop i j w k p c d s =
      (s, add-Constant b v clock loop i j c d)

  after_limit-Refines :
      (taking_ms : Option ℕ) (clock : b.IntTerm) (n : ℕ) (w : WcetSolver b) (k : Known)
      → Constant b v clock n
      → SameState b v w k
      → Refines b v (after_limit b taking_ms clock w) (within_limit taking_ms n k)
  after_limit-Refines none clock n w k c s = (s, c)
  after_limit-Refines (some limit) clock n w k c s =
      refuse_if-Refines b v _ _ _ _ _ _ (λ actual. temporal_assertion_violation actual limit) w k
        (gt-Decided b v clock (b.int_from_u64 limit) n limit c (literal-Constant b v limit)) c c s

  pub after_routine-Refines :
      (name : String) (taking_ms : Option ℕ) (clock : b.IntTerm) (n : ℕ) (r : WcetSolver b)
      (k : Known)
      → Constant b v clock n
      → SameState b v r k
      → Refines b v (after_routine b name taking_ms clock r) (routine_time name taking_ms n k)
  unfolding after_routine
  after_routine-Refines name taking_ms clock n r k c (s, a, t) =
      let (e, s') = find_max_value_constant b v clock n r.solver s c in
      rw e (after_limit-Refines taking_ms clock n _ _ c (s', ap (Assoc.insert name n) a, t))

  pub leave_routine-Refines :
      (w : WcetSolver b) (k : Known) (clock : b.IntTerm) (n : ℕ) (o : Outcome b) (o' : Timed)
      → SameState b v w k
      → Constant b v clock n
      → Refines b v o o'
      → Refines b v (leave_routine b w clock o) (back k n o')
  leave_routine-Refines w k clock n (r, ok c) (k', ok t) (s, a, u) d ((s', a', u'), e) =
      ((s, a', u), d)
  leave_routine-Refines w k clock n (r, err e) (k', err e') (s, a, u) d ((s', a', u'), q) =
      ((s, a', u), q)
  leave_routine-Refines w k clock n (r, ok c) (k', err e') s d (s', e) = cc
  leave_routine-Refines w k clock n (r, err e) (k', ok t) s d (s', q) = cc

  pub after :
      (stmt : Statement) (clock : b.IntTerm) (n : ℕ)
      → Constant b v clock n
      → Constant b v (clock_after b stmt clock) (time_after v.plus stmt n)
  after stmt clock n c =
      let cost = estimate_statement_cost stmt in
      add-Constant b v clock (b.int_from_u64 cost) n cost c (literal-Constant b v cost)

-- ===== src/Wcet.antt =====
-- crates/causm-wcet/src/wcet.rs: `WcetSolver`, with the solver as an interface.
pub mod Backend
pub mod Cost
pub mod Max
pub mod Scopes
pub mod Times
pub mod Refines
pub mod Oxiz
mod Tests
use causm.Prelude.{
  ℕ, suc, Bool, true, false, Option, some, none, String, List, [], ◌∷◌, if◌then◌else◌, Result, ok,
  err, u64_max,
}
use causm.Prelude.Assoc
use causm.Wcet.Backend.{SolverBackend}
use causm.Wcet.Max.{check_with, find_max_value}
use causm.Wcet.Cost.{
  TimeOperator, lt, gt, le, ge, eq, neq, other, Statement, assert_time, isolate, routine_def,
  for_in, for_step, if_else, directive_block, slice, loop_tick, relativistic_block, commit,
  decay_handler, Block, stop, then_do, estimate_statement_cost,
}

-- The errors, and the end of the fuel, which the code does not have.
pub data Stop : Type 0 where
  temporal_assertion_violation : ℕ → ℕ → Stop
  pacing_violation : Stop
  no_fuel : Stop

abbrev pub unwrap_or : ℕ → Option ℕ → ℕ
unwrap_or d none = d
unwrap_or d (some n) = n

module _ (b : SolverBackend) where
  pub record WcetSolver : Type 0 where
    pub solver : b.State
    -- `analyzed_wcet` of the analyzer, which the solvers of the routines share
    pub analyzed_wcet : List (String × ℕ)
    pub current_slice_ms : Option ℕ

  abbrev pub new : List (String × ℕ) → WcetSolver
  new analyzed = record { solver = b.new; analyzed_wcet = analyzed; current_slice_ms = none }

  abbrev pub Outcome : Type 0
  Outcome = WcetSolver × Result Stop b.IntTerm

  -- `?`
  abbrev pub then_with : Outcome → (b.IntTerm → WcetSolver → Outcome) → Outcome
  then_with (w, err e) f = (w, err e)
  then_with (w, ok c) f = f c w

  -- The steps that refuse a program if `violation` can be true: `error` is made from the value that
  -- the solver's model gives `val`, and `clock` goes on.
  unfoldable pub refuse_if : b.BoolTerm → b.IntTerm → (ℕ → Stop) → b.IntTerm → WcetSolver → Outcome
  refuse_if violation val error clock w =
      let (possible, s) = check_with b violation w.solver in
      (
        record w { solver = b.pop 1 s },
        if possible then err (error (unwrap_or 0 (b.eval_u64 val s))) else ok clock,
      )

  abbrev pub add : b.IntTerm → b.IntTerm → b.IntTerm
  add x y = b.int_add (x ∷ y ∷ [])

  abbrev pub both : b.BoolTerm → b.BoolTerm → b.BoolTerm
  both p q = b.bool_and (p ∷ q ∷ [])

  abbrev pub larger : b.IntTerm → b.IntTerm → b.IntTerm
  larger x y = b.int_ite (b.int_gt x y) x y

  abbrev pub clock_after : Statement → b.IntTerm → b.IntTerm
  clock_after stmt in_clock = add in_clock (b.int_from_u64 (estimate_statement_cost stmt))

  -- the `violation` of `assert_time`
  unfoldable pub misses : TimeOperator → b.IntTerm → b.IntTerm → b.BoolTerm
  misses gt clock limit = b.int_le clock limit
  misses lt clock limit = b.int_ge clock limit
  misses ge clock limit = b.int_lt clock limit
  misses le clock limit = b.int_gt clock limit
  misses eq clock limit = b.bool_not (b.int_eq clock limit)
  misses neq clock limit = b.int_eq clock limit
  misses other clock limit = b.bool_from_bool false

  abbrev pub iteration_cost : Option ℕ → b.IntTerm → b.IntTerm
  iteration_cost none loop_clock = loop_clock
  iteration_cost (some pacing) loop_clock = larger loop_clock (b.int_from_u64 pacing)

  -- the part of a `For` behind its body
  abbrev pub after_for :
      Option ℕ → Option ℕ → b.BoolTerm → b.IntTerm → b.IntTerm → WcetSolver → Outcome
  after_for pacing_ms (some max) path in_clock loop_clock w =
      let cost = iteration_cost pacing_ms loop_clock in
      refuse_if (both path (b.int_gt cost (b.int_from_u64 max))) cost
        (λ actual. temporal_assertion_violation actual max) (add in_clock (b.int_from_u64 max)) w
  after_for (some pacing) none path in_clock loop_clock w =
      (w, ok (add in_clock (b.int_from_u64 pacing)))
  after_for none none path in_clock loop_clock w = (w, ok (add in_clock loop_clock))

  -- the part of a `ForStep` behind its body
  abbrev pub after_for_step : Option ℕ → b.BoolTerm → b.IntTerm → b.IntTerm → WcetSolver → Outcome
  after_for_step (some ms) path in_clock loop_clock w =
      refuse_if (both path (b.int_gt loop_clock (b.int_from_u64 ms))) loop_clock
        (λ actual. pacing_violation) (add in_clock (b.int_from_u64 ms)) w
  after_for_step none path in_clock loop_clock w = (w, ok (add in_clock loop_clock))

  -- the limit of a routine, against the clock behind its body
  abbrev pub after_limit : Option ℕ → b.IntTerm → WcetSolver → Outcome
  after_limit none body_clock w = (w, ok body_clock)
  after_limit (some limit) body_clock w =
      refuse_if (b.int_gt body_clock (b.int_from_u64 limit)) body_clock
        (λ actual. temporal_assertion_violation actual limit) body_clock w

  abbrev pub record_wcet : String → Option ℕ → b.IntTerm → Option ℕ → WcetSolver → Outcome
  record_wcet name taking_ms body_clock none r = (r, err no_fuel)
  record_wcet name taking_ms body_clock (some wcet) r =
      after_limit taking_ms body_clock
        (record r { analyzed_wcet = Assoc.insert name wcet r.analyzed_wcet })

  -- the part of a `RoutineDef` behind its body
  unfoldable pub after_routine : String → Option ℕ → b.IntTerm → WcetSolver → Outcome
  unfolding find_max_value
  after_routine name taking_ms body_clock r =
      let (found, s) = find_max_value b body_clock (b.bool_from_bool true) r.solver in
      record_wcet name taking_ms body_clock found (record r { solver = s })

  -- back from a routine's own solver `r` to `w`
  abbrev pub leave_routine : WcetSolver → b.IntTerm → Outcome → Outcome
  leave_routine w in_clock (r, err e) = (record w { analyzed_wcet = r.analyzed_wcet }, err e)
  leave_routine w in_clock (r, ok c) = (record w { analyzed_wcet = r.analyzed_wcet }, ok in_clock)

  unfoldable mutual
    unfolding refuse_if misses after_routine

    pub verify_statement_wcet : Statement → b.BoolTerm → b.IntTerm → WcetSolver → Outcome
    verify_statement_wcet (assert_time op limit_ms fallback) path in_clock w =
        then_with
          (refuse_if (both path (misses op in_clock (b.int_from_u64 limit_ms))) in_clock
            (λ actual. temporal_assertion_violation actual limit_ms)
            (clock_after (assert_time op limit_ms fallback) in_clock) w)
          (λ clock w'. verify_block_wcet fallback path clock w')
    verify_statement_wcet (isolate cpu_budget_ms body) path in_clock w =
        then_with (verify_block_wcet body path (b.int_from_u64 0) w) (λ iso_clock w'.
          let budget = unwrap_or u64_max cpu_budget_ms in
          refuse_if (both path (b.int_gt iso_clock (b.int_from_u64 budget))) iso_clock
            (λ actual. temporal_assertion_violation 0 budget) in_clock w')
    verify_statement_wcet (routine_def name taking_ms body) path in_clock w =
        leave_routine w in_clock (
          then_with
            (verify_block_wcet body (b.bool_from_bool true) (b.int_from_u64 0)
              (new w.analyzed_wcet))
            (after_routine name taking_ms))
    verify_statement_wcet (for_in pacing_ms max_ms body) path in_clock w =
        then_with (verify_block_wcet body path (b.int_from_u64 0) w)
          (after_for pacing_ms max_ms path in_clock)
    verify_statement_wcet (for_step step_ms body) path in_clock w =
        then_with (verify_block_wcet body path (b.int_from_u64 0) w)
          (after_for_step step_ms path in_clock)
    verify_statement_wcet (if_else then_branch else_branch) path in_clock w =
        let current_clock = clock_after (if_else then_branch else_branch) in_clock in
        then_with (verify_block_wcet then_branch path current_clock w) (λ then_clock w'.
          then_with (verify_block_wcet else_branch path current_clock w')
            (λ else_clock w''. (w'', ok (larger then_clock else_clock))))
    verify_statement_wcet (directive_block no_z3 body) path in_clock w =
        if no_z3
        then (w, ok (clock_after (directive_block no_z3 body) in_clock))
        else verify_block_wcet body path in_clock w
    verify_statement_wcet (slice milliseconds) path in_clock w =
        (record w { current_slice_ms = some milliseconds }, ok in_clock)
    verify_statement_wcet (loop_tick body) path in_clock w =
        then_with (verify_block_wcet body path (b.int_from_u64 0) w) (λ body_clock w'. (
          w',
          ok (add in_clock (larger body_clock (b.int_from_u64 (unwrap_or 1 w.current_slice_ms)))),
        ))
    verify_statement_wcet (relativistic_block body) path in_clock w =
        verify_block_wcet body path in_clock w
    verify_statement_wcet (commit body) path in_clock w = verify_block_wcet body path in_clock w
    verify_statement_wcet (decay_handler body) path in_clock w =
        verify_block_wcet body path in_clock w
    verify_statement_wcet stmt path in_clock w = (w, ok (clock_after stmt in_clock))

    pub verify_block_wcet : Block → b.BoolTerm → b.IntTerm → WcetSolver → Outcome
    verify_block_wcet stop path clock w = (w, ok clock)
    verify_block_wcet (then_do stmt rest) path clock w =
        then_with (verify_statement_wcet stmt path clock w)
          (λ clock' w'. verify_block_wcet rest path clock' w')

  abbrev pub Done : Type 0
  Done = WcetSolver × Result Stop (Unit {0})

  -- the time of a timeline is recorded, and the next ones follow
  abbrev pub record_timeline : String → (WcetSolver → Done) → WcetSolver → Option ℕ × b.State → Done
  record_timeline name next w (none, s) = (record w { solver = s }, err no_fuel)
  record_timeline name next w (some wcet, s) =
      next (record w { solver = s; analyzed_wcet = Assoc.insert name wcet w.analyzed_wcet })

  abbrev pub after_timeline : String → (WcetSolver → Done) → Outcome → Done
  after_timeline name next (w, err e) = (w, err e)
  after_timeline name next (w, ok clock) =
      record_timeline name next w (find_max_value b clock (b.bool_from_bool true) w.solver)

  -- The loop of `verify_and_compute` from the number `idx` on. A timeline is whether it has `no_z3`,
  -- and its statements; `timeline_name` is the `format!` of its name.
  unfoldable pub verify_timelines : (ℕ → String) → ℕ → List (Bool × Block) → WcetSolver → Done
  unfolding find_max_value verify_statement_wcet
  verify_timelines timeline_name idx [] w = (w, ok tt)
  verify_timelines timeline_name idx ((no_z3, statements) ∷ rest) w =
      let next = verify_timelines timeline_name (suc idx) rest in
      if no_z3
      then next (record w { analyzed_wcet = Assoc.insert (timeline_name idx) 0 w.analyzed_wcet })
      else after_timeline (timeline_name idx) next
          (verify_block_wcet statements (b.bool_from_bool true) (b.int_from_u64 0) w)

  unfoldable pub verify_and_compute : (ℕ → String) → List (Bool × Block) → WcetSolver → Done
  unfolding verify_timelines
  verify_and_compute timeline_name timelines w =
      verify_timelines timeline_name 0 timelines (record w { solver = b.reset w.solver })

  abbrev pub compute_wcet : (ℕ → String) → List (Bool × Block) → WcetSolver → WcetSolver
  compute_wcet timeline_name timelines w = (verify_and_compute timeline_name timelines w).0

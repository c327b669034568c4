-- ===== src/Wcet/Refines/Statements.antt =====
-- crates/causm-wcet/src/wcet.rs: the statements, and the whole of the timelines.
use causm.Prelude.{ℕ, refl, true, false, none, u64_max}
use causm.Wcet.Backend.{SolverBackend, IsSolver}
use causm.Wcet.Max.Largest.{Constant}
use causm.Wcet.{
  temporal_assertion_violation, unwrap_or, WcetSolver, new, verify_statement_wcet,
  verify_block_wcet,
}
use causm.Wcet.Times.{Known, statement_time, block_time}
use causm.Wcet.Cost.{
  Statement, assert_time, isolate, routine_def, for_in, for_step, if_else, directive_block, slice,
  loop_tick, relativistic_block, commit, decay_handler, Block, stop, then_do,
}
use causm.Wcet.Refines.Steps.{
  paces, after, after_for-Refines, after_for_step-Refines, after_routine-Refines,
  leave_routine-Refines,
}
use causm.Wcet.Refines.{
  Decided, SameState, Refines, then_with-Refines, literal-Constant, add-Constant, both-Decided,
  gt-Decided, larger-Constant, Choosing, negates, misses-Decided, refuse_if-Refines,
}

module _ (b : SolverBackend) (v : IsSolver b) where
  -- The statements for which the solver is asked for a conditional term or a negation only if it
  -- supports these.
  unfoldable mutual
    pub IsAsked : Statement → Type 0
    IsAsked (assert_time op limit_ms fallback) = Choosing b v (negates b v op) × AreAsked fallback
    IsAsked (isolate cpu_budget_ms body) = AreAsked body
    IsAsked (routine_def name taking_ms body) = AreAsked body
    IsAsked (for_in pacing_ms max_ms body) =
        Choosing b v (paces b v pacing_ms max_ms) × AreAsked body
    IsAsked (for_step step_ms body) = AreAsked body
    IsAsked (if_else then_branch else_branch) =
        v.Choice × AreAsked then_branch × AreAsked else_branch
    IsAsked (directive_block no_z3 body) = AreAsked body
    IsAsked (loop_tick body) = v.Choice × AreAsked body
    IsAsked (relativistic_block body) = AreAsked body
    IsAsked (commit body) = AreAsked body
    IsAsked (decay_handler body) = AreAsked body
    IsAsked _ = Unit {0}

    pub AreAsked : Block → Type 0
    AreAsked stop = Unit {0}
    AreAsked (then_do stmt rest) = IsAsked stmt × AreAsked rest

  mutual
    unfolding verify_statement_wcet statement_time IsAsked

    pub verify_statement_wcet-Refines :
        (stmt : Statement) (path : b.BoolTerm) (clock : b.IntTerm) (n : ℕ) (w : WcetSolver b)
        (k : Known)
        → IsAsked stmt
        → Decided b v path true
        → Constant b v clock n
        → SameState b v w k
        → Refines b v (verify_statement_wcet b stmt path clock w) (statement_time v.plus stmt n k)
    verify_statement_wcet-Refines (assert_time op limit_ms fallback) path clock n w k (a, as') p c
          s =
        then_with-Refines b v _ _ _ _
          (refuse_if-Refines b v _ _ _ _ _ _
            (λ actual. temporal_assertion_violation actual limit_ms) w k
            (both-Decided b v path _ _ p (
              misses-Decided b v op clock (b.int_from_u64 limit_ms) n limit_ms a c
                (literal-Constant b v limit_ms)))
            c (after b v (assert_time op limit_ms fallback) clock n c) s)
          (λ c' n' w' k' d s'. verify_block_wcet-Refines fallback path c' n' w' k' as' p d s')
    verify_statement_wcet-Refines (isolate cpu_budget_ms body) path clock n w k a p c s =
        let budget = unwrap_or u64_max cpu_budget_ms in
        then_with-Refines b v _ _ _ _
          (verify_block_wcet-Refines body path _ 0 w k a p (literal-Constant b v 0) s)
          (λ c' n' w' k' d s'.
            refuse_if-Refines b v _ _ _ _ _ _ (λ actual. temporal_assertion_violation 0 budget) w'
              k'
              (both-Decided b v path _ _ p (
                gt-Decided b v c' (b.int_from_u64 budget) n' budget d
                  (literal-Constant b v budget)))
              d c s')
    verify_statement_wcet-Refines (routine_def name taking_ms body) path clock n w k a p c s =
        leave_routine-Refines b v w k clock n _ _ s c (
          then_with-Refines b v _ _ _ _
            (verify_block_wcet-Refines body (b.bool_from_bool true) _ 0 (new b w.analyzed_wcet)
              (k.0, none) a (v.bool_supported true, λ m. v.bool_truth m true)
              (literal-Constant b v 0) (v.new_reaches, s.1, refl))
            (λ c' n' w' k' d s'. after_routine-Refines b v name taking_ms c' n' w' k' d s'))
    verify_statement_wcet-Refines (for_in pacing_ms max_ms body) path clock n w k (a, as') p c s =
        then_with-Refines b v _ _ _ _
          (verify_block_wcet-Refines body path _ 0 w k as' p (literal-Constant b v 0) s)
          (λ c' n' w' k' d s'.
            after_for-Refines b v pacing_ms max_ms path clock c' n n' w' k' a p c d s')
    verify_statement_wcet-Refines (for_step step_ms body) path clock n w k a p c s =
        then_with-Refines b v _ _ _ _
          (verify_block_wcet-Refines body path _ 0 w k a p (literal-Constant b v 0) s)
          (λ c' n' w' k' d s'. after_for_step-Refines b v step_ms path clock c' n n' w' k' p c d s')
    verify_statement_wcet-Refines (if_else yes_branch no_branch) path clock n w k (ch, a, a') p c
          s =
        let current = after b v (if_else yes_branch no_branch) clock n c in
        then_with-Refines b v _ _ _ _
          (verify_block_wcet-Refines yes_branch path _ _ w k a p current s)
          (λ c' n' w' k' d s'.
            then_with-Refines b v _ _ _ _
              (verify_block_wcet-Refines no_branch path _ _ w' k' a' p current s')
              (λ c'' n'' w'' k'' d' s''. (s'', larger-Constant b v c' c'' n' n'' ch d d')))
    verify_statement_wcet-Refines (directive_block true body) path clock n w k a p c s =
        (s, after b v (directive_block true body) clock n c)
    verify_statement_wcet-Refines (directive_block false body) path clock n w k a p c s =
        verify_block_wcet-Refines body path clock n w k a p c s
    verify_statement_wcet-Refines (slice milliseconds) path clock n w k a p c (r, e, e') =
        ((r, e, refl), c)
    verify_statement_wcet-Refines (loop_tick body) path clock n w k (ch, a) p c (r, e, u) =
        then_with-Refines b v _ _ _ _
          (verify_block_wcet-Refines body path _ 0 w k a p (literal-Constant b v 0) (r, e, u))
          (λ c' n' w' k' d s'. (
            s',
            rw u (
                add-Constant b v clock _ n _ c
                  (larger-Constant b v c' _ n' _ ch d (literal-Constant b v (unwrap_or 1 k.1)))),
          ))
    verify_statement_wcet-Refines (relativistic_block body) path clock n w k a p c s =
        verify_block_wcet-Refines body path clock n w k a p c s
    verify_statement_wcet-Refines (commit body) path clock n w k a p c s =
        verify_block_wcet-Refines body path clock n w k a p c s
    verify_statement_wcet-Refines (decay_handler body) path clock n w k a p c s =
        verify_block_wcet-Refines body path clock n w k a p c s
    verify_statement_wcet-Refines stmt path clock n w k a p c s = (s, after b v stmt clock n c)

    pub verify_block_wcet-Refines :
        (block : Block) (path : b.BoolTerm) (clock : b.IntTerm) (n : ℕ) (w : WcetSolver b)
        (k : Known)
        → AreAsked block
        → Decided b v path true
        → Constant b v clock n
        → SameState b v w k
        → Refines b v (verify_block_wcet b block path clock w) (block_time v.plus block n k)
    verify_block_wcet-Refines stop path clock n w k a p c s = (s, c)
    verify_block_wcet-Refines (then_do stmt rest) path clock n w k (a, as') p c s =
        then_with-Refines b v _ _ _ _ (verify_statement_wcet-Refines stmt path clock n w k a p c s)
          (λ c' n' w' k' d s'. verify_block_wcet-Refines rest path c' n' w' k' as' p d s')

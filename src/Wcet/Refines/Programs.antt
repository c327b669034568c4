-- ===== src/Wcet/Refines/Programs.antt =====
-- crates/causm-wcet/src/wcet.rs: `verify_and_compute` of a whole program.
use causm.Prelude.{ℕ, suc, ◌≡◌, refl, ap, Bool, true, false, String, List, [], ◌∷◌, Result, ok, err}
use causm.Prelude.Assoc
use causm.Wcet.Backend.{SolverBackend, IsSolver}
use causm.Wcet.Max.Largest.{find_max_value_constant}
use causm.Wcet.Cost.{Block}
use causm.Wcet.{
  Stop, WcetSolver, Outcome, Done, after_timeline, verify_timelines, verify_and_compute,
}
use causm.Wcet.Times.{Known, Timed, timeline_then, timelines_time}
use causm.Wcet.Refines.{SameState, Refines, literal-Constant}
use causm.Wcet.Refines.Statements.{AreAsked, verify_block_wcet-Refines}

module _ (b : SolverBackend) (v : IsSolver b) where
  abbrev pub AllAsked : List (Bool × Block) → Type 0
  AllAsked [] = Unit {0}
  AllAsked ((no_z3, statements) ∷ rest) = AreAsked b v statements × AllAsked rest

  -- the same times found, slice and answer
  abbrev pub SameEnd : Done b → Known × Result Stop (Unit {0}) → Type 0
  SameEnd (w, r) (k, q) = SameState b v w k × (r ≡ q)

  after_timeline-SameEnd :
      (name : String) (next : WcetSolver b → Done b)
      (next' : Known → Known × Result Stop (Unit {0})) (o : Outcome b) (o' : Timed)
      → Refines b v o o'
      → ((w : WcetSolver b) (k : Known) → SameState b v w k → SameEnd (next w) (next' k))
      → SameEnd (after_timeline b name next o) (timeline_then name next' o')
  after_timeline-SameEnd name next next' (w, ok c) (k, ok n) ((s, a, t), d) f =
      let (e, s') = find_max_value_constant b v c n w.solver s d in
      rw e (f _ (Assoc.insert name n k.0, k.1) (s', ap (Assoc.insert name n) a, t))
  after_timeline-SameEnd name next next' (w, err e) (k, err e') (s, r) f = (s, ap (λ x. err x) r)
  after_timeline-SameEnd name next next' (w, ok c) (k, err e') (s, r) f = cc
  after_timeline-SameEnd name next next' (w, err e) (k, ok n) (s, r) f = cc

  verify_timelines-SameEnd :
      (timeline_name : ℕ → String) (idx : ℕ) (timelines : List (Bool × Block)) (w : WcetSolver b)
      (k : Known)
      → AllAsked timelines
      → SameState b v w k
      → SameEnd
          (verify_timelines b timeline_name idx timelines w)
          (timelines_time v.plus timeline_name idx timelines k)
  unfolding verify_timelines timelines_time
  verify_timelines-SameEnd timeline_name idx [] w k a s = (s, refl)
  verify_timelines-SameEnd timeline_name idx ((true, statements) ∷ rest) w k (a, as') (s, e, t) =
      verify_timelines-SameEnd timeline_name (suc idx) rest _
        (Assoc.insert (timeline_name idx) 0 k.0, k.1) as'
        (s, ap (Assoc.insert (timeline_name idx) 0) e, t)
  verify_timelines-SameEnd timeline_name idx ((false, statements) ∷ rest) w k (a, as') s =
      after_timeline-SameEnd (timeline_name idx) _ _ _ _
        (verify_block_wcet-Refines b v statements (b.bool_from_bool true) (b.int_from_u64 0) 0 w k a
          (v.bool_supported true, λ m. v.bool_truth m true) (literal-Constant b v 0) s)
        (λ w' k' s'. verify_timelines-SameEnd timeline_name (suc idx) rest w' k' as' s')

  -- On every solver that keeps the promises of `IsSolver`, and supports conditional terms and
  -- negation if a timeline of the program, skipped ones included, has an `If`, a `LoopTick`, a
  -- paced `For` with a limit or an assertion with `==`, `verify_and_compute` comes to an end,
  -- accepts and refuses what the numbers, added as the solver adds, accept and refuse from the
  -- same known times and slice, with the same error, and leaves the same times and slice. Of programs with such a statement it
  -- says nothing for a solver without this support.
  pub verify_and_compute_refines :
      (timeline_name : ℕ → String) (timelines : List (Bool × Block)) (w : WcetSolver b)
      → AllAsked timelines
      → SameEnd
          (verify_and_compute b timeline_name timelines w)
          (timelines_time v.plus timeline_name 0 timelines (w.analyzed_wcet, w.current_slice_ms))
  unfolding verify_and_compute
  verify_and_compute_refines timeline_name timelines w a =
      verify_timelines-SameEnd timeline_name 0 timelines _ (w.analyzed_wcet, w.current_slice_ms) a
        (v.reset_reaches w.solver, refl, refl)

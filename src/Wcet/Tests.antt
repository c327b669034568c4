-- ===== src/Wcet/Tests.antt =====
-- crates/causm-wcet: runs of the analysis, and the theorems applied to them.
mod TwoWays
use causm.Prelude.{
  err, saturating_add, ℕ, ◌≤◌, ◌≡◌, refl, inl, if◌then◌else◌, arith, Bool, true, false, Option,
  some, none, String, List, [], ◌∷◌, Result, ok, err,
}
use causm.Prelude.Assoc
use causm.Smt.Ast.{gt, lit, int_cmp, int_lit}
use causm.Smt.Build
use causm.Smt.Solver.{new as oxiz_new}
use causm.Smt.Solver.Ground.{AllGround, IsGround, Judges, check-Judges}
use causm.Smt.Solver.{OxiZSolver, push, pop, assert, check, eval_u64}
use causm.Wcet.Oxiz.Choices.{find_max_value-larger}
use causm.Wcet.{
  temporal_assertion_violation, larger, WcetSolver, new, verify_and_compute,
  temporal_assertion_violation,
}
use causm.Wcet.Max.{find_max_value}
use causm.Wcet.Cost.{
  Statement, simple, if_else, isolate, routine_def, for_in, Block, stop, then_do,
  estimate_statement_cost, expr_cost, estimate_cost, extra_cost,
}
use causm.Wcet.Oxiz.{oxiz}
use causm.Wcet.Oxiz.Solver.{oxiz_solver}
use causm.Wcet.Max.Largest.{Finds, find_max_value-IsLargest}
use causm.Wcet.Times.{timelines_time}
use causm.Wcet.Refines.Statements.{IsAsked}
use causm.Wcet.Refines.Programs.{SameEnd, AllAsked, verify_and_compute_refines}
use causm.Wcet.Tests.TwoWays.{two_ways, two_ways-IsSolver}

abbrev as_listed : List String → List String
as_listed xs = xs

abbrev timeline_name : ℕ → String
timeline_name n = "Timeline"

abbrev work : ℕ → Block
work n = then_do (simple n) stop

abbrev start : WcetSolver (oxiz as_listed)
start = new (oxiz as_listed) []

abbrev choice : Block
choice = then_do (if_else (work 40) (work 10)) stop

-- a routine within its limit, a sandbox within its budget, a paced loop and a choice
abbrev program : List (Bool × Block)
program =
    (
      false,
      then_do (routine_def "r" (some 60) (work 50)) (
          then_do (isolate (some 100) (work 7))
            (then_do (for_in (some 5) (some 50) (work 20)) choice)),
    )
    ∷ (true, work 3)
    ∷ (false, work 9)
    ∷ []

abbrev start_two : WcetSolver two_ways
start_two = new two_ways []

AllAsked-program : AllAsked two_ways two_ways-IsSolver program
unfolding IsAsked
AllAsked-program = (
  ((tt, tt), ((tt, tt), ((tt, (tt, tt)), ((tt, (tt, tt), (tt, tt)), tt)))),
  ((tt, tt), ((tt, tt), tt)),
)

verify_and_compute_refines_example :
    SameEnd two_ways two_ways-IsSolver
      (verify_and_compute two_ways timeline_name program start_two)
      (timelines_time two_ways-IsSolver.plus timeline_name 0 program ([], none))
verify_and_compute_refines_example =
    verify_and_compute_refines two_ways two_ways-IsSolver timeline_name program start_two
      AllAsked-program

-- the same with the solver of the repository, on a program that needs no conditional term
abbrev plain : List (Bool × Block)
plain =
    (
      false,
      then_do (routine_def "r" (some 60) (work 50))
          (then_do (isolate (some 3) (work 7)) (then_do (for_in none (some 50) (work 20)) stop)),
    )
    ∷ []

AllAsked-plain : AllAsked (oxiz as_listed) (oxiz_solver as_listed (λ xs x. refl)) plain
unfolding IsAsked
AllAsked-plain = (((tt, tt), ((tt, tt), ((tt, (tt, tt)), tt))), tt)

plain-SameEnd :
    SameEnd
      (oxiz as_listed)
      (oxiz_solver as_listed (λ xs x. refl))
      (verify_and_compute (oxiz as_listed) timeline_name plain start)
      (timelines_time (oxiz_solver as_listed (λ xs x. refl)).plus timeline_name 0 plain ([], none))
plain-SameEnd =
    verify_and_compute_refines (oxiz as_listed) (oxiz_solver as_listed (λ xs x. refl)) timeline_name
      plain start AllAsked-plain

-- the sandbox takes 8 ms and has 3
plain-refused :
    (timelines_time saturating_add timeline_name 0 plain ([], none)).1
    ≡ err (temporal_assertion_violation 0 3)
unfolding timelines_time Assoc.insert estimate_statement_cost expr_cost estimate_cost extra_cost
plain-refused = refl

-- the loop of the search finds the second value of a term
abbrev cheap_or_dear : Bool → ℕ
cheap_or_dear m = if m then 700 else 40

find_max_value-IsLargest_example :
    Finds two_ways two_ways-IsSolver cheap_or_dear
      (λ m. true)
      (find_max_value two_ways cheap_or_dear (λ m. true) two_ways.new)
find_max_value-IsLargest_example =
    find_max_value-IsLargest two_ways two_ways-IsSolver cheap_or_dear (λ m. true) two_ways.new refl
      tt tt (λ m m' h h'. inl (small m))
  where
    small : (m : Bool) → cheap_or_dear m ≤ 100000
    small true = omega arith
    small false = omega arith

find_max_value-cheap_or_dear :
    (find_max_value two_ways cheap_or_dear (λ m. true) two_ways.new).0 ≡ some 700
unfolding find_max_value
find_max_value-cheap_or_dear = refl

abbrev compared : OxiZSolver
compared = record oxiz_new { assertions = int_cmp gt (int_lit 9) (int_lit 5) ∷ lit true ∷ [] }

AllGround-compared : AllGround compared.assertions
unfolding IsGround
AllGround-compared = (tt, (tt, tt))

check-Judges_example : Judges as_listed (λ x. false) (λ x. 0) compared (check as_listed compared)
check-Judges_example =
    check-Judges as_listed (λ x. false) (λ x. 0) compared (λ xs x. refl) AllGround-compared

find_max_value-larger_example :
    (find_max_value
      (oxiz as_listed)
      (larger (oxiz as_listed) (int_lit 9) (int_lit 5))
      (lit true)
      oxiz_new).0
    ≡ some 5
find_max_value-larger_example =
    find_max_value-larger as_listed (λ xs x. refl) 9 5 [] [] (omega arith)

-- the longer branch ends at 83, and the solver's answer is the shorter one's 53
choice-underestimated :
    (verify_and_compute (oxiz as_listed) timeline_name ((false, choice) ∷ []) start).0.analyzed_wcet
    ≡ ("Timeline", 53) ∷ []
unfolding verify_and_compute Assoc.insert Assoc.lookup Build.add Build.and Build.choose push pop
    assert check eval_u64 estimate_statement_cost expr_cost estimate_cost extra_cost
choice-underestimated = refl

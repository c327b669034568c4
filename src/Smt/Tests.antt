-- ===== src/Smt/Tests.antt =====
-- crates/causm-smt/src/oxiz: runs of the solver, and the theorems applied to them.
use causm.Prelude.{ℕ, ◌≡◌, refl, ◌↔◌, Bool, true, false, some, String, List, [], ◌∷◌, arith}
use causm.Prelude.Assoc
use causm.Smt.Ast.{
  BoolExpr, var, or, implies, int_cmp, IntCmpOp, gt, IntExpr, int_lit, int_var, int_add, int_ite,
  no_bools, bool, no_ints, int,
}
use causm.Smt.Ast.Meaning.{holds, value}
use causm.Smt.Build
use causm.Smt.Build.Sound.{simplified-means}
use causm.Smt.Eval.{Assignment, IntConstraint, eval_bool_partial, eval_bool_fully, eval_int}
use causm.Smt.Eval.Partial.{Extends, reads, reads-Extends, eval_bool_partial_sound}
use causm.Smt.Eval.Exact.{eval_bool_fully_exact}
use causm.Smt.Propagate.{stable, propagate}
use causm.Smt.Propagate.Ends.{Ended, propagate-Ended}
use causm.Smt.Propagate.Keeps.{IsModel, propagate_sound}
use causm.Smt.Bounds.{Bounds, no_bounds, read_constraints, assign_equalities}
use causm.Smt.Bounds.Equations.{equalities_unused}
use causm.Smt.Solver.{OxiZSolver, new, push, pop, check, eval_u64}
use causm.Smt.Solver.Sound.{Checked, check-Checked, check_sound}
use causm.Smt.Solver.Decides.{check_decides}
use causm.Smt.Solver.Negated.{check-HasNegated}
use causm.Smt.Solver.Scopes.{Work, done, assert_then, check_then, scope_then, work, pop-work-push}

abbrev as_listed : List String → List String
as_listed xs = xs

abbrev zeros : String → ℕ
zeros x = 0

-- a or b
abbrev either : BoolExpr
either = or (bool (var "a") (bool (var "b") no_bools))

abbrev not_a : BoolExpr
not_a = BoolExpr.not (var "a")

abbrev two_clauses : OxiZSolver
two_clauses = record {
  assertions = either ∷ not_a ∷ [];
  scopes = [];
  model_bools = [];
  model_ints = [];
}

abbrev solved : OxiZSolver
solved = record two_clauses { model_bools = ("a", false) ∷ ("b", true) ∷ [] }

check-two_clauses : check as_listed two_clauses ≡ some (true, solved)
unfolding check Assoc.lookup Assoc.insert
check-two_clauses = refl

-- an equation that the solver does not use: x = y + 1 with x = 7 and y = 3 is accepted
abbrev x_is : IntExpr → BoolExpr
x_is e = int_cmp IntCmpOp.eq (int_var "x") e

abbrev wrong_sum : OxiZSolver
wrong_sum = record new {
  assertions =
      x_is (int_add (int (int_var "y") (int (int_lit 1) no_ints)))
      ∷ x_is (int_lit 7)
      ∷ int_cmp IntCmpOp.eq (int_var "y") (int_lit 3)
      ∷ [];
}

check-wrong_sum :
    check as_listed wrong_sum
    ≡ some (true, record wrong_sum { model_ints = ("x", 7) ∷ ("y", 3) ∷ [] })
unfolding check Assoc.lookup Build.add Assoc.insert
check-wrong_sum = refl

-- the larger of 5 and 9 is read as 9, the larger of 9 and 5 as 5
abbrev larger : ℕ → ℕ → IntExpr
larger m n = int_ite (int_cmp gt (int_lit m) (int_lit n)) (int_lit m) (int_lit n)

eval_u64-larger : (eval_u64 (larger 5 9) new ≡ some 9) × (eval_u64 (larger 9 5) new ≡ some 5)
unfolding eval_u64
eval_u64-larger = (refl, refl)

check_decides_example :
    ((s' : OxiZSolver) × (check as_listed two_clauses ≡ some (true, s')))
    ↔ ((ρ : String → Bool) × IsModel ρ zeros two_clauses.assertions)
check_decides_example =
    check_decides as_listed zeros two_clauses (λ xs x. refl) ((tt, (tt, tt)), (tt, tt))

check_sound_example : IsModel (reads solved.model_bools) zeros two_clauses.assertions
check_sound_example =
    check_sound as_listed zeros two_clauses solved ((tt, (tt, tt)), (tt, tt)) check-two_clauses

check-Checked_example : Checked as_listed two_clauses (check as_listed two_clauses)
check-Checked_example = check-Checked as_listed two_clauses

abbrev some_work : Work
some_work =
    assert_then (var "a") (scope_then (assert_then not_a (check_then done)) (check_then done))

pop-work-push_example :
    ((pop 1 (work as_listed some_work (push two_clauses))).assertions ≡ two_clauses.assertions)
    × ((pop 1 (work as_listed some_work (push two_clauses))).scopes ≡ two_clauses.scopes)
pop-work-push_example = pop-work-push as_listed some_work two_clauses

-- a implies b, with b defined as c
abbrev a_implies_b : BoolExpr
a_implies_b = implies (var "a") (var "b")

abbrev all_true : String → Bool
all_true x = true

propagate_sound_example :
    (env' : Assignment) × (propagate (a_implies_b ∷ []) (("b", var "c") ∷ []) (("a", true) ∷ [])
      ≡ stable env')
    × Extends all_true env'
unfolding holds Assoc.lookup
propagate_sound_example =
    propagate_sound all_true zeros (a_implies_b ∷ []) (("b", var "c") ∷ []) (("a", true) ∷ [])
      a_true (refl, tt) (refl, tt)
  where
    a_true : Extends all_true (("a", true) ∷ [])
    a_true x b h = ground arith

propagate-Ended_example :
    Ended
      (a_implies_b ∷ [])
      []
      (("a", true) ∷ [])
      (propagate (a_implies_b ∷ []) [] (("a", true) ∷ []))
propagate-Ended_example = propagate-Ended (a_implies_b ∷ []) [] (("a", true) ∷ [])

abbrev a_false : Assignment
a_false = ("a", false) ∷ ("b", true) ∷ []

either-holds : holds (reads a_false) zeros either ≡ true
unfolding eval_bool_partial Assoc.lookup
either-holds =
    eval_bool_partial_sound (reads a_false) zeros a_false (reads-Extends a_false) either true
      (partial_either)
  where
    partial_either : eval_bool_partial either a_false ≡ some true
    partial_either = refl

eval_bool_fully-either :
    eval_bool_fully either a_false [] ≡ some (holds (reads a_false) zeros either, [])
unfolding Assoc.lookup
eval_bool_fully-either =
    eval_bool_fully_exact (reads a_false) zeros a_false either [] (reads-Extends a_false)
      (tt, (tt, tt)) ((false, refl), ((true, refl), tt))

simplified-means_example :
    (holds all_true zeros (Build.not not_a) ≡ holds all_true zeros (BoolExpr.not not_a))
    × (holds all_true zeros (Build.and (bool either no_bools))
        ≡ holds all_true zeros (BoolExpr.and (bool either no_bools)))
    × (holds all_true zeros (Build.or (bool either no_bools))
        ≡ holds all_true zeros (BoolExpr.or (bool either no_bools)))
    × (holds all_true zeros (Build.ite not_a either either)
        ≡ holds all_true zeros (BoolExpr.ite not_a either either))
    × (holds all_true zeros (Build.implies_to not_a either)
        ≡ holds all_true zeros (implies not_a either))
    × (holds all_true zeros (Build.eq not_a either)
        ≡ holds all_true zeros (BoolExpr.eq not_a either))
    × (value all_true zeros (Build.choose either (int_lit 1) (int_lit 2))
        ≡ value all_true zeros (int_ite either (int_lit 1) (int_lit 2)))
simplified-means_example =
    simplified-means all_true zeros not_a either either (bool either no_bools) (int_lit 1)
      (int_lit 2)

-- not (x = 0), which holds for every other number
abbrev nonzero : OxiZSolver
nonzero = record new { assertions = BoolExpr.not (x_is (int_lit 0)) ∷ [] }

check-HasNegated_example : check as_listed nonzero ≡ some (false, nonzero)
check-HasNegated_example = check-HasNegated as_listed nonzero tt

abbrev sum_equation : IntConstraint
sum_equation = record {
  op = IntCmpOp.eq;
  left = int_add (int (int_var "y") (int (int_lit 1) no_ints));
  right = int_add (int (int_var "x") (int (int_lit 2) no_ints));
}

abbrev one_equation : Bounds
one_equation = record no_bounds { equalities = (sum_equation.left, sum_equation.right) ∷ [] }

one_equation-unused : assign_equalities one_equation.equalities [] [] ≡ []
unfolding read_constraints Assoc.lookup eval_int
one_equation-unused =
    equalities_unused (sum_equation ∷ []) [] [] [] one_equation no_bounds refl read_equation
  where
    read_equation : read_constraints (sum_equation ∷ []) [] [] no_bounds ≡ some one_equation
    read_equation = refl

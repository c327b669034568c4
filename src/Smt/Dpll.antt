-- ===== src/Smt/Dpll.antt =====
-- crates/causm-smt/src/oxiz/solver.rs: `solve_dpll`, the search for an assignment, with the
-- collection of the unknowns and the test of the constraints at its leaves.
pub mod Search
pub mod Clauses
pub mod Decided
pub mod Complete
use causm.Prelude.{
  ℕ, zero, suc, Bool, true, false, ◌&&◌, not, Option, some, none, String, List, [], ◌∷◌, length,
  if◌then◌else◌,
}
use causm.Prelude.Assoc
use causm.Smt.Ast.{
  BoolExpr, lit, var, and, or, ite, implies, int_cmp, IntExpr, int_lit, int_var, int_add, int_ite,
  Bools, no_bools, bool, Ints, no_ints, int,
}
use causm.Smt.Names.{member, include, include_all}
use causm.Smt.Eval.{Assignment, IntAssignment, IntConstraint, eval_bool_fully}
use causm.Smt.Propagate.{
  Definitions, contains_key, defined_names, Propagated, refuted, out_of_fuel, stable, propagate,
}
use causm.Smt.Bounds.{solve_int_constraints}

-- `bool_vars` and `int_vars`
abbrev pub Vars : Type 0
Vars = List String × List String

unfoldable mutual
  pub collect_vars : BoolExpr → Vars → Vars
  collect_vars (lit b) vs = vs
  collect_vars (var x) (bools, ints) = (include x bools, ints)
  collect_vars (BoolExpr.not a) vs = collect_vars a vs
  collect_vars (and args) vs = collect_each args vs
  collect_vars (or args) vs = collect_each args vs
  collect_vars (ite c t e) vs = collect_vars e (collect_vars t (collect_vars c vs))
  collect_vars (BoolExpr.eq a b) vs = collect_vars b (collect_vars a vs)
  collect_vars (implies a b) vs = collect_vars b (collect_vars a vs)
  collect_vars (int_cmp op a b) vs = collect_int_vars b (collect_int_vars a vs)

  pub collect_int_vars : IntExpr → Vars → Vars
  collect_int_vars (int_lit n) vs = vs
  collect_int_vars (int_var x) (bools, ints) = (bools, include x ints)
  collect_int_vars (int_add args) vs = collect_each_int args vs
  collect_int_vars (int_ite c t e) vs = collect_int_vars e (collect_int_vars t (collect_vars c vs))

  pub collect_each : Bools → Vars → Vars
  collect_each no_bools vs = vs
  collect_each (bool a args) vs = collect_each args (collect_vars a vs)

  pub collect_each_int : Ints → Vars → Vars
  collect_each_int no_ints vs = vs
  collect_each_int (int a args) vs = collect_each_int args (collect_int_vars a vs)

abbrev pub no_vars : Vars
no_vars = ([], [])

-- one constraint and one definition behind another
unfoldable pub collect_constraints : List BoolExpr → Vars → Vars
unfolding collect_vars
collect_constraints [] vs = vs
collect_constraints (c ∷ cs) vs = collect_constraints cs (collect_vars c vs)

-- `definitions.iter().any(|(d, _)| d == &v)`
abbrev pub is_defined : Definitions → String → Bool
is_defined ds x = member (defined_names ds) x

-- the assignment that a search ends with, or what a search that failed leaves in `int_env`
pub data Answer : Type 0 where
  sat : Assignment → IntAssignment → Answer
  unsat : IntAssignment → Answer
  no_fuel : Answer

abbrev pub or_try : Answer → (IntAssignment → Answer) → Answer
or_try (unsat ints) next = next ints
or_try answer next = answer

-- The first of the names that has neither a value nor a definition.
unfoldable pub next_var : List String → Definitions → Assignment → Option String
next_var [] ds env = none
next_var (x ∷ xs) ds env =
    if not (contains_key x env) && not (is_defined ds x) then some x else next_var xs ds env

unfoldable pub set_defaults : List String → Definitions → Assignment → Assignment
set_defaults [] ds env = env
set_defaults (x ∷ xs) ds env =
    set_defaults xs ds
      (if not (contains_key x env) && not (is_defined ds x) then Assoc.insert x false env else env)

-- every constraint has to be true; the comparisons are gathered
unfoldable pub verify_all :
    List BoolExpr → Assignment → List IntConstraint → Option (List IntConstraint)
unfolding eval_bool_fully
verify_all [] env ints = some ints
verify_all (c ∷ cs) env ints = elim (eval_bool_fully c env ints) [
  | none ↦ none
  | some (b, ints') ↦ elim b [ true ↦ verify_all cs env ints' | false ↦ none ]
]

-- `iterate` is the order in which a hash set or map with these keys is gone through.
module _ (iterate : List String → List String) where
  unfoldable pub decide_on : BoolExpr → List String → List String
  unfolding collect_vars
  decide_on a out = include_all (iterate (collect_vars a no_vars).0) out

  unfoldable pub decide_on_each : Bools → List String → List String
  unfolding decide_on
  decide_on_each no_bools out = out
  decide_on_each (bool a args) out = decide_on_each args (decide_on a out)

  unfoldable pub decide_on_constraint : BoolExpr → List String → List String
  unfolding decide_on_each
  decide_on_constraint (or args) out = decide_on_each args out
  decide_on_constraint (ite c t e) out = decide_on c out
  decide_on_constraint (implies a b) out = decide_on a out
  decide_on_constraint c out = out

  unfoldable pub collect_decision_vars : List BoolExpr → List String → List String
  unfolding decide_on_constraint
  collect_decision_vars [] out = out
  collect_decision_vars (c ∷ cs) out = collect_decision_vars cs (decide_on_constraint c out)

  -- the unknowns of the constraints and the names that are defined, `all_bvars`
  unfoldable pub all_bool_vars : List BoolExpr → Definitions → List String
  unfolding collect_constraints
  all_bool_vars cs ds = iterate (include_all (defined_names ds) (collect_constraints cs no_vars).0)

  unfoldable pub solve_ints : List IntConstraint → Assignment → IntAssignment → Answer
  unfolding solve_int_constraints
  solve_ints cs env ints =
      let (ok, ints') = solve_int_constraints iterate cs env ints in
      if ok then sat env ints' else unsat ints'

  -- behind the second `propagate`
  unfoldable pub finish : List BoolExpr → IntAssignment → Propagated → Answer
  unfolding solve_ints verify_all
  finish cs ints refuted = unsat ints
  finish cs ints out_of_fuel = no_fuel
  finish cs ints (stable env) = elim (verify_all cs env []) [
    | none ↦ unsat ints
    | some found ↦ solve_ints found env ints
  ]

  -- all the decision variables have values
  unfoldable pub leaf : List BoolExpr → Definitions → Assignment → IntAssignment → Answer
  unfolding finish all_bool_vars set_defaults
  leaf cs ds env ints = finish cs ints (propagate cs ds (set_defaults (all_bool_vars cs ds) ds env))

  -- behind the first `propagate`; `search` is the call of `solve_dpll` itself
  unfoldable pub search_from :
      List BoolExpr
      → Definitions
      → (Assignment → IntAssignment → Answer)
      → Propagated
      → IntAssignment
      → Answer
  unfolding leaf next_var collect_decision_vars
  search_from cs ds search refuted ints = unsat ints
  search_from cs ds search out_of_fuel ints = no_fuel
  search_from cs ds search (stable env) ints =
      elim (next_var (collect_decision_vars cs []) ds env) [
        | none ↦ leaf cs ds env ints
        | some x ↦
            or_try (search (Assoc.insert x true env) ints) (search (Assoc.insert x false env))
      ]

  -- `solve_dpll` with the number of decisions bounded
  unfoldable pub solve_fuel : ℕ → List BoolExpr → Definitions → Assignment → IntAssignment → Answer
  unfolding search_from propagate
  solve_fuel zero cs ds env ints = no_fuel
  solve_fuel (suc n) cs ds env ints =
      search_from cs ds (solve_fuel n cs ds) (propagate cs ds env) ints

  -- Every decision gives a value to one more of the decision variables.
  unfoldable pub solve_dpll : List BoolExpr → Definitions → Assignment → IntAssignment → Answer
  unfolding solve_fuel
  solve_dpll cs ds env ints = solve_fuel (suc (length (collect_decision_vars cs []))) cs ds env ints

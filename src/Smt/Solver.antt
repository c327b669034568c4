-- ===== src/Smt/Solver.antt =====
-- crates/causm-smt/src/oxiz/solver.rs: `OxiZSolver`, its assertions, scopes, check and model.
pub mod Flat
pub mod Sound
pub mod Decides
pub mod Negated
pub mod Scopes
pub mod Ground
use causm.Prelude.{
  ℕ, zero, suc, Bool, true, false, Option, some, none, String, List, [], ◌∷◌, ◌++◌, length, take,
}
use causm.Smt.Ast.{
  BoolExpr, lit, var, and, or, ite, implies, int_cmp, IntExpr, Bools, no_bools, bool,
}
use causm.Smt.Eval.{Assignment, IntAssignment, eval_int}
use causm.Smt.Propagate.{Definitions}
use causm.Smt.Dpll.{Answer, sat, unsat, no_fuel, solve_dpll}

pub record OxiZSolver : Type 0 where
  pub assertions : List BoolExpr
  -- the numbers of assertions at the calls of `push`, the last one in front
  pub scopes : List ℕ
  pub model_bools : Assignment
  pub model_ints : IntAssignment

abbrev pub new : OxiZSolver
new = record { assertions = []; scopes = []; model_bools = []; model_ints = [] }

abbrev pub reset : OxiZSolver → OxiZSolver
reset s = record { assertions = []; scopes = []; model_bools = []; model_ints = [] }

unfoldable pub push : OxiZSolver → OxiZSolver
push s = record s { scopes = length s.assertions ∷ s.scopes }

unfoldable pub pop_one : List ℕ → OxiZSolver → OxiZSolver
pop_one [] s = record s { assertions = [] }
pop_one (n ∷ ns) s = record s { assertions = take n s.assertions; scopes = ns }

unfoldable pub pop : ℕ → OxiZSolver → OxiZSolver
unfolding pop_one
pop zero s = s
pop (suc n) s = pop n (pop_one s.scopes s)

unfoldable pub assert : BoolExpr → OxiZSolver → OxiZSolver
assert c s = record s { assertions = s.assertions ++ c ∷ [] }

-- the members of a conjunction, and of those in it
unfoldable mutual
  pub flatten_bool : BoolExpr → List BoolExpr
  flatten_bool (and args) = flatten_each args
  flatten_bool e = e ∷ []

  pub flatten_each : Bools → List BoolExpr
  flatten_each no_bools = []
  flatten_each (bool a args) = flatten_bool a ++ flatten_each args

unfoldable pub flatten_all : List BoolExpr → List BoolExpr
unfolding flatten_bool
flatten_all [] = []
flatten_all (a ∷ as') = flatten_bool a ++ flatten_all as'

-- an equation with a name on one side is read as its definition
abbrev pub definition_of : BoolExpr → Definitions
definition_of (BoolExpr.eq (var x) e) = (x, e) ∷ []
definition_of (BoolExpr.eq e (var x)) = (x, e) ∷ []
definition_of e = []

abbrev pub Separated : Type 0
Separated = Definitions × List BoolExpr

abbrev pub put_first : BoolExpr → Option Separated → Option Separated
put_first a none = none
put_first a (some (ds, cs)) = some (definition_of a ++ ds, a ∷ cs)

-- the loop of `check` that sets the definitions apart; `none` is its `return false`
unfoldable pub separate : List BoolExpr → Option Separated
separate [] = some ([], [])
separate (lit true ∷ as') = separate as'
separate (lit false ∷ as') = none
separate (a ∷ as') = put_first a (separate as')

-- `none` where the search would run out of fuel
abbrev pub answered : Answer → OxiZSolver → Option (Bool × OxiZSolver)
answered (sat bools ints) s = some (true, record s { model_bools = bools; model_ints = ints })
answered (unsat ints) s = some (false, s)
answered no_fuel s = none

-- `iterate` is the order in which a hash set or map with these keys is gone through.
unfoldable pub check : (List String → List String) → OxiZSolver → Option (Bool × OxiZSolver)
unfolding flatten_all separate solve_dpll
check iterate s = elim (separate (flatten_all s.assertions)) [
  | none ↦ some (false, s)
  | some (ds, cs) ↦ answered (solve_dpll iterate cs ds [] []) s
]

unfoldable pub eval_u64 : IntExpr → OxiZSolver → Option ℕ
unfolding eval_int
eval_u64 e s = eval_int e s.model_bools s.model_ints

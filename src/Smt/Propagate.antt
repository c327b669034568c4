-- ===== src/Smt/Propagate.antt =====
-- crates/causm-smt/src/oxiz/solver.rs: `propagate`, which draws the consequences of an assignment.
pub mod Grows
pub mod Ends
pub mod Keeps
use causm.Prelude.{
  ℕ, zero, suc, Bool, true, false, not, Option, some, none, String, List, [], ◌∷◌, ◌++◌, length,
  if◌then◌else◌,
}
use causm.Prelude.Assoc
use causm.Smt.Ast.{BoolExpr, lit, var, and, or, ite, implies, int_cmp}
use causm.Smt.Eval.{Assignment, eval_bool_partial}

abbrev pub Definitions : Type 0
Definitions = List (String × BoolExpr)

-- `bool_env` with `changed`; `none` where a step returns `false`
abbrev pub Progress : Type 0
Progress = Assignment × Bool

abbrev pub contains_key : String → Assignment → Bool
contains_key x env = elim (Assoc.lookup x env) [ none ↦ false | some _ ↦ true ]

-- a value that an unknown has to have: it is set, or was set to the same
unfoldable pub force : String → Bool → Progress → Option Progress
force x v (env, changed) = elim (Assoc.lookup x env) [
  | none ↦ some (Assoc.insert x v env, true)
  | some w ↦ if (if v then w else not w) then some (env, changed) else none
]

abbrev pub fail_if_false : Option Bool → Progress → Option Progress
fail_if_false (some false) r = none
fail_if_false _ r = some r

-- the literals get their value, any other formula must not be false
unfoldable pub propagate_literal : BoolExpr → Progress → Option Progress
unfolding force eval_bool_partial
propagate_literal (var x) r = force x true r
propagate_literal (BoolExpr.not (var x)) r = force x false r
propagate_literal c r = fail_if_false (eval_bool_partial c r.0) r

-- an antecedent without value, whose consequent has the value `cons`
unfoldable pub propagate_backward : BoolExpr → Option Bool → Progress → Option Progress
unfolding force
propagate_backward (var x) (some false) r = force x false r
propagate_backward ant cons r = some r

unfoldable pub propagate_implies : Option Bool → BoolExpr → BoolExpr → Progress → Option Progress
unfolding propagate_literal propagate_backward
propagate_implies (some true) ant cons r = propagate_literal cons r
propagate_implies (some false) ant cons r = some r
propagate_implies none ant cons r = propagate_backward ant (eval_bool_partial cons r.0) r

unfoldable pub propagate_constraint : BoolExpr → Progress → Option Progress
unfolding propagate_implies
propagate_constraint (implies ant cons) r = propagate_implies (eval_bool_partial ant r.0) ant cons r
propagate_constraint c r = propagate_literal c r

unfoldable pub propagate_constraints : List BoolExpr → Progress → Option Progress
unfolding propagate_constraint
propagate_constraints [] r = some r
propagate_constraints (c ∷ cs) r = elim (propagate_constraint c r) [
  | none ↦ none
  | some r' ↦ propagate_constraints cs r'
]

abbrev pub define : String → Option Bool → Progress → Progress
define x none r = r
define x (some v) (env, changed) = (Assoc.insert x v env, true)

unfoldable pub propagate_definition : String × BoolExpr → Progress → Progress
unfolding eval_bool_partial
propagate_definition (x, e) r =
    if contains_key x r.0 then r else define x (eval_bool_partial e r.0) r

unfoldable pub propagate_definitions : Definitions → Progress → Progress
unfolding propagate_definition
propagate_definitions [] r = r
propagate_definitions (d ∷ ds) r = propagate_definitions ds (propagate_definition d r)

-- the body of `while changed`
unfoldable pub round : List BoolExpr → Definitions → Assignment → Option Progress
unfolding propagate_definitions propagate_constraints
round cs ds env = propagate_constraints cs (propagate_definitions ds (env, false))

pub data Propagated : Type 0 where
  refuted out_of_fuel : Propagated
  stable : Assignment → Propagated

abbrev pub again : Option Progress → (Assignment → Propagated) → Propagated
again none next = refuted
again (some (env, true)) next = next env
again (some (env, false)) next = stable env

unfoldable pub propagate_fuel : ℕ → List BoolExpr → Definitions → Assignment → Propagated
unfolding round
propagate_fuel zero cs ds env = out_of_fuel
propagate_fuel (suc n) cs ds env = again (round cs ds env) (λ env'. propagate_fuel n cs ds env')

-- the unknowns that a constraint can set
abbrev pub literal_name : BoolExpr → List String
literal_name (var x) = x ∷ []
literal_name (BoolExpr.not (var x)) = x ∷ []
literal_name _ = []

abbrev pub settable : BoolExpr → List String
settable (implies a b) = literal_name a ++ literal_name b
settable c = literal_name c

abbrev pub constraint_names : List BoolExpr → List String
constraint_names [] = []
constraint_names (c ∷ cs) = settable c ++ constraint_names cs

abbrev pub defined_names : Definitions → List String
defined_names [] = []
defined_names ((x, e) ∷ ds) = x ∷ defined_names ds

-- Every round but the last sets one of these.
unfoldable pub propagate : List BoolExpr → Definitions → Assignment → Propagated
unfolding propagate_fuel
propagate cs ds env =
    propagate_fuel (suc (length (defined_names ds ++ constraint_names cs))) cs ds env

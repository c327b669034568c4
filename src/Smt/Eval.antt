-- ===== src/Smt/Eval.antt =====
-- crates/causm-smt/src/oxiz/solver.rs: the evaluation of formulas and terms under an assignment of
-- some of the unknowns.
pub mod Partial
pub mod Exact
use causm.Prelude.{
  ℕ, Bool, true, false, ◌&&◌, ◌||◌, not, Option, some, none, String, List, [], ◌∷◌, ◌++◌,
  if◌then◌else◌, saturating_add,
}
use causm.Prelude.Assoc
use causm.Smt.Ast.{
  IntCmpOp, BoolExpr, lit, var, and, or, ite, implies, int_cmp, IntExpr, int_lit, int_var, int_add,
  int_ite, Bools, no_bools, bool, Ints, no_ints, int,
}
use causm.Smt.Build

abbrev pub Assignment : Type 0
Assignment = List (String × Bool)

abbrev pub IntAssignment : Type 0
IntAssignment = List (String × ℕ)

-- One round of the loop over a conjunction, in front of the rest of it: a false member decides,
-- and an undecided one leaves the rest only the choice to be false.
abbrev pub and_then : Option Bool → Option Bool → Option Bool
and_then (some false) rest = some false
and_then (some true) rest = rest
and_then none (some false) = some false
and_then none _ = none

abbrev pub or_else : Option Bool → Option Bool → Option Bool
or_else (some true) rest = some true
or_else (some false) rest = rest
or_else none (some true) = some true
or_else none _ = none

abbrev pub negate : Option Bool → Option Bool
negate (some b) = some (not b)
negate none = none

abbrev pub choose_by : Option Bool → Option Bool → Option Bool → Option Bool
choose_by (some true) t e = t
choose_by (some false) t e = e
choose_by none t e = none

abbrev pub imply : Option Bool → Option Bool → Option Bool
imply (some false) b = some true
imply (some true) b = b
imply none (some true) = some true
imply none _ = none

abbrev pub agree : Option Bool → Option Bool → Option Bool
agree (some a) (some b) = some (if a then b else not b)
agree _ _ = none

unfoldable mutual
  pub eval_bool_partial : BoolExpr → Assignment → Option Bool
  eval_bool_partial (lit b) env = some b
  eval_bool_partial (var x) env = Assoc.lookup x env
  eval_bool_partial (BoolExpr.not a) env = negate (eval_bool_partial a env)
  eval_bool_partial (and args) env = eval_and args env
  eval_bool_partial (or args) env = eval_or args env
  eval_bool_partial (ite c t e) env =
      choose_by (eval_bool_partial c env) (eval_bool_partial t env) (eval_bool_partial e env)
  eval_bool_partial (implies a b) env = imply (eval_bool_partial a env) (eval_bool_partial b env)
  eval_bool_partial (BoolExpr.eq a b) env =
      agree (eval_bool_partial a env) (eval_bool_partial b env)
  eval_bool_partial (int_cmp op a b) env = none

  pub eval_and : Bools → Assignment → Option Bool
  eval_and no_bools env = some true
  eval_and (bool a args) env = and_then (eval_bool_partial a env) (eval_and args env)

  pub eval_or : Bools → Assignment → Option Bool
  eval_or no_bools env = some false
  eval_or (bool a args) env = or_else (eval_bool_partial a env) (eval_or args env)

-- `simplify_int`
unfoldable mutual
  unfolding eval_bool_partial

  pub simplify_int : IntExpr → Assignment → IntExpr
  simplify_int (int_lit n) env = int_lit n
  simplify_int (int_var x) env = int_var x
  simplify_int (int_add args) env = Build.add (simplify_ints args env)
  simplify_int (int_ite c t e) env = elim (eval_bool_partial c env) [
    | none ↦ int_ite c (simplify_int t env) (simplify_int e env)
    | some b ↦ if b then simplify_int t env else simplify_int e env
  ]

  pub simplify_ints : Ints → Assignment → Ints
  simplify_ints no_ints env = no_ints
  simplify_ints (int a args) env = int (simplify_int a env) (simplify_ints args env)

-- a comparison whose terms have been simplified, `SimplifiedIntConstraint::Cmp`
pub record IntConstraint : Type 0 where
  pub op : IntCmpOp
  pub left : IntExpr
  pub right : IntExpr

-- `eval_bool_fully`: a value with the comparisons met so far, or `none` by an early `?`
abbrev pub Full : Type 0
Full = Option (Bool × List IntConstraint)

infixl 5 ◌>>=◌
abbrev pub ◌>>=◌ : Full → (Bool → List IntConstraint → Full) → Full
none >>= f = none
some (b, cs) >>= f = f b cs

unfoldable pub read_bool : String → Assignment → List IntConstraint → Full
read_bool x env cs = elim (Assoc.lookup x env) [ none ↦ none | some b ↦ some (b, cs) ]

unfoldable mutual
  unfolding simplify_int read_bool

  pub eval_bool_fully : BoolExpr → Assignment → List IntConstraint → Full
  eval_bool_fully (lit b) env cs = some (b, cs)
  eval_bool_fully (var x) env cs = read_bool x env cs
  eval_bool_fully (BoolExpr.not a) env cs = eval_bool_fully a env cs >>= λ b cs'. some (not b, cs')
  eval_bool_fully (and args) env cs = eval_each args env cs
  eval_bool_fully (or args) env cs = eval_any args env cs
  eval_bool_fully (ite c t e) env cs = eval_bool_fully c env cs >>= λ b cs'.
      if b then eval_bool_fully t env cs' else eval_bool_fully e env cs'
  eval_bool_fully (implies a b) env cs = eval_bool_fully a env cs >>= λ ant cs'.
      if ant then eval_bool_fully b env cs' else some (true, cs')
  eval_bool_fully (BoolExpr.eq a b) env cs = eval_bool_fully a env cs >>= λ va cs'.
      eval_bool_fully b env cs' >>= λ vb cs''. some (if va then vb else not vb, cs'')
  eval_bool_fully (int_cmp op a b) env cs =
      let c : IntConstraint = record {
        op = op;
        left = simplify_int a env;
        right = simplify_int b env;
      } in
      some (true, cs ++ c ∷ [])

  pub eval_each : Bools → Assignment → List IntConstraint → Full
  eval_each no_bools env cs = some (true, cs)
  eval_each (bool a args) env cs =
      eval_bool_fully a env cs >>= λ b cs'. if b then eval_each args env cs' else some (false, cs')

  pub eval_any : Bools → Assignment → List IntConstraint → Full
  eval_any no_bools env cs = some (false, cs)
  eval_any (bool a args) env cs =
      eval_bool_fully a env cs >>= λ b cs'. if b then some (true, cs') else eval_any args env cs'

-- a sum with an unknown part has no value
abbrev pub add_to : Option ℕ → Option ℕ → Option ℕ
add_to (some a) (some b) = some (saturating_add a b)
add_to _ _ = none

-- `unwrap_or(false)`
abbrev pub or_false : Option Bool → Bool
or_false none = false
or_false (some b) = b

unfoldable mutual
  unfolding eval_bool_partial

  pub eval_int : IntExpr → Assignment → IntAssignment → Option ℕ
  eval_int (int_lit n) env ints = some n
  eval_int (int_var x) env ints = Assoc.lookup x ints
  eval_int (int_add args) env ints = eval_sum args env ints
  eval_int (int_ite c t e) env ints =
      if or_false (eval_bool_partial c env) then eval_int t env ints else eval_int e env ints

  pub eval_sum : Ints → Assignment → IntAssignment → Option ℕ
  eval_sum no_ints env ints = some 0
  eval_sum (int a args) env ints = add_to (eval_int a env ints) (eval_sum args env ints)

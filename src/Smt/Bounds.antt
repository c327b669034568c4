-- ===== src/Smt/Bounds.antt =====
-- crates/causm-smt/src/oxiz/solver.rs: `solve_int_constraints`, which gives the integer unknowns
-- values between the bounds that the comparisons put on them.
pub mod Equations
use causm.Prelude.{
  ℕ, zero, suc, min, max, Bool, true, false, Option, some, none, String, List, [], ◌∷◌, ◌++◌, map,
  if◌then◌else◌, ltb, add64, u64_max,
}
use causm.Prelude.Assoc
use causm.Smt.Ast.{IntCmpOp, lt, le, gt, ge, IntExpr, int_var}
use causm.Smt.Ast.Meaning.{compare_ints}
use causm.Smt.Eval.{Assignment, IntAssignment, IntConstraint, eval_int}

-- `lower_bounds`, `upper_bounds` and `equalities`
pub record Bounds : Type 0 where
  pub lower : IntAssignment
  pub upper : IntAssignment
  pub equalities : List (IntExpr × IntExpr)

abbrev pub value_or : ℕ → Option ℕ → ℕ
value_or d none = d
value_or d (some n) = n

-- `entry(..).or_insert(0)` with the maximum, and `or_insert(u64::MAX)` with the minimum
unfoldable pub raise : String → ℕ → Bounds → Bounds
raise x n b = record b {
  lower = Assoc.insert x (max (value_or 0 (Assoc.lookup x b.lower)) n) b.lower;
}

unfoldable pub cap : String → ℕ → Bounds → Bounds
cap x n b = record b {
  upper = Assoc.insert x (min (value_or u64_max (Assoc.lookup x b.upper)) n) b.upper;
}

-- the bound of `x op r`; no number is below 0, and `r + 1` wraps
unfoldable pub bound : IntCmpOp → String → ℕ → Bounds → Option Bounds
unfolding raise cap
bound gt x r b = some (raise x (add64 r 1) b)
bound ge x r b = some (raise x r b)
bound lt x zero b = none
bound lt x (suc r) b = some (cap x r b)
bound le x r b = some (cap x r b)
bound IntCmpOp.eq x r b = some (cap x r (raise x r b))

-- the comparison read from the right: `l op x` is `x (flip op) l`
abbrev pub flip : IntCmpOp → IntCmpOp
flip lt = gt
flip le = ge
flip gt = lt
flip ge = le
flip IntCmpOp.eq = IntCmpOp.eq

-- a comparison behind the values that its sides have: decided, a bound on a side without value, or
-- an equation to be used at the end
unfoldable pub read_values :
    IntCmpOp → IntExpr → IntExpr → Option ℕ → Option ℕ → Bounds → Option Bounds
unfolding bound compare_ints
read_values op left right (some l) (some r) b = if compare_ints op l r then some b else none
read_values op (int_var x) right l (some r) b = bound op x r b
read_values op (int_var x) right l none b = some b
read_values op left (int_var x) (some l) r b = bound (flip op) x l b
read_values op left (int_var x) none r b = some b
read_values IntCmpOp.eq left right l r b =
    some (record b { equalities = b.equalities ++ (left, right) ∷ [] })
read_values op left right l r b = some b

unfoldable pub read_constraints :
    List IntConstraint → Assignment → IntAssignment → Bounds → Option Bounds
unfolding read_values
read_constraints [] env ints b = some b
read_constraints (c ∷ cs) env ints b =
    elim (read_values c.op c.left c.right (eval_int c.left env ints) (eval_int c.right env ints)
      b) [ none ↦ none | some b' ↦ read_constraints cs env ints b' ]

abbrev pub keys : IntAssignment → List String
keys ints = map (λ entry. entry.0) ints

abbrev pub above : ℕ → Option ℕ → Bool
above low none = false
above low (some up) = ltb up low

-- the loop over the lower bounds, which stops where one is above the upper bound
unfoldable pub assign_lower : List String → Bounds → IntAssignment → Bool × IntAssignment
assign_lower [] b ints = (true, ints)
assign_lower (x ∷ xs) b ints =
    let low : ℕ = value_or 0 (Assoc.lookup x b.lower) in
    if above low (Assoc.lookup x b.upper)
    then (false, ints)
    else assign_lower xs b (Assoc.insert x low ints)

abbrev pub keep_or_set : String → ℕ → Option ℕ → IntAssignment → IntAssignment
keep_or_set x n none ints = Assoc.insert x n ints
keep_or_set x n (some _) ints = ints

unfoldable pub assign_upper : List String → Bounds → IntAssignment → IntAssignment
assign_upper [] b ints = ints
assign_upper (x ∷ xs) b ints =
    assign_upper xs b
      (keep_or_set x (value_or u64_max (Assoc.lookup x b.upper)) (Assoc.lookup x ints) ints)

abbrev pub set_if : String → Option ℕ → IntAssignment → IntAssignment
set_if x none ints = ints
set_if x (some n) ints = Assoc.insert x n ints

unfoldable pub assign_equality : IntExpr × IntExpr → Assignment → IntAssignment → IntAssignment
unfolding eval_int
assign_equality (int_var x, int_var y) env ints =
    Assoc.insert x (value_or 0 (Assoc.lookup y ints)) ints
assign_equality (int_var x, right) env ints = set_if x (eval_int right env ints) ints
assign_equality (left, right) env ints = ints

unfoldable pub assign_equalities :
    List (IntExpr × IntExpr) → Assignment → IntAssignment → IntAssignment
unfolding assign_equality
assign_equalities [] env ints = ints
assign_equalities (e ∷ es) env ints = assign_equalities es env (assign_equality e env ints)

abbrev pub no_bounds : Bounds
no_bounds = record { lower = []; upper = []; equalities = [] }

-- `iterate` is the order in which a hash map with these keys is gone through.
unfoldable pub solve_int_constraints :
    (List String → List String)
    → List IntConstraint
    → Assignment
    → IntAssignment
    → Bool × IntAssignment
unfolding read_constraints assign_lower assign_upper assign_equalities
solve_int_constraints iterate cs env ints = elim (read_constraints cs env ints no_bounds) [
  | none ↦ (false, ints)
  | some b ↦
      let (ok, ints') = assign_lower (iterate (keys b.lower)) b ints in
      if ok
      then (
        true,
        assign_equalities b.equalities env (assign_upper (iterate (keys b.upper)) b ints'),
      )
      else (false, ints')
]

-- ===== src/Smt/Bounds/Equations.antt =====
-- crates/causm-smt/src/oxiz/solver.rs: what becomes of the equations in `solve_int_constraints`.
use causm.Prelude.{
  ℕ, zero, suc, ◌≡◌, refl, sym, ap, subst, ◌∙◌, Bool, true, false, Option, some, none, String, List,
  [], ◌∷◌, ◌++◌, if◌then◌else◌,
}
use causm.Smt.Ast.{IntCmpOp, lt, le, gt, ge, IntExpr, int_lit, int_var, int_add, int_ite}
use causm.Smt.Ast.Meaning.{compare_ints}
use causm.Smt.Eval.{Assignment, IntAssignment, IntConstraint, eval_int}
use causm.Smt.Bounds.{
  Bounds, raise, cap, bound, flip, read_values, read_constraints, assign_equality,
  assign_equalities,
}

abbrev pub IsUnknown : IntExpr → Type 0
IsUnknown (int_var x) = Unit {0}
IsUnknown e = true ≡ false

-- no equation has an unknown alone on its left
abbrev pub Bound : List (IntExpr × IntExpr) → Type 0
Bound [] = Unit {0}
Bound (e ∷ es) = (IsUnknown e.0 → true ≡ false) × Bound es

abbrev BoundIn : Option Bounds → Type 0
BoundIn none = Unit {0}
BoundIn (some b) = Bound b.equalities

Bound-append : (es fs : List (IntExpr × IntExpr)) → Bound es → Bound fs → Bound (es ++ fs)
Bound-append [] fs n m = m
Bound-append (e ∷ es) fs (h, n) m = (h, Bound-append es fs n m)

bound-BoundIn :
    (op : IntCmpOp) (x : String) (n : ℕ) (b : Bounds)
    → Bound b.equalities
    → BoundIn (bound op x n b)
unfolding bound raise cap
bound-BoundIn gt x n b h = h
bound-BoundIn ge x n b h = h
bound-BoundIn lt x zero b h = tt
bound-BoundIn lt x (suc n) b h = h
bound-BoundIn le x n b h = h
bound-BoundIn IntCmpOp.eq x n b h = h

if-BoundIn : (c : Bool) (b : Bounds) → Bound b.equalities → BoundIn (if c then some b else none)
if-BoundIn true b h = h
if-BoundIn false b h = tt

read_values-BoundIn :
    (op : IntCmpOp) (left right : IntExpr) (l r : Option ℕ) (b : Bounds)
    → Bound b.equalities
    → BoundIn (read_values op left right l r b)
unfolding read_values
read_values-BoundIn op left right (some l) (some r) b h = if-BoundIn (compare_ints op l r) b h
read_values-BoundIn op (int_var x) right none (some r) b h = bound-BoundIn op x r b h
read_values-BoundIn op (int_var x) right l none b h = h
read_values-BoundIn op left (int_var x) (some l) none b h = bound-BoundIn (flip op) x l b h
read_values-BoundIn op left (int_var x) none r b h = h
read_values-BoundIn IntCmpOp.eq left right l r b h =
    Bound-append b.equalities ((left, right) ∷ []) h ((λ u. u), tt)
read_values-BoundIn op left right l r b h = h

read_constraints-BoundIn :
    (cs : List IntConstraint) (env : Assignment) (ints : IntAssignment) (b : Bounds)
    → Bound b.equalities
    → BoundIn (read_constraints cs env ints b)
unfolding read_constraints
read_constraints-BoundIn [] env ints b h = h
read_constraints-BoundIn (c ∷ cs) env ints b h =
    go (read_values c.op c.left c.right (eval_int c.left env ints) (eval_int c.right env ints) b)
      (read_values-BoundIn c.op c.left c.right (eval_int c.left env ints)
        (eval_int c.right env ints) b h)
      (λ b'. read_constraints-BoundIn cs env ints b')
  where
    go :
        (o : Option Bounds)
        → BoundIn o
        → ((b' : Bounds) → Bound b'.equalities → BoundIn (read_constraints cs env ints b'))
        → BoundIn (elim o as (λ _. Option Bounds) [
          | none ↦ none
          | some b' ↦ read_constraints cs env ints b'
        ])
    go none k f = tt
    go (some b') k f = f b' k

assign_equality-Bound :
    (left right : IntExpr) (env : Assignment) (ints : IntAssignment)
    → (IsUnknown left → true ≡ false)
    → assign_equality (left, right) env ints ≡ ints
unfolding assign_equality
assign_equality-Bound (int_var x) right env ints h = cc (h tt)
assign_equality-Bound (int_lit n) right env ints h = refl
assign_equality-Bound (int_add args) right env ints h = refl
assign_equality-Bound (int_ite c t e) right env ints h = refl

assign_equalities-Bound :
    (es : List (IntExpr × IntExpr)) (env : Assignment) (ints : IntAssignment)
    → Bound es
    → assign_equalities es env ints ≡ ints
unfolding assign_equalities
assign_equalities-Bound [] env ints h = refl
assign_equalities-Bound ((left, right) ∷ es) env ints (h, n) =
    ap (assign_equalities es env) (assign_equality-Bound left right env ints h)
    ∙ assign_equalities-Bound es env ints n

-- Where the reading of the comparisons starts without equations, those that it puts aside for the
-- end have no unknown alone on their left, so that the last loop, which gives such an unknown the value of the right side, leaves
-- every assignment as it is.
pub equalities_unused :
    (cs : List IntConstraint) (env : Assignment) (before after : IntAssignment) (b start : Bounds)
    → start.equalities ≡ []
    → read_constraints cs env before start ≡ some b
    → assign_equalities b.equalities env after ≡ after
equalities_unused cs env before after b start e h =
    assign_equalities-Bound b.equalities env after
      (subst BoundIn h (read_constraints-BoundIn cs env before start (subst Bound (sym e) tt)))

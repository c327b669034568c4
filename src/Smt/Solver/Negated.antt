-- ===== src/Smt/Solver/Negated.antt =====
-- crates/causm-smt/src/oxiz/solver.rs: what `check` answers where a comparison is negated.
use causm.Prelude.{◌≡◌, refl, Bool, true, false, Option, some, none, String, List, [], ◌∷◌, ◌++◌}
use causm.Smt.Ast.{BoolExpr, lit, int_cmp}
use causm.Smt.Eval.{Assignment, IntConstraint, eval_bool_fully}
use causm.Smt.Dpll.{Answer, sat, unsat, no_fuel, verify_all, solve_dpll}
use causm.Smt.Dpll.Search.{Verified, solve_dpll-Verified}
use causm.Smt.Solver.{
  OxiZSolver, flatten_bool, flatten_all, Separated, put_first, separate, answered, check,
}

-- the negation of a comparison stands among the formulas
abbrev pub HasNegated : List BoolExpr → Type 0
HasNegated [] = true ≡ false
HasNegated (BoolExpr.not (int_cmp op a b) ∷ cs) = Unit {0}
HasNegated (c ∷ cs) = HasNegated cs

HasNegated-front : (xs ys : List BoolExpr) → HasNegated ys → HasNegated (xs ++ ys)
HasNegated-front [] ys h = h
HasNegated-front (BoolExpr.not (int_cmp op a b) ∷ xs) ys h = tt
HasNegated-front (x ∷ xs) ys h = HasNegated-front xs ys h

flatten_all-HasNegated : (es : List BoolExpr) → HasNegated es → HasNegated (flatten_all es)
unfolding flatten_all flatten_bool
flatten_all-HasNegated [] h = h
flatten_all-HasNegated (BoolExpr.not (int_cmp op a b) ∷ es) h = tt
flatten_all-HasNegated (e ∷ es) h =
    HasNegated-front (flatten_bool e) (flatten_all es) (flatten_all-HasNegated es h)

abbrev KeepsNegated : Option Separated → Type 0
KeepsNegated none = Unit {0}
KeepsNegated (some (ds, cs)) = HasNegated cs

put_first-KeepsNegated :
    (e : BoolExpr) (o : Option Separated) → KeepsNegated o → KeepsNegated (put_first e o)
put_first-KeepsNegated e none h = tt
put_first-KeepsNegated e (some (ds, cs)) h = HasNegated-front (e ∷ []) cs h

put_first-Negated :
    (e : BoolExpr) (es : List BoolExpr) (o : Option Separated)
    → HasNegated (e ∷ [])
    → KeepsNegated (put_first e o)
put_first-Negated e es none h = tt
put_first-Negated (BoolExpr.not (int_cmp op a b)) es (some (ds, cs)) h = tt
put_first-Negated e es (some (ds, cs)) h = cc

separate-KeepsNegated : (es : List BoolExpr) → HasNegated es → KeepsNegated (separate es)
unfolding separate
separate-KeepsNegated [] h = h
separate-KeepsNegated (lit true ∷ es) h = separate-KeepsNegated es h
separate-KeepsNegated (lit false ∷ es) h = tt
separate-KeepsNegated (BoolExpr.not (int_cmp op a b) ∷ es) h =
    put_first-Negated (BoolExpr.not (int_cmp op a b)) es (separate es) tt
separate-KeepsNegated (e ∷ es) h =
    put_first-KeepsNegated e (separate es) (separate-KeepsNegated es h)

HasNegated-verify_all :
    (cs : List BoolExpr) (env : Assignment) (ints : List IntConstraint)
    → HasNegated cs
    → verify_all cs env ints ≡ none
unfolding verify_all eval_bool_fully
HasNegated-verify_all [] env ints h = cc
HasNegated-verify_all (BoolExpr.not (int_cmp op a b) ∷ cs) env ints h = refl
HasNegated-verify_all (c ∷ cs) env ints h =
    go (eval_bool_fully c env ints) (λ ints'. HasNegated-verify_all cs env ints' h)
  where
    go :
        (o : Option (Bool × List IntConstraint))
        → ((ints' : List IntConstraint) → verify_all cs env ints' ≡ none)
        → (elim o as (λ _. Option (List IntConstraint)) [
          | none ↦ none
          | some (b, ints') ↦ elim b [ true ↦ verify_all cs env ints' | false ↦ none ]
        ])
          ≡ none
    go none f = refl
    go (some (true, ints')) f = f ints'
    go (some (false, ints')) f = refl

answered-unsat :
    (iterate : List String → List String) (cs : List BoolExpr) (s : OxiZSolver) (a : Answer)
    → HasNegated cs
    → Verified iterate cs a
    → answered a s ≡ some (false, s)
answered-unsat iterate cs s (sat env ints) h (found, start, e, q) =
    cc (HasNegated-verify_all cs env [] h, e)
answered-unsat iterate cs s (unsat ints) h v = refl
answered-unsat iterate cs s no_fuel h v = cc

-- Where the negation of a comparison stands among the assertions, `check` answers no, whether there
-- is a model or not.
pub check-HasNegated :
    (iterate : List String → List String) (s : OxiZSolver)
    → HasNegated s.assertions
    → check iterate s ≡ some (false, s)
unfolding check
check-HasNegated iterate s h =
    go (separate (flatten_all s.assertions))
      (separate-KeepsNegated (flatten_all s.assertions) (flatten_all-HasNegated s.assertions h))
  where
    go :
        (o : Option Separated)
        → KeepsNegated o
        → (elim o as (λ _. Option (Bool × OxiZSolver)) [
          | none ↦ some (false, s)
          | some (ds, cs) ↦ answered (solve_dpll iterate cs ds [] []) s
        ])
          ≡ some (false, s)
    go none k = refl
    go (some (ds, cs)) k =
        answered-unsat iterate cs s (solve_dpll iterate cs ds [] []) k
          (solve_dpll-Verified iterate cs ds [] [])

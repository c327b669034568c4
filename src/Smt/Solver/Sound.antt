-- ===== src/Smt/Solver/Sound.antt =====
-- crates/causm-smt/src/oxiz/solver.rs: `check` comes to an end, and what it accepts is a model.
use causm.Prelude.{
  ℕ, ◌≡◌, refl, ap, subst, Bool, true, false, Option, some, none, String, List, [], ◌∷◌, ◌++◌,
}
use causm.Smt.Ast.{BoolExpr, lit, and, Bools, no_bools, bool}
use causm.Smt.Eval.{Assignment, IntConstraint, eval_bool_fully}
use causm.Smt.Eval.Partial.{reads, reads-Extends}
use causm.Smt.Eval.Exact.{
  IsPropositional, ArePropositional, AllPropositional, eval_bool_fully_sound,
}
use causm.Smt.Propagate.Keeps.{IsModel}
use causm.Smt.Dpll.{Answer, sat, unsat, no_fuel, verify_all, solve_dpll}
use causm.Smt.Dpll.Search.{Verified, solve_dpll-Verified}
use causm.Smt.Solver.{
  OxiZSolver, flatten_bool, flatten_each, flatten_all, Separated, put_first, separate, answered,
  check,
}
use causm.Smt.Solver.Flat.{IsModel-flatten_all, IsModel-separate}

append-AllPropositional :
    (xs ys : List BoolExpr)
    → AllPropositional xs
    → AllPropositional ys
    → AllPropositional (xs ++ ys)
append-AllPropositional [] ys p q = q
append-AllPropositional (x ∷ xs) ys (p, r) q = (p, append-AllPropositional xs ys r q)

mutual
  unfolding flatten_bool

  flatten_bool-AllPropositional :
      (e : BoolExpr) → IsPropositional e → AllPropositional (flatten_bool e)
  flatten_bool-AllPropositional (and args) p = flatten_each-AllPropositional args p
  flatten_bool-AllPropositional e p = (p, tt)

  flatten_each-AllPropositional :
      (args : Bools) → ArePropositional args → AllPropositional (flatten_each args)
  flatten_each-AllPropositional no_bools p = tt
  flatten_each-AllPropositional (bool a args) (p, q) =
      append-AllPropositional (flatten_bool a) (flatten_each args)
        (flatten_bool-AllPropositional a p) (flatten_each-AllPropositional args q)

flatten_all-AllPropositional :
    (es : List BoolExpr) → AllPropositional es → AllPropositional (flatten_all es)
unfolding flatten_all
flatten_all-AllPropositional [] p = tt
flatten_all-AllPropositional (e ∷ es) (p, q) =
    append-AllPropositional (flatten_bool e) (flatten_all es) (flatten_bool-AllPropositional e p)
      (flatten_all-AllPropositional es q)

-- the same of what `separate` keeps
abbrev PartsPropositional : Option Separated → Type 0
PartsPropositional none = Unit {0}
PartsPropositional (some (ds, cs)) = AllPropositional cs

put_first-PartsPropositional :
    (a : BoolExpr) (o : Option Separated)
    → IsPropositional a
    → PartsPropositional o
    → PartsPropositional (put_first a o)
put_first-PartsPropositional a none p q = tt
put_first-PartsPropositional a (some (ds, cs)) p q = (p, q)

separate-PartsPropositional :
    (es : List BoolExpr) → AllPropositional es → PartsPropositional (separate es)
unfolding separate
separate-PartsPropositional [] p = tt
separate-PartsPropositional (lit true ∷ es) (p, q) = separate-PartsPropositional es q
separate-PartsPropositional (lit false ∷ es) (p, q) = tt
separate-PartsPropositional (e ∷ es) (p, q) =
    put_first-PartsPropositional e (separate es) p (separate-PartsPropositional es q)

module _ (σ : String → ℕ) (env : Assignment) where
  verify_all-IsModel :
      (cs : List BoolExpr) (ints found : List IntConstraint)
      → AllPropositional cs
      → verify_all cs env ints ≡ some found
      → IsModel (reads env) σ cs
  unfolding verify_all
  verify_all-IsModel [] ints found p h = tt
  verify_all-IsModel (c ∷ cs) ints found (p, q) h =
      go (eval_bool_fully c env ints) refl h (λ ints'. verify_all-IsModel cs ints' found q)
    where
      go :
          (o : Option (Bool × List IntConstraint))
          → eval_bool_fully c env ints ≡ o
          → (elim o as (λ _. Option (List IntConstraint)) [
            | none ↦ none
            | some (b, ints') ↦ elim b [ true ↦ verify_all cs env ints' | false ↦ none ]
          ])
            ≡ some found
          → ((ints' : List IntConstraint)
              → verify_all cs env ints' ≡ some found
              → IsModel (reads env) σ cs)
          → IsModel (reads env) σ (c ∷ cs)
      go none e h' f = cc
      go (some (false, ints')) e h' f = cc
      go (some (true, ints')) e h' f =
          let (t, u) =
            eval_bool_fully_sound (reads env) σ env c ints ints' true (reads-Extends env) p e in
          (t, f ints' h')

module _ (iterate : List String → List String) where
  -- what `check` gives: an answer; a solver whose assertions and scopes are as before, and whose
  -- model is as before where the answer is no
  abbrev pub Checked : OxiZSolver → Option (Bool × OxiZSolver) → Type 0
  Checked s none = true ≡ false
  Checked s (some (true, s')) = (s'.assertions ≡ s.assertions) × (s'.scopes ≡ s.scopes)
  Checked s (some (false, s')) = s' ≡ s

  answered-Checked :
      (cs : List BoolExpr) (s : OxiZSolver) (a : Answer)
      → Verified iterate cs a
      → Checked s (answered a s)
  answered-Checked cs s (sat bools ints) v = (refl, refl)
  answered-Checked cs s (unsat ints) v = refl
  answered-Checked cs s no_fuel v = v

  -- `check` terminates with an answer; it leaves the assertions and the scopes as they are, and a
  -- negative answer leaves the model of the check before.
  pub check-Checked : (s : OxiZSolver) → Checked s (check iterate s)
  unfolding check
  check-Checked s = go (separate (flatten_all s.assertions))
    where
      go :
          (o : Option Separated)
          → Checked s (elim o as (λ _. Option (Bool × OxiZSolver)) [
            | none ↦ some (false, s)
            | some (ds, cs) ↦ answered (solve_dpll iterate cs ds [] []) s
          ])
      go none = refl
      go (some (ds, cs)) =
          answered-Checked cs s (solve_dpll iterate cs ds [] [])
            (solve_dpll-Verified iterate cs ds [] [])

  answered-IsModel :
      (σ : String → ℕ) (cs : List BoolExpr) (s s' : OxiZSolver) (a : Answer)
      → AllPropositional cs
      → Verified iterate cs a
      → answered a s ≡ some (true, s')
      → IsModel (reads s'.model_bools) σ cs
  answered-IsModel σ cs s s' (sat bools ints) p (found, start, e, q) h =
      subst (λ (env : Assignment). IsModel (reads env) σ cs) (same_model h)
        (verify_all-IsModel σ bools cs [] found p e)
    where
      same_model : answered (sat bools ints) s ≡ some (true, s') → bools ≡ s'.model_bools
      same_model h' = ap model h'
        where
          model : Option (Bool × OxiZSolver) → Assignment
          model none = []
          model (some (b, t)) = t.model_bools
  answered-IsModel σ cs s s' (unsat ints) p v h = cc
  answered-IsModel σ cs s s' no_fuel p v h = cc

  -- Where none of the assertions has a comparison, the model that a positive `check` leaves makes
  -- every assertion true. With a comparison in one assertion it says nothing of the others.
  pub check_sound :
      (σ : String → ℕ) (s s' : OxiZSolver)
      → AllPropositional s.assertions
      → check iterate s ≡ some (true, s')
      → IsModel (reads s'.model_bools) σ s.assertions
  unfolding check
  check_sound σ s s' p h = go (separate (flatten_all s.assertions)) refl h (
      separate-PartsPropositional (flatten_all s.assertions)
        (flatten_all-AllPropositional s.assertions p))
    where
      go :
          (o : Option Separated)
          → separate (flatten_all s.assertions) ≡ o
          → (elim o as (λ _. Option (Bool × OxiZSolver)) [
            | none ↦ some (false, s)
            | some (ds, cs) ↦ answered (solve_dpll iterate cs ds [] []) s
          ])
            ≡ some (true, s')
          → PartsPropositional o
          → IsModel (reads s'.model_bools) σ s.assertions
      go none e h' q = cc
      go (some (ds, cs)) e h' q = IsModel-flatten_all (reads s'.model_bools) σ s.assertions (
          IsModel-separate (reads s'.model_bools) σ (flatten_all s.assertions) cs ds e (
            answered-IsModel σ cs s s' (solve_dpll iterate cs ds [] []) q
              (solve_dpll-Verified iterate cs ds [] []) h'))

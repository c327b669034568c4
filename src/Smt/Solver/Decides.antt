-- ===== src/Smt/Solver/Decides.antt =====
-- crates/causm-smt/src/oxiz/solver.rs: on clauses `check` is a decision procedure.
use causm.Prelude.{
  ℕ, ◌≡◌, refl, sym, ap, subst, ◌↔◌, Bool, true, false, Option, some, none, String, List, [], ◌∷◌,
}
use causm.Smt.Ast.{BoolExpr, lit, var, or}
use causm.Smt.Eval.Partial.{reads}
use causm.Smt.Propagate.{Definitions}
use causm.Smt.Propagate.Keeps.{IsModel}
use causm.Smt.Dpll.{Answer, sat, unsat, no_fuel, solve_dpll}
use causm.Smt.Dpll.Search.{Verified, solve_dpll-Verified}
use causm.Smt.Dpll.Clauses.{IsClause, AllClauses, IsOrder}
use causm.Smt.Dpll.Decided.{AllClauses-AllPropositional}
use causm.Smt.Dpll.Complete.{Found, solve_dpll-Found}
use causm.Smt.Solver.{
  OxiZSolver, flatten_bool, flatten_all, Separated, put_first, separate, answered, check,
}
use causm.Smt.Solver.Flat.{separate-ToParts, ToParts}
use causm.Smt.Solver.Sound.{check_sound}

-- clauses are neither conjunctions nor definitions
flatten_all-AllClauses : (es : List BoolExpr) → AllClauses es → flatten_all es ≡ es
unfolding flatten_all flatten_bool
flatten_all-AllClauses [] a = refl
flatten_all-AllClauses (lit b ∷ es) (p, a) = ap (λ xs. lit b ∷ xs) (flatten_all-AllClauses es a)
flatten_all-AllClauses (var x ∷ es) (p, a) = ap (λ xs. var x ∷ xs) (flatten_all-AllClauses es a)
flatten_all-AllClauses (BoolExpr.not e ∷ es) (p, a) =
    ap (λ xs. BoolExpr.not e ∷ xs) (flatten_all-AllClauses es a)
flatten_all-AllClauses (or args ∷ es) (p, a) = ap (λ xs. or args ∷ xs) (flatten_all-AllClauses es a)
flatten_all-AllClauses (e ∷ es) (p, a) = cc

abbrev OnlyClauses : Option Separated → Type 0
OnlyClauses none = Unit {0}
OnlyClauses (some (ds, cs)) = (ds ≡ []) × AllClauses cs

put_first-OnlyClauses :
    (e : BoolExpr) (o : Option Separated) → IsClause e → OnlyClauses o → OnlyClauses (put_first e o)
put_first-OnlyClauses e none p q = tt
put_first-OnlyClauses (lit b) (some (ds, cs)) p (q, a) = (q, (p, a))
put_first-OnlyClauses (var x) (some (ds, cs)) p (q, a) = (q, (p, a))
put_first-OnlyClauses (BoolExpr.not e) (some (ds, cs)) p (q, a) = (q, (p, a))
put_first-OnlyClauses (or args) (some (ds, cs)) p (q, a) = (q, (p, a))
put_first-OnlyClauses e (some (ds, cs)) p (q, a) = cc

separate-OnlyClauses : (es : List BoolExpr) → AllClauses es → OnlyClauses (separate es)
unfolding separate
separate-OnlyClauses [] a = (refl, tt)
separate-OnlyClauses (lit true ∷ es) (p, a) = separate-OnlyClauses es a
separate-OnlyClauses (lit false ∷ es) (p, a) = tt
separate-OnlyClauses (e ∷ es) (p, a) =
    put_first-OnlyClauses e (separate es) p (separate-OnlyClauses es a)

abbrev Accepts : (List String → List String) → OxiZSolver → Type 0
Accepts iterate s = (s' : OxiZSolver) × (check iterate s ≡ some (true, s'))

module _ (iterate : List String → List String) (σ : String → ℕ) where
  answered-sat :
      (cs : List BoolExpr) (s : OxiZSolver) (a : Answer)
      → Verified iterate cs a
      → Found σ a
      → (s' : OxiZSolver) × (answered a s ≡ some (true, s'))
  answered-sat cs s (sat bools ints) v f =
      (record s { model_bools = bools; model_ints = ints }, refl)
  answered-sat cs s (unsat ints) v f = cc
  answered-sat cs s no_fuel v f = cc

  model-Accepts :
      (ρ : String → Bool) (s : OxiZSolver)
      → IsOrder iterate
      → AllClauses s.assertions
      → IsModel ρ σ s.assertions
      → Accepts iterate s
  unfolding check
  model-Accepts ρ s order a m =
      subst
        (λ (es : List BoolExpr).
          (s' : OxiZSolver) × ((elim (separate es) as (λ _. Option (Bool × OxiZSolver)) [
            | none ↦ some (false, s)
            | some (ds, cs) ↦ answered (solve_dpll iterate cs ds [] []) s
          ])
            ≡ some (true, s')))
        (sym (flatten_all-AllClauses s.assertions a))
        (go (separate s.assertions) (separate-OnlyClauses s.assertions a)
          (separate-ToParts ρ σ s.assertions m))
    where
      go :
          (o : Option Separated)
          → OnlyClauses o
          → ToParts ρ σ o
          → (s' : OxiZSolver) × ((elim o as (λ _. Option (Bool × OxiZSolver)) [
            | none ↦ some (false, s)
            | some (ds, cs) ↦ answered (solve_dpll iterate cs ds [] []) s
          ])
              ≡ some (true, s'))
      go none q t = cc
      go (some (ds, cs)) (q, b) (n, d) =
          subst
            (λ (ds' : Definitions).
              (s' : OxiZSolver) × (answered (solve_dpll iterate cs ds' [] []) s ≡ some (true, s')))
            (sym q)
            (answered-sat cs s (solve_dpll iterate cs [] [] [])
              (solve_dpll-Verified iterate cs [] [] [])
              (solve_dpll-Found σ iterate order ρ cs [] b n))

  -- Where the assertions are clauses, `check` answers yes exactly if some values of the unknowns
  -- make them all true, in whichever order the hash sets are gone through.
  pub check_decides :
      (s : OxiZSolver)
      → IsOrder iterate
      → AllClauses s.assertions
      → ((s' : OxiZSolver) × (check iterate s ≡ some (true, s')))
        ↔ ((ρ : String → Bool) × IsModel ρ σ s.assertions)
  check_decides s order a = (
    (λ (s', h). (
      reads s'.model_bools,
      check_sound iterate σ s s' (AllClauses-AllPropositional s.assertions a) h,
    )),
    (λ (ρ, m). model-Accepts ρ s order a m),
  )

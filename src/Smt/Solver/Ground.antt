-- ===== src/Smt/Solver/Ground.antt =====
-- crates/causm-smt/src/oxiz/solver.rs: `check` where the assertions are made of truth values,
-- comparisons of integer literals and conjunctions.
pub mod Readable
pub mod Search
use causm.Prelude.{
  ℕ, ◌≡◌, refl, sym, ap, ◌∙◌, subst, ◌⊎◌, inl, inr, Bool, true, false, Bool-cases, Option, some,
  none, String, List, [], ◌∷◌, ◌++◌, if◌then◌else◌,
}
use causm.Smt.Ast.{BoolExpr, lit, and, int_cmp, int_lit, Bools, no_bools, bool}
use causm.Smt.Ast.Meaning.{holds}
use causm.Smt.Propagate.{Definitions}
use causm.Smt.Propagate.Keeps.{IsModel}
use causm.Smt.Dpll.{Answer, sat, unsat, no_fuel, solve_dpll}
use causm.Smt.Dpll.Clauses.{IsOrder}
use causm.Smt.Solver.{
  OxiZSolver, flatten_bool, flatten_each, flatten_all, Separated, put_first, separate, answered,
  check,
}
use causm.Smt.Solver.Flat.{
  flatten_all-IsModel, IsModel-flatten_all, IsModel-separate, separate-ToParts, ToParts,
}
use causm.Smt.Solver.Ground.Readable.{
  AllComparisons, all_compare, all_compare-IsModel, IsModel-all_compare, AllComparisons-AllReadable,
}
use causm.Smt.Solver.Ground.Search.{solve_dpll-AllReadable}

-- truth values, comparisons of literals, and conjunctions of these
unfoldable mutual
  pub IsGround : BoolExpr → Type 0
  IsGround (lit c) = Unit {0}
  IsGround (int_cmp op (int_lit i) (int_lit j)) = Unit {0}
  IsGround (and args) = AreGround args
  IsGround _ = true ≡ false

  pub AreGround : Bools → Type 0
  AreGround no_bools = Unit {0}
  AreGround (bool a args) = IsGround a × AreGround args

abbrev pub AllGround : List BoolExpr → Type 0
AllGround [] = Unit {0}
AllGround (e ∷ es) = IsGround e × AllGround es

abbrev IsAtom : BoolExpr → Type 0
IsAtom (lit c) = Unit {0}
IsAtom (int_cmp op (int_lit i) (int_lit j)) = Unit {0}
IsAtom _ = true ≡ false

abbrev AllAtoms : List BoolExpr → Type 0
AllAtoms [] = Unit {0}
AllAtoms (e ∷ es) = IsAtom e × AllAtoms es

append-AllAtoms : (xs ys : List BoolExpr) → AllAtoms xs → AllAtoms ys → AllAtoms (xs ++ ys)
append-AllAtoms [] ys a a' = a'
append-AllAtoms (x ∷ xs) ys (p, a) a' = (p, append-AllAtoms xs ys a a')

mutual
  unfolding flatten_bool IsGround

  flatten_bool-AllAtoms : (e : BoolExpr) → IsGround e → AllAtoms (flatten_bool e)
  flatten_bool-AllAtoms (lit c) g = (tt, tt)
  flatten_bool-AllAtoms (int_cmp op (int_lit i) (int_lit j)) g = (tt, tt)
  flatten_bool-AllAtoms (and args) g = flatten_each-AllAtoms args g
  flatten_bool-AllAtoms _ g = cc

  flatten_each-AllAtoms : (args : Bools) → AreGround args → AllAtoms (flatten_each args)
  flatten_each-AllAtoms no_bools g = tt
  flatten_each-AllAtoms (bool a args) (g, h) =
      append-AllAtoms (flatten_bool a) (flatten_each args) (flatten_bool-AllAtoms a g)
        (flatten_each-AllAtoms args h)

flatten_all-AllAtoms : (es : List BoolExpr) → AllGround es → AllAtoms (flatten_all es)
unfolding flatten_all
flatten_all-AllAtoms [] g = tt
flatten_all-AllAtoms (e ∷ es) (g, h) =
    append-AllAtoms (flatten_bool e) (flatten_all es) (flatten_bool-AllAtoms e g)
      (flatten_all-AllAtoms es h)

-- what is left of atoms: comparisons, and no definition
abbrev OnlyComparisons : Option Separated → Type 0
OnlyComparisons none = Unit {0}
OnlyComparisons (some (ds, cs)) = (ds ≡ []) × AllComparisons cs

separate-OnlyComparisons : (es : List BoolExpr) → AllAtoms es → OnlyComparisons (separate es)
unfolding separate
separate-OnlyComparisons [] a = (refl, tt)
separate-OnlyComparisons (lit true ∷ es) (p, a) = separate-OnlyComparisons es a
separate-OnlyComparisons (lit false ∷ es) (p, a) = tt
separate-OnlyComparisons (int_cmp op (int_lit i) (int_lit j) ∷ es) (p, a) =
    go (separate es) (separate-OnlyComparisons es a)
  where
    go :
        (o : Option Separated)
        → OnlyComparisons o
        → OnlyComparisons (put_first (int_cmp op (int_lit i) (int_lit j)) o)
    go none h = tt
    go (some (ds, cs)) (e, h) = (e, (tt, h))
separate-OnlyComparisons (e ∷ es) (p, a) = cc

-- the solver behind a positive answer: nothing is left to be found
abbrev pub emptied : OxiZSolver → OxiZSolver
emptied s = record s { model_bools = []; model_ints = [] }

module _ (iterate : List String → List String) (ρ : String → Bool) (σ : String → ℕ) where
  -- the answer says whether the assertions hold
  abbrev pub Judges : OxiZSolver → Option (Bool × OxiZSolver) → Type 0
  Judges s o =
      (IsModel ρ σ s.assertions × (o ≡ some (true, emptied s)))
      ⊎ ((IsModel ρ σ s.assertions → true ≡ false) × (o ≡ some (false, s)))

  -- Where every assertion is built from truth values and comparisons of integer literals by
  -- conjunctions, and the hash sets are gone through in some order of their members, `check` ends,
  -- and answers yes exactly if all assertions are true, with an empty model; on a no the solver is
  -- as before.
  pub check-Judges :
      (s : OxiZSolver) → IsOrder iterate → AllGround s.assertions → Judges s (check iterate s)
  unfolding check
  check-Judges s order g =
      go (separate es) refl (separate-OnlyComparisons es (flatten_all-AllAtoms s.assertions g))
        (λ m. separate-ToParts ρ σ es (flatten_all-IsModel ρ σ s.assertions m))
    where
      es : List BoolExpr
      es = flatten_all s.assertions

      go :
          (o : Option Separated)
          → separate es ≡ o
          → OnlyComparisons o
          → (IsModel ρ σ s.assertions → ToParts ρ σ o)
          → Judges s (elim o as (λ _. Option (Bool × OxiZSolver)) [
            | none ↦ some (false, s)
            | some (ds, cs) ↦ answered (solve_dpll iterate cs ds [] []) s
          ])
      go none e h f = inr (f, refl)
      go (some (ds, cs)) e (no_ds, h) f = elim (Bool-cases (all_compare cs)) [
        | inl t ↦ inl (
          IsModel-flatten_all ρ σ s.assertions
              (IsModel-separate ρ σ es cs ds e (all_compare-IsModel ρ σ cs h t)),
          ap (λ a. answered a s)
              (ap (λ ds'. solve_dpll iterate cs ds' [] []) no_ds
                ∙ solve_dpll-AllReadable iterate order cs (AllComparisons-AllReadable cs h)
                ∙ ap (λ c. if c then sat [] [] else unsat []) t),
        )
        | inr t ↦ inr (
          (λ m. cc (IsModel-all_compare ρ σ cs h (f m).0, t)),
          ap (λ a. answered a s)
              (ap (λ ds'. solve_dpll iterate cs ds' [] []) no_ds
                ∙ solve_dpll-AllReadable iterate order cs (AllComparisons-AllReadable cs h)
                ∙ ap (λ c. if c then sat [] [] else unsat []) t),
        )
      ]

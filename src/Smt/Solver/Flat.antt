-- ===== src/Smt/Solver/Flat.antt =====
-- crates/causm-smt/src/oxiz/solver.rs: the constraints and definitions that `check` makes of the
-- assertions have the models of the assertions.
use causm.Prelude.{
  ℕ, ◌≡◌, refl, sym, subst, Bool, true, false, Option, some, none, String, List, [], ◌∷◌, ◌++◌,
  arith,
}
use causm.Smt.Ast.{BoolExpr, lit, var, and, or, ite, implies, int_cmp, Bools, no_bools, bool}
use causm.Smt.Ast.Meaning.{holds, all_hold}
use causm.Smt.Propagate.{Definitions}
use causm.Smt.Propagate.Keeps.{IsModel, Defines}
use causm.Smt.Solver.{
  flatten_bool, flatten_each, flatten_all, definition_of, Separated, put_first, separate,
}

module _ (ρ : String → Bool) (σ : String → ℕ) where
  pub IsModel-append :
      (xs ys : List BoolExpr) → IsModel ρ σ (xs ++ ys) → IsModel ρ σ xs × IsModel ρ σ ys
  IsModel-append [] ys m = (tt, m)
  IsModel-append (x ∷ xs) ys (h, m) = let (a, b) = IsModel-append xs ys m in ((h, a), b)

  pub append-IsModel :
      (xs ys : List BoolExpr) → IsModel ρ σ xs → IsModel ρ σ ys → IsModel ρ σ (xs ++ ys)
  append-IsModel [] ys m m' = m'
  append-IsModel (x ∷ xs) ys (h, m) m' = (h, append-IsModel xs ys m m')

  mutual
    unfolding flatten_bool holds

    flatten_bool-IsModel : (e : BoolExpr) → holds ρ σ e ≡ true → IsModel ρ σ (flatten_bool e)
    flatten_bool-IsModel (and args) h = flatten_each-IsModel args h
    flatten_bool-IsModel e h = (h, tt)

    flatten_each-IsModel :
        (args : Bools) → all_hold ρ σ args ≡ true → IsModel ρ σ (flatten_each args)
    flatten_each-IsModel no_bools h = tt
    flatten_each-IsModel (bool a args) h =
        append-IsModel (flatten_bool a) (flatten_each args) (flatten_bool-IsModel a (ground arith))
          (flatten_each-IsModel args (ground arith))

  mutual
    unfolding flatten_bool holds

    holds-flatten_bool : (e : BoolExpr) → IsModel ρ σ (flatten_bool e) → holds ρ σ e ≡ true
    holds-flatten_bool (and args) m = holds-flatten_each args m
    holds-flatten_bool (lit b) (h, u) = h
    holds-flatten_bool (var x) (h, u) = h
    holds-flatten_bool (BoolExpr.not a) (h, u) = h
    holds-flatten_bool (or args) (h, u) = h
    holds-flatten_bool (ite c t e) (h, u) = h
    holds-flatten_bool (BoolExpr.eq a b) (h, u) = h
    holds-flatten_bool (implies a b) (h, u) = h
    holds-flatten_bool (int_cmp op a b) (h, u) = h

    holds-flatten_each : (args : Bools) → IsModel ρ σ (flatten_each args) → all_hold ρ σ args ≡ true
    holds-flatten_each no_bools m = refl
    holds-flatten_each (bool a args) m =
        let (m', n) = IsModel-append (flatten_bool a) (flatten_each args) m in
        ground (arith, holds-flatten_bool a m', holds-flatten_each args n)

  pub flatten_all-IsModel : (as' : List BoolExpr) → IsModel ρ σ as' → IsModel ρ σ (flatten_all as')
  unfolding flatten_all
  flatten_all-IsModel [] m = tt
  flatten_all-IsModel (a ∷ as') (h, m) =
      append-IsModel (flatten_bool a) (flatten_all as') (flatten_bool-IsModel a h)
        (flatten_all-IsModel as' m)

  pub IsModel-flatten_all : (as' : List BoolExpr) → IsModel ρ σ (flatten_all as') → IsModel ρ σ as'
  unfolding flatten_all
  IsModel-flatten_all [] m = tt
  IsModel-flatten_all (a ∷ as') m =
      let (n, m') = IsModel-append (flatten_bool a) (flatten_all as') m in
      (holds-flatten_bool a n, IsModel-flatten_all as' m')

  -- a model of the constraints that were kept is one of all
  abbrev FromParts : List BoolExpr → Option Separated → Type 0
  FromParts as' none = Unit {0}
  FromParts as' (some (ds, cs)) = IsModel ρ σ cs → IsModel ρ σ as'

  put_first-FromParts :
      (a : BoolExpr) (as' : List BoolExpr) (o : Option Separated)
      → FromParts as' o
      → FromParts (a ∷ as') (put_first a o)
  put_first-FromParts a as' none f = tt
  put_first-FromParts a as' (some (ds, cs)) f = λ (h, m). (h, f m)

  separate-FromParts : (as' : List BoolExpr) → FromParts as' (separate as')
  unfolding separate holds
  separate-FromParts [] = λ m. m
  separate-FromParts (lit true ∷ as') = go (separate as') (separate-FromParts as')
    where
      go : (o : Option Separated) → FromParts as' o → FromParts (lit true ∷ as') o
      go none f = tt
      go (some (ds, cs)) f = λ m. (refl, f m)
  separate-FromParts (lit false ∷ as') = tt
  separate-FromParts (a ∷ as') = put_first-FromParts a as' (separate as') (separate-FromParts as')

  pub IsModel-separate :
      (as' cs : List BoolExpr) (ds : Definitions)
      → separate as' ≡ some (ds, cs)
      → IsModel ρ σ cs
      → IsModel ρ σ as'
  IsModel-separate as' cs ds q = subst (FromParts as') q (separate-FromParts as')

  -- nothing is lost: a model of all is one of the parts
  abbrev pub ToParts : Option Separated → Type 0
  ToParts none = true ≡ false
  ToParts (some (ds, cs)) = IsModel ρ σ cs × Defines ρ σ ds

  definition_of-Defines :
      (a : BoolExpr) (ds : Definitions)
      → holds ρ σ a ≡ true
      → Defines ρ σ ds
      → Defines ρ σ (definition_of a ++ ds)
  unfolding holds
  definition_of-Defines (BoolExpr.eq (var x) e) ds h d = (ground arith, d)
  definition_of-Defines (BoolExpr.eq e (var x)) ds h d = (ground arith, d)
  definition_of-Defines a ds h d = d

  put_first-ToParts :
      (a : BoolExpr) (o : Option Separated)
      → holds ρ σ a ≡ true
      → ToParts o
      → ToParts (put_first a o)
  put_first-ToParts a none h t = t
  put_first-ToParts a (some (ds, cs)) h (m, d) = ((h, m), definition_of-Defines a ds h d)

  pub separate-ToParts : (as' : List BoolExpr) → IsModel ρ σ as' → ToParts (separate as')
  unfolding separate holds
  separate-ToParts [] m = (tt, tt)
  separate-ToParts (lit true ∷ as') (h, m) = separate-ToParts as' m
  separate-ToParts (lit false ∷ as') (h, m) = sym h
  separate-ToParts (a ∷ as') (h, m) = put_first-ToParts a (separate as') h (separate-ToParts as' m)

-- ===== src/Smt/Dpll/Decided.antt =====
-- crates/causm-smt/src/oxiz/solver.rs: constraints whose unknowns all have values, at the leaves of
-- `solve_dpll`.
use causm.Prelude.{
  ℕ, ◌≡◌, refl, ap, ◌∙◌, Bool, true, false, ◌&&◌, not, Option, some, none, String, eq_iff, List, [],
  ◌∷◌, if◌then◌else◌, arith,
}
use causm.Prelude.Assoc
use causm.Prelude.Assoc.{lookup-insert}
use causm.Smt.Ast.{BoolExpr, lit, var, and, or, ite, implies, int_cmp, Bools, no_bools, bool}
use causm.Smt.Eval.{Assignment, IntConstraint}
use causm.Smt.Eval.Partial.{Extends}
use causm.Smt.Eval.Exact.{
  IsPropositional, AllPropositional, Decided, AllDecided, eval_bool_fully_exact,
}
use causm.Smt.Propagate.{Definitions, contains_key}
use causm.Smt.Propagate.Ends.{Keeps}
use causm.Smt.Propagate.Keeps.{IsModel}
use causm.Smt.Dpll.{is_defined, set_defaults, verify_all}
use causm.Smt.Dpll.Clauses.{IsClause, AllClauses, AreDecided}

-- what has a value keeps it
mutual
  Decided-Keeps :
      (env env' : Assignment) (e : BoolExpr) → Keeps env env' → Decided env e → Decided env' e
  Decided-Keeps env env' (lit b) k d = tt
  Decided-Keeps env env' (var x) k (b, e) = (b, k x b e)
  Decided-Keeps env env' (BoolExpr.not a) k d = Decided-Keeps env env' a k d
  Decided-Keeps env env' (and args) k d = AllDecided-Keeps env env' args k d
  Decided-Keeps env env' (or args) k d = AllDecided-Keeps env env' args k d
  Decided-Keeps env env' (ite c t e) k (dc, dt, de) =
      (Decided-Keeps env env' c k dc, Decided-Keeps env env' t k dt, Decided-Keeps env env' e k de)
  Decided-Keeps env env' (implies a b) k (da, db) =
      (Decided-Keeps env env' a k da, Decided-Keeps env env' b k db)
  Decided-Keeps env env' (BoolExpr.eq a b) k (da, db) =
      (Decided-Keeps env env' a k da, Decided-Keeps env env' b k db)
  Decided-Keeps env env' (int_cmp op a b) k d = tt

  AllDecided-Keeps :
      (env env' : Assignment) (args : Bools)
      → Keeps env env'
      → AllDecided env args
      → AllDecided env' args
  AllDecided-Keeps env env' no_bools k d = tt
  AllDecided-Keeps env env' (bool a args) k (d, ds) =
      (Decided-Keeps env env' a k d, AllDecided-Keeps env env' args k ds)

pub AreDecided-Keeps :
    (env env' : Assignment) (cs : List BoolExpr)
    → Keeps env env'
    → AreDecided env cs
    → AreDecided env' cs
AreDecided-Keeps env env' [] k d = tt
AreDecided-Keeps env env' (c ∷ cs) k (d, ds) =
    (Decided-Keeps env env' c k d, AreDecided-Keeps env env' cs k ds)

pub IsClause-IsPropositional : (c : BoolExpr) → IsClause c → IsPropositional c
IsClause-IsPropositional (lit b) p = tt
IsClause-IsPropositional (var x) p = tt
IsClause-IsPropositional (BoolExpr.not (var x)) p = tt
IsClause-IsPropositional (or args) p = p
IsClause-IsPropositional c p = cc

pub AllClauses-AllPropositional : (cs : List BoolExpr) → AllClauses cs → AllPropositional cs
AllClauses-AllPropositional [] p = tt
AllClauses-AllPropositional (c ∷ cs) (p, q) =
    (IsClause-IsPropositional c p, AllClauses-AllPropositional cs q)

insert-kept :
    (y x : String) (b : Bool) (env : Assignment)
    → contains_key y env ≡ false
    → Assoc.lookup x env ≡ some b
    → Assoc.lookup x (Assoc.insert y false env) ≡ some b
insert-kept y x b env n e = ground (arith, lookup-insert y x false env, eq_iff y x)

pub set_defaults-Keeps :
    (names : List String) (ds : Definitions) (env : Assignment)
    → Keeps env (set_defaults names ds env)
unfolding set_defaults
set_defaults-Keeps [] ds env = λ x b e. e
set_defaults-Keeps (y ∷ ys) ds env =
    go (not (contains_key y env) && not (is_defined ds y)) refl (set_defaults-Keeps ys ds env)
      (set_defaults-Keeps ys ds (Assoc.insert y false env))
  where
    go :
        (c : Bool)
        → not (contains_key y env) && not (is_defined ds y) ≡ c
        → Keeps env (set_defaults ys ds env)
        → Keeps (Assoc.insert y false env) (set_defaults ys ds (Assoc.insert y false env))
        → Keeps env (set_defaults ys ds (if c then Assoc.insert y false env else env))
    go false q k k' = k
    go true q k k' = λ x b e. k' x b (insert-kept y x b env (ground arith) e)

module _ (σ : String → ℕ) where
  -- on an assignment that decides the constraints, one model of them is as good as another
  pub other-IsModel :
      (ρ ρ' : String → Bool) (env : Assignment) (cs : List BoolExpr)
      → Extends ρ env
      → Extends ρ' env
      → AllPropositional cs
      → AreDecided env cs
      → IsModel ρ σ cs
      → IsModel ρ' σ cs
  other-IsModel ρ ρ' env [] ext ext' p d m = tt
  other-IsModel ρ ρ' env (c ∷ cs) ext ext' (p, q) (d, ds) (h, m) =
      let e = eval_bool_fully_exact ρ σ env c [] ext p d in
      let e' = eval_bool_fully_exact ρ' σ env c [] ext' p d in
      (cc (e, e', h), other-IsModel ρ ρ' env cs ext ext' q ds m)

  -- and every one of them evaluates to true
  pub IsModel-verify_all :
      (ρ : String → Bool) (env : Assignment) (cs : List BoolExpr) (ints : List IntConstraint)
      → Extends ρ env
      → AllPropositional cs
      → AreDecided env cs
      → IsModel ρ σ cs
      → verify_all cs env ints ≡ some ints
  unfolding verify_all
  IsModel-verify_all ρ env [] ints ext p d m = refl
  IsModel-verify_all ρ env (c ∷ cs) ints ext (p, q) (d, ds) (h, m) =
      ap (go cs env) (eval_bool_fully_exact ρ σ env c ints ext p d ∙ ap (λ b. some (b, ints)) h)
      ∙ IsModel-verify_all ρ env cs ints ext q ds m
    where
      go :
          List BoolExpr
          → Assignment
          → Option (Bool × List IntConstraint)
          → Option (List IntConstraint)
      go cs env o = elim o [
        | none ↦ none
        | some (b, ints') ↦ elim b [ true ↦ verify_all cs env ints' | false ↦ none ]
      ]

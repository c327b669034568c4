-- ===== src/Smt/Dpll/Complete.antt =====
-- crates/causm-smt/src/oxiz/solver.rs: `solve_dpll` finds an assignment for clauses that have one.
use causm.Prelude.{
  ℕ, zero, suc, ◌≡◌, refl, sym, subst, Bool, true, false, ◌⊎◌, inl, inr, Bool-cases, Option, some,
  none, String, List, [], ◌∷◌, length, arith,
}
use causm.Prelude.Assoc
use causm.Prelude.Assoc.{lookup-insert}
use causm.Smt.Ast.{BoolExpr}
use causm.Smt.Eval.{Assignment, IntAssignment, IntConstraint}
use causm.Smt.Eval.Partial.{Extends, reads, reads-Extends}
use causm.Smt.Eval.Exact.{AllPropositional}
use causm.Smt.Propagate.{Propagated, refuted, out_of_fuel, stable, propagate, round}
use causm.Smt.Propagate.Ends.{Keeps, Ended, propagate-Ended}
use causm.Smt.Propagate.Keeps.{IsModel, propagate_sound, insert-Extends}
use causm.Smt.Bounds.{no_bounds, assign_lower, solve_int_constraints}
use causm.Smt.Dpll.{
  Answer, sat, unsat, no_fuel, or_try, next_var, set_defaults, verify_all, collect_decision_vars,
  all_bool_vars, solve_ints, finish, leaf, search_from, solve_fuel, solve_dpll,
}
use causm.Smt.Dpll.Search.{next_var-none}
use causm.Smt.Dpll.Clauses.{AllClauses, IsOrder, Known, AreDecided, clauses-Decided}
use causm.Smt.Dpll.Decided.{
  AreDecided-Keeps, AllClauses-AllPropositional, set_defaults-Keeps, other-IsModel,
  IsModel-verify_all,
}

module _ (σ : String → ℕ) where
  -- not a refusal
  abbrev pub Found : Answer → Type 0
  Found (unsat ints) = true ≡ false
  Found answer = Unit {0}

  or_try-Found :
      (a : Answer) (next : IntAssignment → Answer)
      → Found a ⊎ ((ints : IntAssignment) → Found (next ints))
      → Found (or_try a next)
  or_try-Found (sat env ints) next h = tt
  or_try-Found (unsat ints) next (inl h) = cc
  or_try-Found (unsat ints) next (inr h) = h ints
  or_try-Found no_fuel next h = tt

  assign_lower-no_bounds :
      (names : List String) (ints : IntAssignment) → (assign_lower names no_bounds ints).0 ≡ true
  unfolding assign_lower Assoc.lookup
  assign_lower-no_bounds [] ints = refl
  assign_lower-no_bounds (x ∷ xs) ints = assign_lower-no_bounds xs (Assoc.insert x 0 ints)

  module _ (iterate : List String → List String) (order : IsOrder iterate) where
    solve_ints-Found :
        (env : Assignment) (ints : IntAssignment) → Found (solve_ints iterate [] env ints)
    unfolding solve_ints solve_int_constraints
    solve_ints-Found env ints = rw (assign_lower-no_bounds (iterate []) ints) tt

    -- behind the defaults, whichever they are
    leaf-Found :
        (ρ : String → Bool) (cs : List BoolExpr) (env : Assignment) (ints : IntAssignment)
        → Extends ρ env
        → AllPropositional cs
        → AreDecided env cs
        → IsModel ρ σ cs
        → Found (leaf iterate cs [] env ints)
    unfolding leaf finish
    leaf-Found ρ cs env ints ext p d m =
        let env' : Assignment = set_defaults (all_bool_vars iterate cs []) [] env in
        let k : Keeps env env' = set_defaults-Keeps (all_bool_vars iterate cs []) [] env in
        let ext' : Extends (reads env') env = λ x b e. reads-Extends env' x b (k x b e) in
        let m' : IsModel (reads env') σ cs = other-IsModel σ ρ (reads env') env cs ext ext' p d m in
        let (env'', q, ext'') =
          propagate_sound (reads env') σ cs [] env' (reads-Extends env') m' tt in
        let k' : Keeps env' env'' =
          kept_by (propagate cs [] env') env'' q (propagate-Ended cs [] env') in
        let d'' : AreDecided env'' cs =
          AreDecided-Keeps env' env'' cs k' (AreDecided-Keeps env env' cs k d) in
        let v : verify_all cs env'' [] ≡ some [] =
          IsModel-verify_all σ (reads env') env'' cs [] ext'' p d'' m' in
        subst (λ (o : Propagated). Found (finish iterate cs ints o)) (sym q)
          (verified env'' (verify_all cs env'' []) v)
      where
        kept_by :
            (o : Propagated) (e' : Assignment)
            → o ≡ stable e'
            → Ended cs [] (set_defaults (all_bool_vars iterate cs []) [] env) o
            → Keeps (set_defaults (all_bool_vars iterate cs []) [] env) e'
        kept_by o e' q e =
            (subst (Ended cs [] (set_defaults (all_bool_vars iterate cs []) [] env)) q e).0

        verified :
            (e' : Assignment) (o : Option (List IntConstraint))
            → o ≡ some []
            → Found (elim o as (λ _. Answer) [
              | none ↦ unsat ints
              | some found ↦ solve_ints iterate found e' ints
            ])
        verified e' none v = cc
        verified e' (some found) v =
            subst (λ (fs : List IntConstraint). Found (solve_ints iterate fs e' ints))
              (sym (only v)) (solve_ints-Found e' ints)
          where
            only : some found ≡ some [] → found ≡ []
            only v' = cc

    search_from-Found :
        (ρ : String → Bool) (cs : List BoolExpr) (search : Assignment → IntAssignment → Answer)
        (env : Assignment) (p : Propagated) (ints : IntAssignment)
        → AllClauses cs
        → IsModel ρ σ cs
        → Ended cs [] env p
        → (env' : Assignment) × (p ≡ stable env') × Extends ρ env'
        → ((env' : Assignment) (ints' : IntAssignment) → Extends ρ env' → Found (search env' ints'))
        → Found (search_from iterate cs [] search p ints)
    unfolding search_from round
    search_from-Found ρ cs search env refuted ints a m e (env', q, ext) h = cc
    search_from-Found ρ cs search env out_of_fuel ints a m e (env', q, ext) h = cc
    search_from-Found ρ cs search env (stable reached) ints a m (k, fixed) (env', q, ext') h =
        go (next_var (collect_decision_vars iterate cs []) [] reached) refl
      where
        ext : Extends ρ reached
        ext = subst (Extends ρ) (same q) ext'
          where
            same : stable reached ≡ stable env' → env' ≡ reached
            same q' = cc

        tried :
            (x : String)
            → Found (
                or_try
                  (search (Assoc.insert x true reached) ints)
                  (search (Assoc.insert x false reached)))
        tried x =
            or_try-Found (search (Assoc.insert x true reached) ints)
              (search (Assoc.insert x false reached))
              (elim (Bool-cases (ρ x)) [
                | inl t ↦
                    inl (
                      h (Assoc.insert x true reached) ints
                        (insert-Extends ρ σ reached x true ext t))
                | inr f ↦ inr (λ ints'.
                    h (Assoc.insert x false reached) ints'
                      (insert-Extends ρ σ reached x false ext f))
              ])

        decided :
            next_var (collect_decision_vars iterate cs []) [] reached ≡ none
            → Known reached (collect_decision_vars iterate cs [])
        decided n x i =
            ground (arith, next_var-none (collect_decision_vars iterate cs []) [] reached x n i)

        go :
            (o : Option String)
            → next_var (collect_decision_vars iterate cs []) [] reached ≡ o
            → Found (elim o as (λ _. Answer) [
              | none ↦ leaf iterate cs [] reached ints
              | some x ↦
                  or_try
                    (search (Assoc.insert x true reached) ints)
                    (search (Assoc.insert x false reached))
            ])
        go none n =
            let (d, u) = clauses-Decided reached iterate order cs [] a fixed (decided n) in
            leaf-Found ρ cs reached ints ext (AllClauses-AllPropositional cs a) d m
        go (some x) n = tried x

    solve_fuel-Found :
        (n : ℕ) (ρ : String → Bool) (cs : List BoolExpr) (env : Assignment) (ints : IntAssignment)
        → AllClauses cs
        → IsModel ρ σ cs
        → Extends ρ env
        → Found (solve_fuel iterate n cs [] env ints)
    unfolding solve_fuel
    solve_fuel-Found zero ρ cs env ints a m ext = tt
    solve_fuel-Found (suc n) ρ cs env ints a m ext =
        search_from-Found ρ cs (solve_fuel iterate n cs []) env (propagate cs [] env) ints a m
          (propagate-Ended cs [] env) (propagate_sound ρ σ cs [] env ext m tt)
          (λ env' ints' ext'. solve_fuel-Found n ρ cs env' ints' a m ext')

    -- Clauses that have a model are not refused.
    pub solve_dpll-Found :
        (ρ : String → Bool) (cs : List BoolExpr) (ints : IntAssignment)
        → AllClauses cs
        → IsModel ρ σ cs
        → Found (solve_dpll iterate cs [] [] ints)
    unfolding solve_dpll Assoc.lookup
    solve_dpll-Found ρ cs ints a m =
        solve_fuel-Found (suc (length (collect_decision_vars iterate cs []))) ρ cs [] ints a m
          (λ x b e. cc)

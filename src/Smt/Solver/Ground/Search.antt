-- ===== src/Smt/Solver/Ground/Search.antt =====
-- crates/causm-smt/src/oxiz/solver.rs: `solve_dpll` on comparisons of integer literals, which leave it
-- nothing to decide.
use causm.Prelude.{
  ◌≡◌, refl, sym, ap, ◌∙◌, Bool, true, false, Option, some, none, String, List, [], ◌∷◌,
  if◌then◌else◌, length,
}
use causm.Prelude.Assoc
use causm.Smt.Ast.{BoolExpr, int_cmp}
use causm.Smt.Names.{member, In-head}
use causm.Smt.Eval.{Assignment, IntAssignment, IntConstraint}
use causm.Smt.Propagate.{propagate}
use causm.Smt.Bounds.{
  Bounds, no_bounds, solve_int_constraints, assign_lower, assign_upper, assign_equalities, keys,
}
use causm.Smt.Dpll.{
  Answer, sat, unsat, collect_constraints, no_vars, Vars, all_bool_vars, set_defaults,
  collect_decision_vars, next_var, solve_ints, finish, leaf, search_from, solve_fuel, solve_dpll,
  or_try,
}
use causm.Smt.Dpll.Clauses.{IsOrder}
use causm.Smt.Solver.Ground.Readable.{
  AllReadable, all_compare, gathered, propagate-AllReadable, collect_constraints-AllReadable,
  verify_all-AllReadable, read_constraints-AllReadable,
}

module _ (iterate : List String → List String) (order : IsOrder iterate) where
  iterate-nil : iterate [] ≡ []
  iterate-nil = go (iterate []) refl
    where
      go : (xs : List String) → iterate [] ≡ xs → xs ≡ []
      go [] e = refl
      go (x ∷ xs) e = cc (sym (order [] x) ∙ ap (λ ys. member ys x) e, In-head x xs)

  abbrev settled : Option Bounds → Bool × IntAssignment
  settled o = elim o as (λ _. Bool × IntAssignment) [
    | none ↦ (false, [])
    | some bounds ↦
        let (ok, ints') = assign_lower (iterate (keys bounds.lower)) bounds [] in
        if ok
        then (
          true,
          assign_equalities bounds.equalities []
              (assign_upper (iterate (keys bounds.upper)) bounds ints'),
        )
        else (false, ints')
  ]

  settled-no_bounds : (c : Bool) → settled (if c then some no_bounds else none) ≡ (c, [])
  unfolding assign_lower assign_upper assign_equalities
  settled-no_bounds true = rw iterate-nil refl
  settled-no_bounds false = refl

  solve_int_constraints-AllReadable :
      (cs : List BoolExpr)
      → AllReadable cs
      → solve_int_constraints iterate (gathered cs) [] [] ≡ (all_compare cs, [])
  unfolding solve_int_constraints
  solve_int_constraints-AllReadable cs h =
      ap settled (read_constraints-AllReadable cs [] no_bounds h)
      ∙ settled-no_bounds (all_compare cs)

  solve_ints-AllReadable :
      (cs : List BoolExpr)
      → AllReadable cs
      → solve_ints iterate (gathered cs) [] [] ≡ (if all_compare cs then sat [] [] else unsat [])
  unfolding solve_ints
  solve_ints-AllReadable cs h =
      ap (λ (r : Bool × IntAssignment). if r.0 then sat [] r.1 else unsat r.1)
        (solve_int_constraints-AllReadable cs h)

  leaf-AllReadable :
      (cs : List BoolExpr)
      → AllReadable cs
      → leaf iterate cs [] [] [] ≡ (if all_compare cs then sat [] [] else unsat [])
  unfolding leaf all_bool_vars finish set_defaults
  leaf-AllReadable cs h =
      let names : List String = (collect_constraints cs no_vars).0 in
      ap (λ xs. finish iterate cs [] (propagate cs [] (set_defaults (iterate xs) [] [])))
        (ap (λ (vs : Vars). vs.0) (collect_constraints-AllReadable cs no_vars h))
      ∙ ap (λ xs. finish iterate cs [] (propagate cs [] (set_defaults xs [] []))) iterate-nil
      ∙ ap (finish iterate cs []) (propagate-AllReadable cs [] h)
      ∙ ap found (verify_all-AllReadable cs [] h)
      ∙ solve_ints-AllReadable cs h
    where
      found : Option (List IntConstraint) → Answer
      found o = elim o [ none ↦ unsat [] | some ints ↦ solve_ints iterate ints [] [] ]

  collect_decision_vars-AllReadable :
      (cs : List BoolExpr) (out : List String)
      → AllReadable cs
      → collect_decision_vars iterate cs out ≡ out
  unfolding collect_decision_vars
  collect_decision_vars-AllReadable [] out h = refl
  collect_decision_vars-AllReadable (int_cmp op a b ∷ cs) out (h, h') =
      collect_decision_vars-AllReadable cs out h'
  collect_decision_vars-AllReadable (_ ∷ cs) out (h, h') = cc

  pub solve_dpll-AllReadable :
      (cs : List BoolExpr)
      → AllReadable cs
      → solve_dpll iterate cs [] [] [] ≡ (if all_compare cs then sat [] [] else unsat [])
  unfolding solve_dpll solve_fuel search_from next_var
  solve_dpll-AllReadable cs h =
      ap (λ p. search_from iterate cs [] later p []) (propagate-AllReadable cs [] h)
      ∙ ap decide (collect_decision_vars-AllReadable cs [] h)
      ∙ leaf-AllReadable cs h
    where
      later : Assignment → IntAssignment → Answer
      later = solve_fuel iterate (length (collect_decision_vars iterate cs [])) cs []

      decide : List String → Answer
      decide names = elim (next_var names [] []) [
        | none ↦ leaf iterate cs [] [] []
        | some x ↦ or_try (later (Assoc.insert x true []) []) (later (Assoc.insert x false []))
      ]

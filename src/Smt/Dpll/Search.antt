-- ===== src/Smt/Dpll/Search.antt =====
-- crates/causm-smt/src/oxiz/solver.rs: the search of `solve_dpll` comes to an end, and what it
-- accepts was tested.
use causm.Prelude.{
  ℕ, zero, suc, ◌≤◌, ◌<◌, ◌≡◌, refl, subst, Bool, true, false, ◌&&◌, not, ◌||◌, inl, inr,
  Bool-cases, Option, some, none, String, str_eq, eq_iff, List, [], ◌∷◌, length, if◌then◌else◌,
  arith,
}
use causm.Prelude.Assoc
use causm.Prelude.Assoc.{lookup-insert}
use causm.Smt.Ast.{BoolExpr}
use causm.Smt.Names.{In}
use causm.Smt.Eval.{Assignment, IntAssignment, IntConstraint}
use causm.Smt.Propagate.{
  Definitions, contains_key, Propagated, refuted, out_of_fuel, stable, propagate,
}
use causm.Smt.Propagate.Grows.{missing, missing-le, missing-insert_lt}
use causm.Smt.Propagate.Ends.{Keeps, Ended, propagate-Ended}
use causm.Smt.Bounds.{solve_int_constraints}
use causm.Smt.Dpll.{
  Answer, sat, unsat, no_fuel, or_try, next_var, is_defined, set_defaults, verify_all,
  collect_decision_vars, all_bool_vars, solve_ints, finish, leaf, search_from, solve_fuel,
  solve_dpll,
}

-- a name with a value keeps it
pub contains_key-Keeps :
    (env env' : Assignment) (x : String)
    → Keeps env env'
    → contains_key x env ≡ true
    → contains_key x env' ≡ true
contains_key-Keeps env env' x k h = go (Assoc.lookup x env) refl h
  where
    go :
        (o : Option Bool)
        → Assoc.lookup x env ≡ o
        → elim o as (λ _. Bool) [ none ↦ false | some _ ↦ true ] ≡ true
        → contains_key x env' ≡ true
    go none e h' = cc
    go (some b) e h' = rw (contains_key, k x b e) refl

missing-Keeps :
    (names : List String) (env env' : Assignment)
    → Keeps env env'
    → missing names env' ≤ missing names env
missing-Keeps [] env env' k = omega arith
missing-Keeps (x ∷ xs) env env' k =
    ground (arith, contains_key-Keeps env env' x k, missing-Keeps xs env env' k)

-- the name that is decided on is one of the list, and has no value
next_var-found :
    (names : List String) (ds : Definitions) (env : Assignment) (x : String)
    → next_var names ds env ≡ some x
    → In x names × (contains_key x env ≡ false)
unfolding next_var
next_var-found [] ds env x h = cc
next_var-found (y ∷ ys) ds env x h =
    go (not (contains_key y env) && not (is_defined ds y)) refl h (next_var-found ys ds env x)
  where
    go :
        (b : Bool)
        → not (contains_key y env) && not (is_defined ds y) ≡ b
        → (if b then some y else next_var ys ds env) ≡ some x
        → (next_var ys ds env ≡ some x → In x ys × (contains_key x env ≡ false))
        → In x (y ∷ ys) × (contains_key x env ≡ false)
    go true e q f =
        let same : y ≡ x = cc in
        (
          ground (arith, eq_iff y x, same),
          subst (λ z. contains_key z env ≡ false) same (ground arith),
        )
    go false e q f = let (i, k) = f q in (ground arith, k)

-- where nothing is left to decide, every name has a value or a definition
pub next_var-none :
    (names : List String) (ds : Definitions) (env : Assignment) (x : String)
    → next_var names ds env ≡ none
    → In x names
    → contains_key x env || is_defined ds x ≡ true
unfolding next_var
next_var-none [] ds env x h i = cc
next_var-none (y ∷ ys) ds env x h i =
    go (not (contains_key y env) && not (is_defined ds y)) refl h (next_var-none ys ds env x)
  where
    go :
        (b : Bool)
        → not (contains_key y env) && not (is_defined ds y) ≡ b
        → (if b then some y else next_var ys ds env) ≡ none
        → (next_var ys ds env ≡ none → In x ys → contains_key x env || is_defined ds x ≡ true)
        → contains_key x env || is_defined ds x ≡ true
    go true e q f = cc
    go false e q f = elim (Bool-cases (str_eq y x)) [
      | inl s ↦ subst (λ z. contains_key z env || is_defined ds z ≡ true) (same s) (ground arith)
      | inr s ↦ f q (ground arith)
    ]
      where
        same : str_eq y x ≡ true → y ≡ x
        same s = ground (arith, eq_iff y x)

absent : (x : String) (env : Assignment) → contains_key x env ≡ false → Assoc.lookup x env ≡ none
absent x env = go (Assoc.lookup x env)
  where
    go :
        (o : Option Bool)
        → elim o as (λ _. Bool) [ none ↦ false | some _ ↦ true ] ≡ false
        → o ≡ none
    go none k = refl
    go (some v) k = cc

module _ (iterate : List String → List String) where
  -- an assignment under which every constraint evaluates to true, with values for the comparisons
  -- that were met
  abbrev pub Verified : List BoolExpr → Answer → Type 0
  Verified cs (sat env ints) =
      (found : List IntConstraint) × (start : IntAssignment) × (verify_all cs env [] ≡ some found)
      × (solve_int_constraints iterate found env start ≡ (true, ints))
  Verified cs (unsat ints) = Unit {0}
  Verified cs no_fuel = true ≡ false

  solve_ints-Verified :
      (cs : List BoolExpr) (found : List IntConstraint) (env : Assignment) (ints : IntAssignment)
      → verify_all cs env [] ≡ some found
      → Verified cs (solve_ints iterate found env ints)
  unfolding solve_ints
  solve_ints-Verified cs found env ints e = go (solve_int_constraints iterate found env ints) refl
    where
      go :
          (r : Bool × IntAssignment)
          → solve_int_constraints iterate found env ints ≡ r
          → Verified cs (if r.0 then sat env r.1 else unsat r.1)
      go (true, ints') q = (found, ints, e, q)
      go (false, ints') q = tt

  finish-Verified :
      (cs : List BoolExpr) (ds : Definitions) (env : Assignment) (ints : IntAssignment)
      (p : Propagated)
      → Ended cs ds env p
      → Verified cs (finish iterate cs ints p)
  unfolding finish
  finish-Verified cs ds env ints refuted e = tt
  finish-Verified cs ds env ints out_of_fuel e = e
  finish-Verified cs ds env ints (stable env') e = go (verify_all cs env' []) refl
    where
      go :
          (o : Option (List IntConstraint))
          → verify_all cs env' [] ≡ o
          → Verified cs (elim o as (λ _. Answer) [
            | none ↦ unsat ints
            | some found ↦ solve_ints iterate found env' ints
          ])
      go none q = tt
      go (some found) q = solve_ints-Verified cs found env' ints q

  leaf-Verified :
      (cs : List BoolExpr) (ds : Definitions) (env : Assignment) (ints : IntAssignment)
      → Verified cs (leaf iterate cs ds env ints)
  unfolding leaf
  leaf-Verified cs ds env ints =
      let env' : Assignment = set_defaults (all_bool_vars iterate cs ds) ds env in
      finish-Verified cs ds env' ints (propagate cs ds env') (propagate-Ended cs ds env')

  or_try-Verified :
      (cs : List BoolExpr) (a : Answer) (next : IntAssignment → Answer)
      → Verified cs a
      → ((ints : IntAssignment) → Verified cs (next ints))
      → Verified cs (or_try a next)
  or_try-Verified cs (sat env ints) next v h = v
  or_try-Verified cs (unsat ints) next v h = h ints
  or_try-Verified cs no_fuel next v h = v

  search_from-Verified :
      (cs : List BoolExpr) (ds : Definitions) (search : Assignment → IntAssignment → Answer)
      (env : Assignment) (p : Propagated) (ints : IntAssignment)
      → Ended cs ds env p
      → ((env' : Assignment) (ints' : IntAssignment)
          → missing (collect_decision_vars iterate cs []) env'
            < missing (collect_decision_vars iterate cs []) env
          → Verified cs (search env' ints'))
      → Verified cs (search_from iterate cs ds search p ints)
  unfolding search_from
  search_from-Verified cs ds search env refuted ints e h = tt
  search_from-Verified cs ds search env out_of_fuel ints e h = e
  search_from-Verified cs ds search env (stable env') ints (k, e) h =
      go (next_var (collect_decision_vars iterate cs []) ds env') refl
    where
      fewer :
          (x : String) (v : Bool)
          → next_var (collect_decision_vars iterate cs []) ds env' ≡ some x
          → missing (collect_decision_vars iterate cs []) (Assoc.insert x v env')
            < missing (collect_decision_vars iterate cs []) env
      fewer x v q =
          let names : List String = collect_decision_vars iterate cs [] in
          let (i, n) = next_var-found names ds env' x q in
          omega (
            arith,
            missing-insert_lt names x v env' i (absent x env' n),
            missing-Keeps names env env' k,
          )

      go :
          (o : Option String)
          → next_var (collect_decision_vars iterate cs []) ds env' ≡ o
          → Verified cs (elim o as (λ _. Answer) [
            | none ↦ leaf iterate cs ds env' ints
            | some x ↦
                or_try (search (Assoc.insert x true env') ints) (search (Assoc.insert x false env'))
          ])
      go none q = leaf-Verified cs ds env' ints
      go (some x) q =
          or_try-Verified cs (search (Assoc.insert x true env') ints)
            (search (Assoc.insert x false env'))
            (h (Assoc.insert x true env') ints (fewer x true q))
            (λ ints'. h (Assoc.insert x false env') ints' (fewer x false q))

  solve_fuel-Verified :
      (n : ℕ) (cs : List BoolExpr) (ds : Definitions) (env : Assignment) (ints : IntAssignment)
      → missing (collect_decision_vars iterate cs []) env < n
      → Verified cs (solve_fuel iterate n cs ds env ints)
  unfolding solve_fuel
  solve_fuel-Verified zero cs ds env ints lt = ground arith
  solve_fuel-Verified (suc n) cs ds env ints lt =
      search_from-Verified cs ds (solve_fuel iterate n cs ds) env (propagate cs ds env) ints
        (propagate-Ended cs ds env)
        (λ env' ints' lt'. solve_fuel-Verified n cs ds env' ints' (omega arith))

  -- `solve_dpll` terminates, and every constraint was evaluated to true under the assignment that
  -- it accepts, and the comparisons met there were given to `solve_int_constraints` with success.
  pub solve_dpll-Verified :
      (cs : List BoolExpr) (ds : Definitions) (env : Assignment) (ints : IntAssignment)
      → Verified cs (solve_dpll iterate cs ds env ints)
  unfolding solve_dpll
  solve_dpll-Verified cs ds env ints =
      let names : List String = collect_decision_vars iterate cs [] in
      solve_fuel-Verified (suc (length names)) cs ds env ints (omega (arith, missing-le names env))

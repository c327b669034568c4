-- ===== src/Smt/Dpll/Clauses.antt =====
-- crates/causm-smt/src/oxiz/solver.rs: for clauses, a fixed point of `propagate` at which no
-- decision is left gives every unknown a value.
use causm.Prelude.{
  ◌≡◌, refl, sym, ap, ◌∙◌, Bool, true, false, not, eq_iff, Option, some, none, String, List, [],
  ◌∷◌, if◌then◌else◌, arith,
}
use causm.Prelude.Assoc
use causm.Smt.Ast.{BoolExpr, lit, var, and, or, ite, implies, int_cmp, Bools, no_bools, bool}
use causm.Smt.Names.{member, In, member-include, member-include_all}
use causm.Smt.Eval.{Assignment}
use causm.Smt.Eval.Exact.{IsPropositional, ArePropositional, Decided, AllDecided}
use causm.Smt.Propagate.{
  Progress, contains_key, force, propagate_literal, propagate_constraint, propagate_constraints,
  constraint_names,
}
use causm.Smt.Propagate.Grows.{GrewTo, propagate_constraints-GrewTo}
use causm.Smt.Dpll.{
  Vars, no_vars, collect_vars, collect_each, decide_on, decide_on_each, decide_on_constraint,
  collect_decision_vars,
}

-- a truth value, an unknown, a negated unknown, or a disjunction without comparisons
abbrev pub IsClause : BoolExpr → Type 0
IsClause (lit b) = Unit {0}
IsClause (var x) = Unit {0}
IsClause (BoolExpr.not (var x)) = Unit {0}
IsClause (or args) = ArePropositional args
IsClause e = true ≡ false

abbrev pub AllClauses : List BoolExpr → Type 0
AllClauses [] = Unit {0}
AllClauses (c ∷ cs) = IsClause c × AllClauses cs

-- the names have values
abbrev pub Known : Assignment → List String → Type 0
Known env names = (x : String) → In x names → contains_key x env ≡ true

-- a hash set is gone through in some order of its members
abbrev pub IsOrder : (List String → List String) → Type 0
IsOrder iterate = (xs : List String) (x : String) → member (iterate xs) x ≡ member xs x

has_value :
    (x : String) (env : Assignment)
    → contains_key x env ≡ true
    → (b : Bool) × (Assoc.lookup x env ≡ some b)
has_value x env = go (Assoc.lookup x env) refl
  where
    go :
        (o : Option Bool)
        → Assoc.lookup x env ≡ o
        → elim o as (λ _. Bool) [ none ↦ false | some _ ↦ true ] ≡ true
        → (b : Bool) × (Assoc.lookup x env ≡ some b)
    go none e h = cc
    go (some b) e h = (b, e)

module _ (env : Assignment) where
  -- a formula whose unknowns are all known
  mutual
    unfolding collect_vars

    vars-Decided :
        (e : BoolExpr) (vs : Vars)
        → IsPropositional e
        → Known env (collect_vars e vs).0
        → Decided env e × Known env vs.0
    vars-Decided (lit b) vs p k = (tt, k)
    vars-Decided (var x) (bools, ints) p k = (
      has_value x env (k x (ground (arith, member-include x bools x, eq_iff x x))),
      λ y i. k y (ground (arith, member-include x bools y)),
    )
    vars-Decided (BoolExpr.not a) vs p k = vars-Decided a vs p k
    vars-Decided (and args) vs p k = each-Decided args vs p k
    vars-Decided (or args) vs p k = each-Decided args vs p k
    vars-Decided (ite c t e) vs (p, q, r) k =
        let (de, ke) = vars-Decided e (collect_vars t (collect_vars c vs)) r k in
        let (dt, kt) = vars-Decided t (collect_vars c vs) q ke in
        let (dc, kc) = vars-Decided c vs p kt in ((dc, dt, de), kc)
    vars-Decided (BoolExpr.eq a b) vs (p, q) k =
        let (db, kb) = vars-Decided b (collect_vars a vs) q k in
        let (da, ka) = vars-Decided a vs p kb in ((da, db), ka)
    vars-Decided (implies a b) vs (p, q) k =
        let (db, kb) = vars-Decided b (collect_vars a vs) q k in
        let (da, ka) = vars-Decided a vs p kb in ((da, db), ka)
    vars-Decided (int_cmp op a b) vs p k = cc

    each-Decided :
        (args : Bools) (vs : Vars)
        → ArePropositional args
        → Known env (collect_each args vs).0
        → AllDecided env args × Known env vs.0
    each-Decided no_bools vs p k = (tt, k)
    each-Decided (bool a args) vs (p, q) k =
        let (ds, ks) = each-Decided args (collect_vars a vs) q k in
        let (d, ka) = vars-Decided a vs p ks in ((d, ds), ka)

  module _ (iterate : List String → List String) (order : IsOrder iterate) where
    decide_on-Decided :
        (e : BoolExpr) (out : List String)
        → IsPropositional e
        → Known env (decide_on iterate e out)
        → Decided env e × Known env out
    unfolding decide_on
    decide_on-Decided e out p k =
        let vars : List String = (collect_vars e no_vars).0 in
        let (d, u) =
          vars-Decided e no_vars p
            (λ x i. k x (ground (arith, member-include_all (iterate vars) out x, order vars x))) in
        (d, λ x i. k x (ground (arith, member-include_all (iterate vars) out x)))

    decide_on_each-Decided :
        (args : Bools) (out : List String)
        → ArePropositional args
        → Known env (decide_on_each iterate args out)
        → AllDecided env args × Known env out
    unfolding decide_on_each
    decide_on_each-Decided no_bools out p k = (tt, k)
    decide_on_each-Decided (bool a args) out (p, q) k =
        let (ds, ks) = decide_on_each-Decided args (decide_on iterate a out) q k in
        let (d, ka) = decide_on-Decided a out p ks in ((d, ds), ka)

    force-known :
        (x : String) (v : Bool)
        → force x v (env, false) ≡ some (env, false)
        → contains_key x env ≡ true
    unfolding force
    force-known x v = go (Assoc.lookup x env)
      where
        go :
            (o : Option Bool)
            → elim o as (λ _. Option Progress) [
              | none ↦ some (Assoc.insert x v env, true)
              | some w ↦ if (if v then w else not w) then some (env, false) else none
            ]
              ≡ some (env, false)
            → elim o as (λ _. Bool) [ none ↦ false | some _ ↦ true ] ≡ true
        go none h = cc
        go (some w) h = refl

    -- a clause that propagation leaves as it is
    clause-Decided :
        (c : BoolExpr) (out : List String)
        → IsClause c
        → propagate_constraint c (env, false) ≡ some (env, false)
        → Known env (decide_on_constraint iterate c out)
        → Decided env c × Known env out
    unfolding propagate_constraint propagate_literal decide_on_constraint
    clause-Decided (lit b) out p h k = (tt, k)
    clause-Decided (var x) out p h k = (has_value x env (force-known x true h), k)
    clause-Decided (BoolExpr.not (var x)) out p h k = (has_value x env (force-known x false h), k)
    clause-Decided (or args) out p h k = decide_on_each-Decided args out p k
    clause-Decided e out p h k = cc

  abbrev pub AreDecided : List BoolExpr → Type 0
  AreDecided [] = Unit {0}
  AreDecided (c ∷ cs) = Decided env c × AreDecided cs

  -- a fixed point of the constraints is one of each of them
  quiet_step :
      (c : BoolExpr) (cs : List BoolExpr)
      → propagate_constraints (c ∷ cs) (env, false) ≡ some (env, false)
      → (propagate_constraint c (env, false) ≡ some (env, false))
        × (propagate_constraints cs (env, false) ≡ some (env, false))
  unfolding propagate_constraints
  quiet_step c cs = go (propagate_constraint c (env, false))
    where
      through :
          (r : Progress) (o : Option Progress)
          → o ≡ some (env, false)
          → GrewTo (constraint_names cs) r o
          → r ≡ (env, false)
      through r none e g = cc
      through r (some t) e g =
          let at : t ≡ (env, false) = cc in sym (g.quiet (ap (λ (q : Progress). q.1) at)) ∙ at

      go :
          (o : Option Progress)
          → elim o as (λ _. Option Progress) [ none ↦ none | some r ↦ propagate_constraints cs r ]
            ≡ some (env, false)
          → (o ≡ some (env, false)) × (propagate_constraints cs (env, false) ≡ some (env, false))
      go none h = cc
      go (some r) h =
          let same : r ≡ (env, false) =
            through r (propagate_constraints cs r) h
              (propagate_constraints-GrewTo (constraint_names cs) cs r (λ x i. i)) in
          (ap some same, ap (propagate_constraints cs) (sym same) ∙ h)

  module _ (iterate : List String → List String) (order : IsOrder iterate) where
    -- A fixed point of the constraints that gives every decision variable a value decides them all.
    pub clauses-Decided :
        (cs : List BoolExpr) (out : List String)
        → AllClauses cs
        → propagate_constraints cs (env, false) ≡ some (env, false)
        → Known env (collect_decision_vars iterate cs out)
        → AreDecided cs × Known env out
    unfolding collect_decision_vars
    clauses-Decided [] out p h k = (tt, k)
    clauses-Decided (c ∷ cs) out (p, q) h k =
        let (hc, hcs) = quiet_step c cs h in
        let (ds, ks) = clauses-Decided cs (decide_on_constraint iterate c out) q hcs k in
        let (d, kout) = clause-Decided iterate order c out p hc ks in ((d, ds), kout)

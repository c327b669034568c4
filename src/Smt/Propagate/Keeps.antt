-- ===== src/Smt/Propagate/Keeps.antt =====
-- crates/causm-smt/src/oxiz/solver.rs: `propagate` loses no model.
use causm.Prelude.{
  ℕ, zero, suc, ◌≡◌, refl, sym, subst, ◌∙◌, Bool, true, false, not, inl, inr, Bool-cases, Option,
  some, none, String, str_eq, eq_iff, List, [], ◌∷◌, ◌++◌, length, if◌then◌else◌, arith,
}
use causm.Prelude.Assoc
use causm.Prelude.Assoc.{lookup-insert}
use causm.Smt.Ast.{BoolExpr, var, implies}
use causm.Smt.Ast.Meaning.{holds}
use causm.Smt.Eval.{Assignment, eval_bool_partial}
use causm.Smt.Eval.Partial.{Extends, eval_bool_partial_sound}
use causm.Smt.Propagate.Ends.{Ended, propagate-Ended}
use causm.Smt.Propagate.{
  Definitions, Progress, contains_key, force, fail_if_false, propagate_literal, propagate_backward,
  propagate_implies, propagate_constraint, propagate_constraints, define, propagate_definition,
  propagate_definitions, round, Propagated, refuted, out_of_fuel, stable, again, propagate_fuel,
  propagate, defined_names, constraint_names,
}

module _ (ρ : String → Bool) (σ : String → ℕ) where
  -- the values satisfy every constraint, and every name has the value of its definition
  abbrev pub IsModel : List BoolExpr → Type 0
  IsModel [] = Unit {0}
  IsModel (c ∷ cs) = (holds ρ σ c ≡ true) × IsModel cs

  abbrev pub Defines : Definitions → Type 0
  Defines [] = Unit {0}
  Defines ((x, e) ∷ ds) = (ρ x ≡ holds ρ σ e) × Defines ds

  -- a step did not refute, and the assignment has values of the model
  abbrev pub Follows : Option Progress → Type 0
  Follows none = true ≡ false
  Follows (some r) = Extends ρ r.0

  pub insert-Extends :
      (env : Assignment) (x : String) (v : Bool)
      → Extends ρ env
      → ρ x ≡ v
      → Extends ρ (Assoc.insert x v env)
  insert-Extends env x v ext q y b h = elim (Bool-cases (str_eq x y)) [
    | inl e ↦ subst (λ z. ρ z ≡ b) (same_name e) (q ∙ ground (arith, lookup-insert x y v env))
    | inr e ↦ ext y b (ground (arith, lookup-insert x y v env))
  ]
    where
      same_name : str_eq x y ≡ true → x ≡ y
      same_name e = ground (arith, eq_iff x y)

  force-Follows :
      (x : String) (v : Bool) (r : Progress) → Extends ρ r.0 → ρ x ≡ v → Follows (force x v r)
  unfolding force
  force-Follows x v (env, changed) ext q = go (Assoc.lookup x env) refl
    where
      agreed :
          (w b : Bool)
          → w ≡ b
          → Follows (if (if b then w else not w) then some (env, changed) else none)
      agreed true true e = ext
      agreed false false e = ext
      agreed _ _ e = cc

      go :
          (o : Option Bool)
          → Assoc.lookup x env ≡ o
          → Follows (elim o as (λ _. Option Progress) [
            | none ↦ some (Assoc.insert x v env, true)
            | some w ↦ if (if v then w else not w) then some (env, changed) else none
          ])
      go none e = insert-Extends env x v ext q
      go (some w) e = agreed w v (sym (ext x w e) ∙ q)

  then-Follows :
      (o : Option Progress) (f : Progress → Option Progress)
      → Follows o
      → ((r : Progress) → Extends ρ r.0 → Follows (f r))
      → Follows (elim o as (λ _. Option Progress) [ none ↦ none | some r ↦ f r ])
  then-Follows none f g h = g
  then-Follows (some r) f g h = h r g

  fail_if_false-Follows :
      (o : Option Bool) (r : Progress)
      → Extends ρ r.0
      → ((b : Bool) → o ≡ some b → true ≡ b)
      → Follows (fail_if_false o r)
  fail_if_false-Follows none r ext h = ext
  fail_if_false-Follows (some true) r ext h = ext
  fail_if_false-Follows (some false) r ext h = h false refl

  propagate_literal-Follows :
      (c : BoolExpr) (r : Progress)
      → Extends ρ r.0
      → holds ρ σ c ≡ true
      → Follows (propagate_literal c r)
  unfolding propagate_literal holds
  propagate_literal-Follows (var x) r ext h = force-Follows x true r ext h
  propagate_literal-Follows (BoolExpr.not (var x)) r ext h =
      force-Follows x false r ext (ground arith)
  propagate_literal-Follows c r ext h =
      fail_if_false-Follows (eval_bool_partial c r.0) r ext
        (λ b e. sym h ∙ eval_bool_partial_sound ρ σ r.0 ext c b e)

  propagate_backward-Follows :
      (ant : BoolExpr) (o : Option Bool) (r : Progress)
      → Extends ρ r.0
      → (o ≡ some false → holds ρ σ ant ≡ false)
      → Follows (propagate_backward ant o r)
  unfolding propagate_backward holds
  propagate_backward-Follows (var x) (some false) r ext h = force-Follows x false r ext (h refl)
  propagate_backward-Follows ant o r ext h = ext

  propagate_implies-Follows :
      (o : Option Bool) (ant cons : BoolExpr) (r : Progress)
      → Extends ρ r.0
      → eval_bool_partial ant r.0 ≡ o
      → holds ρ σ (implies ant cons) ≡ true
      → Follows (propagate_implies o ant cons r)
  unfolding propagate_implies holds
  propagate_implies-Follows (some true) ant cons r ext e h =
      let a : holds ρ σ ant ≡ true = eval_bool_partial_sound ρ σ r.0 ext ant true e in
      propagate_literal-Follows cons r ext (ground arith)
  propagate_implies-Follows (some false) ant cons r ext e h = ext
  propagate_implies-Follows none ant cons r ext e h =
      propagate_backward-Follows ant (eval_bool_partial cons r.0) r ext (λ e'.
        let c : holds ρ σ cons ≡ false = eval_bool_partial_sound ρ σ r.0 ext cons false e' in
        ground arith)

  propagate_constraint-Follows :
      (c : BoolExpr) (r : Progress)
      → Extends ρ r.0
      → holds ρ σ c ≡ true
      → Follows (propagate_constraint c r)
  unfolding propagate_constraint
  propagate_constraint-Follows (implies a b) r ext h =
      propagate_implies-Follows (eval_bool_partial a r.0) a b r ext refl h
  propagate_constraint-Follows c r ext h = propagate_literal-Follows c r ext h

  propagate_constraints-Follows :
      (cs : List BoolExpr) (r : Progress)
      → Extends ρ r.0
      → IsModel cs
      → Follows (propagate_constraints cs r)
  unfolding propagate_constraints
  propagate_constraints-Follows [] r ext m = ext
  propagate_constraints-Follows (c ∷ cs) r ext (h, m) =
      then-Follows (propagate_constraint c r) (propagate_constraints cs)
        (propagate_constraint-Follows c r ext h) (λ r' f. propagate_constraints-Follows cs r' f m)

  define-Extends :
      (x : String) (o : Option Bool) (r : Progress)
      → Extends ρ r.0
      → ((b : Bool) → o ≡ some b → ρ x ≡ b)
      → Extends ρ (define x o r).0
  define-Extends x none r ext h = ext
  define-Extends x (some v) r ext h = insert-Extends r.0 x v ext (h v refl)

  propagate_definition-Extends :
      (x : String) (e : BoolExpr) (r : Progress)
      → Extends ρ r.0
      → ρ x ≡ holds ρ σ e
      → Extends ρ (propagate_definition (x, e) r).0
  unfolding propagate_definition
  propagate_definition-Extends x e r ext q = elim (Bool-cases (contains_key x r.0)) [
    | inl k ↦ rw k ext
    | inr k ↦ rw k (
        define-Extends x (eval_bool_partial e r.0) r ext
          (λ b h. q ∙ eval_bool_partial_sound ρ σ r.0 ext e b h))
  ]

  propagate_definitions-Extends :
      (ds : Definitions) (r : Progress)
      → Extends ρ r.0
      → Defines ds
      → Extends ρ (propagate_definitions ds r).0
  unfolding propagate_definitions
  propagate_definitions-Extends [] r ext d = ext
  propagate_definitions-Extends ((x, e) ∷ ds) r ext (q, d) =
      propagate_definitions-Extends ds (propagate_definition (x, e) r)
        (propagate_definition-Extends x e r ext q) d

  round-Follows :
      (cs : List BoolExpr) (ds : Definitions) (env : Assignment)
      → Extends ρ env
      → IsModel cs
      → Defines ds
      → Follows (round cs ds env)
  unfolding round
  round-Follows cs ds env ext m d =
      propagate_constraints-Follows cs (propagate_definitions ds (env, false))
        (propagate_definitions-Extends ds (env, false) ext d) m

  -- how the loop ends where there is a model
  abbrev pub StaysWith : Propagated → Type 0
  StaysWith refuted = true ≡ false
  StaysWith out_of_fuel = Unit {0}
  StaysWith (stable env) = Extends ρ env

  again-StaysWith :
      (o : Option Progress) (next : Assignment → Propagated)
      → Follows o
      → ((env : Assignment) → Extends ρ env → StaysWith (next env))
      → StaysWith (again o next)
  again-StaysWith none next f h = f
  again-StaysWith (some (env, true)) next f h = h env f
  again-StaysWith (some (env, false)) next f h = f

  propagate_fuel-StaysWith :
      (n : ℕ) (cs : List BoolExpr) (ds : Definitions) (env : Assignment)
      → Extends ρ env
      → IsModel cs
      → Defines ds
      → StaysWith (propagate_fuel n cs ds env)
  unfolding propagate_fuel
  propagate_fuel-StaysWith zero cs ds env ext m d = tt
  propagate_fuel-StaysWith (suc n) cs ds env ext m d =
      again-StaysWith (round cs ds env) (propagate_fuel n cs ds) (round-Follows cs ds env ext m d)
        (λ env' ext'. propagate_fuel-StaysWith n cs ds env' ext' m d)

  -- An assignment that a model extends is not refuted: the loop ends with an assignment that the
  -- model extends too.
  pub propagate_sound :
      (cs : List BoolExpr) (ds : Definitions) (env : Assignment)
      → Extends ρ env
      → IsModel cs
      → Defines ds
      → (env' : Assignment) × (propagate cs ds env ≡ stable env') × Extends ρ env'
  unfolding propagate
  propagate_sound cs ds env ext m d = go (propagate cs ds env) refl (propagate-Ended cs ds env) (
      propagate_fuel-StaysWith (suc (length (defined_names ds ++ constraint_names cs))) cs ds env
        ext m d)
    where
      go :
          (p : Propagated)
          → propagate cs ds env ≡ p
          → Ended cs ds env p
          → StaysWith p
          → (env' : Assignment) × (propagate cs ds env ≡ stable env') × Extends ρ env'
      go refuted q e s = cc
      go out_of_fuel q e s = cc
      go (stable env') q e s = (env', q, s)

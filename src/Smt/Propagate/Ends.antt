-- ===== src/Smt/Propagate/Ends.antt =====
-- crates/causm-smt/src/oxiz/solver.rs: the loop of `propagate` comes to a fixed point of its body.
use causm.Prelude.{
  ℕ, zero, suc, ◌<◌, ◌≡◌, refl, ap, sym, ◌∙◌, Bool, true, false, inl, inr, Option, some, none,
  String, List, ◌++◌, length, arith,
}
use causm.Prelude.Assoc
use causm.Smt.Ast.{BoolExpr}
use causm.Smt.Eval.{Assignment}
use causm.Smt.Propagate.{
  Definitions, Progress, round, Propagated, refuted, out_of_fuel, stable, again, propagate_fuel,
  constraint_names, defined_names, propagate,
}
use causm.Smt.Propagate.Grows.{GrewTo, missing, missing-le, round-GrewTo}

-- the second assignment has the values of the first
abbrev pub Keeps : Assignment → Assignment → Type 0
Keeps env env' =
    (x : String) (b : Bool) → Assoc.lookup x env ≡ some b → Assoc.lookup x env' ≡ some b

-- how the loop ends from `env`: with a refutation, or with an assignment that has the values of
-- `env` and that one more round leaves as it is
abbrev pub Ended : List BoolExpr → Definitions → Assignment → Propagated → Type 0
Ended cs ds env refuted = Unit {0}
Ended cs ds env out_of_fuel = true ≡ false
Ended cs ds env (stable env') = Keeps env env' × (round cs ds env' ≡ some (env', false))

module _ (cs : List BoolExpr) (ds : Definitions) where
  Ended-from :
      (env env' : Assignment) (p : Propagated)
      → Keeps env env'
      → Ended cs ds env' p
      → Ended cs ds env p
  Ended-from env env' refuted k e = tt
  Ended-from env env' out_of_fuel k e = e
  Ended-from env env' (stable env'') k (k', q) = (λ x b h. k' x b (k x b h), q)

  again-Ended :
      (env : Assignment) (o : Option Progress) (next : Assignment → Propagated)
      → round cs ds env ≡ o
      → GrewTo (defined_names ds ++ constraint_names cs) (env, false) o
      → ((env' : Assignment)
          → missing (defined_names ds ++ constraint_names cs) env'
            < missing (defined_names ds ++ constraint_names cs) env
          → Ended cs ds env' (next env'))
      → Ended cs ds env (again o next)
  again-Ended env none next q g h = tt
  again-Ended env (some (env', true)) next q g h =
      Ended-from env env' (next env') g.kept
        (h env' (elim (g.raised refl) [ inl e ↦ cc | inr lt ↦ lt ]))
  again-Ended env (some (env', false)) next q g h =
      let same : (env', false) ≡ (env, false) = g.quiet refl in
      let at : env ≡ env' = sym (ap (λ p. p.0) same) in (g.kept, sym (ap (round cs ds) at) ∙ q)

  propagate_fuel-Ended :
      (n : ℕ) (env : Assignment)
      → missing (defined_names ds ++ constraint_names cs) env < n
      → Ended cs ds env (propagate_fuel n cs ds env)
  unfolding propagate_fuel
  propagate_fuel-Ended zero env lt = ground arith
  propagate_fuel-Ended (suc n) env lt =
      again-Ended env (round cs ds env) (propagate_fuel n cs ds) refl (round-GrewTo cs ds env)
        (λ env' lt'. propagate_fuel-Ended n env' (omega arith))

-- `propagate` terminates: it refutes, or it ends with an assignment that has every value of the one
-- given and on which one more round sets nothing and finds no contradiction.
pub propagate-Ended :
    (cs : List BoolExpr) (ds : Definitions) (env : Assignment)
    → Ended cs ds env (propagate cs ds env)
unfolding propagate
propagate-Ended cs ds env =
    propagate_fuel-Ended cs ds (suc (length (defined_names ds ++ constraint_names cs))) env
      (omega (arith, missing-le (defined_names ds ++ constraint_names cs) env))

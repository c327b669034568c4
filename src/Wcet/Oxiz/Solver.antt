-- ===== src/Wcet/Oxiz/Solver.antt =====
-- crates/causm-smt/src/oxiz/backend.rs: `OxiZBackend` behind the interface, for integer literals
-- and for conditions made of truth values, comparisons of literals and conjunctions.
use causm.Prelude.{
  ◌≡◌, refl, sym, ap, ap₂, ◌∙◌, subst, inl, inr, Bool, true, false, ◌&&◌, Option, some, none,
  String, List, [], ◌∷◌, ◌++◌, length, saturating_add, append_assoc, append-nil, arith,
}
use causm.Smt.Ast.{IntCmpOp, lt, le, gt, ge, BoolExpr, IntExpr, int_lit, no_bools, bool}
use causm.Smt.Ast.Meaning.{holds, value, compare_ints}
use causm.Smt.Build
use causm.Smt.Build.Sound.{simplified-means}
use causm.Smt.Propagate.Keeps.{IsModel}
use causm.Smt.Dpll.Clauses.{IsOrder}
use causm.Smt.Solver.{OxiZSolver, push, assert, check, eval_u64}
use causm.Smt.Solver.Ground.{IsGround, AllGround, Judges, check-Judges}
use causm.Smt.Solver.Sound.{Checked, check-Checked}
use causm.Wcet.Backend.{AllScopes, IsSolver}
use causm.Wcet.Oxiz.{answer, oxiz}
use causm.Wcet.Oxiz.Terms.{
  IsLiteral, Unknowns, compare-IsGround, add-IsLiteral, value-add, and-IsGround,
}
use causm.Wcet.Oxiz.Scopes.{
  Reaches, all_of, pop-Reaches, all_of-AllGround, IsModel-all_of, all_of-IsModel,
}

no_unknowns : Unknowns
no_unknowns = ((λ x. false), (λ x. 0))

and_holds :
    (m : Unknowns) (p q : BoolExpr)
    → holds m.0 m.1 (Build.and (bool p (bool q no_bools))) ≡ holds m.0 m.1 p && holds m.0 m.1 q
unfolding holds
and_holds m p q =
    (simplified-means m.0 m.1 p p p (bool p (bool q no_bools)) (int_lit 0) (int_lit 0)).1
    ∙ ground arith

eval_u64-IsLiteral :
    (m : Unknowns) (t : IntExpr) (s : OxiZSolver)
    → IsLiteral t
    → eval_u64 t s ≡ some (value m.0 m.1 t)
unfolding eval_u64 holds
eval_u64-IsLiteral m (int_lit n) s h = refl
eval_u64-IsLiteral m _ s h = cc

module _ (iterate : List String → List String) (order : IsOrder iterate) where
  answer-Reaches :
      (s : OxiZSolver) (v : List (List BoolExpr)) (o : Option (Bool × OxiZSolver))
      → Checked iterate s o
      → Reaches s v
      → Reaches (answer s o).1 v
  answer-Reaches s v none c r = r
  answer-Reaches s v (some (true, s')) (a, e) (a', e') = (a ∙ a', e ∙ e')
  answer-Reaches s v (some (false, s')) c r = subst (λ (t : OxiZSolver). Reaches t v) (sym c) r

  Judges-sound :
      (s : OxiZSolver) (v : List (List BoolExpr)) (m : Unknowns) (o : Option (Bool × OxiZSolver))
      → Reaches s v
      → Judges iterate m.0 m.1 s o
      → (answer s o).0 ≡ true
      → AllScopes (λ p. holds m.0 m.1 p ≡ true) v
  Judges-sound s v m o (a, e) (inl (i, q)) h =
      IsModel-all_of m.0 m.1 v (subst (IsModel m.0 m.1) a i)
  Judges-sound s v m o (a, e) (inr (i, q)) h = cc (h, ap (λ o'. (answer s o').0) q)

  Judges-complete :
      (s : OxiZSolver) (v : List (List BoolExpr)) (m : Unknowns) (o : Option (Bool × OxiZSolver))
      → Reaches s v
      → Judges iterate m.0 m.1 s o
      → AllScopes (λ p. holds m.0 m.1 p ≡ true) v
      → (answer s o).0 ≡ true
  Judges-complete s v m o (a, e) (inl (i, q)) h = ap (λ o'. (answer s o').0) q
  Judges-complete s v m o (a, e) (inr (i, q)) h =
      cc (i (subst (IsModel m.0 m.1) (sym a) (all_of-IsModel m.0 m.1 v h)))

  judged :
      (s : OxiZSolver) (v : List (List BoolExpr)) (m : Unknowns)
      → Reaches s v
      → AllScopes IsGround v
      → Judges iterate m.0 m.1 s (check iterate s)
  judged s v m (a, e) g =
      check-Judges iterate m.0 m.1 s order (subst AllGround (sym a) (all_of-AllGround v g))

  -- The promises of the interface, where the supported integer terms are literals and the supported
  -- conditions truth values, comparisons of literals and conjunctions; `Choice` is empty, for a
  -- negation or a conditional term is not among them.
  pub oxiz_solver : IsSolver (oxiz iterate)
  unfolding holds IsGround push assert compare_ints
  oxiz_solver = record {
    Model = Unknowns;
    some_model = no_unknowns;
    value = λ m t. value m.0 m.1 t;
    truth = λ m p. holds m.0 m.1 p;
    Supported = IsLiteral;
    SupportedBool = IsGround;
    Choice = true ≡ false;
    plus = saturating_add;
    Reaches = Reaches;
    bool_supported = λ c. tt;
    bool_truth = λ m c. refl;
    and_supported = λ p q g h. and-IsGround (bool p (bool q no_bools)) (g, (h, tt));
    and_truth = and_holds;
    int_supported = λ n. tt;
    int_value = λ m n. refl;
    add_supported = add-IsLiteral;
    add_value = value-add;
    compare_supported = λ s t h h'. (
      compare-IsGround lt s t h h',
      compare-IsGround le s t h h',
      compare-IsGround gt s t h h',
      compare-IsGround ge s t h h',
      compare-IsGround IntCmpOp.eq s t h h',
    );
    compare_truth = λ m s t. (refl, refl, refl, refl, refl);
    not_supported = λ ch p g. cc;
    not_truth = λ m p. (simplified-means m.0 m.1 p p p no_bools (int_lit 0) (int_lit 0)).0;
    ite_supported = λ ch p s t g h h'. cc;
    ite_value = λ m p s t. (simplified-means m.0 m.1 p p p no_bools s t).6;
    new_reaches = (refl, refl);
    reset_reaches = λ s. (refl, refl);
    push_reaches =
        λ s v (a, e). (a ∙ sym (append-nil (all_of v)), ap₂ (λ n ms. n ∷ ms) (ap length a) e);
    assert_reaches =
        λ p s ps v (a, e). (ap (λ es. es ++ p ∷ []) a ∙ append_assoc (all_of v) ps (p ∷ []), e);
    pop_reaches = pop-Reaches;
    check_reaches = λ s v r. answer-Reaches s v (check iterate s) (check-Checked iterate s) r;
    check_sound = λ s v r g h. (
      no_unknowns,
      Judges-sound s v no_unknowns (check iterate s) r (judged s v no_unknowns r g) h,
      (λ t l. eval_u64-IsLiteral no_unknowns t (answer s (check iterate s)).1 l),
    );
    check_complete = λ s v m r g h. Judges-complete s v m (check iterate s) r (judged s v m r g) h;
  }

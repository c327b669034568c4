-- ===== src/Smt/Propagate/Grows.antt =====
-- crates/causm-smt/src/oxiz/solver.rs: a round of `propagate` only adds, and the rounds come to an end.
use causm.Prelude.{
  ℕ, ◌+◌, ◌≤◌, ◌<◌, ◌≡◌, refl, sym, ap, subst, ◌∙◌, Bool, true, false, not, ◌||◌, ◌⊎◌, inl, inr,
  Bool-cases, Option, some, none, String, str_eq, eq_iff, List, [], ◌∷◌, ◌++◌, length,
  if◌then◌else◌, arith,
}
use causm.Prelude.Assoc
use causm.Prelude.Assoc.{lookup-insert}
use causm.Smt.Ast.{BoolExpr, var, implies}
use causm.Smt.Names.{In, Within, Within-append, In-head}
use causm.Smt.Eval.{Assignment, eval_bool_partial}
use causm.Smt.Propagate.{
  Definitions, Progress, contains_key, force, fail_if_false, propagate_literal, propagate_backward,
  propagate_implies, propagate_constraint, propagate_constraints, define, propagate_definition,
  propagate_definitions, round, literal_name, settable, constraint_names, defined_names,
}

-- how many of the names have no value, counted by place
abbrev pub missing : List String → Assignment → ℕ
missing [] env = 0
missing (x ∷ xs) env = (if contains_key x env then 0 else 1) + missing xs env

pub missing-le : (names : List String) (env : Assignment) → missing names env ≤ length names
missing-le [] env = omega arith
missing-le (x ∷ xs) env = ground (arith, missing-le xs env)

pub contains_key-insert :
    (x y : String) (v : Bool) (env : Assignment)
    → contains_key y (Assoc.insert x v env) ≡ str_eq x y || contains_key y env
contains_key-insert x y v env = ground (arith, lookup-insert x y v env)

pub missing-insert :
    (names : List String) (x : String) (v : Bool) (env : Assignment)
    → missing names (Assoc.insert x v env) ≤ missing names env
missing-insert [] x v env = omega arith
missing-insert (y ∷ ys) x v env =
    ground (arith, contains_key-insert x y v env, missing-insert ys x v env)

pub missing-insert_lt :
    (names : List String) (x : String) (v : Bool) (env : Assignment)
    → In x names
    → Assoc.lookup x env ≡ none
    → missing names (Assoc.insert x v env) < missing names env
missing-insert_lt [] x v env i n = ground arith
missing-insert_lt (y ∷ ys) x v env i n = elim (Bool-cases (str_eq y x)) [
  | inl e ↦
      let q : y ≡ x = ground (arith, eq_iff y x) in
      let absent : contains_key y env ≡ false =
        subst (λ z. contains_key z env ≡ false) (sym q) (ground (arith, n)) in
      ground (arith, eq_iff x y, contains_key-insert x y v env, missing-insert ys x v env)
  | inr e ↦
      let i' : In x ys = ground arith in
      ground (arith, contains_key-insert x y v env, missing-insert_lt ys x v env i' n)
]

-- What a part of a round does: values stay, nothing changes without the flag, and the flag is only
-- raised when an unknown got a value.
pub record Grew (names : List String) (r r' : Progress) : Type 0 where
  pub kept : (x : String) (b : Bool) → Assoc.lookup x r.0 ≡ some b → Assoc.lookup x r'.0 ≡ some b
  pub quiet : r'.1 ≡ false → r' ≡ r
  pub fewer : missing names r'.0 ≤ missing names r.0
  pub raised : r'.1 ≡ true → (r.1 ≡ true) ⊎ (missing names r'.0 < missing names r.0)

pub Grew-refl : (names : List String) (r : Progress) → Grew names r r
Grew-refl names r = record {
  kept = λ x b e. e;
  quiet = λ e. refl;
  fewer = omega arith;
  raised = λ e. inl e;
}

pub Grew-trans :
    (names : List String) (r s t : Progress) → Grew names r s → Grew names s t → Grew names r t
Grew-trans names r s t g h = record {
  kept = λ x b e. h.kept x b (g.kept x b e);
  quiet = λ e. let q : t ≡ s = h.quiet e in q ∙ g.quiet (sym (ap (λ p. p.1) q) ∙ e);
  fewer = omega (arith, g.fewer, h.fewer);
  raised = λ e. elim (h.raised e) [
    | inl e' ↦ elim (g.raised e') [ inl e'' ↦ inl e'' | inr lt ↦ inr (omega (arith, h.fewer)) ]
    | inr lt ↦ inr (omega (arith, g.fewer))
  ];
}

-- a new value for an unknown that had none
set-Grew :
    (names : List String) (x : String) (v : Bool) (r : Progress)
    → In x names
    → Assoc.lookup x r.0 ≡ none
    → Grew names r (Assoc.insert x v r.0, true)
set-Grew names x v (env, changed) i n = record {
  kept = λ y b e. ground (arith, lookup-insert x y v env, eq_iff x y);
  quiet = λ e. ground arith;
  fewer = missing-insert names x v env;
  raised = λ e. inr (missing-insert_lt names x v env i n);
}

-- the same of a step that can refute
abbrev pub GrewTo : List String → Progress → Option Progress → Type 0
GrewTo names r none = Unit {0}
GrewTo names r (some r') = Grew names r r'

GrewTo-then :
    (names : List String) (r : Progress) (o : Option Progress) (f : Progress → Option Progress)
    → GrewTo names r o
    → ((s : Progress) → GrewTo names s (f s))
    → GrewTo names r (elim o as (λ _. Option Progress) [ none ↦ none | some s ↦ f s ])
GrewTo-then names r none f g h = tt
GrewTo-then names r (some s) f g h = go (f s) (h s)
  where
    go : (o : Option Progress) → GrewTo names s o → GrewTo names r o
    go none k = tt
    go (some t) k = Grew-trans names r s t g k

if-GrewTo :
    (names : List String) (r : Progress) (b : Bool) → GrewTo names r (if b then some r else none)
if-GrewTo names r true = Grew-refl names r
if-GrewTo names r false = tt

force-GrewTo :
    (names : List String) (x : String) (v : Bool) (r : Progress)
    → In x names
    → GrewTo names r (force x v r)
unfolding force
force-GrewTo names x v (env, changed) i = go (Assoc.lookup x env) refl
  where
    go :
        (o : Option Bool)
        → Assoc.lookup x env ≡ o
        → GrewTo names
            (env, changed)
            (elim o as (λ _. Option Progress) [
              | none ↦ some (Assoc.insert x v env, true)
              | some w ↦ if (if v then w else not w) then some (env, changed) else none
            ])
    go none e = set-Grew names x v (env, changed) i e
    go (some w) e = if-GrewTo names (env, changed) (if v then w else not w)

fail_if_false-GrewTo :
    (names : List String) (o : Option Bool) (r : Progress) → GrewTo names r (fail_if_false o r)
fail_if_false-GrewTo names none r = Grew-refl names r
fail_if_false-GrewTo names (some true) r = Grew-refl names r
fail_if_false-GrewTo names (some false) r = tt

propagate_literal-GrewTo :
    (names : List String) (c : BoolExpr) (r : Progress)
    → Within (literal_name c) names
    → GrewTo names r (propagate_literal c r)
unfolding propagate_literal
propagate_literal-GrewTo names (var x) r w = force-GrewTo names x true r (w x (In-head x []))
propagate_literal-GrewTo names (BoolExpr.not (var x)) r w =
    force-GrewTo names x false r (w x (In-head x []))
propagate_literal-GrewTo names c r w = fail_if_false-GrewTo names (eval_bool_partial c r.0) r

propagate_backward-GrewTo :
    (names : List String) (ant : BoolExpr) (cons : Option Bool) (r : Progress)
    → Within (literal_name ant) names
    → GrewTo names r (propagate_backward ant cons r)
unfolding propagate_backward
propagate_backward-GrewTo names (var x) (some false) r w =
    force-GrewTo names x false r (w x (In-head x []))
propagate_backward-GrewTo names ant cons r w = Grew-refl names r

propagate_implies-GrewTo :
    (names : List String) (o : Option Bool) (ant cons : BoolExpr) (r : Progress)
    → Within (literal_name ant) names
    → Within (literal_name cons) names
    → GrewTo names r (propagate_implies o ant cons r)
unfolding propagate_implies
propagate_implies-GrewTo names (some true) ant cons r w w' =
    propagate_literal-GrewTo names cons r w'
propagate_implies-GrewTo names (some false) ant cons r w w' = Grew-refl names r
propagate_implies-GrewTo names none ant cons r w w' =
    propagate_backward-GrewTo names ant (eval_bool_partial cons r.0) r w

propagate_constraint-GrewTo :
    (names : List String) (c : BoolExpr) (r : Progress)
    → Within (settable c) names
    → GrewTo names r (propagate_constraint c r)
unfolding propagate_constraint
propagate_constraint-GrewTo names (implies a b) r w =
    let (wa, wb) = Within-append (literal_name a) (literal_name b) names w in
    propagate_implies-GrewTo names (eval_bool_partial a r.0) a b r wa wb
propagate_constraint-GrewTo names c r w = propagate_literal-GrewTo names c r w

pub propagate_constraints-GrewTo :
    (names : List String) (cs : List BoolExpr) (r : Progress)
    → Within (constraint_names cs) names
    → GrewTo names r (propagate_constraints cs r)
unfolding propagate_constraints
propagate_constraints-GrewTo names [] r w = Grew-refl names r
propagate_constraints-GrewTo names (c ∷ cs) r w =
    let (wc, wcs) = Within-append (settable c) (constraint_names cs) names w in
    GrewTo-then names r (propagate_constraint c r) (propagate_constraints cs)
      (propagate_constraint-GrewTo names c r wc) (λ s. propagate_constraints-GrewTo names cs s wcs)

define-Grew :
    (names : List String) (x : String) (o : Option Bool) (r : Progress)
    → In x names
    → Assoc.lookup x r.0 ≡ none
    → Grew names r (define x o r)
define-Grew names x none r i n = Grew-refl names r
define-Grew names x (some v) r i n = set-Grew names x v r i n

propagate_definition-Grew :
    (names : List String) (x : String) (e : BoolExpr) (r : Progress)
    → In x names
    → Grew names r (propagate_definition (x, e) r)
unfolding propagate_definition
propagate_definition-Grew names x e r i = elim (Bool-cases (contains_key x r.0)) [
  | inl k ↦ rw k (Grew-refl names r)
  | inr k ↦ rw k (define-Grew names x (eval_bool_partial e r.0) r i (absent (Assoc.lookup x r.0) k))
]
  where
    absent :
        (o : Option Bool)
        → (elim o as (λ _. Bool) [ none ↦ false | some _ ↦ true ]) ≡ false
        → o ≡ none
    absent none k = refl
    absent (some v) k = cc

pub propagate_definitions-Grew :
    (names : List String) (ds : Definitions) (r : Progress)
    → Within (defined_names ds) names
    → Grew names r (propagate_definitions ds r)
unfolding propagate_definitions
propagate_definitions-Grew names [] r w = Grew-refl names r
propagate_definitions-Grew names ((x, e) ∷ ds) r w =
    let (wx, wds) = Within-append (x ∷ []) (defined_names ds) names w in
    Grew-trans names r (propagate_definition (x, e) r)
      (propagate_definitions ds (propagate_definition (x, e) r))
      (propagate_definition-Grew names x e r (wx x (In-head x [])))
      (propagate_definitions-Grew names ds (propagate_definition (x, e) r) wds)

pub round-GrewTo :
    (cs : List BoolExpr) (ds : Definitions) (env : Assignment)
    → GrewTo (defined_names ds ++ constraint_names cs) (env, false) (round cs ds env)
unfolding round
round-GrewTo cs ds env =
    let names : List String = defined_names ds ++ constraint_names cs in
    let (wd, wc) = Within-append (defined_names ds) (constraint_names cs) names (λ x i. i) in
    GrewTo-then names (env, false) (some (propagate_definitions ds (env, false)))
      (propagate_constraints cs) (propagate_definitions-Grew names ds (env, false) wd)
      (λ s. propagate_constraints-GrewTo names cs s wc)

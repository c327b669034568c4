-- ===== src/Smt/Eval/Exact.antt =====
-- crates/causm-smt/src/oxiz/solver.rs: `eval_bool_fully` on formulas without integer comparisons.
use causm.Prelude.{
  ℕ, ◌≡◌, refl, sym, subst, ◌∙◌, Bool, true, false, ◌&&◌, ◌||◌, not, Option, some, none, String,
  List, [], ◌∷◌, if◌then◌else◌,
}
use causm.Prelude.Assoc
use causm.Smt.Ast.{BoolExpr, lit, var, and, or, ite, implies, int_cmp, Bools, no_bools, bool}
use causm.Smt.Ast.Meaning.{holds, all_hold, some_holds}
use causm.Smt.Eval.{
  Assignment, IntConstraint, Full, ◌>>=◌, read_bool, eval_bool_fully, eval_each, eval_any,
}
use causm.Smt.Eval.Partial.{Extends}

-- no integer comparison anywhere
abbrev mutual
  pub IsPropositional : BoolExpr → Type 0
  IsPropositional (lit b) = Unit {0}
  IsPropositional (var x) = Unit {0}
  IsPropositional (BoolExpr.not a) = IsPropositional a
  IsPropositional (and args) = ArePropositional args
  IsPropositional (or args) = ArePropositional args
  IsPropositional (ite c t e) = IsPropositional c × IsPropositional t × IsPropositional e
  IsPropositional (implies a b) = IsPropositional a × IsPropositional b
  IsPropositional (BoolExpr.eq a b) = IsPropositional a × IsPropositional b
  IsPropositional (int_cmp op a b) = true ≡ false

  pub ArePropositional : Bools → Type 0
  ArePropositional no_bools = Unit {0}
  ArePropositional (bool a args) = IsPropositional a × ArePropositional args

-- no comparison in any of the formulas
abbrev pub AllPropositional : List BoolExpr → Type 0
AllPropositional [] = Unit {0}
AllPropositional (e ∷ es) = IsPropositional e × AllPropositional es

-- The value, if there is one, is `b`, and no comparison was met.
abbrev FullSays : List IntConstraint → Full → Bool → Type 0
FullSays cs none b = Unit {0}
FullSays cs (some (v, cs')) b = (b ≡ v) × (cs' ≡ cs)

module _ (ρ : String → Bool) (σ : String → ℕ) (env : Assignment) (ext : Extends ρ env) where
  -- a step `f` behind a value that is right
  >>=-FullSays :
      (cs : List IntConstraint) (o : Full) (f : Bool → List IntConstraint → Full) (a b : Bool)
      → FullSays cs o a
      → FullSays cs (f a cs) b
      → FullSays cs (o >>= f) b
  >>=-FullSays cs none f a b p q = tt
  >>=-FullSays cs (some (v, cs')) f a b (p, e) q = rw (sym p, e) q

  if-FullSays :
      (b : Bool) (cs : List IntConstraint) (o o' : Full) (v w : Bool)
      → FullSays cs o v
      → FullSays cs o' w
      → FullSays cs (if b then o else o') (if b then v else w)
  if-FullSays true cs o o' v w p q = p
  if-FullSays false cs o o' v w p q = q

  then-FullSays :
      (b : Bool) (cs : List IntConstraint) (o : Full) (v : Bool)
      → FullSays cs o v
      → FullSays cs (if b then o else some (true, cs)) (not b || v)
  then-FullSays true cs o v p = p
  then-FullSays false cs o v p = (refl, refl)

  and-FullSays :
      (b : Bool) (cs : List IntConstraint) (o : Full) (v : Bool)
      → FullSays cs o v
      → FullSays cs (if b then o else some (false, cs)) (b && v)
  and-FullSays true cs o v p = p
  and-FullSays false cs o v p = (refl, refl)

  or-FullSays :
      (b : Bool) (cs : List IntConstraint) (o : Full) (v : Bool)
      → FullSays cs o v
      → FullSays cs (if b then some (true, cs) else o) (b || v)
  or-FullSays true cs o v p = (refl, refl)
  or-FullSays false cs o v p = p

  read_bool-FullSays :
      (cs : List IntConstraint) (x : String) → FullSays cs (read_bool x env cs) (ρ x)
  unfolding read_bool
  read_bool-FullSays cs x = go (Assoc.lookup x env) refl
    where
      go :
          (o : Option Bool)
          → Assoc.lookup x env ≡ o
          → FullSays cs (elim o as (λ _. Full) [ none ↦ none | some b ↦ some (b, cs) ]) (ρ x)
      go none e = tt
      go (some b) e = (ext x b e, refl)

  mutual
    unfolding eval_bool_fully holds

    fully-FullSays :
        (e : BoolExpr) (cs : List IntConstraint)
        → IsPropositional e
        → FullSays cs (eval_bool_fully e env cs) (holds ρ σ e)
    fully-FullSays (lit b) cs p = (refl, refl)
    fully-FullSays (var x) cs p = read_bool-FullSays cs x
    fully-FullSays (BoolExpr.not a) cs p =
        >>=-FullSays cs (eval_bool_fully a env cs) (λ b cs'. some (not b, cs')) (holds ρ σ a)
          (not (holds ρ σ a)) (fully-FullSays a cs p) (refl, refl)
    fully-FullSays (and args) cs p = each-FullSays args cs p
    fully-FullSays (or args) cs p = any-FullSays args cs p
    fully-FullSays (ite c t e) cs (p, q, r) =
        >>=-FullSays cs (eval_bool_fully c env cs)
          (λ b cs'. if b then eval_bool_fully t env cs' else eval_bool_fully e env cs')
          (holds ρ σ c) (if holds ρ σ c then holds ρ σ t else holds ρ σ e) (fully-FullSays c cs p)
          (if-FullSays (holds ρ σ c) cs (eval_bool_fully t env cs) (eval_bool_fully e env cs)
            (holds ρ σ t) (holds ρ σ e) (fully-FullSays t cs q) (fully-FullSays e cs r))
    fully-FullSays (implies a b) cs (p, q) =
        >>=-FullSays cs (eval_bool_fully a env cs)
          (λ ant cs'. if ant then eval_bool_fully b env cs' else some (true, cs')) (holds ρ σ a)
          (not (holds ρ σ a) || holds ρ σ b) (fully-FullSays a cs p)
          (then-FullSays (holds ρ σ a) cs (eval_bool_fully b env cs) (holds ρ σ b)
            (fully-FullSays b cs q))
    fully-FullSays (BoolExpr.eq a b) cs (p, q) =
        >>=-FullSays cs (eval_bool_fully a env cs)
          (λ va cs'.
            eval_bool_fully b env cs' >>= λ vb cs''. some (if va then vb else not vb, cs''))
          (holds ρ σ a) (if holds ρ σ a then holds ρ σ b else not (holds ρ σ b))
          (fully-FullSays a cs p)
          (>>=-FullSays cs (eval_bool_fully b env cs)
            (λ vb cs''. some (if holds ρ σ a then vb else not vb, cs'')) (holds ρ σ b)
            (if holds ρ σ a then holds ρ σ b else not (holds ρ σ b)) (fully-FullSays b cs q)
            (refl, refl))
    fully-FullSays (int_cmp op a b) cs p = cc

    each-FullSays :
        (args : Bools) (cs : List IntConstraint)
        → ArePropositional args
        → FullSays cs (eval_each args env cs) (all_hold ρ σ args)
    each-FullSays no_bools cs p = (refl, refl)
    each-FullSays (bool a args) cs (p, q) =
        >>=-FullSays cs (eval_bool_fully a env cs)
          (λ b cs'. if b then eval_each args env cs' else some (false, cs')) (holds ρ σ a)
          (holds ρ σ a && all_hold ρ σ args) (fully-FullSays a cs p)
          (and-FullSays (holds ρ σ a) cs (eval_each args env cs) (all_hold ρ σ args)
            (each-FullSays args cs q))

    any-FullSays :
        (args : Bools) (cs : List IntConstraint)
        → ArePropositional args
        → FullSays cs (eval_any args env cs) (some_holds ρ σ args)
    any-FullSays no_bools cs p = (refl, refl)
    any-FullSays (bool a args) cs (p, q) =
        >>=-FullSays cs (eval_bool_fully a env cs)
          (λ b cs'. if b then some (true, cs') else eval_any args env cs') (holds ρ σ a)
          (holds ρ σ a || some_holds ρ σ args) (fully-FullSays a cs p)
          (or-FullSays (holds ρ σ a) cs (eval_any args env cs) (some_holds ρ σ args)
            (any-FullSays args cs q))

-- every unknown of the formula has a value
abbrev mutual
  pub Decided : Assignment → BoolExpr → Type 0
  Decided env (lit b) = Unit {0}
  Decided env (var x) = (b : Bool) × (Assoc.lookup x env ≡ some b)
  Decided env (BoolExpr.not a) = Decided env a
  Decided env (and args) = AllDecided env args
  Decided env (or args) = AllDecided env args
  Decided env (ite c t e) = Decided env c × Decided env t × Decided env e
  Decided env (implies a b) = Decided env a × Decided env b
  Decided env (BoolExpr.eq a b) = Decided env a × Decided env b
  Decided env (int_cmp op a b) = Unit {0}

  pub AllDecided : Assignment → Bools → Type 0
  AllDecided env no_bools = Unit {0}
  AllDecided env (bool a args) = Decided env a × AllDecided env args

abbrev HasValue : Full → Type 0
HasValue o = (v : Bool) × (cs : List IntConstraint) × (o ≡ some (v, cs))

>>=-HasValue :
    (o : Full) (f : Bool → List IntConstraint → Full)
    → HasValue o
    → ((v : Bool) (cs : List IntConstraint) → HasValue (f v cs))
    → HasValue (o >>= f)
>>=-HasValue o f (v, cs, e) h = rw e (h v cs)

if-HasValue : (b : Bool) (o o' : Full) → HasValue o → HasValue o' → HasValue (if b then o else o')
if-HasValue true o o' h h' = h
if-HasValue false o o' h h' = h'

module _ (env : Assignment) where
  mutual
    unfolding eval_bool_fully

    fully-HasValue :
        (e : BoolExpr) (cs : List IntConstraint)
        → Decided env e
        → HasValue (eval_bool_fully e env cs)
    fully-HasValue (lit b) cs d = (b, cs, refl)
    fully-HasValue (var x) cs (b, e) = (b, cs, rw (read_bool, e) refl)
    fully-HasValue (BoolExpr.not a) cs d =
        >>=-HasValue (eval_bool_fully a env cs) _ (fully-HasValue a cs d)
          (λ v cs'. (not v, cs', refl))
    fully-HasValue (and args) cs d = each-HasValue args cs d
    fully-HasValue (or args) cs d = any-HasValue args cs d
    fully-HasValue (ite c t e) cs (d, f, g) =
        >>=-HasValue (eval_bool_fully c env cs) _ (fully-HasValue c cs d)
          (λ v cs'. if-HasValue v _ _ (fully-HasValue t cs' f) (fully-HasValue e cs' g))
    fully-HasValue (implies a b) cs (d, f) =
        >>=-HasValue (eval_bool_fully a env cs) _ (fully-HasValue a cs d)
          (λ v cs'. if-HasValue v _ _ (fully-HasValue b cs' f) (true, cs', refl))
    fully-HasValue (BoolExpr.eq a b) cs (d, f) =
        >>=-HasValue (eval_bool_fully a env cs) _ (fully-HasValue a cs d) (λ v cs'.
          >>=-HasValue (eval_bool_fully b env cs') _ (fully-HasValue b cs' f)
            (λ w cs''. ((if v then w else not w), cs'', refl)))
    fully-HasValue (int_cmp op a b) cs d = (true, _, refl)

    each-HasValue :
        (args : Bools) (cs : List IntConstraint)
        → AllDecided env args
        → HasValue (eval_each args env cs)
    each-HasValue no_bools cs d = (true, cs, refl)
    each-HasValue (bool a args) cs (d, f) =
        >>=-HasValue (eval_bool_fully a env cs) _ (fully-HasValue a cs d)
          (λ v cs'. if-HasValue v _ _ (each-HasValue args cs' f) (false, cs', refl))

    any-HasValue :
        (args : Bools) (cs : List IntConstraint)
        → AllDecided env args
        → HasValue (eval_any args env cs)
    any-HasValue no_bools cs d = (false, cs, refl)
    any-HasValue (bool a args) cs (d, f) =
        >>=-HasValue (eval_bool_fully a env cs) _ (fully-HasValue a cs d)
          (λ v cs'. if-HasValue v _ _ (true, cs', refl) (any-HasValue args cs' f))

-- For a formula without comparisons, a value of `eval_bool_fully` is its truth under every
-- completion of the assignment, and no comparison is put on the list.
pub eval_bool_fully_sound :
    (ρ : String → Bool) (σ : String → ℕ) (env : Assignment) (e : BoolExpr)
    (cs cs' : List IntConstraint) (v : Bool)
    → Extends ρ env
    → IsPropositional e
    → eval_bool_fully e env cs ≡ some (v, cs')
    → (holds ρ σ e ≡ v) × (cs' ≡ cs)
eval_bool_fully_sound ρ σ env e cs cs' v x p q =
    subst (λ o. FullSays cs o (holds ρ σ e)) q (fully-FullSays ρ σ env x e cs p)

-- On an assignment of all the unknowns of a formula without comparisons, `eval_bool_fully` gives the
-- formula's truth and puts no comparison on the list.
pub eval_bool_fully_exact :
    (ρ : String → Bool) (σ : String → ℕ) (env : Assignment) (e : BoolExpr) (cs : List IntConstraint)
    → Extends ρ env
    → IsPropositional e
    → Decided env e
    → eval_bool_fully e env cs ≡ some (holds ρ σ e, cs)
eval_bool_fully_exact ρ σ env e cs x p d =
    let (v, cs', q) = fully-HasValue env e cs d in
    let (h, g) = eval_bool_fully_sound ρ σ env e cs cs' v x p q in q ∙ cc

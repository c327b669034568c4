-- ===== src/Smt/Eval/Partial.antt =====
-- crates/causm-smt/src/oxiz/solver.rs: what a partial evaluation decides, no completion changes.
use causm.Prelude.{
  ℕ, ◌≡◌, refl, subst, Bool, true, false, ◌&&◌, ◌||◌, not, Option, some, none, String,
  if◌then◌else◌, arith,
}
use causm.Prelude.Assoc
use causm.Smt.Ast.{BoolExpr, lit, var, and, or, ite, implies, int_cmp, Bools, no_bools, bool}
use causm.Smt.Ast.Meaning.{holds, all_hold, some_holds}
use causm.Smt.Eval.{
  Assignment, or_false, eval_bool_partial, eval_and, eval_or, and_then, or_else, negate, choose_by,
  imply, agree,
}

-- the assignment gives values of `ρ`
abbrev pub Extends : (String → Bool) → Assignment → Type 0
Extends ρ env = (x : String) (b : Bool) → Assoc.lookup x env ≡ some b → ρ x ≡ b

-- the values of an assignment, false for the names without one
abbrev pub reads : Assignment → String → Bool
reads env x = or_false (Assoc.lookup x env)

pub reads-Extends : (env : Assignment) → Extends (reads env) env
reads-Extends env x b h = rw h refl

-- the value, if there is one, is `b`
abbrev Says : Option Bool → Bool → Type 0
Says none b = Unit {0}
Says (some v) b = b ≡ v

and_then-Says :
    (o r : Option Bool) (a b : Bool) → Says o a → Says r b → Says (and_then o r) (a && b)
and_then-Says (some true) r a b p q = rw p q
and_then-Says (some false) r a b p q = rw p refl
and_then-Says none (some true) a b p q = tt
and_then-Says none (some false) a b p q = ground arith
and_then-Says none none a b p q = tt

or_else-Says : (o r : Option Bool) (a b : Bool) → Says o a → Says r b → Says (or_else o r) (a || b)
or_else-Says (some false) r a b p q = rw p q
or_else-Says (some true) r a b p q = rw p refl
or_else-Says none (some false) a b p q = tt
or_else-Says none (some true) a b p q = ground arith
or_else-Says none none a b p q = tt

negate-Says : (o : Option Bool) (a : Bool) → Says o a → Says (negate o) (not a)
negate-Says (some v) a p = rw p refl
negate-Says none a p = tt

choose_by-Says :
    (o t e : Option Bool) (a b c : Bool)
    → Says o a
    → Says t b
    → Says e c
    → Says (choose_by o t e) (if a then b else c)
choose_by-Says (some true) t e a b c p q r = rw p q
choose_by-Says (some false) t e a b c p q r = rw p r
choose_by-Says none t e a b c p q r = tt

imply-Says : (o r : Option Bool) (a b : Bool) → Says o a → Says r b → Says (imply o r) (not a || b)
imply-Says (some false) r a b p q = rw p refl
imply-Says (some true) r a b p q = rw p q
imply-Says none (some true) a b p q = ground arith
imply-Says none (some false) a b p q = tt
imply-Says none none a b p q = tt

agree-Says :
    (o r : Option Bool) (a b : Bool)
    → Says o a
    → Says r b
    → Says (agree o r) (if a then b else not b)
agree-Says (some v) (some w) a b p q = rw (p, q) refl
agree-Says (some v) none a b p q = tt
agree-Says none r a b p q = tt

module _ (ρ : String → Bool) (σ : String → ℕ) (env : Assignment) (x : Extends ρ env) where
  lookup-Says : (name : String) → Says (Assoc.lookup name env) (ρ name)
  lookup-Says name = go (Assoc.lookup name env) (x name)
    where
      go : (o : Option Bool) → ((b : Bool) → o ≡ some b → ρ name ≡ b) → Says o (ρ name)
      go none f = tt
      go (some b) f = f b refl

  mutual
    unfolding eval_bool_partial holds

    eval-Says : (e : BoolExpr) → Says (eval_bool_partial e env) (holds ρ σ e)
    eval-Says (lit b) = refl
    eval-Says (var y) = lookup-Says y
    eval-Says (BoolExpr.not a) = negate-Says _ _ (eval-Says a)
    eval-Says (and args) = eval_and-Says args
    eval-Says (or args) = eval_or-Says args
    eval-Says (ite c t e) = choose_by-Says _ _ _ _ _ _ (eval-Says c) (eval-Says t) (eval-Says e)
    eval-Says (implies a b) = imply-Says _ _ _ _ (eval-Says a) (eval-Says b)
    eval-Says (BoolExpr.eq a b) = agree-Says _ _ _ _ (eval-Says a) (eval-Says b)
    eval-Says (int_cmp op a b) = tt

    eval_and-Says : (args : Bools) → Says (eval_and args env) (all_hold ρ σ args)
    eval_and-Says no_bools = refl
    eval_and-Says (bool a args) = and_then-Says _ _ _ _ (eval-Says a) (eval_and-Says args)

    eval_or-Says : (args : Bools) → Says (eval_or args env) (some_holds ρ σ args)
    eval_or-Says no_bools = refl
    eval_or-Says (bool a args) = or_else-Says _ _ _ _ (eval-Says a) (eval_or-Says args)

  -- What `eval_bool_partial` decides of a formula under an assignment is its truth under every
  -- completion of the assignment.
  pub eval_bool_partial_sound :
      (e : BoolExpr) (b : Bool) → eval_bool_partial e env ≡ some b → holds ρ σ e ≡ b
  eval_bool_partial_sound e b q = subst (λ o. Says o (holds ρ σ e)) q (eval-Says e)

-- ===== src/Smt/Build/Sound.antt =====
-- crates/causm-smt/src/oxiz/ast.rs: the simplifying constructors keep the meaning.
use causm.Prelude.{
  ℕ, ◌≡◌, refl, ap, subst, ◌∙◌, Bool, true, false, ◌&&◌, ◌||◌, Option, some, none, String,
  if◌then◌else◌, Bool-cases, inl, inr, arith,
}
use causm.Prelude.{not as bool_not}
use causm.Smt.Ast.{
  BoolExpr, lit, var, implies, int_cmp, IntExpr, int_ite, Bools, no_bools, bool, append, snoc, same,
  same_int,
}
use causm.Smt.Ast.Meaning.{holds, value, all_hold, some_holds, same-eq, same_int-eq}
use causm.Smt.Build
use causm.Smt.Build.{
  gather_and, finish_and, gather_or, finish_or, gather_sub, gather_add, finish_add, implies_to,
  choose,
}

module _ (ρ : String → Bool) (σ : String → ℕ) where
  holds-not : (a : BoolExpr) → holds ρ σ (Build.not a) ≡ bool_not (holds ρ σ a)
  unfolding Build.not holds
  holds-not (lit b) = refl
  holds-not (BoolExpr.not a) = ground arith
  holds-not (var x) = refl
  holds-not (BoolExpr.and x) = refl
  holds-not (BoolExpr.or x) = refl
  holds-not (BoolExpr.ite x y z) = refl
  holds-not (BoolExpr.eq x y) = refl
  holds-not (implies x y) = refl
  holds-not (int_cmp x y z) = refl

  all_hold-append :
      (as' bs : Bools) → all_hold ρ σ (append as' bs) ≡ all_hold ρ σ as' && all_hold ρ σ bs
  unfolding holds
  all_hold-append no_bools bs = refl
  all_hold-append (bool a as') bs = ground (arith, all_hold-append as' bs)

  some_holds-append :
      (as' bs : Bools) → some_holds ρ σ (append as' bs) ≡ some_holds ρ σ as' || some_holds ρ σ bs
  unfolding holds
  some_holds-append no_bools bs = refl
  some_holds-append (bool a as') bs = ground (arith, some_holds-append as' bs)

  -- the loop's result means `b`; an early return means false
  abbrev MeansAnd : Bool → Option Bools → Type 0
  MeansAnd b none = b ≡ false
  MeansAnd b (some s) = all_hold ρ σ s ≡ b

  all_hold-moved :
      (acc sub args : Bools)
      → all_hold ρ σ (append acc sub) && all_hold ρ σ args
        ≡ all_hold ρ σ acc && (all_hold ρ σ sub && all_hold ρ σ args)
  all_hold-moved acc sub args = ground (arith, all_hold-append acc sub)

  all_hold-pushed :
      (acc args : Bools) (a : BoolExpr)
      → all_hold ρ σ (snoc acc a) && all_hold ρ σ args
        ≡ all_hold ρ σ acc && (holds ρ σ a && all_hold ρ σ args)
  unfolding holds
  all_hold-pushed acc args a = ground (arith, all_hold-append acc (bool a no_bools))

  gather_and-MeansAnd :
      (args acc : Bools) → MeansAnd (all_hold ρ σ acc && all_hold ρ σ args) (gather_and args acc)
  unfolding gather_and holds
  gather_and-MeansAnd no_bools acc = ground arith
  gather_and-MeansAnd (bool (lit true) args) acc = gather_and-MeansAnd args acc
  gather_and-MeansAnd (bool (lit false) args) acc = ground arith
  gather_and-MeansAnd (bool (BoolExpr.and sub) args) acc =
      subst (λ b. MeansAnd b (gather_and args (append acc sub))) (all_hold-moved acc sub args)
        (gather_and-MeansAnd args (append acc sub))
  gather_and-MeansAnd (bool other args) acc =
      subst (λ b. MeansAnd b (gather_and args (snoc acc other))) (all_hold-pushed acc args other)
        (gather_and-MeansAnd args (snoc acc other))

  holds-finish_and : (s : Bools) → holds ρ σ (finish_and s) ≡ all_hold ρ σ s
  unfolding holds
  holds-finish_and no_bools = refl
  holds-finish_and (bool a no_bools) = ground arith
  holds-finish_and (bool a (bool b rest)) = refl

  holds-and : (args : Bools) → holds ρ σ (Build.and args) ≡ all_hold ρ σ args
  unfolding Build.and holds
  holds-and args = go (gather_and args no_bools) (gather_and-MeansAnd args no_bools)
    where
      go :
          (o : Option Bools)
          → MeansAnd (all_hold ρ σ args) o
          → holds ρ σ (elim o [ none ↦ lit false | some s ↦ finish_and s ]) ≡ all_hold ρ σ args
      go none m = ground arith
      go (some s) m = holds-finish_and s ∙ m

  -- the same for a disjunction, whose early return means true
  abbrev MeansOr : Bool → Option Bools → Type 0
  MeansOr b none = b ≡ true
  MeansOr b (some s) = some_holds ρ σ s ≡ b

  some_holds-moved :
      (acc sub args : Bools)
      → some_holds ρ σ (append acc sub) || some_holds ρ σ args
        ≡ some_holds ρ σ acc || (some_holds ρ σ sub || some_holds ρ σ args)
  some_holds-moved acc sub args = ground (arith, some_holds-append acc sub)

  some_holds-pushed :
      (acc args : Bools) (a : BoolExpr)
      → some_holds ρ σ (snoc acc a) || some_holds ρ σ args
        ≡ some_holds ρ σ acc || (holds ρ σ a || some_holds ρ σ args)
  unfolding holds
  some_holds-pushed acc args a = ground (arith, some_holds-append acc (bool a no_bools))

  gather_or-MeansOr :
      (args acc : Bools) → MeansOr (some_holds ρ σ acc || some_holds ρ σ args) (gather_or args acc)
  unfolding gather_or holds
  gather_or-MeansOr no_bools acc = ground arith
  gather_or-MeansOr (bool (lit false) args) acc = gather_or-MeansOr args acc
  gather_or-MeansOr (bool (lit true) args) acc = ground arith
  gather_or-MeansOr (bool (BoolExpr.or sub) args) acc =
      subst (λ b. MeansOr b (gather_or args (append acc sub))) (some_holds-moved acc sub args)
        (gather_or-MeansOr args (append acc sub))
  gather_or-MeansOr (bool other args) acc =
      subst (λ b. MeansOr b (gather_or args (snoc acc other))) (some_holds-pushed acc args other)
        (gather_or-MeansOr args (snoc acc other))

  holds-finish_or : (s : Bools) → holds ρ σ (finish_or s) ≡ some_holds ρ σ s
  unfolding holds
  holds-finish_or no_bools = refl
  holds-finish_or (bool a no_bools) = ground arith
  holds-finish_or (bool a (bool b rest)) = refl

  holds-or : (args : Bools) → holds ρ σ (Build.or args) ≡ some_holds ρ σ args
  unfolding Build.or holds
  holds-or args = go (gather_or args no_bools) (gather_or-MeansOr args no_bools)
    where
      go :
          (o : Option Bools)
          → MeansOr (some_holds ρ σ args) o
          → holds ρ σ (elim o [ none ↦ lit true | some s ↦ finish_or s ]) ≡ some_holds ρ σ args
      go none m = ground arith
      go (some s) m = holds-finish_or s ∙ m

  holds-ite :
      (c t e : BoolExpr)
      → holds ρ σ (Build.ite c t e) ≡ (if holds ρ σ c then holds ρ σ t else holds ρ σ e)
  unfolding Build.ite holds
  holds-ite (lit true) t e = refl
  holds-ite (lit false) t e = refl
  holds-ite c t e = elim (Bool-cases (same t e)) [
    | inl s ↦ rw s (ground (arith, ap (holds ρ σ) (same-eq t e s)))
    | inr s ↦ rw s refl
  ]

  holds-implies_to :
      (a b : BoolExpr) → holds ρ σ (implies_to a b) ≡ bool_not (holds ρ σ a) || holds ρ σ b
  unfolding implies_to holds
  holds-implies_to (lit false) b = refl
  holds-implies_to (lit true) b = refl
  holds-implies_to a (lit true) = ground arith
  holds-implies_to a b = refl

  holds-eq :
      (a b : BoolExpr)
      → holds ρ σ (Build.eq a b) ≡ (if holds ρ σ a then holds ρ σ b else bool_not (holds ρ σ b))
  unfolding Build.eq holds
  holds-eq a b = elim (Bool-cases (same a b)) [
    | inl s ↦ rw s (ground (arith, ap (holds ρ σ) (same-eq a b s)))
    | inr s ↦ rw s refl
  ]

  value-choose :
      (c : BoolExpr) (t e : IntExpr)
      → value ρ σ (choose c t e) ≡ (if holds ρ σ c then value ρ σ t else value ρ σ e)
  unfolding choose holds
  value-choose (lit true) t e = refl
  value-choose (lit false) t e = refl
  value-choose c t e = elim (Bool-cases (same_int t e)) [
    | inl s ↦ rw s (ground (arith, ap (value ρ σ) (same_int-eq t e s)))
    | inr s ↦ rw s refl
  ]

  -- Every simplifying constructor for formulas, and the one for a choice between terms, means what
  -- the plain constructor means, for every value of the unknowns.
  pub simplified-means :
      (a b c : BoolExpr) (args : Bools) (t e : IntExpr)
      → (holds ρ σ (Build.not a) ≡ holds ρ σ (BoolExpr.not a))
        × (holds ρ σ (Build.and args) ≡ holds ρ σ (BoolExpr.and args))
        × (holds ρ σ (Build.or args) ≡ holds ρ σ (BoolExpr.or args))
        × (holds ρ σ (Build.ite a b c) ≡ holds ρ σ (BoolExpr.ite a b c))
        × (holds ρ σ (implies_to a b) ≡ holds ρ σ (implies a b))
        × (holds ρ σ (Build.eq a b) ≡ holds ρ σ (BoolExpr.eq a b))
        × (value ρ σ (choose c t e) ≡ value ρ σ (int_ite c t e))
  unfolding holds
  simplified-means a b c args t e = (
    holds-not a,
    holds-and args,
    holds-or args,
    holds-ite a b c,
    holds-implies_to a b,
    holds-eq a b,
    value-choose c t e,
  )

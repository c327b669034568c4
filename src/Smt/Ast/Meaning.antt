-- ===== src/Smt/Ast/Meaning.antt =====
-- What a formula says of its unknowns: the independent description that the solver is held to.
use causm.Prelude.{
  ℕ, ◌≡◌, refl, Bool, true, false, ◌&&◌, ◌||◌, not, String, eq_iff, if◌then◌else◌, ltb, leb, ◌==◌,
  saturating_add, arith,
}
use causm.Smt.Ast.{
  IntCmpOp, lt, le, gt, ge, BoolExpr, lit, var, and, or, ite, implies, int_cmp, IntExpr, int_lit,
  int_var, int_add, int_ite, Bools, no_bools, bool, Ints, no_ints, int, same_op, same, same_int,
  same_all, same_ints,
}

unfoldable pub compare_ints : IntCmpOp → ℕ → ℕ → Bool
compare_ints lt a b = ltb a b
compare_ints le a b = leb a b
compare_ints gt a b = ltb b a
compare_ints ge a b = leb b a
compare_ints IntCmpOp.eq a b = a == b

-- the truth of a formula and the value of a term; a sum stops at the largest `u64`
module _ (ρ : String → Bool) (σ : String → ℕ) where
  unfoldable mutual
    pub holds : BoolExpr → Bool
    holds (lit b) = b
    holds (var x) = ρ x
    holds (BoolExpr.not a) = not (holds a)
    holds (and args) = all_hold args
    holds (or args) = some_holds args
    holds (ite c t e) = if holds c then holds t else holds e
    holds (BoolExpr.eq a b) = if holds a then holds b else not (holds b)
    holds (implies a b) = not (holds a) || holds b
    holds (int_cmp op a b) = compare_ints op (value a) (value b)

    pub value : IntExpr → ℕ
    value (int_lit n) = n
    value (int_var x) = σ x
    value (int_add args) = sum args
    value (int_ite c t e) = if holds c then value t else value e

    pub all_hold : Bools → Bool
    all_hold no_bools = true
    all_hold (bool a args) = holds a && all_hold args

    pub some_holds : Bools → Bool
    some_holds no_bools = false
    some_holds (bool a args) = holds a || some_holds args

    pub sum : Ints → ℕ
    sum no_ints = 0
    sum (int a args) = saturating_add (value a) (sum args)

same_op-eq : (o o' : IntCmpOp) → same_op o o' ≡ true → o ≡ o'
unfolding same_op
same_op-eq o o' h = ground arith

pub both : (a b : Bool) → a && b ≡ true → (a ≡ true) × (b ≡ true)
both a b h = (ground arith, ground arith)

three : (a b c : Bool) → a && b && c ≡ true → (a ≡ true) × (b ≡ true) × (c ≡ true)
three a b c h = (ground arith, ground arith, ground arith)

-- Equal expressions are the same.
mutual
  unfolding same same_op

  pub same-eq : (a b : BoolExpr) → same a b ≡ true → a ≡ b
  same-eq (lit true) (lit true) h = refl
  same-eq (lit false) (lit false) h = refl
  same-eq (var x) (var y) h = ground (arith, eq_iff x y)
  same-eq (BoolExpr.not a) (BoolExpr.not b) h = cc (same-eq a b h)
  same-eq (and as') (and bs) h = cc (same_all-eq as' bs h)
  same-eq (or as') (or bs) h = cc (same_all-eq as' bs h)
  same-eq (ite c t e) (ite c' t' e') h =
      let (f, g, i) = three (same c c') (same t t') (same e e') h in
      cc (same-eq c c' f, same-eq t t' g, same-eq e e' i)
  same-eq (BoolExpr.eq a b) (BoolExpr.eq a' b') h =
      let (f, g) = both (same a a') (same b b') h in cc (same-eq a a' f, same-eq b b' g)
  same-eq (implies a b) (implies a' b') h =
      let (f, g) = both (same a a') (same b b') h in cc (same-eq a a' f, same-eq b b' g)
  same-eq (int_cmp o a b) (int_cmp o' a' b') h =
      let (f, g, i) = three (same_op o o') (same_int a a') (same_int b b') h in
      cc (same_op-eq o o' f, same_int-eq a a' g, same_int-eq b b' i)
  same-eq _ _ h = cc

  pub same_int-eq : (a b : IntExpr) → same_int a b ≡ true → a ≡ b
  same_int-eq (int_lit m) (int_lit n) h = ground arith
  same_int-eq (int_var x) (int_var y) h = ground (arith, eq_iff x y)
  same_int-eq (int_add as') (int_add bs) h = cc (same_ints-eq as' bs h)
  same_int-eq (int_ite c t e) (int_ite c' t' e') h =
      let (f, g, i) = three (same c c') (same_int t t') (same_int e e') h in
      cc (same-eq c c' f, same_int-eq t t' g, same_int-eq e e' i)
  same_int-eq _ _ h = cc

  pub same_all-eq : (as' bs : Bools) → same_all as' bs ≡ true → as' ≡ bs
  same_all-eq no_bools no_bools h = refl
  same_all-eq (bool a as') (bool b bs) h =
      let (f, g) = both (same a b) (same_all as' bs) h in cc (same-eq a b f, same_all-eq as' bs g)
  same_all-eq _ _ h = cc

  pub same_ints-eq : (as' bs : Ints) → same_ints as' bs ≡ true → as' ≡ bs
  same_ints-eq no_ints no_ints h = refl
  same_ints-eq (int a as') (int b bs) h =
      let (f, g) = both (same_int a b) (same_ints as' bs) h in
      cc (same_int-eq a b f, same_ints-eq as' bs g)
  same_ints-eq _ _ h = cc

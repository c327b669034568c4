-- ===== src/Smt/Solver/Ground/Readable.antt =====
-- crates/causm-smt/src/oxiz/solver.rs: comparisons of integer literals, which the parts of the
-- search leave as they are.
use causm.Prelude.{
  ℕ, ◌≡◌, refl, sym, ap, ap₂, ◌∙◌, Bool, true, false, ◌&&◌, Bool-cases, inl, inr, Option, some,
  none, String, List, [], ◌∷◌, ◌++◌, if◌then◌else◌, append_assoc, append-nil, length,
}
use causm.Smt.Ast.{IntCmpOp, BoolExpr, int_cmp, IntExpr, int_lit, int_ite}
use causm.Smt.Ast.Meaning.{holds, compare_ints}
use causm.Smt.Eval.{Assignment, IntAssignment, IntConstraint, simplify_int, eval_int}
use causm.Smt.Propagate.{
  Progress, propagate_constraints, stable, again, propagate_fuel, propagate, constraint_names,
}
use causm.Smt.Propagate.Keeps.{IsModel}
use causm.Smt.Bounds.{Bounds, read_values, read_constraints}
use causm.Smt.Dpll.{collect_constraints, collect_vars, collect_int_vars, Vars, verify_all}

abbrev pub IsComparison : BoolExpr → Type 0
IsComparison (int_cmp op (int_lit i) (int_lit j)) = Unit {0}
IsComparison _ = true ≡ false

abbrev pub AllComparisons : List BoolExpr → Type 0
AllComparisons [] = Unit {0}
AllComparisons (c ∷ cs) = IsComparison c × AllComparisons cs

-- a literal, or a choice between literals by a comparison of literals
abbrev pub IsRead : IntExpr → Type 0
IsRead (int_lit n) = Unit {0}
IsRead (int_ite (int_cmp op (int_lit i) (int_lit j)) (int_lit k) (int_lit l)) = Unit {0}
IsRead _ = true ≡ false

-- what the solver reads these as: a choice is its second part, whatever the comparison says
abbrev pub read : IntExpr → ℕ
read (int_lit n) = n
read (int_ite c t (int_lit l)) = l
read _ = 0

abbrev pub IsReadable : BoolExpr → Type 0
IsReadable (int_cmp op a b) = IsRead a × IsRead b
IsReadable _ = true ≡ false

abbrev pub AllReadable : List BoolExpr → Type 0
AllReadable [] = Unit {0}
AllReadable (c ∷ cs) = IsReadable c × AllReadable cs

pub AllComparisons-AllReadable : (cs : List BoolExpr) → AllComparisons cs → AllReadable cs
AllComparisons-AllReadable [] h = tt
AllComparisons-AllReadable (int_cmp op (int_lit i) (int_lit j) ∷ cs) (h, h') =
    ((tt, tt), AllComparisons-AllReadable cs h')
AllComparisons-AllReadable (_ ∷ cs) (h, h') = cc

abbrev pub compares : BoolExpr → Bool
compares (int_cmp op a b) = compare_ints op (read a) (read b)
compares _ = false

abbrev pub all_compare : List BoolExpr → Bool
all_compare [] = true
all_compare (c ∷ cs) = compares c && all_compare cs

module _ (ρ : String → Bool) (σ : String → ℕ) where
  pub all_compare-IsModel :
      (cs : List BoolExpr) → AllComparisons cs → all_compare cs ≡ true → IsModel ρ σ cs
  unfolding holds
  all_compare-IsModel [] h t = tt
  all_compare-IsModel (int_cmp op (int_lit i) (int_lit j) ∷ cs) (h, h') t =
      elim (Bool-cases (compare_ints op i j)) [
        | inl c ↦ (c, all_compare-IsModel cs h' (sym (ap (λ x. x && all_compare cs) c) ∙ t))
        | inr c ↦ cc (sym (ap (λ x. x && all_compare cs) c) ∙ t)
      ]
  all_compare-IsModel (_ ∷ cs) (h, h') t = cc

  pub IsModel-all_compare :
      (cs : List BoolExpr) → AllComparisons cs → IsModel ρ σ cs → all_compare cs ≡ true
  unfolding holds
  IsModel-all_compare [] h m = refl
  IsModel-all_compare (int_cmp op (int_lit i) (int_lit j) ∷ cs) (h, h') (c, m) =
      ap (λ x. x && all_compare cs) c ∙ IsModel-all_compare cs h' m
  IsModel-all_compare (_ ∷ cs) (h, h') m = cc

collect-IsRead : (a : IntExpr) (vs : Vars) → IsRead a → collect_int_vars a vs ≡ vs
unfolding collect_vars
collect-IsRead (int_lit n) vs h = refl
collect-IsRead (int_ite (int_cmp op (int_lit i) (int_lit j)) (int_lit k) (int_lit l)) vs h = refl
collect-IsRead _ vs h = cc

simplify-IsRead : (a : IntExpr) → IsRead a → simplify_int a [] ≡ a
unfolding simplify_int
simplify-IsRead (int_lit n) h = refl
simplify-IsRead (int_ite (int_cmp op (int_lit i) (int_lit j)) (int_lit k) (int_lit l)) h = refl
simplify-IsRead _ h = cc

pub eval-IsRead :
    (a : IntExpr) (ints : IntAssignment) → IsRead a → eval_int a [] ints ≡ some (read a)
unfolding eval_int
eval-IsRead (int_lit n) ints h = refl
eval-IsRead (int_ite (int_cmp op (int_lit i) (int_lit j)) (int_lit k) (int_lit l)) ints h = refl
eval-IsRead _ ints h = cc

propagate_constraints-AllReadable :
    (cs : List BoolExpr) (r : Progress) → AllReadable cs → propagate_constraints cs r ≡ some r
unfolding propagate_constraints
propagate_constraints-AllReadable [] r h = refl
propagate_constraints-AllReadable (int_cmp op a b ∷ cs) r (h, h') =
    propagate_constraints-AllReadable cs r h'
propagate_constraints-AllReadable (_ ∷ cs) r (h, h') = cc

pub propagate-AllReadable :
    (cs : List BoolExpr) (env : Assignment) → AllReadable cs → propagate cs [] env ≡ stable env
unfolding propagate
propagate-AllReadable cs env h =
    ap (λ o. again o (λ env'. propagate_fuel (length (constraint_names cs)) cs [] env'))
      (propagate_constraints-AllReadable cs (env, false) h)

pub collect_constraints-AllReadable :
    (cs : List BoolExpr) (vs : Vars) → AllReadable cs → collect_constraints cs vs ≡ vs
unfolding collect_constraints
collect_constraints-AllReadable [] vs h = refl
collect_constraints-AllReadable (int_cmp op a b ∷ cs) vs ((h, k), h') =
    ap (collect_constraints cs)
      (ap (collect_int_vars b) (collect-IsRead a vs h) ∙ collect-IsRead b vs k)
    ∙ collect_constraints-AllReadable cs vs h'
collect_constraints-AllReadable (_ ∷ cs) vs (h, h') = cc

-- what `verify_all` gathers
abbrev pub gathered : List BoolExpr → List IntConstraint
gathered (int_cmp op a b ∷ cs) = record { op = op; left = a; right = b } ∷ gathered cs
gathered _ = []

pub verify_all-AllReadable :
    (cs : List BoolExpr) (ints : List IntConstraint)
    → AllReadable cs
    → verify_all cs [] ints ≡ some (ints ++ gathered cs)
unfolding verify_all
verify_all-AllReadable [] ints h = ap (λ x. some x) (sym (append-nil ints))
verify_all-AllReadable (int_cmp op a b ∷ cs) ints ((h, k), h') =
    ap₂ (λ x y. verify_all cs [] (ints ++ record { op = op; left = x; right = y } ∷ []))
      (simplify-IsRead a h) (simplify-IsRead b k)
    ∙ verify_all-AllReadable cs (ints ++ record { op = op; left = a; right = b } ∷ []) h'
    ∙ ap (λ x. some x)
        (append_assoc ints (record { op = op; left = a; right = b } ∷ []) (gathered cs))
verify_all-AllReadable (_ ∷ cs) ints (h, h') = cc

read_values-IsRead :
    (op : IntCmpOp) (a b : IntExpr) (x y : ℕ) (bounds : Bounds)
    → IsRead a
    → IsRead b
    → read_values op a b (some x) (some y) bounds
      ≡ (if compare_ints op x y then some bounds else none)
unfolding read_values
read_values-IsRead op a b x y bounds h k = refl

pub read_constraints-AllReadable :
    (cs : List BoolExpr) (ints : IntAssignment) (bounds : Bounds)
    → AllReadable cs
    → read_constraints (gathered cs) [] ints bounds ≡ (if all_compare cs then some bounds else none)
unfolding read_constraints eval_int
read_constraints-AllReadable [] ints bounds h = refl
read_constraints-AllReadable (int_cmp op a b ∷ cs) ints bounds ((h, k), h') =
    ap rest (
      ap₂ (λ x y. read_values op a b x y bounds) (eval-IsRead a ints h) (eval-IsRead b ints k)
      ∙ read_values-IsRead op a b (read a) (read b) bounds h k)
    ∙ go (compare_ints op (read a) (read b)) (read_constraints-AllReadable cs ints bounds h')
  where
    rest : Option Bounds → Option Bounds
    rest o = elim o [ none ↦ none | some bounds' ↦ read_constraints (gathered cs) [] ints bounds' ]

    go :
        (c : Bool)
        → read_constraints (gathered cs) [] ints bounds
          ≡ (if all_compare cs then some bounds else none)
        → rest (if c then some bounds else none)
          ≡ (if c && all_compare cs then some bounds else none)
    go true e = e
    go false e = refl
read_constraints-AllReadable (_ ∷ cs) ints bounds (h, h') = cc

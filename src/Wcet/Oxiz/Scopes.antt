-- ===== src/Wcet/Oxiz/Scopes.antt =====
-- crates/causm-smt/src/oxiz/backend.rs: the scopes of `OxiZBackend`.
use causm.Prelude.{
  ℕ, zero, suc, ◌≡◌, refl, sym, ap, ◌∙◌, subst, Bool, true, String, List, [], ◌∷◌, ◌++◌, length,
  drop, take,
}
use causm.Smt.Ast.{BoolExpr}
use causm.Smt.Ast.Meaning.{holds}
use causm.Smt.Propagate.Keeps.{IsModel}
use causm.Smt.Solver.{OxiZSolver, pop, pop_one}
use causm.Smt.Solver.Flat.{IsModel-append, append-IsModel}
use causm.Smt.Solver.Ground.{IsGround, AllGround}
use causm.Wcet.Backend.{All, AllScopes}

-- the open scopes
abbrev pub all_of : List (List BoolExpr) → List BoolExpr
all_of [] = []
all_of (ps ∷ v) = all_of v ++ ps

abbrev pub marks : List (List BoolExpr) → List ℕ
marks [] = []
marks (ps ∷ v) = length (all_of v) ∷ marks v

abbrev pub Reaches : OxiZSolver → List (List BoolExpr) → Type 0
Reaches s v = (s.assertions ≡ all_of v) × (s.scopes ≡ marks v)

take-all : (xs ys : List BoolExpr) → take (length xs) (xs ++ ys) ≡ xs
take-all [] ys = refl
take-all (x ∷ xs) ys = ap (λ zs. x ∷ zs) (take-all xs ys)

drop-nil : (n : ℕ) → drop {A = List BoolExpr} n [] ≡ []
drop-nil zero = refl
drop-nil (suc n) = refl

pub pop-Reaches :
    (n : ℕ) (s : OxiZSolver) (v : List (List BoolExpr)) → Reaches s v → Reaches (pop n s) (drop n v)
unfolding pop pop_one
pop-Reaches zero s v r = r
pop-Reaches (suc n) s [] (a, e) =
    subst (λ (ms : List ℕ). Reaches (pop n (pop_one ms s)) []) (sym e)
      (subst (Reaches (pop n (record s { assertions = [] }))) (drop-nil n)
        (pop-Reaches n (record s { assertions = [] }) [] (refl, e)))
pop-Reaches (suc n) s (ps ∷ v) (a, e) =
    subst (λ (ms : List ℕ). Reaches (pop n (pop_one ms s)) (drop n v)) (sym e)
      (pop-Reaches n _ v (ap (take (length (all_of v))) a ∙ take-all (all_of v) ps, refl))

pub all_of-AllGround : (v : List (List BoolExpr)) → AllScopes IsGround v → AllGround (all_of v)
all_of-AllGround [] g = tt
all_of-AllGround (ps ∷ v) (g, h) = append_all (all_of v) ps (all_of-AllGround v h) (each ps g)
  where
    append_all : (xs ys : List BoolExpr) → AllGround xs → AllGround ys → AllGround (xs ++ ys)
    append_all [] ys a a' = a'
    append_all (x ∷ xs) ys (p, a) a' = (p, append_all xs ys a a')

    each : (xs : List BoolExpr) → All IsGround xs → AllGround xs
    each [] a = tt
    each (x ∷ xs) (p, a) = (p, each xs a)

module _ (ρ : String → Bool) (σ : String → ℕ) where
  pub IsModel-all_of :
      (v : List (List BoolExpr)) → IsModel ρ σ (all_of v) → AllScopes (λ p. holds ρ σ p ≡ true) v
  IsModel-all_of [] m = tt
  IsModel-all_of (ps ∷ v) m =
      let (n, m') = IsModel-append ρ σ (all_of v) ps m in (each ps m', IsModel-all_of v n)
    where
      each : (xs : List BoolExpr) → IsModel ρ σ xs → All (λ p. holds ρ σ p ≡ true) xs
      each [] m = tt
      each (x ∷ xs) (h, m) = (h, each xs m)

  pub all_of-IsModel :
      (v : List (List BoolExpr)) → AllScopes (λ p. holds ρ σ p ≡ true) v → IsModel ρ σ (all_of v)
  all_of-IsModel [] m = tt
  all_of-IsModel (ps ∷ v) (m, n) = append-IsModel ρ σ (all_of v) ps (all_of-IsModel v n) (each ps m)
    where
      each : (xs : List BoolExpr) → All (λ p. holds ρ σ p ≡ true) xs → IsModel ρ σ xs
      each [] m = tt
      each (x ∷ xs) (h, m) = (h, each xs m)

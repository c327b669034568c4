-- ===== src/Wcet/Backend.antt =====
-- crates/causm-smt/src/backend.rs: the trait `SolverBackend`, the interface through which the
-- analyses ask a solver, and what they rely on.
use causm.Prelude.{
  ℕ, ◌≡◌, Bool, true, ◌&&◌, not, Option, some, List, [], ◌∷◌, ◌++◌, drop, ltb, leb, ◌==◌,
  if◌then◌else◌,
}

pub record SolverBackend : Type 1 where
  pub State : Type 0
  pub BoolTerm : Type 0
  pub IntTerm : Type 0
  pub new : State
  pub reset : State → State
  pub check : State → Bool × State
  pub push : State → State
  pub pop : ℕ → State → State
  pub assert : BoolTerm → State → State
  pub bool_from_bool : Bool → BoolTerm
  pub bool_not : BoolTerm → BoolTerm
  pub bool_and : List BoolTerm → BoolTerm
  pub int_from_u64 : ℕ → IntTerm
  pub int_add : List IntTerm → IntTerm
  pub int_lt : IntTerm → IntTerm → BoolTerm
  pub int_le : IntTerm → IntTerm → BoolTerm
  pub int_gt : IntTerm → IntTerm → BoolTerm
  pub int_ge : IntTerm → IntTerm → BoolTerm
  pub int_eq : IntTerm → IntTerm → BoolTerm
  pub int_ite : BoolTerm → IntTerm → IntTerm → IntTerm
  pub eval_u64 : IntTerm → State → Option ℕ

-- a property of every assertion of a scope, and of every scope
abbrev pub All : {A : Type 0} → (A → Type 0) → List A → Type 0
All P [] = Unit {0}
All P (x ∷ xs) = P x × All P xs

abbrev pub AllScopes : {A : Type 0} → (A → Type 0) → List (List A) → Type 0
AllScopes P [] = Unit {0}
AllScopes P (xs ∷ v) = All P xs × AllScopes P v

-- What a solver promises of the terms that it supports. `plus` is its addition; `Reaches s v` says
-- that `s` has open scopes with the assertions `v`, the innermost scope first, and none outside of
-- them. A solver that does not support conditional terms and negation has no `Choice`.
pub record IsSolver (b : SolverBackend) : Type 1 where
  pub Model : Type 0
  pub some_model : Model
  pub value : Model → b.IntTerm → ℕ
  pub truth : Model → b.BoolTerm → Bool
  pub Supported : b.IntTerm → Type 0
  pub SupportedBool : b.BoolTerm → Type 0
  pub Choice : Type 0
  pub plus : ℕ → ℕ → ℕ
  pub Reaches : b.State → List (List b.BoolTerm) → Type 0
  -- terms
  pub bool_supported : (c : Bool) → SupportedBool (b.bool_from_bool c)
  pub bool_truth : (m : Model) (c : Bool) → truth m (b.bool_from_bool c) ≡ c
  pub and_supported :
      (p q : b.BoolTerm)
      → SupportedBool p
      → SupportedBool q
      → SupportedBool (b.bool_and (p ∷ q ∷ []))
  pub and_truth :
      (m : Model) (p q : b.BoolTerm) → truth m (b.bool_and (p ∷ q ∷ [])) ≡ truth m p && truth m q
  pub int_supported : (n : ℕ) → Supported (b.int_from_u64 n)
  pub int_value : (m : Model) (n : ℕ) → value m (b.int_from_u64 n) ≡ n
  pub add_supported :
      (s t : b.IntTerm) → Supported s → Supported t → Supported (b.int_add (s ∷ t ∷ []))
  pub add_value :
      (m : Model) (s t : b.IntTerm)
      → Supported s
      → Supported t
      → value m (b.int_add (s ∷ t ∷ [])) ≡ plus (value m s) (value m t)
  pub compare_supported :
      (s t : b.IntTerm)
      → Supported s
      → Supported t
      → SupportedBool (b.int_lt s t)
        × SupportedBool (b.int_le s t)
        × SupportedBool (b.int_gt s t)
        × SupportedBool (b.int_ge s t)
        × SupportedBool (b.int_eq s t)
  pub compare_truth :
      (m : Model) (s t : b.IntTerm)
      → (truth m (b.int_lt s t) ≡ ltb (value m s) (value m t))
        × (truth m (b.int_le s t) ≡ leb (value m s) (value m t))
        × (truth m (b.int_gt s t) ≡ ltb (value m t) (value m s))
        × (truth m (b.int_ge s t) ≡ leb (value m t) (value m s))
        × (truth m (b.int_eq s t) ≡ (value m s == value m t))
  pub not_supported : Choice → (p : b.BoolTerm) → SupportedBool p → SupportedBool (b.bool_not p)
  pub not_truth : (m : Model) (p : b.BoolTerm) → truth m (b.bool_not p) ≡ not (truth m p)
  pub ite_supported :
      Choice
      → (p : b.BoolTerm) (s t : b.IntTerm) → SupportedBool p
      → Supported s
      → Supported t
      → Supported (b.int_ite p s t)
  pub ite_value :
      (m : Model) (p : b.BoolTerm) (s t : b.IntTerm)
      → value m (b.int_ite p s t) ≡ (if truth m p then value m s else value m t)
  -- scopes
  pub new_reaches : Reaches b.new []
  pub reset_reaches : (s : b.State) → Reaches (b.reset s) []
  pub push_reaches :
      (s : b.State) (v : List (List b.BoolTerm)) → Reaches s v → Reaches (b.push s) ([] ∷ v)
  pub assert_reaches :
      (p : b.BoolTerm) (s : b.State) (ps : List b.BoolTerm) (v : List (List b.BoolTerm))
      → Reaches s (ps ∷ v)
      → Reaches (b.assert p s) ((ps ++ p ∷ []) ∷ v)
  pub pop_reaches :
      (n : ℕ) (s : b.State) (v : List (List b.BoolTerm))
      → Reaches s v
      → Reaches (b.pop n s) (drop n v)
  pub check_reaches :
      (s : b.State) (v : List (List b.BoolTerm)) → Reaches s v → Reaches (b.check s).1 v
  -- answers
  pub check_sound :
      (s : b.State) (v : List (List b.BoolTerm))
      → Reaches s v
      → AllScopes SupportedBool v
      → (b.check s).0 ≡ true
      → (m : Model) × AllScopes (λ p. truth m p ≡ true) v
        × ((t : b.IntTerm) → Supported t → b.eval_u64 t (b.check s).1 ≡ some (value m t))
  pub check_complete :
      (s : b.State) (v : List (List b.BoolTerm)) (m : Model)
      → Reaches s v
      → AllScopes SupportedBool v
      → AllScopes (λ p. truth m p ≡ true) v
      → (b.check s).0 ≡ true

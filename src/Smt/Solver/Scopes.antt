-- ===== src/Smt/Solver/Scopes.antt =====
-- crates/causm-smt/src/oxiz/solver.rs: `pop` behind the work of a scope.
use causm.Prelude.{
  ◌≡◌, refl, ap, sym, ◌∙◌, Bool, true, false, Option, some, none, String, List, [], ◌∷◌, ◌++◌,
  length, take, append_assoc, append-nil,
}
use causm.Smt.Ast.{BoolExpr}
use causm.Smt.Solver.{OxiZSolver, push, pop_one, pop, assert, check}
use causm.Smt.Solver.Sound.{Checked, check-Checked}

-- the calls of a client between a `push` and its `pop`
pub data Work : Type 0 where
  done : Work
  assert_then : BoolExpr → Work → Work
  check_then : Work → Work
  scope_then : Work → Work → Work

-- the solver behind a check, whatever the answer
abbrev pub after_check : Option (Bool × OxiZSolver) → OxiZSolver → OxiZSolver
after_check none s = s
after_check (some (b, s')) s = s'

module _ (iterate : List String → List String) where
  unfoldable pub work : Work → OxiZSolver → OxiZSolver
  unfolding check assert push pop
  work done s = s
  work (assert_then e w) s = work w (assert e s)
  work (check_then w) s = work w (after_check (check iterate s) s)
  work (scope_then inner w) s = work w (pop 1 (work inner (push s)))

  -- the assertions grow at the end, and the scopes are as before
  abbrev Extended : OxiZSolver → OxiZSolver → Type 0
  Extended s s' =
      (more : List BoolExpr) × (s'.assertions ≡ s.assertions ++ more) × (s'.scopes ≡ s.scopes)

  after_check-Extended :
      (s : OxiZSolver) (o : Option (Bool × OxiZSolver))
      → Checked iterate s o
      → Extended s (after_check o s)
  after_check-Extended s none c = ([], sym (append-nil s.assertions), refl)
  after_check-Extended s (some (true, s')) (a, b) = ([], a ∙ sym (append-nil s.assertions), b)
  after_check-Extended s (some (false, s')) c = (
    [],
    ap (λ (t : OxiZSolver). t.assertions) c ∙ sym (append-nil s.assertions),
    ap (λ (t : OxiZSolver). t.scopes) c,
  )

  Extended-trans : (s t u : OxiZSolver) → Extended s t → Extended t u → Extended s u
  Extended-trans s t u (xs, a, b) (ys, c, d) =
      (xs ++ ys, c ∙ ap (λ zs. zs ++ ys) a ∙ append_assoc s.assertions xs ys, d ∙ b)

  take-length : (xs ys : List BoolExpr) → take (length xs) (xs ++ ys) ≡ xs
  take-length [] ys = refl
  take-length (x ∷ xs) ys = ap (λ zs. x ∷ zs) (take-length xs ys)

  -- `pop` behind a scope's work
  closed :
      (s t : OxiZSolver)
      → Extended (push s) t
      → ((pop 1 t).assertions ≡ s.assertions) × ((pop 1 t).scopes ≡ s.scopes)
  unfolding push pop
  closed s t (more, a, b) = (
    ap (λ ns. (pop_one ns t).assertions) b
        ∙ ap (take (length s.assertions)) a
        ∙ take-length s.assertions more,
    ap (λ ns. (pop_one ns t).scopes) b,
  )

  work-Extended : (w : Work) (s : OxiZSolver) → Extended s (work w s)
  unfolding work
  work-Extended done s = ([], sym (append-nil s.assertions), refl)
  work-Extended (assert_then e w) s =
      Extended-trans s (assert e s) (work w (assert e s)) (e ∷ [], refl, refl)
        (work-Extended w (assert e s))
  work-Extended (check_then w) s =
      let t : OxiZSolver = after_check (check iterate s) s in
      Extended-trans s t (work w t)
        (after_check-Extended s (check iterate s) (check-Checked iterate s)) (work-Extended w t)
  work-Extended (scope_then inner w) s =
      let t : OxiZSolver = pop 1 (work inner (push s)) in
      let (a, b) = closed s (work inner (push s)) (work-Extended inner (push s)) in
      Extended-trans s t (work w t) ([], a ∙ sym (append-nil s.assertions), b) (work-Extended w t)

  -- A scope leaves no trace in the assertions: `push`, any work of assertions, checks and scopes
  -- that are closed again, and `pop` give the assertions and the scopes of before.
  pub pop-work-push :
      (w : Work) (s : OxiZSolver)
      → ((pop 1 (work w (push s))).assertions ≡ s.assertions)
        × ((pop 1 (work w (push s))).scopes ≡ s.scopes)
  pop-work-push w s = closed s (work w (push s)) (work-Extended w (push s))

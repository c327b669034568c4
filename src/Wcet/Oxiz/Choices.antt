-- ===== src/Wcet/Oxiz/Choices.antt =====
-- crates/causm-wcet/src/wcet.rs with crates/causm-smt/src/oxiz/solver.rs: the larger of two clocks, as
-- `OxiZBackend` reads it.
use causm.Prelude.{
  ℕ, ◌<◌, ◌≡◌, refl, ap, ◌∙◌, true, false, some, String, List, [], ◌∷◌, ltb, ◌==◌, ◌&&◌,
  if◌then◌else◌, arith,
}
use causm.Smt.Ast.{gt, BoolExpr, lit, int_cmp, IntExpr, int_lit, int_ite, same_int}
use causm.Smt.Ast.Meaning.{compare_ints}
use causm.Smt.Build
use causm.Smt.Eval.{Assignment, IntAssignment}
use causm.Smt.Dpll.{sat, unsat}
use causm.Smt.Dpll.Clauses.{IsOrder}
use causm.Smt.Solver.{OxiZSolver, answered, push, assert, check, eval_u64}
use causm.Smt.Solver.Ground.Readable.{eval-IsRead}
use causm.Smt.Solver.Ground.Search.{solve_dpll-AllReadable}
use causm.Wcet.{larger}
use causm.Wcet.Max.{check_with, from_initial, find_max_value}
use causm.Wcet.Backend.{SolverBackend}
use causm.Wcet.Oxiz.{answer, oxiz}

-- The first value that is found is the answer, if none is larger.
first_is_largest :
    (b : SolverBackend) (val : b.IntTerm) (p : b.BoolTerm) (n : ℕ) (s s' s'' : b.State)
    → check_with b p s ≡ (true, s')
    → b.eval_u64 val s' ≡ some n
    → check_with b (b.int_gt val (b.int_from_u64 n)) s' ≡ (false, s'')
    → (find_max_value b val p s).0 ≡ some n
unfolding find_max_value from_initial
first_is_largest b val p n s s' s'' e f g = rw e (rw f (rw g refl))

module _ (iterate : List String → List String) (order : IsOrder iterate) (i j : ℕ) where
  abbrev chosen : IntExpr
  chosen = int_ite (int_cmp gt (int_lit i) (int_lit j)) (int_lit i) (int_lit j)

  same_size : j < i → (i == j) ≡ false
  same_size lt = ground arith

  larger-chosen : j < i → larger (oxiz iterate) (int_lit i) (int_lit j) ≡ chosen
  unfolding Build.choose same_int
  larger-chosen lt = rw (same_size lt) refl

  -- what is asserted when the first and when the second question is put
  abbrev asked : List ℕ → List BoolExpr → Assignment → IntAssignment → OxiZSolver
  asked ns cs bools ints = record {
    assertions = lit true ∷ cs;
    scopes = ns;
    model_bools = bools;
    model_ints = ints;
  }

  check-true :
      (ns : List ℕ) (bools : Assignment) (ints : IntAssignment)
      → check iterate (asked ns [] bools ints) ≡ some (true, asked ns [] [] [])
  unfolding check
  check-true ns bools ints =
      ap (λ a. answered a (asked ns [] bools ints)) (solve_dpll-AllReadable iterate order [] tt)

  abbrev exceeds : BoolExpr
  exceeds = int_cmp gt chosen (int_lit j)

  check-exceeds :
      (ns : List ℕ) (bools : Assignment) (ints : IntAssignment)
      → check iterate (asked ns (exceeds ∷ []) bools ints)
        ≡ some (false, asked ns (exceeds ∷ []) bools ints)
  unfolding check compare_ints
  check-exceeds ns bools ints =
      let e : (ltb j j && true) ≡ false = ground arith in
      ap (λ a. answered a (asked ns (exceeds ∷ []) bools ints))
        (solve_dpll-AllReadable iterate order (exceeds ∷ []) ((tt, tt), tt)
          ∙ ap (λ c. if c then sat [] [] else unsat []) e)

  find-chosen :
      (bools : Assignment) (ints : IntAssignment)
      → (find_max_value
          (oxiz iterate)
          chosen
          (lit true)
          (record { assertions = []; scopes = []; model_bools = bools; model_ints = ints })).0
        ≡ some j
  unfolding push assert eval_u64
  find-chosen bools ints =
      first_is_largest (oxiz iterate) chosen (lit true) j
        (record { assertions = []; scopes = []; model_bools = bools; model_ints = ints })
        (asked (0 ∷ []) [] [] []) (asked (1 ∷ 0 ∷ []) (exceeds ∷ []) [] [])
        (ap (answer (asked (0 ∷ []) [] bools ints)) (check-true (0 ∷ []) bools ints))
        (eval-IsRead chosen [] tt)
        (ap (answer (asked (1 ∷ 0 ∷ []) (exceeds ∷ []) [] [])) (check-exceeds (1 ∷ 0 ∷ []) [] []))

  -- Where the then branch of an `If` ends at `i`, later than the else branch at `j`, the analysis
  -- with the solver of the repository finds that the `If` ends at `j` at the latest.
  pub find_max_value-larger :
      (bools : Assignment) (ints : IntAssignment)
      → j < i
      → (find_max_value
          (oxiz iterate)
          (larger (oxiz iterate) (int_lit i) (int_lit j))
          (lit true)
          (record { assertions = []; scopes = []; model_bools = bools; model_ints = ints })).0
        ≡ some j
  find_max_value-larger bools ints lt =
      ap
        (λ t.
          (find_max_value (oxiz iterate) t (lit true)
            (record { assertions = []; scopes = []; model_bools = bools; model_ints = ints })).0)
        (larger-chosen lt)
      ∙ find-chosen bools ints

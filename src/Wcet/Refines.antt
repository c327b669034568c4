-- ===== src/Wcet/Refines.antt =====
-- crates/causm-wcet/src/wcet.rs: the analysis with a solver, compared with that of numbers.
pub mod Steps
pub mod Statements
pub mod Programs
use causm.Prelude.{
  ℕ, suc, ◌≡◌, refl, sym, ap, ap₂, ◌∙◌, subst, Bool, true, false, ◌&&◌, not, Bool-cases, Option,
  some, none, String, List, [], ◌∷◌, inl, inr, ltb, leb, ◌==◌, if◌then◌else◌, Result, ok, err,
  u64_max,
}
use causm.Wcet.Backend.{SolverBackend, IsSolver}
use causm.Wcet.Max.{check_with, find_max_value}
use causm.Wcet.Max.Largest.{Constant, find_max_value_constant}
use causm.Wcet.Scopes.{Ready, Answers, check_with-Ready, check_with-Answers, pop-Ready}
use causm.Wcet.{
  Stop, temporal_assertion_violation, pacing_violation, unwrap_or, WcetSolver, Outcome, new,
  then_with, refuse_if, add, both, larger, misses, iteration_cost, after_for, after_for_step,
  after_limit, record_wcet, after_routine, leave_routine, verify_statement_wcet, verify_block_wcet,
}
use causm.Wcet.Times.{
  Known, Timed, timed_then, missed, longer, unless, iteration_time, within_limit, routine_time,
  back, time_for, time_for_step, statement_time, block_time,
}
use causm.Wcet.Cost.{
  TimeOperator, lt, gt, le, ge, eq, neq, other, Statement, assert_time, isolate, routine_def,
  for_in, for_step, if_else, directive_block, slice, loop_tick, relativistic_block, commit,
  decay_handler, Block, stop, then_do, estimate_statement_cost,
}

module _ (b : SolverBackend) (v : IsSolver b) where
  -- a condition that is `c`, whatever the unknowns are
  abbrev pub Decided : b.BoolTerm → Bool → Type 0
  Decided p c = v.SupportedBool p × ((m : v.Model) → v.truth m p ≡ c)

  -- The solver is between two questions, and the rest of the state is that of the numbers.
  abbrev pub SameState : WcetSolver b → Known → Type 0
  SameState w (analyzed, current) =
      v.Reaches w.solver [] × (w.analyzed_wcet ≡ analyzed) × (w.current_slice_ms ≡ current)

  abbrev pub SameResult : Result Stop b.IntTerm → Result Stop ℕ → Type 0
  SameResult (ok c) (ok n) = Constant b v c n
  SameResult (err e) (err e') = e ≡ e'
  SameResult _ _ = true ≡ false

  abbrev pub Refines : Outcome b → Timed → Type 0
  Refines (w, r) (k, q) = SameState w k × SameResult r q

  pub then_with-Refines :
      (o : Outcome b) (o' : Timed) (f : b.IntTerm → WcetSolver b → Outcome b)
      (f' : ℕ → Known → Timed)
      → Refines o o'
      → ((c : b.IntTerm) (n : ℕ) (w : WcetSolver b) (k : Known)
          → Constant b v c n
          → SameState w k
          → Refines (f c w) (f' n k))
      → Refines (then_with b o f) (timed_then o' f')
  then_with-Refines (w, ok c) (k, ok n) f f' (s, r) g = g c n w k r s
  then_with-Refines (w, err e) (k, err e') f f' (s, r) g = (s, r)
  then_with-Refines (w, ok c) (k, err e') f f' (s, r) g = cc
  then_with-Refines (w, err e) (k, ok n) f f' (s, r) g = cc

  -- terms
  pub literal-Constant : (n : ℕ) → Constant b v (b.int_from_u64 n) n
  literal-Constant n = (v.int_supported n, λ m. v.int_value m n)

  pub add-Constant :
      (x y : b.IntTerm) (i j : ℕ)
      → Constant b v x i
      → Constant b v y j
      → Constant b v (add b x y) (v.plus i j)
  add-Constant x y i j (s, e) (s', e') =
      (v.add_supported x y s s', (λ m. v.add_value m x y s s' ∙ ap₂ v.plus (e m) (e' m)))

  pub both-Decided :
      (p q : b.BoolTerm) (c : Bool) → Decided p true → Decided q c → Decided (both b p q) c
  both-Decided p q c (s, e) (s', e') =
      (v.and_supported p q s s', (λ m. v.and_truth m p q ∙ ap₂ (λ x y. x && y) (e m) (e' m)))

  pub gt-Decided :
      (x y : b.IntTerm) (i j : ℕ)
      → Constant b v x i
      → Constant b v y j
      → Decided (b.int_gt x y) (ltb j i)
  gt-Decided x y i j (s, e) (s', e') =
      ((v.compare_supported x y s s').2, (λ m. (v.compare_truth m x y).2 ∙ ap₂ ltb (e' m) (e m)))

  pub larger-Constant :
      (x y : b.IntTerm) (i j : ℕ)
      → v.Choice
      → Constant b v x i
      → Constant b v y j
      → Constant b v (larger b x y) (longer i j)
  larger-Constant x y i j ch (s, e) (s', e') =
      let (sg, eg) = gt-Decided x y i j (s, e) (s', e') in
      (
        v.ite_supported ch (b.int_gt x y) x y sg s s',
        (λ m. v.ite_value m (b.int_gt x y) x y ∙ go m (eg m)),
      )
    where
      go :
          (m : v.Model)
          → v.truth m (b.int_gt x y) ≡ ltb j i
          → (if v.truth m (b.int_gt x y) then v.value m x else v.value m y) ≡ longer i j
      go m h = rw h (rw (e m) (rw (e' m) refl))

  -- the comparisons of `assert_time`, of which `==` needs the negation
  abbrev pub Choosing : Bool → Type 0
  Choosing true = v.Choice
  Choosing false = Unit {0}

  abbrev pub negates : TimeOperator → Bool
  negates eq = true
  negates _ = false

  pub misses-Decided :
      (op : TimeOperator) (x y : b.IntTerm) (i j : ℕ)
      → Choosing (negates op)
      → Constant b v x i
      → Constant b v y j
      → Decided (misses b op x y) (missed op i j)
  unfolding misses missed
  misses-Decided gt x y i j ch (s, e) (s', e') =
      ((v.compare_supported x y s s').1, (λ m. (v.compare_truth m x y).1 ∙ ap₂ leb (e m) (e' m)))
  misses-Decided lt x y i j ch (s, e) (s', e') =
      ((v.compare_supported x y s s').3, (λ m. (v.compare_truth m x y).3 ∙ ap₂ leb (e' m) (e m)))
  misses-Decided ge x y i j ch (s, e) (s', e') =
      ((v.compare_supported x y s s').0, (λ m. (v.compare_truth m x y).0 ∙ ap₂ ltb (e m) (e' m)))
  misses-Decided le x y i j ch c d = gt-Decided x y i j c d
  misses-Decided eq x y i j ch (s, e) (s', e') = (
    v.not_supported ch (b.int_eq x y) (v.compare_supported x y s s').4,
    (λ m.
        v.not_truth m (b.int_eq x y)
        ∙ ap not ((v.compare_truth m x y).4 ∙ ap₂ (λ u w. u == w) (e m) (e' m))),
  )
  misses-Decided neq x y i j ch (s, e) (s', e') = (
    (v.compare_supported x y s s').4,
    (λ m. (v.compare_truth m x y).4 ∙ ap₂ (λ u w. u == w) (e m) (e' m)),
  )
  misses-Decided other x y i j ch c d = (v.bool_supported false, λ m. v.bool_truth m false)

  -- a decided question is refused exactly if it is true, with the number that the term is
  pub refuse_if-Refines :
      (q : b.BoolTerm) (c : Bool) (val clock : b.IntTerm) (n k : ℕ) (error : ℕ → Stop)
      (w : WcetSolver b) (known : Known)
      → Decided q c
      → Constant b v val n
      → Constant b v clock k
      → SameState w known
      → Refines (refuse_if b q val error clock w) (unless c (error n) k known)
  unfolding refuse_if
  refuse_if-Refines q c val clock n k error w known (sq, t) (sv, e) d (r, same, same') = (
    ((pop-Ready b v [] (q ∷ []) s (check_with-Ready b v [] q w.solver (r, tt) sq)).0, same, same'),
    go c (check_with b q w.solver).0 t (check_with-Answers b v [] q w.solver (r, tt) sq),
  )
    where
      s : b.State
      s = (check_with b q w.solver).1

      go :
          (c' yes : Bool)
          → ((m : v.Model) → v.truth m q ≡ c')
          → Answers b v [] q yes s
          → SameResult
              (if yes then err (error (unwrap_or 0 (b.eval_u64 val s))) else ok clock)
              (if c' then err (error n) else ok k)
      go true true t' (m, u, h, f) =
          ap (λ (o : Option ℕ). error (unwrap_or 0 o)) (f val sv ∙ ap (λ x. some x) (e m))
      go false true t' (m, u, h, f) = cc (t' m, h)
      go true false t' a = cc (t' v.some_model, a v.some_model tt)
      go false false t' a = d

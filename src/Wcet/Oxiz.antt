-- ===== src/Wcet/Oxiz.antt =====
-- crates/causm-smt/src/oxiz/backend.rs: `OxiZBackend`, the solver behind the interface.
pub mod Terms
pub mod Scopes
pub mod Solver
pub mod Choices
use causm.Prelude.{ℕ, Bool, true, false, Option, some, none, String, List, [], ◌∷◌}
use causm.Smt.Ast.{
  IntCmpOp, lt, le, gt, ge, BoolExpr, lit, int_cmp, IntExpr, int_lit, Bools, no_bools, bool, Ints,
  no_ints, int,
}
use causm.Smt.Build
use causm.Smt.Solver.{OxiZSolver, new, reset, push, pop, assert, check, eval_u64}
use causm.Wcet.Backend.{SolverBackend}

abbrev pub bools : List BoolExpr → Bools
bools [] = no_bools
bools (a ∷ as') = bool a (bools as')

abbrev pub ints : List IntExpr → Ints
ints [] = no_ints
ints (a ∷ as') = int a (ints as')

-- `check` always gives an answer; the last line is never reached
abbrev pub answer : OxiZSolver → Option (Bool × OxiZSolver) → Bool × OxiZSolver
answer s (some r) = r
answer s none = (false, s)

abbrev pub oxiz : (List String → List String) → SolverBackend
oxiz iterate = record {
  State = OxiZSolver;
  BoolTerm = BoolExpr;
  IntTerm = IntExpr;
  new = new;
  reset = reset;
  check = λ s. answer s (check iterate s);
  push = push;
  pop = pop;
  assert = assert;
  bool_from_bool = lit;
  bool_not = Build.not;
  bool_and = λ args. Build.and (bools args);
  int_from_u64 = int_lit;
  int_add = λ args. Build.add (ints args);
  int_lt = int_cmp lt;
  int_le = int_cmp le;
  int_gt = int_cmp gt;
  int_ge = int_cmp ge;
  int_eq = int_cmp IntCmpOp.eq;
  int_ite = Build.choose;
  eval_u64 = eval_u64;
}

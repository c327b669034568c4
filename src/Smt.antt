-- ===== src/Smt.antt =====
-- crates/causm-smt/src/oxiz: the solver for formulas over Boolean and integer unknowns that the
-- analyses ask by default.
pub mod Ast
pub mod Names
pub mod Build
pub mod Eval
pub mod Propagate
pub mod Bounds
pub mod Dpll
pub mod Solver
mod Tests

-- ===== src/Wcet/Cost.antt =====
-- crates/causm-core/src/lib.rs: the statements, as far as their cost goes, with `estimate_cost`, and
-- `estimate_statement_cost` of crates/causm-types/src/statement.rs. An expression is the cost that
-- `estimate_expression_cost` gives it, and a block that is left out is the empty one, which the
-- code treats alike.
use causm.Prelude.{
  ℕ, max, Bool, Option, some, none, String, ◌==◌, if◌then◌else◌, add64, saturating_add, u64_max,
}

-- the operators of an assertion on the clock
pub data TimeOperator : Type 0 where
  lt gt le ge eq neq other : TimeOperator

mutual
  pub data Statement : Type 0 where
    -- assignments, field updates, expressions and prints; and what costs nothing but the statement
    simple : ℕ → Statement
    debug : ℕ → Statement
    using : ℕ → Block → Statement
    decay_handler commit : Block → Statement
    assert_time : TimeOperator → ℕ → Block → Statement
    relativistic_block : Block → Statement
    directive_block : Bool → Block → Statement
    isolate : Option ℕ → Block → Statement
    if_else if_let : Block → Block → Statement
    for_in : Option ℕ → Option ℕ → Block → Statement
    for_step : Option ℕ → Block → Statement
    speculate : Block → Block → Statement
    select : ℕ → Blocks → Block → Statement
    match_entropy : Block → Block → Block → Block → Statement
    match_arms : Blocks → Statement
    split_map loop_tick loop_on : Block → Statement
    lease slice : ℕ → Statement
    routine_def : String → Option ℕ → Block → Statement
    loop_max while_max : ℕ → Block → Statement
    await : Statement

  pub data Block : Type 0 where
    stop : Block
    then_do : Statement → Block → Block

  pub data Blocks : Type 0 where
    no_arms : Blocks
    arm : Block → Blocks → Blocks

abbrev pub or_one : Option ℕ → ℕ
or_one none = 1
or_one (some n) = n

-- a limit that is left out is the largest `u64`
abbrev pub limited : ℕ → ℕ → ℕ
limited max_ms cost = if max_ms == u64_max then cost else max_ms

-- the expressions of a statement
unfoldable pub expr_cost : Statement → ℕ
expr_cost (simple e) = e
expr_cost (debug e) = e
expr_cost (using e body) = e
expr_cost s = 0

unfoldable mutual
  -- the `extra` of `estimate_cost`
  pub extra_cost : Statement → ℕ
  extra_cost (debug e) = 1
  extra_cost (using e body) = estimate_block_cost body
  extra_cost (decay_handler body) = estimate_block_cost body
  extra_cost (assert_time op limit fallback) = estimate_block_cost fallback
  extra_cost (relativistic_block body) = estimate_block_cost body
  extra_cost (directive_block no_z3 body) = estimate_block_cost body
  extra_cost (isolate budget body) = estimate_block_cost body
  extra_cost (if_else a b) = max (estimate_block_cost a) (estimate_block_cost b)
  extra_cost (if_let a b) = max (estimate_block_cost a) (estimate_block_cost b)
  extra_cost (for_in pacing_ms max_ms body) = or_one pacing_ms
  extra_cost (for_step step_ms body) = or_one step_ms
  extra_cost (speculate body fallback) =
      add64 (estimate_block_cost body) (estimate_block_cost fallback)
  extra_cost (select max_ms cases timeout) =
      limited max_ms (max (largest_cost cases) (estimate_block_cost timeout))
  extra_cost (match_entropy a b c d) =
      max (max (max (estimate_block_cost a) (estimate_block_cost b)) (estimate_block_cost c))
        (estimate_block_cost d)
  extra_cost (match_arms arms) = largest_cost arms
  extra_cost (split_map body) = add64 1 (estimate_block_cost body)
  extra_cost (lease ms) = ms
  extra_cost (routine_def name taking_ms body) = estimate_block_cost body
  extra_cost (loop_max max_ms body) = limited max_ms (estimate_block_cost body)
  extra_cost (while_max max_ms body) = limited max_ms (estimate_block_cost body)
  extra_cost (loop_tick body) = 1
  extra_cost (loop_on body) = estimate_block_cost body
  extra_cost await = 1
  extra_cost (simple e) = 0
  extra_cost (commit body) = 0
  extra_cost (slice ms) = 0

  pub estimate_block_cost : Block → ℕ
  estimate_block_cost stop = 0
  estimate_block_cost (then_do s b) =
      add64 (add64 (expr_cost s) (saturating_add 1 (extra_cost s))) (estimate_block_cost b)

  pub largest_cost : Blocks → ℕ
  largest_cost no_arms = 0
  largest_cost (arm b bs) = max (estimate_block_cost b) (largest_cost bs)

unfoldable pub estimate_cost : Statement → ℕ
estimate_cost s = saturating_add 1 (extra_cost s)

unfoldable pub estimate_statement_cost : Statement → ℕ
estimate_statement_cost s = add64 (expr_cost s) (estimate_cost s)

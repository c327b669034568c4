-- ===== src/Wcet/Times.antt =====
-- crates/causm-wcet/src/wcet.rs: the analysis without a solver. The clocks are
-- numbers, which a statement moves on, and a contract is broken when the number is.
use causm.Prelude.{
  ℕ, suc, Bool, false, not, Option, some, none, String, List, [], ◌∷◌, ltb, leb, ◌==◌,
  if◌then◌else◌, Result, ok, err, u64_max,
}
use causm.Prelude.Assoc
use causm.Wcet.{Stop, temporal_assertion_violation, pacing_violation, unwrap_or}
use causm.Wcet.Cost.{
  TimeOperator, lt, gt, le, ge, eq, neq, other, Statement, assert_time, isolate, routine_def,
  for_in, for_step, if_else, directive_block, slice, loop_tick, relativistic_block, commit,
  decay_handler, Block, stop, then_do, estimate_statement_cost,
}

-- the times found so far, and the slice
abbrev pub Known : Type 0
Known = List (String × ℕ) × Option ℕ

abbrev pub Timed : Type 0
Timed = Known × Result Stop ℕ

abbrev pub timed_then : Timed → (ℕ → Known → Timed) → Timed
timed_then (k, err e) f = (k, err e)
timed_then (k, ok t) f = f t k

unfoldable pub missed : TimeOperator → ℕ → ℕ → Bool
missed gt clock limit = leb clock limit
missed lt clock limit = leb limit clock
missed ge clock limit = ltb clock limit
missed le clock limit = ltb limit clock
missed eq clock limit = not (clock == limit)
missed neq clock limit = clock == limit
missed other clock limit = false

-- the larger of two times
abbrev pub longer : ℕ → ℕ → ℕ
longer x y = if ltb y x then x else y

abbrev pub unless : Bool → Stop → ℕ → Known → Timed
unless broken e clock k = (k, if broken then err e else ok clock)

abbrev pub iteration_time : Option ℕ → ℕ → ℕ
iteration_time none loop = loop
iteration_time (some pacing) loop = longer loop pacing

abbrev pub within_limit : Option ℕ → ℕ → Known → Timed
within_limit none t k = (k, ok t)
within_limit (some limit) t k = unless (ltb limit t) (temporal_assertion_violation t limit) t k

abbrev pub routine_time : String → Option ℕ → ℕ → Known → Timed
routine_time name taking_ms t (analyzed, current) =
    within_limit taking_ms t (Assoc.insert name t analyzed, current)

-- a routine has a slice of its own
abbrev pub back : Known → ℕ → Timed → Timed
back (_, current) clock ((analyzed, _), err e) = ((analyzed, current), err e)
back (_, current) clock ((analyzed, _), ok t) = ((analyzed, current), ok clock)

abbrev pub timeline_then :
    String → (Known → Known × Result Stop (Unit {0})) → Timed → Known × Result Stop (Unit {0})
timeline_then name next (k, err e) = (k, err e)
timeline_then name next ((analyzed, current), ok t) = next (Assoc.insert name t analyzed, current)

-- `plus` is the solver's addition
module _ (plus : ℕ → ℕ → ℕ) where
  abbrev pub time_for : Option ℕ → Option ℕ → ℕ → ℕ → Known → Timed
  time_for pacing_ms (some max) clock loop k =
      let t = iteration_time pacing_ms loop in
      unless (ltb max t) (temporal_assertion_violation t max) (plus clock max) k
  time_for (some pacing) none clock loop k = (k, ok (plus clock pacing))
  time_for none none clock loop k = (k, ok (plus clock loop))

  abbrev pub time_for_step : Option ℕ → ℕ → ℕ → Known → Timed
  time_for_step (some ms) clock loop k = unless (ltb ms loop) pacing_violation (plus clock ms) k
  time_for_step none clock loop k = (k, ok (plus clock loop))

  abbrev pub time_after : Statement → ℕ → ℕ
  time_after stmt clock = plus clock (estimate_statement_cost stmt)

  unfoldable mutual
    unfolding missed

    pub statement_time : Statement → ℕ → Known → Timed
    statement_time (assert_time op limit_ms fallback) clock k =
        timed_then
          (unless (missed op clock limit_ms) (temporal_assertion_violation clock limit_ms)
            (time_after (assert_time op limit_ms fallback) clock) k)
          (block_time fallback)
    statement_time (isolate cpu_budget_ms body) clock k = timed_then (block_time body 0 k) (λ t.
        let budget = unwrap_or u64_max cpu_budget_ms in
        unless (ltb budget t) (temporal_assertion_violation 0 budget) clock)
    statement_time (routine_def name taking_ms body) clock k =
        back k clock (timed_then (block_time body 0 (k.0, none)) (routine_time name taking_ms))
    statement_time (for_in pacing_ms max_ms body) clock k =
        timed_then (block_time body 0 k) (time_for pacing_ms max_ms clock)
    statement_time (for_step step_ms body) clock k =
        timed_then (block_time body 0 k) (time_for_step step_ms clock)
    statement_time (if_else then_branch else_branch) clock k =
        let current = time_after (if_else then_branch else_branch) clock in
        timed_then (block_time then_branch current k) (λ t k'.
          timed_then (block_time else_branch current k') (λ t' k''. (k'', ok (longer t t'))))
    statement_time (directive_block no_z3 body) clock k =
        if no_z3
        then (k, ok (time_after (directive_block no_z3 body) clock))
        else block_time body clock k
    statement_time (slice milliseconds) clock k = ((k.0, some milliseconds), ok clock)
    statement_time (loop_tick body) clock k =
        timed_then (block_time body 0 k)
          (λ t k'. (k', ok (plus clock (longer t (unwrap_or 1 k.1)))))
    statement_time (relativistic_block body) clock k = block_time body clock k
    statement_time (commit body) clock k = block_time body clock k
    statement_time (decay_handler body) clock k = block_time body clock k
    statement_time stmt clock k = (k, ok (time_after stmt clock))

    pub block_time : Block → ℕ → Known → Timed
    block_time stop clock k = (k, ok clock)
    block_time (then_do stmt rest) clock k =
        timed_then (statement_time stmt clock k) (block_time rest)

  unfoldable pub timelines_time :
      (ℕ → String) → ℕ → List (Bool × Block) → Known → Known × Result Stop (Unit {0})
  unfolding statement_time
  timelines_time timeline_name idx [] k = (k, ok tt)
  timelines_time timeline_name idx ((no_z3, statements) ∷ rest) k =
      let next = timelines_time timeline_name (suc idx) rest in
      if no_z3
      then next (Assoc.insert (timeline_name idx) 0 k.0, k.1)
      else timeline_then (timeline_name idx) next (block_time statements 0 k)

-- ===== src/Branches/Tests.antt =====
-- Two branches whose registers are entangled, and the theorems on them.
use causm.Prelude.{
  str_eq, ◌≡◌, ◌≢◌, refl, sym, true, some, none, String, List, [], ◌∷◌, if◌then◌else◌, false, pos,
  eq_iff, arith, ok,
}
use causm.Value.{EntropicState, valid, leased, integer}
use causm.Timeline.{Timeline, deterministic}
use causm.Entanglement.{Register, contains, entangled_with}
use causm.Branches.{Vm, get_branch, consume_reg}
use causm.Branches.Split.{fork_from, split_timeline}
use causm.Branches.Split.Linked.{Linked}
use causm.Branches.Split.Fork.{split_timeline_lem}
use causm.Branches.Consume.{state_of, taken, consume_reg_lem}

abbrev holding : List EntropicState → Timeline
holding registers = record {
  birth_global_time = 0;
  local_clock = 0;
  arena = record {
    capacity = 400;
    used = 100;
    base_watermark_used = 0;
    base_watermark_regs = 0;
    registers = registers;
    metadata = none ∷ none ∷ [];
    is_persistent_partition = false;
  };
  cpu_budget_ms = 30;
  slice_ms = none;
  anchors = [];
  commit_horizon_passed = false;
  manifest_stack = [];
  resource_budgets = [];
  entropy_mode = deterministic;
  break_requested = false;
  saturation_policies = record { on_full = none; on_deadline_breach = none; on_overflow = none };
  pc = 0;
}

abbrev two_branches : Vm
two_branches = record {
  root_timeline = holding (valid (integer (pos 1)) ∷ valid (integer (pos 2)) ∷ []);
  active_branches =
      ("left", holding (valid (integer (pos 3)) ∷ leased (valid (integer (pos 4))) 9 ∷ [])) ∷ [];
  entanglements = (("main", 1) ∷ ("left", 0) ∷ ("left", 1) ∷ ("gone", 0) ∷ []) ∷ [];
}

consume_reg_lem_example :
    (acc : List Register) × (entangled_with two_branches.entanglements ("main", 1) ≡ some acc)
    × ((x : Register)
        → state_of (consume_reg two_branches "main" 1) x
          ≡ (if contains acc x then taken (state_of two_branches x) else state_of two_branches x))
consume_reg_lem_example = consume_reg_lem two_branches "main" 1

abbrev main_branch : String
main_branch = "main"

abbrev new_branch : String
new_branch = "right"

different : main_branch ≢ new_branch
different q = ground (arith, eq_iff main_branch new_branch)

not_main : new_branch ≢ main_branch
not_main q = different (sym q)

split_timeline_lem_example :
    let (vm', r) = split_timeline two_branches "main" ("right" ∷ []) in
    (r ≡ ok tt)
    × ((j : String)
        → get_branch vm' j ≡ (
            if str_eq "right" j
            then some (fork_from two_branches.root_timeline 0)
            else get_branch two_branches j))
    × Linked "main" "right" (λ k. true) two_branches.entanglements vm'.entanglements
unfolding get_branch
split_timeline_lem_example =
    split_timeline_lem two_branches "main" "right" two_branches.root_timeline refl different
      not_main

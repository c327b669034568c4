-- ===== src/Branches/Split.antt =====
-- crates/causm-runtime/src/vm/branching.rs and core.rs: `split_timeline`.
pub mod Linked
pub mod Fork
use causm.Prelude.{
  ℕ, Bool, true, false, Option, some, none, String, str_eq, List, [], ◌∷◌, if◌then◌else◌, add64,
  Result, ok, err, false, ◌||◌,
}
use causm.Prelude.Assoc
use causm.Timeline.{Timeline, TemporalError, branch_not_found}
use causm.Entanglement.{Register, contains}
use causm.Branches.{Vm, get_branch}

-- `Timeline::fork_from`, which keeps no name in the model
unfoldable pub fork_from : Timeline → ℕ → Timeline
fork_from parent birth_time = record {
  birth_global_time = birth_time;
  local_clock = 0;
  arena = parent.arena;
  cpu_budget_ms = parent.cpu_budget_ms;
  slice_ms = parent.slice_ms;
  anchors = [];
  commit_horizon_passed = false;
  manifest_stack = [];
  resource_budgets = parent.resource_budgets;
  entropy_mode = parent.entropy_mode;
  break_requested = false;
  saturation_policies = record { on_full = none; on_deadline_breach = none; on_overflow = none };
  pc = 0;
}

-- `HashSet::insert`
unfoldable pub insert_member : Register → List Register → List Register
insert_member x set = if contains set x then set else x ∷ set

-- the numbers of the parent's registers in one set, `regs_to_add`
unfoldable pub parent_regs : String → List Register → List ℕ
parent_regs parent [] = []
parent_regs parent ((b, r) ∷ set) =
    let rest = parent_regs parent set in if str_eq b parent then r ∷ rest else rest

-- `for group in &self.entanglements`, which gathers `new_entries`. A set without the parent adds no
-- entry in the source and an empty one here: the loops over entries do nothing with it.
unfoldable pub new_entries : String → List (List Register) → List (List ℕ)
unfolding parent_regs
new_entries parent [] = []
new_entries parent (set ∷ sets) = parent_regs parent set ∷ new_entries parent sets

-- `if group.contains(&(parent, r)) { group.insert((child, r)) }`
unfoldable pub link : String → String → ℕ → List Register → List Register
unfolding insert_member
link parent child r set = if contains set (parent, r) then insert_member (child, r) set else set

-- `for group in &mut self.entanglements`
unfoldable pub link_sets : String → String → ℕ → List (List Register) → List (List Register)
unfolding link
link_sets parent child r [] = []
link_sets parent child r (set ∷ sets) = link parent child r set ∷ link_sets parent child r sets

-- `for r in regs`
unfoldable pub link_regs : String → String → List ℕ → List (List Register) → List (List Register)
unfolding link_sets
link_regs parent child [] sets = sets
link_regs parent child (r ∷ rs) sets = link_regs parent child rs (link_sets parent child r sets)

-- `for regs in new_entries`
unfoldable pub link_entries :
    String → String → List (List ℕ) → List (List Register) → List (List Register)
unfolding link_regs
link_entries parent child [] sets = sets
link_entries parent child (rs ∷ entries) sets =
    link_entries parent child entries (link_regs parent child rs sets)

-- the body of `for branch_name in branches`
unfoldable pub add_branch : Vm → String → Timeline → ℕ → String → Vm
unfolding fork_from new_entries link_entries
add_branch vm parent timeline birth_time child = record vm {
  active_branches = Assoc.insert child (fork_from timeline birth_time) vm.active_branches;
  entanglements = link_entries parent child (new_entries parent vm.entanglements) vm.entanglements;
}

unfoldable pub add_branches : Vm → String → Timeline → ℕ → List String → Vm
unfolding add_branch
add_branches vm parent timeline birth_time [] = vm
add_branches vm parent timeline birth_time (child ∷ children) =
    add_branches (add_branch vm parent timeline birth_time child) parent timeline birth_time
      children

unfoldable pub split_timeline : Vm → String → List String → Vm × Result TemporalError (Unit {0})
unfolding get_branch add_branches
split_timeline vm parent children = elim (get_branch vm parent) [
  | none ↦ (vm, err (branch_not_found parent))
  | some t ↦ (add_branches vm parent t (add64 t.birth_global_time t.local_clock) children, ok tt)
]

-- ===== src/Branches.antt =====
-- crates/causm-runtime/src/vm/state.rs, core.rs, branching.rs and entropy.rs: the virtual machine's
-- timelines, and what one instruction does to several of them.
-- Of `Vm` the model keeps the root timeline, the branches and the entanglements. The destructor
-- calls of `trigger_auto_drop` are foreign code, and change no timeline.
pub mod Consume
pub mod Split
pub mod Merge
mod Tests
use causm.Prelude.{
  ℕ, Bool, true, false, Option, some, none, String, str_eq, List, [], ◌∷◌, if◌then◌else◌, add64,
}
use causm.Prelude.Assoc
use causm.Value.{EntropicState, consumed}
use causm.Arena
use causm.Arena.{state_at}
use causm.Timeline.{Timeline}
use causm.Entanglement.{Register, entangled_with}

pub record Vm : Type 0 where
  pub root_timeline : Timeline
  pub active_branches : List (String × Timeline)
  pub entanglements : List (List Register)

-- `get_branch`; `none` is `BranchNotFound`
unfoldable pub get_branch : Vm → String → Option Timeline
get_branch vm id =
    if str_eq id "main" then some vm.root_timeline else Assoc.lookup id vm.active_branches

-- a change through the reference of `get_branch_mut`, for a branch that exists
unfoldable pub set_branch : Vm → String → Timeline → Vm
set_branch vm id t =
    if str_eq id "main"
    then record vm { root_timeline = t }
    else record vm { active_branches = Assoc.insert id t vm.active_branches }

-- the body of the last loop of `consume_reg`: a missing branch and a failing `consume` are ignored.
unfoldable pub consume_found : Vm → Register → Option Timeline → Vm
consume_found vm (id, reg) none = vm
consume_found vm (id, reg) (some t) =
    set_branch vm id (record t { arena = (Arena.consume t.arena reg).0 })

unfoldable pub consume_on : Vm → Register → Vm
unfolding consume_found
consume_on vm x = consume_found vm x (get_branch vm x.0)

unfoldable pub consume_each : Vm → List Register → Vm
unfolding consume_on
consume_each vm [] = vm
consume_each vm (x ∷ xs) = consume_each (consume_on vm x) xs

-- It always returns `Ok`; a search without result, which does not happen, leaves the machine.
unfoldable pub consume_reg : Vm → String → ℕ → Vm
unfolding consume_each entangled_with
consume_reg vm id reg = elim (entangled_with vm.entanglements (id, reg)) [
  | none ↦ vm
  | some to_consume ↦ consume_each vm to_consume
]

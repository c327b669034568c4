-- ===== src/Branches/Split/Fork.antt =====
-- crates/causm-runtime/src/vm/branching.rs: a split of one branch off another.
use causm.Prelude.{
  if◌then◌else◌, str_eq, ℕ, ◌≡◌, ◌≢◌, refl, true, some, String, eq_iff, [], ◌∷◌, arith, add64, ok,
}
use causm.Prelude.Assoc.{lookup-insert}
use causm.Timeline.{Timeline}
use causm.Branches.{Vm, get_branch}
use causm.Branches.Split.{fork_from, add_branch, split_timeline}
use causm.Branches.Split.Linked.{Linked, link_entries_lem}

get_branch-add_branch :
    (vm : Vm) (parent child j : String) (t : Timeline) (time : ℕ)
    → child ≢ "main"
    → get_branch (add_branch vm parent t time child) j
      ≡ (if str_eq child j then some (fork_from t time) else get_branch vm j)
unfolding get_branch add_branch
get_branch-add_branch vm parent child j t time n = ground (
  arith,
  eq_iff child "main",
  eq_iff j "main",
  eq_iff child j,
  lookup-insert child j (fork_from t time) vm.active_branches,
)

-- A split of one branch off an existing parent succeeds, for a name that is neither the parent's
-- nor "main". The branch starts as a fork of the parent, born at the parent's time; every other
-- branch, the parent with it, is as before. In every set of entangled registers the branch has the
-- numbers that its parent has, next to what was there.
pub split_timeline_lem :
    (vm : Vm) (parent child : String) (t : Timeline)
    → get_branch vm parent ≡ some t
    → parent ≢ child
    → child ≢ "main"
    → let (vm', r) = split_timeline vm parent (child ∷ []) in
      (r ≡ ok tt)
      × ((j : String)
          → get_branch vm' j ≡ (
              if str_eq child j
              then some (fork_from t (add64 t.birth_global_time t.local_clock))
              else get_branch vm j))
      × Linked parent child (λ k. true) vm.entanglements vm'.entanglements
unfolding split_timeline
split_timeline_lem vm parent child t e ne n =
    rw (split_timeline, e)
      (
        refl,
        (λ j.
            get_branch-add_branch vm parent child j t (add64 t.birth_global_time t.local_clock) n),
        link_entries_lem parent child vm.entanglements ne,
      )

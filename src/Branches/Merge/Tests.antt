-- ===== src/Branches/Merge/Tests.antt =====
-- crates/causm-runtime/src/vm/branching.rs: a union of two small topologies.
use causm.Prelude.{◌≡◌, refl, Bool, false, none, pos}
use causm.Value.{EntropicState, valid, integer, topology, Fields, empty_map, entry, get, insert}
use causm.Branches.Merge.{
  auto, priority, topology_union, no_rules, rule, rule_for, merge_fields, resolve_entropic_conflict,
}
use causm.Branches.Merge.Union.{united, get-merge_fields}

abbrev never_same : EntropicState → EntropicState → Bool
never_same s t = false

abbrev one_two : Fields
one_two = entry "x" (valid (integer (pos 1))) (entry "y" (valid (integer (pos 2))) empty_map)

abbrev two_three : Fields
two_three = entry "y" (valid (integer (pos 3))) (entry "z" (valid (integer (pos 4))) empty_map)

-- the rule of `y` prefers another branch, so that the value that is there stays
resolve_entropic_conflict-kept :
    resolve_entropic_conflict never_same
      (valid (topology one_two))
      (valid (topology two_three))
      (topology_union (rule "y" (priority "left") no_rules) auto none)
      "right"
    ≡ (
      valid (
          topology (
            entry "y" (valid (integer (pos 3))) (
              entry "z"
                (valid (integer (pos 4)))
                (entry "x" (valid (integer (pos 1))) empty_map)))),
      none,
    )
unfolding resolve_entropic_conflict get insert
resolve_entropic_conflict-kept = refl

get-merge_fields_example :
    get "y" (merge_fields never_same one_two two_three no_rules auto "right").0
    ≡ united
        (λ s e. (resolve_entropic_conflict never_same s e (rule_for "y" no_rules auto) "right").0)
        (get "y" one_two)
        (get "y" two_three)
unfolding get
get-merge_fields_example =
    get-merge_fields never_same one_two two_three no_rules auto "right" "y" (refl, (refl, tt))

-- ===== src/Branches/Merge.antt =====
-- crates/causm-runtime/src/vm/branching.rs: `resolve_entropic_conflict`, which makes one state of
-- the states that two branches have for a register. `same` is the derived equality of states.
pub mod Union
mod Tests
use causm.Prelude.{Bool, true, false, ◌||◌, Option, some, none, String, str_eq, if◌then◌else◌}
use causm.Value.{
  EntropicState, valid, decayed, consumed, Payload, topology, Fields, empty_map, entry, is_consumed,
  get, insert,
}

pub record CausalReversion : Type 0 where
  pub branch : String
  pub anchor : String

mutual
  pub data ResolutionStrategy : Type 0 where
    first_wins decay auto : ResolutionStrategy
    priority custom : String → ResolutionStrategy
    topology_union topology_intersect :
        KeyRules → ResolutionStrategy → Option CausalReversion → ResolutionStrategy

  -- `HashMap<String, ResolutionStrategy>`
  pub data KeyRules : Type 0 where
    no_rules : KeyRules
    rule : String → ResolutionStrategy → KeyRules → KeyRules

-- `key_rules.get(field_name).unwrap_or(default)`
unfoldable pub rule_for : String → KeyRules → ResolutionStrategy → ResolutionStrategy
rule_for k no_rules d = d
rule_for k (rule j s rs) d = if str_eq j k then s else rule_for k rs d

abbrev pub Resolved : Type 0
Resolved = EntropicState × Option CausalReversion

-- one of the states is consumed
unfoldable pub resolve_consumed :
    EntropicState → EntropicState → ResolutionStrategy → String → EntropicState
resolve_consumed existing incoming (priority p) b = if str_eq b p then incoming else existing
resolve_consumed existing incoming first_wins b = existing
resolve_consumed consumed incoming auto b = incoming
resolve_consumed existing incoming auto b = existing
resolve_consumed existing incoming s b = consumed

-- the states that differ, under `Auto`
unfoldable pub prefer_valid : EntropicState → EntropicState → EntropicState
prefer_valid consumed incoming = incoming
prefer_valid existing consumed = existing
prefer_valid existing (valid p) = valid p
prefer_valid (valid p) incoming = valid p
prefer_valid existing incoming = incoming

-- the fields of a topology or of a decayed compound
abbrev pub fields_of : EntropicState → Option Fields
fields_of (valid (topology fs)) = some fs
fields_of (decayed fs) = some fs
fields_of s = none

unfoldable pub has_consumed : Fields → Bool
unfolding is_consumed
has_consumed empty_map = false
has_consumed (entry k s fs) = is_consumed s || has_consumed fs

-- behind the loop over the fields
unfoldable pub finish_union : Fields × Option CausalReversion → Option CausalReversion → Resolved
unfolding has_consumed
finish_union (fs, rev) none =
    if has_consumed fs then (decayed fs, rev) else (valid (topology fs), rev)
finish_union (fs, rev) (some r) =
    if has_consumed fs then (consumed, some r) else (valid (topology fs), rev)

-- `if final_reversion.is_none()`
abbrev pub or_first : Option CausalReversion → Option CausalReversion → Option CausalReversion
or_first none later = later
or_first (some r) later = some r

module _ (same : EntropicState → EntropicState → Bool) where
  -- no state is consumed, and the strategy is not a union
  unfoldable pub settle :
      EntropicState → EntropicState → ResolutionStrategy → String → EntropicState
  unfolding prefer_valid
  settle existing incoming (priority p) b = if str_eq b p then incoming else existing
  settle existing incoming decay b = consumed
  settle existing incoming auto b =
      if same existing incoming then existing else prefer_valid existing incoming
  settle existing incoming s b = existing

  -- a union whose incoming state has no fields
  unfoldable pub resolve_other :
      EntropicState → EntropicState → ResolutionStrategy → String → Resolved
  unfolding settle resolve_consumed is_consumed
  resolve_other existing incoming s b =
      if is_consumed existing || is_consumed incoming
      then (resolve_consumed existing incoming s b, none)
      else elim s as (λ _. Resolved) [
        | topology_union rs d inv ↦ (consumed, inv)
        | s' ↦ (settle existing incoming s' b, none)
      ]

  -- a union whose incoming state has fields; `loop` is the loop over them
  unfoldable pub resolve_union :
      EntropicState → Option CausalReversion → (Fields → Fields × Option CausalReversion) → Resolved
  unfolding finish_union
  resolve_union consumed inv loop = (consumed, none)
  resolve_union existing inv loop = elim (fields_of existing) [
    | none ↦ (consumed, inv)
    | some fs ↦ finish_union (loop fs) inv
  ]

  -- the field of one name: resolved where both have it, and taken over where only the incoming has
  abbrev pub merge_field :
      String
      → EntropicState
      → (EntropicState → Resolved)
      → Option EntropicState
      → Fields
      → Fields × Option CausalReversion
  merge_field k s resolve_with none fs = (insert k s fs, none)
  merge_field k s resolve_with (some e) fs = let (r, rev) = resolve_with e in (insert k r fs, rev)

  -- the state that comes in is the argument that the recursion is on; `b` is its branch
  unfoldable mutual
    unfolding rule_for resolve_other resolve_union

    pub resolve_entropic_conflict :
        EntropicState → EntropicState → ResolutionStrategy → String → Resolved
    resolve_entropic_conflict (valid (topology fs)) existing (topology_union rs d inv) b =
        resolve_union existing inv (λ merged. merge_fields fs merged rs d b)
    resolve_entropic_conflict (decayed fs) existing (topology_union rs d inv) b =
        resolve_union existing inv (λ merged. merge_fields fs merged rs d b)
    resolve_entropic_conflict incoming existing s b = resolve_other existing incoming s b

    pub merge_fields :
        Fields → Fields → KeyRules → ResolutionStrategy → String → Fields × Option CausalReversion
    merge_fields empty_map merged rs d b = (merged, none)
    merge_fields (entry k s fs) merged rs d b =
        let (merged', rev) =
          merge_field k s (λ e. resolve_entropic_conflict s e (rule_for k rs d) b) (get k merged)
            merged in
        let (merged'', later) = merge_fields fs merged' rs d b in (merged'', or_first rev later)

-- ===== src/Updates.antt =====
-- crates/causm-core/src/value.rs: the methods of `Arena` that write into a compound.
-- The source takes the state out of the register first (`mem::replace` with `Consumed`); an error
-- path that does not put it back leaves the register consumed, with `used` as it was (`lose`).
pub mod Sound
pub mod Loss
use causm.Prelude.{
  ℕ, suc, ◌-◌, Bool, true, false, Option, some, none, String, str_eq, if◌then◌else◌, ltb, zero,
  List, [], ◌∷◌, add64, sub64, Result, ok, err, parse_usize,
}
use causm.Value
use causm.Value.{
  EntropicState, valid, leased, decayed, pending, consumed, Payload, struct, topology, array,
  Fields, Payloads, no_items, item, MemoryError, already_consumed, not_a_struct, out_of_memory,
  key_not_found, weight,
}
use causm.Arena.{Arena, Outcome, state_at, ensure_register, replace_state, overwrite}

-- an error behind which the register stays consumed
unfoldable pub lose : Arena → ℕ → MemoryError → Outcome (Unit {0})
lose a idx e = (overwrite a idx consumed, err e)

-- The guard and the write that end each update. `left` is what the error reports as available,
-- which the methods compute in different ways.
unfoldable pub commit : Arena → ℕ → EntropicState → EntropicState → ℕ → Outcome (Unit {0})
unfolding lose
commit a idx old new left =
    if ltb a.capacity (add64 (a.used - weight old) (weight new))
    then lose a idx (out_of_memory (weight new) left)
    else (replace_state a idx (weight old) new, ok tt)

-- `self.capacity - (self.used - old)`, both plain
abbrev pub left_plain : Arena → EntropicState → ℕ
left_plain a old = sub64 a.capacity (sub64 a.used (weight old))

-- `self.capacity - self.used.saturating_sub(old)`
abbrev pub left_saturating : Arena → EntropicState → ℕ
left_saturating a old = sub64 a.capacity (a.used - weight old)

abbrev pub elems_length : Payloads → ℕ
elems_length no_items = 0
elems_length (item p ps) = suc (elems_length ps)

-- `elems[i] = value`, which runs only below the length
abbrev pub set_elem : Payloads → ℕ → Payload → Payloads
set_elem no_items i v = no_items
set_elem (item p ps) zero v = item v ps
set_elem (item p ps) (suc i) v = item p (set_elem ps i v)

-- the arm for an array: `bad_index` is the error of a key that is no number
unfoldable pub update_array :
    Arena → ℕ → Payloads → Option ℕ → Payload → ℕ → MemoryError → Outcome (Unit {0})
unfolding commit
update_array a idx elems none v left bad_index = (a, err bad_index)
update_array a idx elems (some i) v left bad_index =
    if ltb i (elems_length elems)
    then commit a idx (valid (array elems)) (valid (array (set_elem elems i v))) left
    else (a, err already_consumed)

-- `update_field` once the register exists
unfoldable pub update_field_at : Arena → ℕ → EntropicState → String → Payload → Outcome (Unit {0})
unfolding commit update_array
update_field_at a idx (leased _ _) key v = (a, err MemoryError.leased)
update_field_at a idx consumed key v = (a, err already_consumed)
update_field_at a idx (valid (struct fields)) key v =
    let old = valid (struct fields) in
    commit a idx old (valid (struct (Value.insert key (valid v) fields))) (left_plain a old)
update_field_at a idx (valid (topology fields)) key v =
    let old = valid (topology fields) in
    commit a idx old (valid (topology (Value.insert key (valid v) fields))) (left_plain a old)
update_field_at a idx (decayed fields) key v =
    let old = decayed fields in
    commit a idx old (decayed (Value.insert key (valid v) fields)) (left_plain a old)
update_field_at a idx (valid (array elems)) key v =
    update_array a idx elems (parse_usize key) v (left_plain a (valid (array elems))) not_a_struct
update_field_at a idx _ key v = (a, err not_a_struct)

unfoldable pub update_field : Arena → ℕ → String → Payload → Outcome (Unit {0})
update_field a reg key v =
    let a' = ensure_register a reg in update_field_at a' reg (state_at a' reg) key v

-- the fields of a nested compound that `update_index_field` writes into, and the compound with them
-- replaced
unfoldable pub open_compound : EntropicState → Option Fields
open_compound (valid (struct inner)) = some inner
open_compound (valid (topology inner)) = some inner
open_compound _ = none

unfoldable pub close_compound : EntropicState → Fields → EntropicState
close_compound (valid (struct _)) inner = valid (struct inner)
close_compound (valid (topology _)) inner = valid (topology inner)
close_compound (decayed _) inner = decayed inner
close_compound s inner = s

-- the write into the entry `s` of a topology at `index`, if that is a compound
unfoldable pub update_entry :
    Arena
    → ℕ
    → Fields
    → String
    → String
    → Payload
    → EntropicState
    → Option Fields
    → Outcome (Unit {0})
unfolding commit close_compound
update_entry a idx fs index key v s none = (a, err not_a_struct)
update_entry a idx fs index key v s (some inner) =
    let old = valid (topology fs) in
    let new_entry = close_compound s (Value.insert key (valid v) inner) in
    commit a idx old (valid (topology (Value.insert index new_entry fs))) (left_saturating a old)

-- for a non-empty `key`: a missing entry loses the register
unfoldable pub update_inner :
    Arena → ℕ → Fields → String → String → Payload → Option EntropicState → Outcome (Unit {0})
unfolding lose update_entry open_compound
update_inner a idx fs index key v none = lose a idx already_consumed
update_inner a idx fs index key v (some s) = update_entry a idx fs index key v s (open_compound s)

-- `update_index_field` once the register exists; `whole` is `field.is_empty()`.
unfoldable pub update_index_at :
    Arena → ℕ → EntropicState → String → String → Payload → Bool → Outcome (Unit {0})
unfolding commit update_array update_inner
update_index_at a idx (leased _ _) index key v whole = (a, err MemoryError.leased)
update_index_at a idx consumed index key v whole = (a, err already_consumed)
update_index_at a idx (valid (array elems)) index key v true =
    update_array a idx elems (parse_usize index) v (left_saturating a (valid (array elems)))
      already_consumed
update_index_at a idx (valid (struct fields)) index key v true =
    let old = valid (struct fields) in
    commit a idx old (valid (struct (Value.insert index (valid v) fields))) (left_saturating a old)
update_index_at a idx (valid (topology fields)) index key v true =
    let old = valid (topology fields) in
    commit a idx old (valid (topology (Value.insert index (valid v) fields)))
      (left_saturating a old)
update_index_at a idx (valid (topology fields)) index key v false =
    update_inner a idx fields index key v (Value.get index fields)
update_index_at a idx _ index key v whole = (a, err not_a_struct)

unfoldable pub update_index_field : Arena → ℕ → String → String → Payload → Outcome (Unit {0})
update_index_field a reg index key v =
    let a' = ensure_register a reg in
    update_index_at a' reg (state_at a' reg) index key v (str_eq key "")

-- the fields that `deep_set` descends into
unfoldable pub open_deep : EntropicState → Option Fields
open_deep (valid (struct inner)) = some inner
open_deep (valid (topology inner)) = some inner
open_deep (decayed inner) = some inner
open_deep _ = none

-- the entry written back into its map
unfoldable pub put_entry :
    String → EntropicState → Fields → Result MemoryError Fields → Result MemoryError Fields
unfolding close_compound
put_entry k s fields (ok inner) = ok (Value.insert k (close_compound s inner) fields)
put_entry k s fields (err e) = err e

unfoldable pub deep_set : Fields → List String → Payload → Result MemoryError Fields
unfolding open_deep put_entry
deep_set fields [] v = err (key_not_found "empty path")
deep_set fields (k ∷ []) v = ok (Value.insert k (valid v) fields)
deep_set fields (k ∷ k' ∷ ks) v = elim (Value.get k fields) [
  | none ↦ err (key_not_found k)
  | some s ↦ elim (open_deep s) [
    | none ↦ err not_a_struct
    | some inner ↦ put_entry k s fields (deep_set inner (k' ∷ ks) v)
  ]
]

-- the end of `update_deep_field`: the `?` behind `deep_set` loses the register
unfoldable pub commit_deep :
    Arena → ℕ → EntropicState → Result MemoryError Fields → Outcome (Unit {0})
unfolding lose commit close_compound
commit_deep a idx old (err e) = lose a idx e
commit_deep a idx old (ok fields) = commit a idx old (close_compound old fields) (left_plain a old)

-- `update_deep_field` once the register exists, for a path of length other than 1
unfoldable pub update_deep_at :
    Arena → ℕ → EntropicState → List String → Payload → Outcome (Unit {0})
unfolding commit_deep deep_set
update_deep_at a idx (leased _ _) path v = (a, err MemoryError.leased)
update_deep_at a idx consumed path v = (a, err already_consumed)
update_deep_at a idx (valid (struct fields)) path v =
    commit_deep a idx (valid (struct fields)) (deep_set fields path v)
update_deep_at a idx (valid (topology fields)) path v =
    commit_deep a idx (valid (topology fields)) (deep_set fields path v)
update_deep_at a idx (decayed fields) path v =
    commit_deep a idx (decayed fields) (deep_set fields path v)
update_deep_at a idx _ path v = (a, err not_a_struct)

unfoldable pub update_deep_field : Arena → ℕ → List String → Payload → Outcome (Unit {0})
update_deep_field a reg [] v =
    let a' = ensure_register a reg in update_deep_at a' reg (state_at a' reg) [] v
update_deep_field a reg (k ∷ []) v = update_field a reg k v
update_deep_field a reg (k ∷ k' ∷ ks) v =
    let a' = ensure_register a reg in update_deep_at a' reg (state_at a' reg) (k ∷ k' ∷ ks) v

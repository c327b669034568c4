-- ===== src/Memory/Frame/Calls.antt =====
-- crates/causm-core/src/value.rs: the methods of `Arena` on one register leave the others alone.
use causm.Prelude.{
  ℕ, ◌-◌, Bool, true, false, Bool-cases, inl, inr, Option, some, none, String, List, [], ◌∷◌, ltb,
  add64, Result, ok, err, suc,
}
use causm.Value.{
  EntropicState, valid, decayed, consumed, Payload, struct, topology, array, Fields, Payloads,
  MemoryError, weight,
}
use causm.Arena.{
  Arena, ValueMetadata, ensure_register, insert, stamp_metadata, insert_with_metadata, set_metadata,
  evict_from, evict_decayed, consume, consume_entropic, set_consumed, decay,
}
use causm.FieldOps.{consume_field_entropic, consume_field}
use causm.Updates.{
  lose, commit, elems_length, update_array, update_field_at, update_field, update_entry,
  update_inner, update_index_at, update_index_field, commit_deep, update_deep_at, update_deep_field,
}
use causm.Memory.Frame.{
  IsSteady, IsLocal, IsSteady-refl, IsSteady-trans, IsLocal-refl, IsLocal-trans,
  replace_state-IsLocal, overwrite-IsLocal, put_metadata-IsLocal, ensure_register-IsLocal,
  insert_at-IsLocal, consume_at-IsLocal, consume_entropic_at-IsLocal, set_consumed_at-IsLocal,
  decay_at-IsLocal, evict_at-IsSteady, consume_field_at-IsLocal,
}

module _ (a : Arena) (idx : ℕ) where
  commit-IsLocal :
      (old new : EntropicState) (left : ℕ) → IsLocal idx a (commit a idx old new left).0
  unfolding commit lose
  commit-IsLocal old new left =
      elim (Bool-cases (ltb a.capacity (add64 (a.used - weight old) (weight new)))) [
        | inl full ↦ rw full (overwrite-IsLocal a idx consumed)
        | inr room ↦ rw room (replace_state-IsLocal a idx (weight old) new)
      ]

  update_array-IsLocal :
      (elems : Payloads) (found : Option ℕ) (v : Payload) (left : ℕ) (bad : MemoryError)
      → IsLocal idx a (update_array a idx elems found v left bad).0
  unfolding update_array
  update_array-IsLocal elems none v left bad = IsLocal-refl idx a
  update_array-IsLocal elems (some i) v left bad = elim (Bool-cases (ltb i (elems_length elems))) [
    | inl inside ↦ rw inside (commit-IsLocal _ _ left)
    | inr outside ↦ rw outside (IsLocal-refl idx a)
  ]

  update_field_at-IsLocal :
      (s : EntropicState) (key : String) (v : Payload)
      → IsLocal idx a (update_field_at a idx s key v).0
  unfolding update_field_at
  update_field_at-IsLocal (valid (struct f)) key v = commit-IsLocal _ _ _
  update_field_at-IsLocal (valid (topology f)) key v = commit-IsLocal _ _ _
  update_field_at-IsLocal (decayed f) key v = commit-IsLocal _ _ _
  update_field_at-IsLocal (valid (array elems)) key v = update_array-IsLocal elems _ v _ _
  update_field_at-IsLocal _ key v = IsLocal-refl idx a

  update_entry-IsLocal :
      (fs : Fields) (index key : String) (v : Payload) (s : EntropicState) (found : Option Fields)
      → IsLocal idx a (update_entry a idx fs index key v s found).0
  unfolding update_entry
  update_entry-IsLocal fs index key v s none = IsLocal-refl idx a
  update_entry-IsLocal fs index key v s (some inner) = commit-IsLocal _ _ _

  update_inner-IsLocal :
      (fs : Fields) (index key : String) (v : Payload) (found : Option EntropicState)
      → IsLocal idx a (update_inner a idx fs index key v found).0
  unfolding update_inner lose
  update_inner-IsLocal fs index key v none = overwrite-IsLocal a idx consumed
  update_inner-IsLocal fs index key v (some s) = update_entry-IsLocal fs index key v s _

  update_index_at-IsLocal :
      (s : EntropicState) (index key : String) (v : Payload) (whole : Bool)
      → IsLocal idx a (update_index_at a idx s index key v whole).0
  unfolding update_index_at
  update_index_at-IsLocal (valid (array elems)) index key v true =
      update_array-IsLocal elems _ v _ _
  update_index_at-IsLocal (valid (struct f)) index key v true = commit-IsLocal _ _ _
  update_index_at-IsLocal (valid (topology f)) index key v true = commit-IsLocal _ _ _
  update_index_at-IsLocal (valid (topology f)) index key v false =
      update_inner-IsLocal f index key v _
  update_index_at-IsLocal _ index key v whole = IsLocal-refl idx a

  commit_deep-IsLocal :
      (old : EntropicState) (r : Result MemoryError Fields)
      → IsLocal idx a (commit_deep a idx old r).0
  unfolding commit_deep lose
  commit_deep-IsLocal old (err e) = overwrite-IsLocal a idx consumed
  commit_deep-IsLocal old (ok fs) = commit-IsLocal _ _ _

  update_deep_at-IsLocal :
      (s : EntropicState) (path : List String) (v : Payload)
      → IsLocal idx a (update_deep_at a idx s path v).0
  unfolding update_deep_at
  update_deep_at-IsLocal (valid (struct f)) path v = commit_deep-IsLocal _ _
  update_deep_at-IsLocal (valid (topology f)) path v = commit_deep-IsLocal _ _
  update_deep_at-IsLocal (decayed f) path v = commit_deep-IsLocal _ _
  update_deep_at-IsLocal _ path v = IsLocal-refl idx a

-- the methods, which grow the register file first
module _ (a : Arena) (reg : ℕ) where
  grown : {b : Arena} → IsLocal reg (ensure_register a reg) b → IsLocal reg a b
  grown l = IsLocal-trans (ensure_register-IsLocal a reg reg) l

  pub insert-IsLocal : (s : EntropicState) → IsLocal reg a (insert a reg s).0
  unfolding insert
  insert-IsLocal s = grown (insert_at-IsLocal _ reg s)

  pub insert_with_metadata-IsLocal :
      (s : EntropicState) (m : ValueMetadata) → IsLocal reg a (insert_with_metadata a reg s m).0
  unfolding insert_with_metadata
  insert_with_metadata-IsLocal s m = go (insert a reg s) (insert-IsLocal s)
    where
      go :
          (o : Arena × Result _ (Unit {0}))
          → IsLocal reg a o.0
          → IsLocal reg a (stamp_metadata reg m o).0
      go (b, ok u) l = IsLocal-trans l (put_metadata-IsLocal reg b reg (some m))
      go (b, err e) l = l

  -- it changes no state, also not that of its register
  pub set_metadata-IsLocal : (r : ℕ) (m : Option ValueMetadata) → IsLocal r a (set_metadata a reg m)
  unfolding set_metadata
  set_metadata-IsLocal r m =
      IsLocal-trans (ensure_register-IsLocal a r reg) (put_metadata-IsLocal r _ reg m)

  pub consume-IsLocal : IsLocal reg a (consume a reg).0
  unfolding consume
  consume-IsLocal = grown (consume_at-IsLocal _ reg _)

  pub consume_entropic-IsLocal : IsLocal reg a (consume_entropic a reg).0
  unfolding consume_entropic
  consume_entropic-IsLocal = grown (consume_entropic_at-IsLocal _ reg _)

  pub set_consumed-IsLocal : IsLocal reg a (set_consumed a reg).0
  unfolding set_consumed
  set_consumed-IsLocal = grown (set_consumed_at-IsLocal _ reg _)

  pub decay-IsLocal : IsLocal reg a (decay a reg).0
  unfolding decay
  decay-IsLocal = grown (decay_at-IsLocal _ reg _)

  pub consume_field_entropic-IsLocal :
      (key : String) → IsLocal reg a (consume_field_entropic a reg key).0
  unfolding consume_field_entropic
  consume_field_entropic-IsLocal key = grown (consume_field_at-IsLocal _ reg _ key)

  pub consume_field-IsLocal : (key : String) → IsLocal reg a (consume_field a reg key).0
  unfolding consume_field
  consume_field-IsLocal key = consume_field_entropic-IsLocal key

  pub update_field-IsLocal :
      (key : String) (v : Payload) → IsLocal reg a (update_field a reg key v).0
  unfolding update_field
  update_field-IsLocal key v = grown (update_field_at-IsLocal _ reg _ key v)

  pub update_index_field-IsLocal :
      (index key : String) (v : Payload) → IsLocal reg a (update_index_field a reg index key v).0
  unfolding update_index_field
  update_index_field-IsLocal index key v = grown (update_index_at-IsLocal _ reg _ index key v _)

  pub update_deep_field-IsLocal :
      (path : List String) (v : Payload) → IsLocal reg a (update_deep_field a reg path v).0
  unfolding update_deep_field
  update_deep_field-IsLocal [] v = grown (update_deep_at-IsLocal _ reg _ [] v)
  update_deep_field-IsLocal (k ∷ []) v = update_field-IsLocal k v
  update_deep_field-IsLocal (k ∷ k' ∷ ks) v = grown (update_deep_at-IsLocal _ reg _ (k ∷ k' ∷ ks) v)

evict_from-IsSteady : (ss : List EntropicState) (a : Arena) (i : ℕ) → IsSteady a (evict_from a i ss)
unfolding evict_from
evict_from-IsSteady [] a i = IsSteady-refl a
evict_from-IsSteady (s ∷ ss) a i =
    IsSteady-trans (evict_at-IsSteady a i s) (evict_from-IsSteady ss _ (suc i))

pub evict_decayed-IsSteady : (a : Arena) → IsSteady a (evict_decayed a)
unfolding evict_decayed
evict_decayed-IsSteady a = evict_from-IsSteady a.registers a 0

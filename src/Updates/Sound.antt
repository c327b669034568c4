-- ===== src/Updates/Sound.antt =====
-- crates/causm-core/src/value.rs: the update methods keep the accounting invariant of `Arena`, also
-- where they fail and lose the register.
use causm.Prelude.{
  ℕ, zero, suc, ◌+◌, ◌-◌, ◌^◌, ◌<◌, ◌≤◌, ◌≡◌, refl, Bool, true, false, Option, some, none, String,
  List, [], ◌∷◌, length, arith, subst, ltb, add64, Bool-cases, inl, inr, str_eq, parse_usize,
  Result, ok, err,
}
use causm.Value
use causm.Value.{
  EntropicState, valid, leased, decayed, pending, consumed, Payload, struct, topology, array,
  integer, float, bool, string, tuple, range, null, Fields, Payloads, no_items, item, weight,
  MemoryError,
}
use causm.Value.Weight.{fields_weight-insert_le, fields_weight-insert_found}
use causm.Arena.{Arena, state_at, replace_state}
use causm.Arena.Totals.{Within-get}
use causm.Arena.Sound.{
  budget, IsSound, ensure_register-IsSound, ensure_register-lt, replace_state-IsSound,
  overwrite-IsSound,
}
use causm.Updates.{
  lose, commit, set_elem, elems_length, update_array, update_field_at, update_field, open_compound,
  close_compound, update_entry, update_inner, update_index_at, update_index_field, open_deep,
  put_entry, deep_set, commit_deep, update_deep_at, update_deep_field, left_saturating,
}

elems_weight-set_elem :
    (ps : Payloads) (i : ℕ) (v : Payload)
    → Value.elems_weight (set_elem ps i v) ≤ Value.elems_weight ps + Value.payload_weight v
unfolding weight
elems_weight-set_elem no_items i v = omega arith
elems_weight-set_elem (item p ps) zero v = omega arith
elems_weight-set_elem (item p ps) (suc i) v = omega (arith, elems_weight-set_elem ps i v)

-- A compound's weight moves with that of its fields.
weight-close_compound :
    (s : EntropicState) (inner inner' : Fields)
    → open_deep s ≡ some inner
    → weight (close_compound s inner') + Value.fields_weight inner
      ≡ weight s + Value.fields_weight inner'
unfolding weight open_deep close_compound
weight-close_compound s inner inner' h = ground arith

open_deep-open_compound :
    (s : EntropicState) (inner : Fields) → open_compound s ≡ some inner → open_deep s ≡ some inner
unfolding open_compound open_deep
open_deep-open_compound s inner h = ground arith

put_entry_growth :
    (k : String) (s : EntropicState) (fields inner fields' : Fields) (r : Result MemoryError Fields)
    (w : ℕ)
    → Value.get k fields ≡ some s
    → open_deep s ≡ some inner
    → ((inner' : Fields)
        → r ≡ ok inner'
        → Value.fields_weight inner' ≤ Value.fields_weight inner + w)
    → put_entry k s fields r ≡ ok fields'
    → Value.fields_weight fields' ≤ Value.fields_weight fields + w
unfolding put_entry
put_entry_growth k s fields inner fields' (ok inner') w g o ih h = ground (
  arith,
  ih inner' refl,
  weight-close_compound s inner inner' o,
  fields_weight-insert_found k (close_compound s inner') fields s g,
)
put_entry_growth k s fields inner fields' (err e) w g o ih h = cc

deep_set_growth :
    (path : List String) (fields fields' : Fields) (v : Payload)
    → deep_set fields path v ≡ ok fields'
    → Value.fields_weight fields' ≤ Value.fields_weight fields + weight (valid v)
unfolding deep_set
deep_set_growth [] fields fields' v h = cc
deep_set_growth (k ∷ []) fields fields' v h =
    ground (arith, fields_weight-insert_le k (valid v) fields)
deep_set_growth (k ∷ k' ∷ ks) fields fields' v h =
    at (λ inner inner'. deep_set_growth (k' ∷ ks) inner inner' v) (Value.get k fields) refl h
  where
    descend :
        ((inner inner' : Fields)
          → deep_set inner (k' ∷ ks) v ≡ ok inner'
          → Value.fields_weight inner' ≤ Value.fields_weight inner + weight (valid v))
        → (s : EntropicState) (found : Option Fields) → Value.get k fields ≡ some s
        → open_deep s ≡ found
        → (elim found [
          | none ↦ err MemoryError.not_a_struct
          | some inner ↦ put_entry k s fields (deep_set inner (k' ∷ ks) v)
        ])
          ≡ ok fields'
        → Value.fields_weight fields' ≤ Value.fields_weight fields + weight (valid v)
    descend ih s none g o e = cc
    descend ih s (some inner) g o e =
        put_entry_growth k s fields inner fields' (deep_set inner (k' ∷ ks) v) (weight (valid v)) g
          o (ih inner) e

    at :
        ((inner inner' : Fields)
          → deep_set inner (k' ∷ ks) v ≡ ok inner'
          → Value.fields_weight inner' ≤ Value.fields_weight inner + weight (valid v))
        → (found : Option EntropicState) → Value.get k fields ≡ found
        → (elim found [
          | none ↦ err (MemoryError.key_not_found k)
          | some s ↦ elim (open_deep s) [
            | none ↦ err MemoryError.not_a_struct
            | some inner ↦ put_entry k s fields (deep_set inner (k' ∷ ks) v)
          ]
        ])
          ≡ ok fields'
        → Value.fields_weight fields' ≤ Value.fields_weight fields + weight (valid v)
    at ih none g e = cc
    at ih (some s) g e = descend ih s (open_deep s) g refl e

commit-IsSound :
    {a : Arena} (idx : ℕ) (old new : EntropicState) (left w : ℕ)
    → IsSound a
    → idx < length a.registers
    → state_at a idx ≡ old
    → weight new ≤ weight old + w
    → w < 2 ^ 62
    → IsSound (commit a idx old new left).0
unfolding commit lose
commit-IsSound {a} idx old new left w s h e grows small =
    elim (Bool-cases (ltb a.capacity (add64 (a.used - weight old) (weight new)))) [
      | inl full ↦ rw full (overwrite-IsSound idx s h)
      | inr room ↦ rw room (
          subst (λ o. IsSound (replace_state a idx (weight o) new)) e
            (replace_state-IsSound idx new s h (rw e (fits room))))
    ]
  where
    old_within : weight old ≤ budget a
    old_within = rw e at (Within-get (budget a) a.registers idx (omega arith) s.each_within)

    no_wrap : add64 (a.used - weight old) (weight new) ≡ a.used - weight old + weight new
    no_wrap = omega (arith, s.used_within, s.word, old_within)

    fits :
        ltb a.capacity (add64 (a.used - weight old) (weight new)) ≡ false
        → a.used - weight old + weight new ≤ budget a
    fits room = ground (arith, no_wrap)

module _ {a : Arena} (idx : ℕ) (v : Payload) (s : IsSound a) (h : idx < length a.registers)
    (small : weight (valid v) < 2 ^ 62) where
  update_array-IsSound :
      (elems : Payloads) (found : Option ℕ) (left : ℕ) (bad : MemoryError)
      → state_at a idx ≡ valid (array elems)
      → IsSound (update_array a idx elems found v left bad).0
  unfolding update_array weight
  update_array-IsSound elems none left bad e = s
  update_array-IsSound elems (some i) left bad e = elim (Bool-cases (ltb i (elems_length elems))) [
    | inl inside ↦ rw inside (
        commit-IsSound idx (valid (array elems)) (valid (array (set_elem elems i v))) left
          (weight (valid v)) s h e (omega (arith, elems_weight-set_elem elems i v)) small)
    | inr outside ↦ rw outside s
  ]

  update_field_at-IsSound :
      (state : EntropicState) (key : String)
      → state_at a idx ≡ state
      → IsSound (update_field_at a idx state key v).0
  unfolding update_field_at weight
  update_field_at-IsSound (valid (struct f)) key e =
      commit-IsSound idx (valid (struct f)) (valid (struct (Value.insert key (valid v) f))) _
        (weight (valid v)) s h e (omega (arith, fields_weight-insert_le key (valid v) f)) small
  update_field_at-IsSound (valid (topology f)) key e =
      commit-IsSound idx (valid (topology f)) (valid (topology (Value.insert key (valid v) f))) _
        (weight (valid v)) s h e (omega (arith, fields_weight-insert_le key (valid v) f)) small
  update_field_at-IsSound (decayed f) key e =
      commit-IsSound idx (decayed f) (decayed (Value.insert key (valid v) f)) _ (weight (valid v)) s
        h e (omega (arith, fields_weight-insert_le key (valid v) f)) small
  update_field_at-IsSound (valid (array elems)) key e =
      update_array-IsSound elems (parse_usize key) _ _ e
  update_field_at-IsSound _ key e = s

  update_entry-IsSound :
      (fs : Fields) (index key : String) (t : EntropicState) (found : Option Fields)
      → Value.get index fs ≡ some t
      → open_compound t ≡ found
      → state_at a idx ≡ valid (topology fs)
      → IsSound (update_entry a idx fs index key v t found).0
  unfolding update_entry weight
  update_entry-IsSound fs index key t none g q e = s
  update_entry-IsSound fs index key t (some inner) g q e =
      let new_entry = close_compound t (Value.insert key (valid v) inner) in
      commit-IsSound idx (valid (topology fs)) (valid (topology (Value.insert index new_entry fs)))
        (left_saturating a (valid (topology fs))) (weight (valid v)) s h e
        (omega (
          arith,
          fields_weight-insert_found index new_entry fs t g,
          weight-close_compound t inner (Value.insert key (valid v) inner)
              (open_deep-open_compound t inner q),
          fields_weight-insert_le key (valid v) inner,
        ))
        small

  update_inner-IsSound :
      (fs : Fields) (index key : String) (found : Option EntropicState)
      → Value.get index fs ≡ found
      → state_at a idx ≡ valid (topology fs)
      → IsSound (update_inner a idx fs index key v found).0
  unfolding update_inner lose
  update_inner-IsSound fs index key none g e = overwrite-IsSound idx s h
  update_inner-IsSound fs index key (some t) g e = update_entry-IsSound fs index key t _ g refl e

  update_index_at-IsSound :
      (state : EntropicState) (index key : String) (whole : Bool)
      → state_at a idx ≡ state
      → IsSound (update_index_at a idx state index key v whole).0
  unfolding update_index_at weight
  update_index_at-IsSound (valid (array elems)) index key true e =
      update_array-IsSound elems (parse_usize index) _ _ e
  update_index_at-IsSound (valid (struct f)) index key true e =
      commit-IsSound idx (valid (struct f)) (valid (struct (Value.insert index (valid v) f))) _
        (weight (valid v)) s h e (omega (arith, fields_weight-insert_le index (valid v) f)) small
  update_index_at-IsSound (valid (topology f)) index key true e =
      commit-IsSound idx (valid (topology f)) (valid (topology (Value.insert index (valid v) f))) _
        (weight (valid v)) s h e (omega (arith, fields_weight-insert_le index (valid v) f)) small
  update_index_at-IsSound (valid (topology f)) index key false e =
      update_inner-IsSound f index key _ refl e
  update_index_at-IsSound _ index key whole e = s

  commit_deep-IsSound :
      (old : EntropicState) (fs : Fields) (r : Result MemoryError Fields)
      → state_at a idx ≡ old
      → open_deep old ≡ some fs
      → ((fs' : Fields)
          → r ≡ ok fs'
          → Value.fields_weight fs' ≤ Value.fields_weight fs + weight (valid v))
      → IsSound (commit_deep a idx old r).0
  unfolding commit_deep lose
  commit_deep-IsSound old fs (err x) e o grow = overwrite-IsSound idx s h
  commit_deep-IsSound old fs (ok fs') e o grow =
      commit-IsSound idx old (close_compound old fs') _ (weight (valid v)) s h e
        (omega (arith, weight-close_compound old fs fs' o, grow fs' refl)) small

  update_deep_at-IsSound :
      (state : EntropicState) (path : List String)
      → state_at a idx ≡ state
      → IsSound (update_deep_at a idx state path v).0
  unfolding update_deep_at open_deep
  update_deep_at-IsSound (valid (struct f)) path e =
      commit_deep-IsSound (valid (struct f)) f _ e refl (λ fs' q. deep_set_growth path f fs' v q)
  update_deep_at-IsSound (valid (topology f)) path e =
      commit_deep-IsSound (valid (topology f)) f _ e refl (λ fs' q. deep_set_growth path f fs' v q)
  update_deep_at-IsSound (decayed f) path e =
      commit_deep-IsSound (decayed f) f _ e refl (λ fs' q. deep_set_growth path f fs' v q)
  update_deep_at-IsSound _ path e = s

module _ {a : Arena} (reg : ℕ) (v : Payload) (small : weight (valid v) < 2 ^ 62)
    (s : IsSound a) where
  pub update_field-IsSound : (key : String) → IsSound (update_field a reg key v).0
  unfolding update_field
  update_field-IsSound key =
      update_field_at-IsSound reg v (ensure_register-IsSound reg s) (ensure_register-lt a reg) small
        _ key refl

  pub update_index_field-IsSound :
      (index key : String) → IsSound (update_index_field a reg index key v).0
  unfolding update_index_field
  update_index_field-IsSound index key =
      update_index_at-IsSound reg v (ensure_register-IsSound reg s) (ensure_register-lt a reg) small
        _ index key (str_eq key "") refl

  pub update_deep_field-IsSound : (path : List String) → IsSound (update_deep_field a reg path v).0
  unfolding update_deep_field
  update_deep_field-IsSound [] =
      update_deep_at-IsSound reg v (ensure_register-IsSound reg s) (ensure_register-lt a reg) small
        _ [] refl
  update_deep_field-IsSound (k ∷ []) = update_field-IsSound k
  update_deep_field-IsSound (k ∷ k' ∷ ks) =
      update_deep_at-IsSound reg v (ensure_register-IsSound reg s) (ensure_register-lt a reg) small
        _ (k ∷ k' ∷ ks) refl

-- ===== src/Updates/Loss.antt =====
-- crates/causm-core/src/value.rs: failing updates that lose the value they were to change.
use causm.Prelude.{
  ℕ, ◌≡◌, refl, ◌∙◌, none, String, List, ◌∷◌, str_eq, err, get_or-set_self, Result, false, arith,
  ◌≢◌, Option, some, Bool-cases, inl, inr, ltb,
}
use causm.Value
use causm.Value.{
  EntropicState, valid, leased, decayed, pending, consumed, Payload, struct, topology, Fields,
  array, Payloads, integer, float, bool, string, tuple, range, null, MemoryError, already_consumed,
  key_not_found, out_of_memory, weight,
}
use causm.Arena.{Arena, Outcome, state_at, ensure_register, overwrite}
use causm.Arena.Sound.{state_at-ensure_register, ensure_register-lt, used-ensure_register}
use causm.Memory.Frame.Calls.{update_field-IsLocal}
use causm.Updates.{
  elems_length, update_array, lose, commit, update_field_at, update_field, update_inner,
  update_index_at, update_index_field, deep_set, commit_deep, update_deep_at, update_deep_field,
}

-- The call fails with `e`; the register, which held a value, is consumed, and `used` still counts
-- that value.
abbrev pub Lost : Arena → ℕ → MemoryError → Outcome (Unit {0}) → Type 0
Lost a reg e out = (out.1 ≡ err e) × (state_at out.0 reg ≡ consumed) × (out.0.used ≡ a.used)

lose-Lost :
    (a : Arena) (reg : ℕ) (e : MemoryError) → Lost a reg e (lose (ensure_register a reg) reg e)
unfolding lose overwrite
lose-Lost a reg e = (
  refl,
  get_or-set_self (ensure_register a reg).registers reg consumed consumed
      (ensure_register-lt a reg),
  used-ensure_register a reg,
)

-- A write to a nested field of a struct whose first path element is missing fails with
-- `KeyNotFound`, consumes the struct, and leaves its bytes counted.
pub update_deep_field-loses :
    (a : Arena) (reg : ℕ) (fs : Fields) (k k' : String) (ks : List String) (v : Payload)
    → state_at a reg ≡ valid (struct fs)
    → Value.get k fs ≡ none
    → Lost a reg (key_not_found k) (update_deep_field a reg (k ∷ k' ∷ ks) v)
unfolding update_deep_field update_deep_at commit_deep deep_set
update_deep_field-loses a reg fs k k' ks v e g =
    rw (state_at-ensure_register a reg reg ∙ e, update_deep_at)
      (rw (g, deep_set) (lose-Lost a reg (key_not_found k)))

-- An indexed write into a missing entry of a topology fails with `AlreadyConsumed`, consumes the
-- whole topology, and leaves its bytes counted.
pub update_index_field-loses :
    (a : Arena) (reg : ℕ) (fs : Fields) (index key : String) (v : Payload)
    → state_at a reg ≡ valid (topology fs)
    → Value.get index fs ≡ none
    → str_eq key "" ≡ false
    → Lost a reg already_consumed (update_index_field a reg index key v)
unfolding update_index_field update_index_at update_inner
update_index_field-loses a reg fs index key v e g ne =
    rw (state_at-ensure_register a reg reg ∙ e, ne, update_index_at)
      (rw (g, update_inner) (lose-Lost a reg already_consumed))

module _ (a : Arena) (idx need left : ℕ) where
  commit-loses :
      (old new : EntropicState) (l : ℕ)
      → (commit a idx old new l).1 ≡ err (out_of_memory need left)
      → (commit a idx old new l).0 ≡ overwrite a idx consumed
  unfolding commit lose
  commit-loses old new l h = ground arith

  update_array-loses :
      (elems : Payloads) (found : Option ℕ) (v : Payload) (l : ℕ) (bad : MemoryError)
      → bad ≢ out_of_memory need left
      → (update_array a idx elems found v l bad).1 ≡ err (out_of_memory need left)
      → (update_array a idx elems found v l bad).0 ≡ overwrite a idx consumed
  unfolding update_array
  update_array-loses elems none v l bad ne h = absurd (ne cc)
  update_array-loses elems (some i) v l bad ne h = elim (Bool-cases (ltb i (elems_length elems))) [
    | inl inside ↦ rw inside (commit-loses _ _ l (rw inside at h))
    | inr outside ↦ absurd (outside_fails (rw outside at h))
  ]
    where
      outside_fails :
          Path
            (Result MemoryError (Unit {0}))
            (err already_consumed)
            (err (out_of_memory need left))
          → ⊥
      outside_fails q = cc

  update_field_at-loses :
      (s : EntropicState) (key : String) (v : Payload)
      → (update_field_at a idx s key v).1 ≡ err (out_of_memory need left)
      → (update_field_at a idx s key v).0 ≡ overwrite a idx consumed
  unfolding update_field_at
  update_field_at-loses (valid (struct f)) key v h = commit-loses _ _ _ h
  update_field_at-loses (valid (topology f)) key v h = commit-loses _ _ _ h
  update_field_at-loses (decayed f) key v h = commit-loses _ _ _ h
  update_field_at-loses (valid (array elems)) key v h = update_array-loses elems _ v _ _ (λ q. cc) h
  update_field_at-loses s key v h = cc

  update_field_at-held :
      (s : EntropicState) (key : String) (v : Payload)
      → (update_field_at a idx s key v).1 ≡ err (out_of_memory need left)
      → s ≢ consumed
  unfolding update_field_at
  update_field_at-held consumed key v h q = cc
  update_field_at-held (valid p) key v h q = cc
  update_field_at-held (leased s e) key v h q = cc
  update_field_at-held (decayed f) key v h q = cc
  update_field_at-held (pending p) key v h q = cc

-- Whatever a register holds, a struct, a topology, a decayed compound or an array: where
-- `update_field` fails with `OutOfMemory`, the register was not consumed before the call and is
-- consumed behind it, `used` is as before, and so is every other register.
pub update_field-loses :
    (a : Arena) (reg : ℕ) (key : String) (v : Payload) (need left : ℕ)
    → (update_field a reg key v).1 ≡ err (out_of_memory need left)
    → (state_at a reg ≢ consumed)
      × (state_at (update_field a reg key v).0 reg ≡ consumed)
      × ((update_field a reg key v).0.used ≡ a.used)
      × ((j : ℕ) → reg ≢ j → state_at (update_field a reg key v).0 j ≡ state_at a j)
unfolding update_field overwrite
update_field-loses a reg key v need left h =
    let g = ensure_register a reg in
    let q = update_field_at-loses g reg need left (state_at g reg) key v h in
    (
      λ e.
          update_field_at-held g reg need left (state_at g reg) key v h
            (state_at-ensure_register a reg reg ∙ e),
      rw q (get_or-set_self g.registers reg consumed consumed (ensure_register-lt a reg)),
      rw q (used-ensure_register a reg),
      (update_field-IsLocal a reg key v).others,
    )

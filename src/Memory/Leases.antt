-- ===== src/Memory/Leases.antt =====
-- crates/causm-core/src/value.rs: what a leased register answers.
use causm.Prelude.{
  ℕ, suc, ◌<◌, ◌≡◌, ◌≢◌, refl, ◌∙◌, String, List, [], ◌∷◌, err, length, get_or_beyond, arith, ◌==◌,
  ==→eq, Bool-cases, inl, inr,
}
use native.Mathlib.Decide.{dec_lt}
use causm.Value.{EntropicState, leased, consumed, Payload, MemoryError}
use causm.Arena.{
  Arena, Outcome, state_at, ensure_register, consume_at, consume, consume_entropic_at,
  consume_entropic, set_consumed_at, set_consumed, decay_at, decay, freeze_base_watermark,
}
use causm.Arena.Sound.{state_at-ensure_register}
use causm.FieldOps.{consume_field_at, consume_field_entropic, consume_field}
use causm.Updates.{
  update_field_at, update_field, update_index_at, update_index_field, update_deep_at,
  update_deep_field,
}
use causm.Arena.Evict.{state_at-evict_decayed}
use causm.Memory.{Op, apply, run}
use causm.Memory.Frame.{IsLocal}
use causm.Memory.Frame.Calls.{
  insert-IsLocal, insert_with_metadata-IsLocal, set_metadata-IsLocal, consume-IsLocal,
  consume_entropic-IsLocal, set_consumed-IsLocal, decay-IsLocal, consume_field-IsLocal,
  consume_field_entropic-IsLocal, update_field-IsLocal, update_index_field-IsLocal,
  update_deep_field-IsLocal,
}

-- The call fails with the lease error, and changes no more than the size of the register file.
abbrev pub Refused : {A : Type 0} → Arena → ℕ → Outcome A → Type 0
Refused a reg out = (out.0 ≡ ensure_register a reg) × (out.1 ≡ err MemoryError.leased)

module _ (a : Arena) (reg : ℕ) (original : EntropicState) (expiration : ℕ)
    (e : state_at a reg ≡ leased original expiration) where
  grown : state_at (ensure_register a reg) reg ≡ leased original expiration
  grown = state_at-ensure_register a reg reg ∙ e

  consume-Refused : Refused a reg (consume a reg)
  unfolding consume consume_at
  consume-Refused = rw (grown, consume_at) (refl, refl)

  consume_entropic-Refused : Refused a reg (consume_entropic a reg)
  unfolding consume_entropic consume_entropic_at
  consume_entropic-Refused = rw (grown, consume_entropic_at) (refl, refl)

  set_consumed-Refused : Refused a reg (set_consumed a reg)
  unfolding set_consumed set_consumed_at
  set_consumed-Refused = rw (grown, set_consumed_at) (refl, refl)

  decay-Refused : Refused a reg (decay a reg)
  unfolding decay decay_at
  decay-Refused = rw (grown, decay_at) (refl, refl)

  consume_field_entropic-Refused : (key : String) → Refused a reg (consume_field_entropic a reg key)
  unfolding consume_field_entropic consume_field_at
  consume_field_entropic-Refused key = rw (grown, consume_field_at) (refl, refl)

  consume_field-Refused : (key : String) → Refused a reg (consume_field a reg key)
  unfolding consume_field
  consume_field-Refused key = let (s, r) = consume_field_entropic-Refused key in (s, rw r refl)

  update_field-Refused : (key : String) (v : Payload) → Refused a reg (update_field a reg key v)
  unfolding update_field update_field_at
  update_field-Refused key v = rw (grown, update_field_at) (refl, refl)

  update_index_field-Refused :
      (index key : String) (v : Payload) → Refused a reg (update_index_field a reg index key v)
  unfolding update_index_field update_index_at
  update_index_field-Refused index key v = rw (grown, update_index_at) (refl, refl)

  update_deep_field-Refused :
      (path : List String) (v : Payload) → Refused a reg (update_deep_field a reg path v)
  unfolding update_deep_field update_deep_at
  update_deep_field-Refused [] v = rw (grown, update_deep_at) (refl, refl)
  update_deep_field-Refused (k ∷ []) v = update_field-Refused k v
  update_deep_field-Refused (k ∷ k' ∷ ks) v = rw (grown, update_deep_at) (refl, refl)

-- Every method that would consume, decay or update the register is refused.
abbrev pub Refuses : Arena → ℕ → Type 0
Refuses a reg =
    Refused a reg (consume a reg)
    × Refused a reg (consume_entropic a reg)
    × Refused a reg (set_consumed a reg)
    × Refused a reg (decay a reg)
    × ((key : String) → Refused a reg (consume_field_entropic a reg key))
    × ((key : String) → Refused a reg (consume_field a reg key))
    × ((key : String) (v : Payload) → Refused a reg (update_field a reg key v))
    × ((index key : String) (v : Payload) → Refused a reg (update_index_field a reg index key v))
    × ((path : List String) (v : Payload) → Refused a reg (update_deep_field a reg path v))

leased-Refuses :
    (a : Arena) (reg : ℕ) (original : EntropicState) (expiration : ℕ)
    → state_at a reg ≡ leased original expiration
    → Refuses a reg
leased-Refuses a reg original expiration e = (
  consume-Refused a reg original expiration e,
  consume_entropic-Refused a reg original expiration e,
  set_consumed-Refused a reg original expiration e,
  decay-Refused a reg original expiration e,
  λ key. consume_field_entropic-Refused a reg original expiration e key,
  λ key. consume_field-Refused a reg original expiration e key,
  λ key v. update_field-Refused a reg original expiration e key v,
  λ index key v. update_index_field-Refused a reg original expiration e index key v,
  λ path v. update_deep_field-Refused a reg original expiration e path v,
)

-- the calls that cannot put another state into the register
abbrev pub Spares : ℕ → Op → Type 0
Spares reg (Op.insert r state) = r ≢ reg
Spares reg (Op.insert_with_metadata r state meta) = r ≢ reg
Spares reg Op.clear = ⊥
Spares reg _ = Unit {0}

abbrev pub AllSpare : ℕ → List Op → Type 0
AllSpare reg [] = Unit {0}
AllSpare reg (op ∷ ops) = Spares reg op × AllSpare reg ops

module _ (a : Arena) (reg : ℕ) (original : EntropicState) (expiration : ℕ)
    (e : state_at a reg ≡ leased original expiration) where
  -- a call on `r` that leaves the others alone, and refuses `reg`
  stays :
      {b : Arena} (r : ℕ)
      → IsLocal r a b
      → (r ≡ reg → b ≡ ensure_register a reg)
      → state_at b reg ≡ leased original expiration
  stays r l same = elim (Bool-cases (r == reg)) [
    | inl q ↦ rw (same (==→eq r reg q)) (state_at-ensure_register a reg reg ∙ e)
    | inr q ↦ l.others reg (λ p. ground arith) ∙ e
  ]

  leased-lt : reg < length a.registers
  leased-lt = elim (dec_lt reg (length a.registers)) [
    | yes h ↦ h
    | no beyond ↦ let q = get_or_beyond a.registers reg consumed (omega arith) in cc
  ]

  apply-keeps_leased :
      (op : Op) → Spares reg op → state_at (apply a op) reg ≡ leased original expiration
  unfolding apply freeze_base_watermark
  apply-keeps_leased (Op.insert r state) ne = (insert-IsLocal a r state).others reg ne ∙ e
  apply-keeps_leased (Op.insert_with_metadata r state meta) ne =
      (insert_with_metadata-IsLocal a r state meta).others reg ne ∙ e
  apply-keeps_leased (Op.set_metadata r meta) u =
      (set_metadata-IsLocal a r (suc reg) meta).others reg (λ q. omega arith) ∙ e
  apply-keeps_leased Op.clear u = absurd u
  apply-keeps_leased Op.freeze_base_watermark u = e
  apply-keeps_leased Op.evict_decayed u = rw e at (state_at-evict_decayed a reg leased-lt)
  apply-keeps_leased (Op.ensure_register r) u = state_at-ensure_register a r reg ∙ e
  apply-keeps_leased (Op.consume r) u =
      stays r (consume-IsLocal a r) (λ q. rw q (consume-Refused a reg original expiration e).0)
  apply-keeps_leased (Op.consume_entropic r) u =
      stays r (consume_entropic-IsLocal a r)
        (λ q. rw q (consume_entropic-Refused a reg original expiration e).0)
  apply-keeps_leased (Op.set_consumed r) u =
      stays r (set_consumed-IsLocal a r)
        (λ q. rw q (set_consumed-Refused a reg original expiration e).0)
  apply-keeps_leased (Op.decay r) u =
      stays r (decay-IsLocal a r) (λ q. rw q (decay-Refused a reg original expiration e).0)
  apply-keeps_leased (Op.consume_field r key) u =
      stays r (consume_field-IsLocal a r key)
        (λ q. rw q (consume_field-Refused a reg original expiration e key).0)
  apply-keeps_leased (Op.consume_field_entropic r key) u =
      stays r (consume_field_entropic-IsLocal a r key)
        (λ q. rw q (consume_field_entropic-Refused a reg original expiration e key).0)
  apply-keeps_leased (Op.update_field r key v) u =
      stays r (update_field-IsLocal a r key v)
        (λ q. rw q (update_field-Refused a reg original expiration e key v).0)
  apply-keeps_leased (Op.update_index_field r index key v) u =
      stays r (update_index_field-IsLocal a r index key v)
        (λ q. rw q (update_index_field-Refused a reg original expiration e index key v).0)
  apply-keeps_leased (Op.update_deep_field r path v) u =
      stays r (update_deep_field-IsLocal a r path v)
        (λ q. rw q (update_deep_field-Refused a reg original expiration e path v).0)

-- A leased register keeps its state through every history of `&mut` calls on the arena, calls on the
-- register itself and failing ones among them, where the history has no `clear`, no `insert` and no
-- `insert_with_metadata` into this register (these overwrite a lease), no
-- `reset_to_base_watermark` and no `compact_consumed`. Behind the history each method that would
-- consume, decay or update the register, whole or in a field, fails with the lease error and does
-- no more than to grow the register file up to the register.
pub lease-blocks_all :
    (ops : List Op) (a : Arena) (reg : ℕ) (original : EntropicState) (expiration : ℕ)
    → state_at a reg ≡ leased original expiration
    → AllSpare reg ops
    → (state_at (run a ops) reg ≡ leased original expiration) × Refuses (run a ops) reg
unfolding run
lease-blocks_all [] a reg original expiration e h = (e, leased-Refuses a reg original expiration e)
lease-blocks_all (op ∷ ops) a reg original expiration e h =
    lease-blocks_all ops (apply a op) reg original expiration
      (apply-keeps_leased a reg original expiration e op h.0) h.1

-- ===== src/FieldOps/Moves.antt =====
-- crates/causm-core/src/value.rs: what moving one field out of a compound does to the compound.
use causm.Prelude.{
  ℕ, ◌<◌, ◌≡◌, ◌≢◌, refl, ◌∙◌, sym, Option, some, none, String, length, get_or-set_self,
  get_or-set_ne, ok, err, arith, eq_iff,
}
use causm.Value
use causm.Value.{
  EntropicState, valid, leased, decayed, pending, consumed, Payload, struct, topology, Fields,
  MemoryError, already_consumed, weight,
}
use causm.Value.Maps.{get-insert, get-remove_ne}
use causm.Arena.{Arena, state_at, ensure_register, replace_state}
use causm.Arena.Sound.{state_at-ensure_register, ensure_register-lt}
use causm.FieldOps.{
  peek_field, peek_field_of, field_payload, move_out, consume_from, consume_field_at,
  consume_field_entropic, consume_field,
}

get-move_out_self : (key : String) (fs : Fields) → Value.get key (move_out key fs) ≡ some consumed
unfolding move_out
get-move_out_self key fs =
    ground (arith, get-insert key key consumed (Value.remove key fs), eq_iff key key)

get-move_out_ne :
    (key other : String) (fs : Fields)
    → key ≢ other
    → Value.get other (move_out key fs) ≡ Value.get other fs
unfolding move_out
get-move_out_ne key other fs ne = ground (
  arith,
  get-insert key other consumed (Value.remove key fs),
  eq_iff key other,
  get-remove_ne key other fs ne,
)

-- the fields of a compound that `peek_field` and `consume_field` look into
abbrev pub fields_of : EntropicState → Option Fields
fields_of (valid (struct fs)) = some fs
fields_of (valid (topology fs)) = some fs
fields_of (decayed fs) = some fs
fields_of _ = none

peek_field-of_fields :
    (s : EntropicState) (fs : Fields) (key : String)
    → fields_of s ≡ some fs
    → peek_field_of s key ≡ field_payload key (Value.get key fs)
unfolding peek_field_of
peek_field-of_fields s fs key h = ground arith

consume_field_at-of_fields :
    (a : Arena) (idx : ℕ) (s : EntropicState) (fs : Fields) (key : String)
    → fields_of s ≡ some fs
    → consume_field_at a idx s key ≡ consume_from a idx s fs key (Value.get key fs)
unfolding consume_field_at
consume_field_at-of_fields a idx s fs key h = ground arith

state_at-replaced :
    (a : Arena) (idx w : ℕ) (s : EntropicState)
    → idx < length a.registers
    → state_at (replace_state a idx w s) idx ≡ s
unfolding replace_state
state_at-replaced a idx w s h = get_or-set_self a.registers idx s consumed h

state_at-replaced_ne :
    (a : Arena) (idx j w : ℕ) (s : EntropicState)
    → idx ≢ j
    → state_at (replace_state a idx w s) j ≡ state_at a j
unfolding replace_state
state_at-replaced_ne a idx j w s ne = get_or-set_ne a.registers idx j s consumed ne

-- the whole call on a compound that has the field
consume_field_entropic-found :
    (a : Arena) (reg : ℕ) (key : String) (fs : Fields) (t : EntropicState)
    → fields_of (state_at a reg) ≡ some fs
    → Value.get key fs ≡ some t
    → consume_field_entropic a reg key ≡ (
      replace_state
          (ensure_register a reg)
          reg
          (weight (state_at a reg))
          (decayed (move_out key fs)),
      ok t,
    )
unfolding consume_field_entropic consume_from
consume_field_entropic-found a reg key fs t e g = rw (
  state_at-ensure_register a reg reg,
  consume_field_at-of_fields (ensure_register a reg) reg (state_at a reg) fs key e,
  g,
)

consume_field-moved :
    (a : Arena) (reg : ℕ) (key : String) (fs : Fields)
    → state_at a reg ≡ decayed (move_out key fs)
    → (consume_field a reg key).1 ≡ err already_consumed
unfolding consume_field
consume_field-moved a reg key fs now =
    rw
      (consume_field_entropic-found a reg key (move_out key fs) consumed (rw now refl)
        (get-move_out_self key fs))
      refl

-- Moving a field out of a valid or decayed compound gives the field's state. The compound is then
-- structurally decayed: the moved field reads as `AlreadyConsumed` and cannot be consumed again,
-- every other field reads as before, and so does every other register.
pub consume_field_moves_once :
    (a : Arena) (reg : ℕ) (key : String) (fs : Fields) (t : EntropicState)
    → fields_of (state_at a reg) ≡ some fs
    → Value.get key fs ≡ some t
    → let a' = (consume_field_entropic a reg key).0 in
      ((consume_field_entropic a reg key).1 ≡ ok t)
      × (state_at a' reg ≡ decayed (move_out key fs))
      × (peek_field a' reg key ≡ err already_consumed)
      × ((consume_field a' reg key).1 ≡ err already_consumed)
      × ((other : String) → key ≢ other → peek_field a' reg other ≡ peek_field a reg other)
      × ((j : ℕ) → reg ≢ j → state_at a' j ≡ state_at a j)
unfolding peek_field consume_field
consume_field_moves_once a reg key fs t e g =
    let q = consume_field_entropic-found a reg key fs t e g in
    let now : state_at (consume_field_entropic a reg key).0 reg ≡ decayed (move_out key fs) = rw q (
      state_at-replaced (ensure_register a reg) reg (weight (state_at a reg))
        (decayed (move_out key fs)) (ensure_register-lt a reg)) in
    (
      rw q refl,
      now,
      rw now (
          peek_field-of_fields (decayed (move_out key fs)) (move_out key fs) key refl
          ∙ rw (get-move_out_self key fs) refl),
      consume_field-moved (consume_field_entropic a reg key).0 reg key fs now,
      λ other ne. rw now (
          peek_field-of_fields (decayed (move_out key fs)) (move_out key fs) other refl
          ∙ rw (get-move_out_ne key other fs ne) (sym (peek_field-of_fields _ fs other e))),
      λ j ne. rw q (
          state_at-replaced_ne (ensure_register a reg) reg j (weight (state_at a reg))
            (decayed (move_out key fs)) ne
          ∙ state_at-ensure_register a reg j),
    )

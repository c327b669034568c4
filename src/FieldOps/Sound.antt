-- ===== src/FieldOps/Sound.antt =====
-- crates/causm-core/src/value.rs: moving a field out keeps the accounting invariant of `Arena`.
use causm.Prelude.{ℕ, ◌+◌, ◌<◌, ◌≤◌, ◌≡◌, refl, Option, some, none, String, length, arith, subst}
use causm.Value
use causm.Value.{
  EntropicState, valid, leased, decayed, pending, consumed, Payload, struct, topology, array,
  integer, float, bool, string, tuple, range, null, Fields, weight, fields_weight,
}
use causm.Value.Weight.{weight-ge, fields_weight-insert_consumed, fields_weight-remove}
use causm.Arena.{Arena, state_at, replace_state}
use causm.Arena.Sound.{IsSound, ensure_register-IsSound, ensure_register-lt, lighter-IsSound}
use causm.FieldOps.{move_out, consume_from, consume_field_at, consume_field_entropic, consume_field}

-- The map is no heavier behind the move.
fields_weight-move_out :
    (key : String) (fields : Fields) (s : EntropicState)
    → Value.get key fields ≡ some s
    → fields_weight (move_out key fields) ≤ fields_weight fields
unfolding move_out
fields_weight-move_out key fields s e = omega (
  arith,
  fields_weight-insert_consumed key (Value.remove key fields),
  fields_weight-remove key fields s e,
  weight-ge s,
)

module _ {a : Arena} (idx : ℕ) (key : String) (s : IsSound a) (h : idx < length a.registers) where
  consume_from-IsSound :
      (old : EntropicState) (fields : Fields) (found : Option EntropicState)
      → state_at a idx ≡ old
      → fields_weight fields + 32 ≤ weight old
      → Value.get key fields ≡ found
      → IsSound (consume_from a idx old fields key found).0
  unfolding consume_from weight
  consume_from-IsSound old fields none e le g = s
  consume_from-IsSound old fields (some t) e le g =
      subst (λ o. IsSound (replace_state a idx (weight o) (decayed (move_out key fields)))) e
        (lighter-IsSound idx (decayed (move_out key fields)) s h
          (rw e (omega (arith, fields_weight-move_out key fields t g, le))))

  consume_field_at-IsSound :
      (state : EntropicState)
      → state_at a idx ≡ state
      → IsSound (consume_field_at a idx state key).0
  unfolding consume_field_at weight
  consume_field_at-IsSound (valid (struct f)) e =
      consume_from-IsSound (valid (struct f)) f _ e (omega arith) refl
  consume_field_at-IsSound (valid (topology f)) e =
      consume_from-IsSound (valid (topology f)) f _ e (omega arith) refl
  consume_field_at-IsSound (decayed f) e = consume_from-IsSound (decayed f) f _ e (omega arith) refl
  consume_field_at-IsSound _ e = s

pub consume_field_entropic-IsSound :
    {a : Arena} (reg : ℕ) (key : String) → IsSound a → IsSound (consume_field_entropic a reg key).0
unfolding consume_field_entropic
consume_field_entropic-IsSound {a} reg key s =
    consume_field_at-IsSound reg key (ensure_register-IsSound reg s) (ensure_register-lt a reg) _
      refl

pub consume_field-IsSound :
    {a : Arena} (reg : ℕ) (key : String) → IsSound a → IsSound (consume_field a reg key).0
unfolding consume_field
consume_field-IsSound reg key s = consume_field_entropic-IsSound reg key s

-- ===== src/FieldOps.antt =====
-- crates/causm-core/src/value.rs: the methods of `Arena` that read or move one field of a compound.
pub mod Sound
pub mod Moves
use causm.Prelude.{ℕ, Option, some, none, String, Result, ok, err}
use causm.Value
use causm.Value.{
  EntropicState, valid, leased, decayed, pending, consumed, Payload, struct, topology, Fields,
  MemoryError, already_consumed, structurally_decayed, not_a_struct, key_not_found, weight,
}
use causm.Arena.{Arena, Outcome, state_at, ensure_register, replace_state}

-- what `peek_field` answers for an entry of the map
unfoldable pub field_payload : String → Option EntropicState → Result MemoryError Payload
field_payload key (some (valid p)) = ok p
field_payload key (some (decayed _)) = err structurally_decayed
field_payload key (some (leased (valid p) _)) = ok p
field_payload key (some (leased _ _)) = err already_consumed
field_payload key (some consumed) = err already_consumed
field_payload key _ = err (key_not_found key)

-- `peek_field`, on the state of the register
unfoldable pub peek_field_of : EntropicState → String → Result MemoryError Payload
unfolding field_payload
peek_field_of (valid (struct fields)) key = field_payload key (Value.get key fields)
peek_field_of (valid (topology fields)) key = field_payload key (Value.get key fields)
peek_field_of (decayed fields) key = field_payload key (Value.get key fields)
peek_field_of consumed key = err already_consumed
peek_field_of (leased _ _) key = err MemoryError.leased
peek_field_of _ key = err not_a_struct

-- Out of range `state_at` gives `consumed`, whose answer is that of the early return.
unfoldable pub peek_field : Arena → ℕ → String → Result MemoryError Payload
unfolding peek_field_of
peek_field a reg key = peek_field_of (state_at a reg) key

-- the map with the field moved out: `fields.remove(field)`, then `fields.insert(field, Consumed)`
unfoldable pub move_out : String → Fields → Fields
move_out key fields = Value.insert key consumed (Value.remove key fields)

-- The three arms for a map do the same; `old` is the whole state. On a missing key the state is
-- put back.
unfoldable pub consume_from :
    Arena → ℕ → EntropicState → Fields → String → Option EntropicState → Outcome EntropicState
consume_from a idx old fields key none = (a, err (key_not_found key))
consume_from a idx old fields key (some field_state) =
    (replace_state a idx (weight old) (decayed (move_out key fields)), ok field_state)

-- `consume_field_entropic` once the register exists
unfoldable pub consume_field_at : Arena → ℕ → EntropicState → String → Outcome EntropicState
unfolding consume_from
consume_field_at a idx (leased _ _) key = (a, err MemoryError.leased)
consume_field_at a idx consumed key = (a, err already_consumed)
consume_field_at a idx (valid (struct fields)) key =
    consume_from a idx (valid (struct fields)) fields key (Value.get key fields)
consume_field_at a idx (valid (topology fields)) key =
    consume_from a idx (valid (topology fields)) fields key (Value.get key fields)
consume_field_at a idx (decayed fields) key =
    consume_from a idx (decayed fields) fields key (Value.get key fields)
consume_field_at a idx _ key = (a, err not_a_struct)

unfoldable pub consume_field_entropic : Arena → ℕ → String → Outcome EntropicState
unfolding consume_field_at
consume_field_entropic a reg key =
    let a' = ensure_register a reg in consume_field_at a' reg (state_at a' reg) key

-- how `consume_field` reads the moved state
unfoldable pub moved_payload : Result MemoryError EntropicState → Result MemoryError Payload
moved_payload (ok (valid p)) = ok p
moved_payload (ok (decayed _)) = err structurally_decayed
moved_payload (ok (leased _ _)) = err MemoryError.leased
moved_payload (ok _) = err already_consumed
moved_payload (err e) = err e

unfoldable pub consume_field : Arena → ℕ → String → Outcome Payload
unfolding moved_payload
consume_field a reg key = let (a', r) = consume_field_entropic a reg key in (a', moved_payload r)

-- ===== src/Memory/Tests.antt =====
-- Runs of the arena's methods on small inputs, and the theorems on them at concrete arenas.
use mathlib.Core.Option
use causm.Prelude.{
  ℕ, ◌<◌, ◌≡◌, ◌≢◌, refl, length, none, String, List, [], ◌∷◌, true, false, ok, err, arith, pos,
}
use causm.Value
use causm.Value.{
  EntropicState, valid, leased, decayed, pending, consumed, Payload, integer, bool, string, struct,
  topology, array, Fields, empty_map, entry, item, no_items, weight, decay_recursive, decay_fields,
  MemoryError, already_consumed, key_not_found, out_of_memory,
}
use causm.Value.Decay.{IsInert, field, decay_recursive_complete}
use causm.Arena
use causm.Arena.{Arena, empty, state_at, ensure_register, replace_state, put_metadata, insert_at}
use causm.Arena.Sound.{IsSound}
use causm.Arena.Evict.{evicted, state_at-evict_decayed}
use causm.FieldOps
use causm.FieldOps.Moves.{consume_field_moves_once}
use causm.Updates
use causm.Updates.Loss.{Lost, update_deep_field-loses, update_index_field-loses, update_field-loses}
use causm.Memory.{Op, run}
use causm.Memory.Sound.{run-IsSound}
use causm.Memory.Leases.{Refuses, lease-blocks_all}
use causm.Memory.Linear.{consume_once}
use causm.Memory.Watermark.{reset-run-freeze, reset-forgets_write, compact-blocks_insert}

-- `struct { x = 7, y = true }`
abbrev point : Fields
point = entry "x" (valid (integer (pos 7))) (entry "y" (valid (bool true)) empty_map)

-- registers: a number, a struct, a lease, a topology, a decayed struct
abbrev store : Arena
store = record {
  capacity = 400;
  used = 300;
  base_watermark_used = 100;
  base_watermark_regs = 2;
  registers =
      valid (integer (pos 5))
      ∷ valid (struct point)
      ∷ leased (valid (integer (pos 1))) 50
      ∷ valid (topology point)
      ∷ decayed point
      ∷ [];
  metadata = none ∷ none ∷ none ∷ none ∷ none ∷ [];
  is_persistent_partition = false;
}

abbrev script : List Op
script =
    Op.insert 3 (valid (struct point))
    ∷ Op.consume_field 3 "x"
    ∷ Op.update_deep_field 3 ("y" ∷ "z" ∷ []) (integer (pos 1))
    ∷ Op.consume 3
    ∷ Op.evict_decayed
    ∷ []

consume_field_runs : (FieldOps.consume_field store 1 "x").1 ≡ ok (integer (pos 7))
unfolding FieldOps.consume_field FieldOps.consume_field_entropic ensure_register Value.get
consume_field_runs = refl

run-IsSound_example : IsSound (run (empty 4096) script)
unfolding weight
run-IsSound_example = run-IsSound 4096 script (omega arith) (omega arith)

-- calls beside the lease of register 2, and four on it
abbrev busy : List Op
busy =
    Op.insert 0 (valid (bool true))
    ∷ Op.decay 2
    ∷ Op.update_field 2 "x" (bool true)
    ∷ Op.consume 0
    ∷ Op.evict_decayed
    ∷ Op.set_metadata 2 none
    ∷ Op.consume_field 2 "x"
    ∷ []

lease-blocks_all_example :
    (state_at (run store busy) 2 ≡ leased (valid (integer (pos 1))) 50) × Refuses (run store busy) 2
lease-blocks_all_example =
    lease-blocks_all busy store 2 (valid (integer (pos 1))) 50 refl
      ((λ e. omega arith), (tt, (tt, (tt, (tt, (tt, (tt, tt)))))))

consume_once_example :
    (state_at store 0 ≡ valid (integer (pos 5)))
    × (state_at (Arena.consume store 0).0 0 ≡ consumed)
    × (Arena.peek (Arena.consume store 0).0 0 ≡ none)
    × ((Arena.consume (Arena.consume store 0).0 0).1 ≡ err already_consumed)
    × ((j : ℕ) → 0 ≢ j → state_at (Arena.consume store 0).0 j ≡ state_at store j)
unfolding Arena.consume Arena.consume_at ensure_register
consume_once_example = consume_once store 0 (integer (pos 5)) refl

consume_field_moves_once_example :
    let a' = (FieldOps.consume_field_entropic store 1 "x").0 in
    ((FieldOps.consume_field_entropic store 1 "x").1 ≡ ok (valid (integer (pos 7))))
    × (state_at a' 1 ≡ decayed (FieldOps.move_out "x" point))
    × (FieldOps.peek_field a' 1 "x" ≡ err already_consumed)
    × ((FieldOps.consume_field a' 1 "x").1 ≡ err already_consumed)
    × ((other : String)
        → "x" ≢ other
        → FieldOps.peek_field a' 1 other ≡ FieldOps.peek_field store 1 other)
    × ((j : ℕ) → 1 ≢ j → state_at a' j ≡ state_at store j)
unfolding Value.get
consume_field_moves_once_example =
    consume_field_moves_once store 1 "x" point (valid (integer (pos 7))) refl refl

decay_recursive_complete_example :
    IsInert (decay_recursive (valid (topology point)))
    × (decay_recursive (decay_recursive (valid (topology point)))
        ≡ decay_recursive (valid (topology point)))
    × ((k : String)
        → field k (decay_recursive (valid (topology point)))
          ≡ Option.map decay_recursive (field k (valid (topology point))))
decay_recursive_complete_example = decay_recursive_complete (valid (topology point))

state_at-evict_decayed_example : state_at (Arena.evict_decayed store) 4 ≡ evicted (decayed point)
state_at-evict_decayed_example = state_at-evict_decayed store 4 (omega arith)

update_deep_field-loses_example :
    Lost store 1
      (key_not_found "z")
      (Updates.update_deep_field store 1 ("z" ∷ "w" ∷ []) (bool true))
unfolding Value.get
update_deep_field-loses_example =
    update_deep_field-loses store 1 point "z" "w" [] (bool true) refl refl

topology-Lost :
    Lost store 3 already_consumed (Updates.update_index_field store 3 "z" "w" (bool true))
unfolding Value.get
topology-Lost = update_index_field-loses store 3 point "z" "w" (bool true) refl refl refl

abbrev long_array : Payload
long_array = array (item (integer (pos 0)) (item (struct point) (item (struct point) no_items)))

update_field-loses_example :
    (state_at store 1 ≢ consumed)
    × (state_at (Updates.update_field store 1 "z" long_array).0 1 ≡ consumed)
    × ((Updates.update_field store 1 "z" long_array).0.used ≡ 300)
    × ((j : ℕ)
        → 1 ≢ j
        → state_at (Updates.update_field store 1 "z" long_array).0 j ≡ state_at store j)
unfolding Updates.update_field Updates.update_field_at Updates.commit ensure_register weight
    Value.insert
update_field-loses_example =
    update_field-loses store 1 "z" long_array
      (weight (valid (struct (Value.insert "z" (valid long_array) point))))
      (Updates.left_plain store (valid (struct point))) refl

reset-run-freeze_example :
    let c = run (Arena.freeze_base_watermark store) script in
    ((Arena.reset_to_base_watermark c).used ≡ 300)
    × (length (Arena.reset_to_base_watermark c).registers ≡ 5)
    × ((j : ℕ) → j < 5 → state_at (Arena.reset_to_base_watermark c) j ≡ state_at c j)
reset-run-freeze_example = reset-run-freeze store script (tt, (tt, (tt, (tt, (tt, tt)))))

reset-forgets_write_example :
    let b =
      Arena.reset_to_base_watermark
        (Arena.insert (Arena.freeze_base_watermark store) 0 (valid (integer (pos 9)))).0 in
    (state_at b 0 ≡ valid (integer (pos 9))) × (b.used ≡ 300)
unfolding Arena.insert insert_at Arena.freeze_base_watermark ensure_register weight
reset-forgets_write_example =
    reset-forgets_write store 0 (valid (integer (pos 9))) (omega arith) refl

-- five empty registers and a capacity of 30 bytes
abbrev tight : Arena
tight = record store {
  capacity = 30;
  used = 0;
  registers = consumed ∷ consumed ∷ consumed ∷ consumed ∷ consumed ∷ [];
}

compacted-full : (Arena.insert (Arena.compact_consumed tight) 0 (valid (bool true))).1 ≢ ok tt
unfolding weight
compacted-full =
    compact-blocks_insert tight 0 (valid (bool true)) (omega arith) (omega arith) (omega arith)

tight_fits : (Arena.insert tight 0 (valid (bool true))).1 ≡ ok tt
unfolding Arena.insert insert_at ensure_register weight
tight_fits = refl

-- ===== src/Memory.antt =====
-- crates/causm-core/src/value.rs: a history of calls on one arena.
pub mod Sound
pub mod Watermark
mod Tests
pub mod Frame
pub mod Leases
pub mod Linear
use causm.Prelude.{ℕ, ◌^◌, ◌<◌, Option, String, List, [], ◌∷◌}
use causm.Value.{EntropicState, valid, Payload, weight}
use causm.Arena
use causm.Arena.{Arena, ValueMetadata}
use causm.FieldOps
use causm.Updates

-- the methods of `Arena` that take `&mut self`, but for the two that recount `used`
pub data Op : Type 0 where
  insert : ℕ → EntropicState → Op
  insert_with_metadata : ℕ → EntropicState → ValueMetadata → Op
  set_metadata : ℕ → Option ValueMetadata → Op
  clear freeze_base_watermark evict_decayed : Op
  ensure_register consume consume_entropic set_consumed decay : ℕ → Op
  consume_field consume_field_entropic : ℕ → String → Op
  update_field : ℕ → String → Payload → Op
  update_index_field : ℕ → String → String → Payload → Op
  update_deep_field : ℕ → List String → Payload → Op

-- the arena behind the call, whether it succeeds or not
unfoldable pub apply : Arena → Op → Arena
apply a (insert reg state) = (Arena.insert a reg state).0
apply a (insert_with_metadata reg state meta) = (Arena.insert_with_metadata a reg state meta).0
apply a (set_metadata reg meta) = Arena.set_metadata a reg meta
apply a clear = Arena.clear a
apply a freeze_base_watermark = Arena.freeze_base_watermark a
apply a evict_decayed = Arena.evict_decayed a
apply a (ensure_register reg) = Arena.ensure_register a reg
apply a (consume reg) = (Arena.consume a reg).0
apply a (consume_entropic reg) = (Arena.consume_entropic a reg).0
apply a (set_consumed reg) = (Arena.set_consumed a reg).0
apply a (decay reg) = (Arena.decay a reg).0
apply a (consume_field reg key) = (FieldOps.consume_field a reg key).0
apply a (consume_field_entropic reg key) = (FieldOps.consume_field_entropic a reg key).0
apply a (update_field reg key v) = (Updates.update_field a reg key v).0
apply a (update_index_field reg index key v) = (Updates.update_index_field a reg index key v).0
apply a (update_deep_field reg path v) = (Updates.update_deep_field a reg path v).0

unfoldable pub run : Arena → List Op → Arena
unfolding apply
run a [] = a
run a (op ∷ ops) = run (apply a op) ops

-- What a call brings in weighs less than 2^62 bytes.
abbrev pub IsSmall : Op → Type 0
IsSmall (insert reg state) = weight state < 2 ^ 62
IsSmall (insert_with_metadata reg state meta) = weight state < 2 ^ 62
IsSmall (update_field reg key v) = weight (valid v) < 2 ^ 62
IsSmall (update_index_field reg index key v) = weight (valid v) < 2 ^ 62
IsSmall (update_deep_field reg path v) = weight (valid v) < 2 ^ 62
IsSmall _ = Unit {0}

abbrev pub AllSmall : List Op → Type 0
AllSmall [] = Unit {0}
AllSmall (op ∷ ops) = IsSmall op × AllSmall ops

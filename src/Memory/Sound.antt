-- ===== src/Memory/Sound.antt =====
-- crates/causm-core/src/value.rs: the accounting invariant over every history of calls.
use causm.Prelude.{
  ℕ, ◌*◌, ◌^◌, ◌≤◌, ◌<◌, ◌≡◌, refl, List, [], ◌∷◌, replicate, zero, suc, arith, max, Option, none,
  length-replicate,
}
use causm.Value.{EntropicState, consumed}
use causm.Arena.{Arena, ValueMetadata, fresh, empty, total_weight}
use causm.Arena.Totals.{Within, weight-consumed}
use causm.Arena.Sound.{IsSound, ensure_register-IsSound}
use causm.Arena.Keeps.{
  insert-IsSound, insert_with_metadata-IsSound, set_metadata-IsSound, clear-IsSound,
  freeze_base_watermark-IsSound, consume-IsSound, consume_entropic-IsSound, set_consumed-IsSound,
  decay-IsSound,
}
use causm.Arena.Evict.{evict_decayed-IsSound}
use causm.FieldOps.Sound.{consume_field-IsSound, consume_field_entropic-IsSound}
use causm.Updates.Sound.{
  update_field-IsSound, update_index_field-IsSound, update_deep_field-IsSound,
}
use causm.Memory.{Op, apply, run, IsSmall, AllSmall}

pub apply-IsSound : {a : Arena} (op : Op) → IsSmall op → IsSound a → IsSound (apply a op)
unfolding apply
apply-IsSound (Op.insert reg state) m s = insert-IsSound reg state m s
apply-IsSound (Op.insert_with_metadata reg state meta) m s =
    insert_with_metadata-IsSound reg state meta m s
apply-IsSound (Op.set_metadata reg meta) m s = set_metadata-IsSound reg meta s
apply-IsSound Op.clear m s = clear-IsSound s
apply-IsSound Op.freeze_base_watermark m s = freeze_base_watermark-IsSound s
apply-IsSound Op.evict_decayed m s = evict_decayed-IsSound s
apply-IsSound (Op.ensure_register reg) m s = ensure_register-IsSound reg s
apply-IsSound (Op.consume reg) m s = consume-IsSound reg s
apply-IsSound (Op.consume_entropic reg) m s = consume_entropic-IsSound reg s
apply-IsSound (Op.set_consumed reg) m s = set_consumed-IsSound reg s
apply-IsSound (Op.decay reg) m s = decay-IsSound reg s
apply-IsSound (Op.consume_field reg key) m s = consume_field-IsSound reg key s
apply-IsSound (Op.consume_field_entropic reg key) m s = consume_field_entropic-IsSound reg key s
apply-IsSound (Op.update_field reg key v) m s = update_field-IsSound reg v m s key
apply-IsSound (Op.update_index_field reg index key v) m s =
    update_index_field-IsSound reg v m s index key
apply-IsSound (Op.update_deep_field reg path v) m s = update_deep_field-IsSound reg v m s path

run_from-IsSound : (a : Arena) (ops : List Op) → AllSmall ops → IsSound a → IsSound (run a ops)
unfolding run
run_from-IsSound a [] m s = s
run_from-IsSound a (op ∷ ops) m s = run_from-IsSound (apply a op) ops m.1 (apply-IsSound op m.0 s)

total_weight-replicate : (n : ℕ) → total_weight (replicate n consumed) ≡ 8 * n
total_weight-replicate zero = refl
total_weight-replicate (suc n) = omega (arith, weight-consumed, total_weight-replicate n)

Within-replicate : (b n : ℕ) → 8 ≤ b → Within b (replicate n consumed)
Within-replicate b zero h = tt
Within-replicate b (suc n) h = (omega (arith, weight-consumed), Within-replicate b n h)

-- A fresh arena with `n` registers satisfies the invariant.
fresh-IsSound : (capacity n : ℕ) → capacity < 2 ^ 62 → IsSound (fresh capacity n)
unfolding fresh
fresh-IsSound capacity n h = record {
  sizes = omega (
    arith,
    length-replicate {0} {A = Option ValueMetadata} n none,
    length-replicate {0} {A = EntropicState} n consumed,
  );
  word = h;
  used_within = omega arith;
  each_within = Within-replicate (max capacity 8) n (omega arith);
  accounted =
      omega (arith, total_weight-replicate n, length-replicate {0} {A = EntropicState} n consumed);
}

-- Whatever calls a fresh arena of fewer than 2^62 bytes sees, failing ones included, but for the
-- snapback to the watermark and the compaction, and whatever states below 2^62 bytes they bring
-- in: `used` never exceeds the capacity (or 8 bytes, where the capacity is less), no register
-- holds a state above that bound, the weights of all registers exceed `used` by at most 8 bytes a
-- register, and every register has its metadata slot.
pub run-IsSound :
    (capacity : ℕ) (ops : List Op)
    → capacity < 2 ^ 62
    → AllSmall ops
    → IsSound (run (empty capacity) ops)
unfolding empty
run-IsSound capacity ops h m =
    run_from-IsSound (empty capacity) ops m (fresh-IsSound capacity 256 h)

-- ===== src/Arena.antt =====
-- crates/causm-core/src/value.rs: `Arena`, the register file of a timeline with its byte accounting.
-- A method that takes `&mut self` returns the new arena beside its result. `registers[idx]` is read
-- by `get_or` and written by `set`: an index out of range, where the source panics, is ruled out by
-- `ensure_register` and by the equal lengths of `Sound.IsSound`.
-- The weights are exact sums: a value of weight 2^64 does not fit in memory.
pub mod Totals
pub mod Sound
pub mod Keeps
pub mod Evict
pub mod Store
use causm.Prelude.{
  ℕ, suc, ◌+◌, ◌-◌, ◌*◌, Bool, false, Option, some, none, String, if◌then◌else◌, ltb, leb, List, [],
  ◌∷◌, length, get_or, set, resize, replicate, take, add64, saturating_add, Result, ok, err,
}
use causm.Value.{
  EntropicState, valid, leased, decayed, pending, consumed, Payload, integer, float, bool, string,
  struct, topology, array, tuple, range, null, Fields, MemoryError, already_consumed,
  structurally_decayed, not_a_struct, out_of_memory, key_not_found, weight,
}
use causm.Value

pub record ValueMetadata : Type 0 where
  pub instantiated_at : ℕ
  pub type_name : Option String
  pub decay_after_ms : Option ℕ

pub record Arena : Type 0 where
  pub capacity : ℕ
  pub used : ℕ
  pub base_watermark_used : ℕ
  pub base_watermark_regs : ℕ
  pub registers : List EntropicState
  pub metadata : List (Option ValueMetadata)
  pub is_persistent_partition : Bool

abbrev pub Outcome : Type 0 → Type 0
Outcome A = Arena × Result MemoryError A

-- `Arena::new` with `n` registers in place of 256
unfoldable pub fresh : ℕ → ℕ → Arena
fresh capacity n = record {
  capacity = capacity;
  used = 0;
  base_watermark_used = 0;
  base_watermark_regs = 0;
  registers = replicate n consumed;
  metadata = replicate n none;
  is_persistent_partition = false;
}

-- `Arena::new`
unfoldable pub empty : ℕ → Arena
unfolding fresh
empty capacity = fresh capacity 256

unfoldable pub freeze_base_watermark : Arena → Arena
freeze_base_watermark a = record a {
  base_watermark_used = a.used;
  base_watermark_regs = length a.registers;
}

-- `Vec::truncate` is `take`, which leaves a shorter list alone.
unfoldable pub reset_to_base_watermark : Arena → Arena
reset_to_base_watermark a = record a {
  registers =
      if ltb a.base_watermark_regs (length a.registers)
      then take a.base_watermark_regs a.registers
      else a.registers;
  metadata =
      if ltb a.base_watermark_regs (length a.metadata)
      then take a.base_watermark_regs a.metadata
      else a.metadata;
  used = a.base_watermark_used;
}

unfoldable pub remaining : Arena → ℕ
remaining a = a.capacity - a.used

unfoldable pub ensure_register : Arena → ℕ → Arena
ensure_register a reg =
    if leb (length a.registers) reg
    then record a {
      registers = resize a.registers (suc reg) consumed;
      metadata = resize a.metadata (suc reg) none;
    }
    else a

-- `registers[idx]`
abbrev pub state_at : Arena → ℕ → EntropicState
state_at a idx = get_or a.registers idx consumed

-- `self.used = self.used.saturating_sub(old).saturating_add(new); self.registers[idx] = state`,
-- with `old` the weight of the state that stood there.
unfoldable pub replace_state : Arena → ℕ → ℕ → EntropicState → Arena
replace_state a idx old_weight state = record a {
  used = saturating_add (a.used - old_weight) (weight state);
  registers = set a.registers idx state;
}

-- `self.registers[idx] = state` with no change of `used`
unfoldable pub overwrite : Arena → ℕ → EntropicState → Arena
overwrite a idx state = record a { registers = set a.registers idx state }

-- `self.metadata[idx] = meta`
unfoldable pub put_metadata : Arena → ℕ → Option ValueMetadata → Arena
put_metadata a idx meta = record a { metadata = set a.metadata idx meta }

-- `insert` once the register exists: the guard's sum is a plain `+`.
unfoldable pub insert_at : Arena → ℕ → EntropicState → Outcome (Unit {0})
insert_at a idx state =
    let potential_used = a.used - weight (state_at a idx) in
    if ltb a.capacity (add64 potential_used (weight state))
    then (a, err (out_of_memory (weight state) (a.capacity - potential_used)))
    else (
      record a {
        used = add64 potential_used (weight state);
        registers = set a.registers idx state;
        metadata = set a.metadata idx none;
      },
      ok tt,
    )

unfoldable pub insert : Arena → ℕ → EntropicState → Outcome (Unit {0})
insert a reg state = insert_at (ensure_register a reg) reg state

-- the rest of `insert_with_metadata`, behind its `?`
unfoldable pub stamp_metadata : ℕ → ValueMetadata → Outcome (Unit {0}) → Outcome (Unit {0})
stamp_metadata reg meta (a, ok u) = (put_metadata a reg (some meta), ok u)
stamp_metadata reg meta (a, err e) = (a, err e)

unfoldable pub insert_with_metadata : Arena → ℕ → EntropicState → ValueMetadata → Outcome (Unit {0})
unfolding stamp_metadata
insert_with_metadata a reg state meta = stamp_metadata reg meta (insert a reg state)

unfoldable pub get_metadata : Arena → ℕ → Option ValueMetadata
get_metadata a reg = get_or a.metadata reg none

unfoldable pub set_metadata : Arena → ℕ → Option ValueMetadata → Arena
set_metadata a reg meta = put_metadata (ensure_register a reg) reg meta

unfoldable pub clear : Arena → Arena
clear a = record a {
  registers = [];
  metadata = [];
  used = 0;
  base_watermark_used = 0;
  base_watermark_regs = 0;
}

-- the sum that `compact_consumed` takes over all registers
abbrev pub total_weight : List EntropicState → ℕ
total_weight [] = 0
total_weight (s ∷ ss) = weight s + total_weight ss

unfoldable pub compact_consumed : Arena → Arena
compact_consumed a = record a { used = total_weight a.registers }

-- one round of the loop of `evict_decayed`, at index `i`
unfoldable pub evict_at : Arena → ℕ → EntropicState → Arena
evict_at a i (decayed fields) =
    put_metadata (replace_state a i (weight (decayed fields)) consumed) i none
evict_at a i _ = a

-- `for (i, state) in self.registers.iter_mut().enumerate()`; the list is what is left of the
-- registers as they stood when the loop began, which no earlier round changes.
unfoldable pub evict_from : Arena → ℕ → List EntropicState → Arena
evict_from a i [] = a
evict_from a i (s ∷ ss) = evict_from (evict_at a i s) (suc i) ss

unfoldable pub evict_decayed : Arena → Arena
evict_decayed a = evict_from a 0 a.registers

-- `consume` once the register exists
unfoldable pub consume_at : Arena → ℕ → EntropicState → Outcome Payload
consume_at a idx (valid payload) =
    (put_metadata (replace_state a idx (weight (valid payload)) consumed) idx none, ok payload)
consume_at a idx (decayed _) = (a, err structurally_decayed)
consume_at a idx (leased _ _) = (a, err MemoryError.leased)
consume_at a idx _ = (a, err already_consumed)

unfoldable pub consume : Arena → ℕ → Outcome Payload
consume a reg = let a' = ensure_register a reg in consume_at a' reg (state_at a' reg)

-- `consume_entropic` once the register exists
unfoldable pub consume_entropic_at : Arena → ℕ → EntropicState → Outcome EntropicState
consume_entropic_at a idx (leased _ _) = (a, err MemoryError.leased)
consume_entropic_at a idx consumed = (a, err already_consumed)
consume_entropic_at a idx state =
    (put_metadata (replace_state a idx (weight state) consumed) idx none, ok state)

unfoldable pub consume_entropic : Arena → ℕ → Outcome EntropicState
consume_entropic a reg =
    let a' = ensure_register a reg in consume_entropic_at a' reg (state_at a' reg)

-- the payload that `peek` reads off a state
unfoldable pub peek_state : EntropicState → Option Payload
peek_state (valid payload) = some payload
peek_state (decayed fields) = some (struct fields)
peek_state (leased (valid p) _) = some p
peek_state (leased (decayed f) _) = some (struct f)
peek_state _ = none

-- Out of range `get_or` gives `consumed`, whose answer is the `None` of the early return.
unfoldable pub peek : Arena → ℕ → Option Payload
unfolding peek_state
peek a reg = peek_state (state_at a reg)

-- `get_payload`; its last arm asks `peek` again, which has nothing for those states.
unfoldable pub payload_of : EntropicState → Payload
payload_of (valid payload) = payload
payload_of (decayed fields) = struct fields
payload_of (leased (valid p) _) = p
payload_of (leased (decayed f) _) = struct f
payload_of _ = null

unfoldable pub get_payload : Arena → ℕ → Payload
unfolding payload_of
get_payload a reg = payload_of (state_at a reg)

-- `set_consumed` once the register exists
unfoldable pub set_consumed_at : Arena → ℕ → EntropicState → Outcome (Unit {0})
set_consumed_at a idx (leased _ _) = (a, err MemoryError.leased)
set_consumed_at a idx state =
    (put_metadata (replace_state a idx (weight state) consumed) idx none, ok tt)

unfoldable pub set_consumed : Arena → ℕ → Outcome (Unit {0})
set_consumed a reg = let a' = ensure_register a reg in set_consumed_at a' reg (state_at a' reg)

-- what `decay` leaves of a state
unfoldable pub decayed_state : EntropicState → EntropicState
decayed_state (valid (struct fields)) = decayed fields
decayed_state (decayed fields) = decayed fields
decayed_state _ = consumed

-- `decay` once the register exists; it keeps the metadata.
unfoldable pub decay_at : Arena → ℕ → EntropicState → Outcome (Unit {0})
decay_at a idx (leased _ _) = (a, err MemoryError.leased)
decay_at a idx state = (replace_state a idx (weight state) (decayed_state state), ok tt)

unfoldable pub decay : Arena → ℕ → Outcome (Unit {0})
decay a reg = let a' = ensure_register a reg in decay_at a' reg (state_at a' reg)

-- `depth * k_factor` is at most 5 * 2^32; the sums are plain.
unfoldable pub calculate_clone_cost : Payload → ℕ → ℕ
calculate_clone_cost payload depth = 10 + Value.payload_weight payload * 2 + depth * 5

-- ===== src/Timeline.antt =====
-- crates/causm-runtime/src/vm/state.rs and core.rs: a timeline, which is one branch of the virtual
-- machine with its clock, its budget and its arena, and the accesses to its registers.
-- The interpreter's own state (instructions, call stack, loops) is not part of the model, and no
-- decay handler is registered: a decay runs no program.
pub mod Insert
use causm.Prelude.{
  ℕ, ◌-◌, Bool, true, false, ◌&&◌, Option, some, none, String, List, if◌then◌else◌, ltb, leb, add64,
  Result, ok, err,
}
use causm.Value.{
  EntropicState, valid, Payload, MemoryError, already_consumed, out_of_memory, decay_recursive,
}
use causm.Arena
use causm.Arena.{Arena, ValueMetadata, state_at, get_metadata}
use causm.Mailbox.{SaturationPolicy, evict_decayed, ring_buffer, throttle, fail_fast}

pub data EntropyMode : Type 0 where
  deterministic chaos : EntropyMode

-- the three messages of `LeaseViolation`, with what they print
pub data LeaseFault : Type 0 where
  already_leased not_leased : ℕ → LeaseFault
  exceeded : ℕ → ℕ → LeaseFault

-- The message of an evaluation error or of a failed assertion is not kept.
pub data TemporalError : Type 0 where
  budget_exhausted rewind_disabled_in_chaos eval_error assertion_failed : TemporalError
  memory_fault : MemoryError → TemporalError
  lease_violation : LeaseFault → TemporalError
  branch_not_found anchor_not_found : String → TemporalError

-- `HashMap<PolicyTarget, SaturationPolicy>`, an entry for each of the three keys
pub record Policies : Type 0 where
  pub on_full : Option SaturationPolicy
  pub on_deadline_breach : Option SaturationPolicy
  pub on_overflow : Option SaturationPolicy

pub record Manifest : Type 0 where
  pub cpu_budget_ms : Option ℕ
  pub slice_ms : Option ℕ
  pub memory_budget_bytes : Option ℕ
  pub resource_budgets : List (String × ℕ)
  pub mode : Option EntropyMode

pub record AnchorPoint : Type 0 where
  pub clock_snapshot : ℕ
  pub arena_snapshot : Arena
  pub cpu_budget_snapshot : ℕ
  pub resource_budgets_snapshot : List (String × ℕ)
  pub pc_snapshot : ℕ

pub record Timeline : Type 0 where
  pub birth_global_time : ℕ
  pub local_clock : ℕ
  pub arena : Arena
  pub cpu_budget_ms : ℕ
  pub slice_ms : Option ℕ
  pub anchors : List (String × AnchorPoint)
  pub commit_horizon_passed : Bool
  pub manifest_stack : List Manifest
  pub resource_budgets : List (String × ℕ)
  pub entropy_mode : EntropyMode
  pub break_requested : Bool
  pub saturation_policies : Policies
  pub pc : ℕ

abbrev pub Ran : Type 0 → Type 0
Ran A = Timeline × Result TemporalError A

-- Rust's `?` on a step that changes the timeline
infixl 5 ◌>>=◌
abbrev pub ◌>>=◌ : {A B : Type 0} → Ran A → (A → Timeline → Ran B) → Ran B
(t, ok x) >>= f = f x t
(t, err e) >>= f = (t, err e)

-- a call on the arena, its error wrapped in `MemoryFault`
abbrev pub lift_arena : {A : Type 0} → Timeline → Arena × Result MemoryError A → Ran A
lift_arena t (a, ok x) = (record t { arena = a }, ok x)
lift_arena t (a, err e) = (record t { arena = a }, err (memory_fault e))

-- `Timeline::consume_budget`
unfoldable pub consume_budget : Timeline → ℕ → Ran (Unit {0})
consume_budget t amount =
    if ltb t.cpu_budget_ms amount
    then (t, err budget_exhausted)
    else (record t { cpu_budget_ms = t.cpu_budget_ms - amount }, ok tt)

unfoldable pub is_valid : EntropicState → Bool
is_valid (valid _) = true
is_valid _ = false

-- whether the value has outlived its decay time
unfoldable pub outlived : ℕ → Option ValueMetadata → Bool
outlived current_time none = false
outlived current_time (some meta) = elim meta.decay_after_ms [
  | none ↦ false
  | some decay_after_ms ↦
      leb meta.instantiated_at current_time
      && leb decay_after_ms (current_time - meta.instantiated_at)
]

-- the test of `check_and_apply_decay`
unfoldable pub has_decay : Timeline → ℕ → Bool
unfolding outlived is_valid
has_decay t reg =
    outlived (add64 t.birth_global_time t.local_clock) (get_metadata t.arena reg)
    && is_valid (state_at t.arena reg)

-- `check_and_apply_decay`, outside a decay handler
unfoldable pub check_and_apply_decay : Timeline → ℕ → Timeline
unfolding has_decay
check_and_apply_decay t reg =
    if has_decay t reg
    then record t {
      arena =
          Arena.compact_consumed
            (Arena.overwrite t.arena reg (decay_recursive (state_at t.arena reg)));
    }
    else t

-- `peek_state`; without metadata `check_and_apply_decay` does nothing, so its call needs no test.
unfoldable pub peek_state : Timeline → ℕ → Timeline × EntropicState
peek_state t reg = let t' = check_and_apply_decay t reg in (t', state_at t'.arena reg)

-- what `peek_reg` makes of the option that `Arena::peek` returns
abbrev pub readable : Option Payload → Result TemporalError Payload
readable (some p) = ok p
readable none = err (memory_fault already_consumed)

unfoldable pub peek_reg : Timeline → ℕ → Ran Payload
peek_reg t reg = let t' = check_and_apply_decay t reg in (t', readable (Arena.peek t'.arena reg))

-- `.get(&OnFull).or_else(|| .get(&OnOverflow))`
unfoldable pub full_policy : Policies → Option SaturationPolicy
full_policy p = elim p.on_full [ some s ↦ some s | none ↦ p.on_overflow ]

-- the arm of `insert_reg` for an arena that is out of memory, by the policy; `e` is the error
unfoldable pub on_out_of_memory :
    Timeline → ℕ → EntropicState → MemoryError → Option SaturationPolicy → Ran (Unit {0})
on_out_of_memory t reg state e none = (t, err (memory_fault e))
on_out_of_memory t reg state e (some fail_fast) = (t, err (memory_fault e))
on_out_of_memory t reg state e (some evict_decayed) =
    lift_arena t (Arena.insert (Arena.evict_decayed t.arena) reg state)
on_out_of_memory t reg state e (some ring_buffer) =
    lift_arena t (Arena.insert (Arena.reset_to_base_watermark t.arena) reg state)
on_out_of_memory t reg state e (some throttle) =
    let t' = record t { local_clock = add64 t.local_clock 10 } in
    lift_arena t' (Arena.insert (Arena.evict_decayed t.arena) reg state)

-- the match of `insert_reg` on the result of the first insertion
unfoldable pub after_insert :
    Timeline → ℕ → EntropicState → Arena × Result MemoryError (Unit {0}) → Ran (Unit {0})
unfolding on_out_of_memory full_policy
after_insert t reg state (a, ok u) = (record t { arena = a }, ok tt)
after_insert t reg state (a, err (out_of_memory w left)) =
    on_out_of_memory (record t { arena = a }) reg state (out_of_memory w left)
      (full_policy t.saturation_policies)
after_insert t reg state (a, err e) = (record t { arena = a }, err (memory_fault e))

unfoldable pub insert_reg : Timeline → ℕ → EntropicState → Ran (Unit {0})
unfolding after_insert
insert_reg t reg state = after_insert t reg state (Arena.insert t.arena reg state)

unfoldable pub insert_reg_with_metadata :
    Timeline → ℕ → EntropicState → Option ValueMetadata → Ran (Unit {0})
insert_reg_with_metadata t reg state none = insert_reg t reg state
insert_reg_with_metadata t reg state (some m) = insert_reg t reg state >>= λ _ t'.
    (record t' { arena = Arena.set_metadata t'.arena reg (some m) }, ok tt)

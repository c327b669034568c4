-- ===== src/Arena/Sound.antt =====
-- crates/causm-core/src/value.rs: the accounting invariant of `Arena`, kept by its basic methods.
-- `used` does not count the 8 bytes of a register that was never written, so the sum of the weights
-- exceeds it by at most 8 bytes a register; and a budget below 8 bytes is as one of 8.
use causm.Prelude.{
  ℕ, suc, ◌+◌, ◌-◌, ◌*◌, ◌^◌, ◌≤◌, ◌<◌, ◌≡◌, max, Option, none, length, leb, arith, Bool-cases, inl,
  inr, length-set, length-resize, get_or-resize,
}
use causm.Value.{EntropicState, consumed, weight, weight}
use causm.Value.Weight.{weight-ge}
use causm.Arena.{
  Arena, ValueMetadata, total_weight, state_at, ensure_register, replace_state, overwrite,
  put_metadata,
}
use causm.Arena.Totals.{
  Within, weight-consumed, total_weight-set, total_weight-resize, Within-get, Within-set,
  Within-resize,
}

abbrev pub budget : Arena → ℕ
budget a = max a.capacity 8

pub record IsSound (a : Arena) : Type 0 where
  pub sizes : length a.metadata ≡ length a.registers
  pub word : a.capacity < 2 ^ 62
  pub used_within : a.used ≤ budget a
  pub each_within : Within (budget a) a.registers
  pub accounted : total_weight a.registers ≤ a.used + 8 * length a.registers

pub ensure_register-lt : (a : Arena) (reg : ℕ) → reg < length (ensure_register a reg).registers
unfolding ensure_register
ensure_register-lt a reg = ground (arith, length-resize a.registers (suc reg) consumed)

-- Growing the register file changes no state that a read sees.
pub state_at-ensure_register :
    (a : Arena) (reg j : ℕ) → state_at (ensure_register a reg) j ≡ state_at a j
unfolding ensure_register
state_at-ensure_register a reg j = elim (Bool-cases (leb (length a.registers) reg)) [
  | inl e ↦ rw e (get_or-resize a.registers (suc reg) j consumed (ground arith))
  | inr e ↦ rw e
]

pub capacity-ensure_register : (a : Arena) (reg : ℕ) → (ensure_register a reg).capacity ≡ a.capacity
unfolding ensure_register
capacity-ensure_register a reg = ground arith

pub used-ensure_register : (a : Arena) (reg : ℕ) → (ensure_register a reg).used ≡ a.used
unfolding ensure_register
used-ensure_register a reg = ground arith

pub ensure_register-IsSound : {a : Arena} (reg : ℕ) → IsSound a → IsSound (ensure_register a reg)
unfolding ensure_register
ensure_register-IsSound {a} reg s = elim (Bool-cases (leb (length a.registers) reg)) [
  | inl e ↦ rw e (record {
    sizes = omega (
      arith,
      length-resize a.registers (suc reg) consumed,
      length-resize a.metadata (suc reg) none,
    );
    word = s.word;
    used_within = s.used_within;
    each_within = Within-resize (budget a) a.registers (suc reg) (omega arith) s.each_within;
    accounted = omega (
      arith,
      length-resize a.registers (suc reg) consumed,
      total_weight-resize a.registers (suc reg) (ground arith),
    );
  })
  | inr e ↦ rw e s
]

pub put_metadata-IsSound :
    {a : Arena} (reg : ℕ) (meta : Option ValueMetadata)
    → IsSound a
    → IsSound (put_metadata a reg meta)
unfolding put_metadata
put_metadata-IsSound {a} reg meta s = record {
  sizes = omega (arith, length-set a.metadata reg meta, s.sizes);
  word = s.word;
  used_within = s.used_within;
  each_within = s.each_within;
  accounted = s.accounted;
}

-- Replacing a state keeps the invariant where the new sum stays within the budget.
pub replace_state-IsSound :
    {a : Arena} (idx : ℕ) (state : EntropicState)
    → IsSound a
    → idx < length a.registers
    → a.used - weight (state_at a idx) + weight state ≤ budget a
    → IsSound (replace_state a idx (weight (state_at a idx)) state)
unfolding replace_state
replace_state-IsSound {a} idx state s h fits = record {
  sizes = omega (arith, length-set a.registers idx state, s.sizes);
  word = s.word;
  used_within = omega arith;
  each_within = Within-set (budget a) a.registers idx state (omega arith) s.each_within;
  accounted = omega (
    arith,
    length-set a.registers idx state,
    total_weight-set a.registers idx state h,
    s.accounted,
    s.word,
  );
}

-- In particular where the new state is not heavier.
pub lighter-IsSound :
    {a : Arena} (idx : ℕ) (state : EntropicState)
    → IsSound a
    → idx < length a.registers
    → weight state ≤ weight (state_at a idx)
    → IsSound (replace_state a idx (weight (state_at a idx)) state)
lighter-IsSound {a} idx state s h le =
    replace_state-IsSound idx state s h
      (omega (arith, Within-get (budget a) a.registers idx (omega arith) s.each_within))

-- Writing `Consumed` over a state with no change of `used` keeps it too.
pub overwrite-IsSound :
    {a : Arena} (idx : ℕ)
    → IsSound a
    → idx < length a.registers
    → IsSound (overwrite a idx consumed)
unfolding overwrite
overwrite-IsSound {a} idx s h = record {
  sizes = omega (arith, length-set a.registers idx consumed, s.sizes);
  word = s.word;
  used_within = s.used_within;
  each_within =
      Within-set (budget a) a.registers idx consumed (omega (arith, weight-consumed)) s.each_within;
  accounted = omega (
    arith,
    length-set a.registers idx consumed,
    total_weight-set a.registers idx consumed h,
    weight-ge (state_at a idx),
    weight-consumed,
    s.accounted,
  );
}

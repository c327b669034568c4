-- ===== src/Arena/Store.antt =====
-- crates/causm-core/src/value.rs: `Arena::insert` where there is room.
use causm.Prelude.{
  ℕ, ◌+◌, ◌-◌, ◌≤◌, ◌<◌, ◌≡◌, refl, none, length, arith, le→not_ltb, add64, set, ok,
}
use causm.Value.{EntropicState, leased, weight}
use causm.Arena.{Arena, state_at, ensure_register, insert_at, insert}
use causm.Arena.Sound.{IsSound, budget}
use causm.Arena.Totals.{Within-get}

pub ensure_register_in_range :
    (a : Arena) (reg : ℕ) → reg < length a.registers → ensure_register a reg ≡ a
unfolding ensure_register
ensure_register_in_range a reg h = ground arith

-- the arena behind an insertion that succeeds
abbrev pub stored : Arena → ℕ → EntropicState → Arena
stored a reg state = record a {
  used = add64 (a.used - weight (state_at a reg)) (weight state);
  registers = set a.registers reg state;
  metadata = set a.metadata reg none;
}

pub insert_fits :
    (a : Arena) (reg : ℕ) (state : EntropicState)
    → reg < length a.registers
    → add64 (a.used - weight (state_at a reg)) (weight state) ≤ a.capacity
    → insert a reg state ≡ (stored a reg state, ok tt)
unfolding insert insert_at
insert_fits a reg state h fits =
    rw (ensure_register_in_range a reg h) (rw (le→not_ltb _ _ fits) refl)

weight-leased : (s : EntropicState) (e : ℕ) → weight (leased s e) ≡ weight s + 24
unfolding weight
weight-leased s e = refl

-- The state under a lease always fits back in the register.
pub lease_fits_back :
    (a : Arena) (reg : ℕ) (original : EntropicState) (expiration : ℕ)
    → IsSound a
    → a.used ≤ a.capacity
    → state_at a reg ≡ leased original expiration
    → add64 (a.used - weight (state_at a reg)) (weight original) ≤ a.capacity
lease_fits_back a reg original expiration s u e =
    let w : weight (state_at a reg) ≤ budget a =
      Within-get (budget a) a.registers reg (omega arith) s.each_within in
    let x : weight (state_at a reg) ≡ weight original + 24 =
      rw e (weight-leased original expiration) in
    omega (arith, s.word)

-- ===== src/Memory/Linear.antt =====
-- crates/causm-core/src/value.rs: a value is moved out of its register once.
use causm.Prelude.{
  ℕ, ◌<◌, ◌≡◌, ◌≢◌, ◌∙◌, sym, none, length, get_or-set_self, get_or-set_ne, ok, err, arith,
}
use causm.Value.{EntropicState, valid, consumed, Payload, already_consumed, weight}
use causm.Arena.{
  Arena, state_at, ensure_register, replace_state, put_metadata, consume_at, consume, peek,
  peek_state,
}
use causm.Arena.Sound.{state_at-ensure_register, ensure_register-lt}

-- The state that `consume` finds, behind the growth of the register file.
found :
    (a : Arena) (reg : ℕ) (s : EntropicState)
    → state_at a reg ≡ s
    → state_at (ensure_register a reg) reg ≡ s
found a reg s e = state_at-ensure_register a reg reg ∙ e

consume-of_valid :
    (a : Arena) (reg : ℕ) (p : Payload)
    → state_at a reg ≡ valid p
    → consume a reg ≡ (
      put_metadata (replace_state (ensure_register a reg) reg (weight (valid p)) consumed) reg none,
      ok p,
    )
unfolding consume consume_at
consume-of_valid a reg p e = rw (found a reg (valid p) e, consume_at)

consume-of_consumed :
    (a : Arena) (reg : ℕ) → state_at a reg ≡ consumed → (consume a reg).1 ≡ err already_consumed
unfolding consume consume_at
consume-of_consumed a reg e = rw (found a reg consumed e, consume_at)

consume_at-ok :
    (a : Arena) (idx : ℕ) (s : EntropicState) (p : Payload)
    → (consume_at a idx s).1 ≡ ok p
    → s ≡ valid p
unfolding consume_at
consume_at-ok a idx s p h = ground arith

consume-ok :
    (a : Arena) (reg : ℕ) (p : Payload) → (consume a reg).1 ≡ ok p → state_at a reg ≡ valid p
unfolding consume
consume-ok a reg p h =
    sym (state_at-ensure_register a reg reg)
    ∙ consume_at-ok (ensure_register a reg) reg (state_at (ensure_register a reg) reg) p h

consumed_self :
    (a : Arena) (reg w : ℕ)
    → reg < length a.registers
    → state_at (put_metadata (replace_state a reg w consumed) reg none) reg ≡ consumed
unfolding put_metadata replace_state
consumed_self a reg w h = get_or-set_self a.registers reg consumed consumed h

consumed_other :
    (a : Arena) (reg j w : ℕ)
    → reg ≢ j
    → state_at (put_metadata (replace_state a reg w consumed) reg none) j ≡ state_at a j
unfolding put_metadata replace_state
consumed_other a reg j w ne = get_or-set_ne a.registers reg j consumed consumed ne

-- Where `consume` gives a payload, the register held it as a valid value. Behind the call the
-- register is consumed, `peek` has nothing for it, a second `consume` of it fails with
-- `AlreadyConsumed`, and every other register is as before.
pub consume_once :
    (a : Arena) (reg : ℕ) (p : Payload)
    → (consume a reg).1 ≡ ok p
    → (state_at a reg ≡ valid p)
      × (state_at (consume a reg).0 reg ≡ consumed)
      × (peek (consume a reg).0 reg ≡ none)
      × ((consume (consume a reg).0 reg).1 ≡ err already_consumed)
      × ((j : ℕ) → reg ≢ j → state_at (consume a reg).0 j ≡ state_at a j)
unfolding peek
consume_once a reg p h =
    let e = consume-ok a reg p h in
    let q = consume-of_valid a reg p e in
    let gone : state_at (consume a reg).0 reg ≡ consumed =
      rw q
        (consumed_self (ensure_register a reg) reg (weight (valid p)) (ensure_register-lt a reg)) in
    (
      e,
      gone,
      rw (gone, peek_state),
      consume-of_consumed (consume a reg).0 reg gone,
      λ j ne. rw q (
          consumed_other (ensure_register a reg) reg j (weight (valid p)) ne
          ∙ state_at-ensure_register a reg j),
    )

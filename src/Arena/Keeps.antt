-- ===== src/Arena/Keeps.antt =====
-- crates/causm-core/src/value.rs: the methods of `Arena` keep its accounting invariant.
use causm.Prelude.{
  ℕ, ◌+◌, ◌-◌, ◌^◌, ◌≤◌, ◌<◌, ◌≡◌, refl, false, Option, some, none, length, ltb, arith, Bool-cases,
  inl, inr, length-set, add64, Result, ok, err, subst,
}
use causm.Value.{EntropicState, valid, leased, decayed, pending, consumed, weight}
use causm.Value.Weight.{weight-ge}
use causm.Arena.{
  Arena, ValueMetadata, state_at, replace_state, put_metadata, insert_at, insert,
  insert_with_metadata, stamp_metadata, set_metadata, clear, evict_at, consume_at, consume,
  consume_entropic_at, consume_entropic, set_consumed_at, set_consumed, decayed_state, decay_at,
  decay, freeze_base_watermark,
}
use causm.Arena.Totals.{weight-consumed, total_weight-set, Within-set}
use causm.Arena.Sound.{
  budget, IsSound, ensure_register-lt, ensure_register-IsSound, put_metadata-IsSound,
  lighter-IsSound,
}

insert_at-IsSound :
    {a : Arena} (idx : ℕ) (state : EntropicState)
    → weight state < 2 ^ 62
    → IsSound a
    → idx < length a.registers
    → IsSound (insert_at a idx state).0
unfolding insert_at
insert_at-IsSound {a} idx state w s h =
    elim (Bool-cases (ltb a.capacity (add64 (a.used - weight (state_at a idx)) (weight state)))) [
      | inl e ↦ rw e s
      | inr e ↦ rw e (record {
        sizes =
            omega
              (arith, length-set a.metadata idx none, length-set a.registers idx state, s.sizes);
        word = s.word;
        used_within = ground arith;
        each_within = Within-set (budget a) a.registers idx state (fits e) s.each_within;
        accounted = omega (
          arith,
          no_wrap,
          length-set a.registers idx state,
          total_weight-set a.registers idx state h,
          s.accounted,
        );
      })
    ]
  where
    no_wrap :
        add64 (a.used - weight (state_at a idx)) (weight state)
        ≡ a.used - weight (state_at a idx) + weight state
    no_wrap = omega (arith, s.used_within, s.word)

    fits :
        ltb a.capacity (add64 (a.used - weight (state_at a idx)) (weight state)) ≡ false
        → weight state ≤ budget a
    fits e = ground (arith, no_wrap)

pub insert-IsSound :
    {a : Arena} (reg : ℕ) (state : EntropicState)
    → weight state < 2 ^ 62
    → IsSound a
    → IsSound (insert a reg state).0
unfolding insert
insert-IsSound {a} reg state w s =
    insert_at-IsSound reg state w (ensure_register-IsSound reg s) (ensure_register-lt a reg)

pub insert_with_metadata-IsSound :
    {a : Arena} (reg : ℕ) (state : EntropicState) (meta : ValueMetadata)
    → weight state < 2 ^ 62
    → IsSound a
    → IsSound (insert_with_metadata a reg state meta).0
unfolding insert_with_metadata
insert_with_metadata-IsSound {a} reg state meta w s =
    go (insert a reg state) (insert-IsSound reg state w s)
  where
    go : (o : Arena × Result _ (Unit {0})) → IsSound o.0 → IsSound (stamp_metadata reg meta o).0
    go (a', ok u) s' = put_metadata-IsSound reg (some meta) s'
    go (a', err e) s' = s'

pub set_metadata-IsSound :
    {a : Arena} (reg : ℕ) (meta : Option ValueMetadata)
    → IsSound a
    → IsSound (set_metadata a reg meta)
unfolding set_metadata
set_metadata-IsSound {a} reg meta s = put_metadata-IsSound reg meta (ensure_register-IsSound reg s)

pub clear-IsSound : {a : Arena} → IsSound a → IsSound (clear a)
unfolding clear
clear-IsSound s = record {
  sizes = refl;
  word = s.word;
  used_within = omega arith;
  each_within = tt;
  accounted = omega arith;
}

pub freeze_base_watermark-IsSound : {a : Arena} → IsSound a → IsSound (freeze_base_watermark a)
unfolding freeze_base_watermark
freeze_base_watermark-IsSound s = record {
  sizes = s.sizes;
  word = s.word;
  used_within = s.used_within;
  each_within = s.each_within;
  accounted = s.accounted;
}

-- Consuming a register, whatever its state is said to be by an equation.
consume_register-IsSound :
    {a : Arena} (idx : ℕ) (state : EntropicState)
    → state_at a idx ≡ state
    → IsSound a
    → idx < length a.registers
    → IsSound (put_metadata (replace_state a idx (weight state) consumed) idx none)
consume_register-IsSound {a} idx state e s h = put_metadata-IsSound idx none (
    subst (λ t. IsSound (replace_state a idx (weight t) consumed)) e
      (lighter-IsSound idx consumed s h
        (omega (arith, weight-consumed, weight-ge (state_at a idx)))))

decayed_state-lighter : (state : EntropicState) → weight (decayed_state state) ≤ weight state
unfolding decayed_state weight
decayed_state-lighter state = ground arith

module _ {a : Arena} (idx : ℕ) (s : IsSound a) (h : idx < length a.registers) where
  consume_at-IsSound :
      (state : EntropicState) → state_at a idx ≡ state → IsSound (consume_at a idx state).0
  unfolding consume_at
  consume_at-IsSound (valid p) e = consume_register-IsSound idx (valid p) e s h
  consume_at-IsSound (leased _ _) e = s
  consume_at-IsSound (decayed _) e = s
  consume_at-IsSound (pending _) e = s
  consume_at-IsSound consumed e = s

  consume_entropic_at-IsSound :
      (state : EntropicState) → state_at a idx ≡ state → IsSound (consume_entropic_at a idx state).0
  unfolding consume_entropic_at
  consume_entropic_at-IsSound (valid p) e = consume_register-IsSound idx (valid p) e s h
  consume_entropic_at-IsSound (leased _ _) e = s
  consume_entropic_at-IsSound (decayed f) e = consume_register-IsSound idx (decayed f) e s h
  consume_entropic_at-IsSound (pending p) e = consume_register-IsSound idx (pending p) e s h
  consume_entropic_at-IsSound consumed e = s

  set_consumed_at-IsSound :
      (state : EntropicState) → state_at a idx ≡ state → IsSound (set_consumed_at a idx state).0
  unfolding set_consumed_at
  set_consumed_at-IsSound (valid p) e = consume_register-IsSound idx (valid p) e s h
  set_consumed_at-IsSound (leased _ _) e = s
  set_consumed_at-IsSound (decayed f) e = consume_register-IsSound idx (decayed f) e s h
  set_consumed_at-IsSound (pending p) e = consume_register-IsSound idx (pending p) e s h
  set_consumed_at-IsSound consumed e = consume_register-IsSound idx consumed e s h

  decay_register-IsSound :
      (state : EntropicState)
      → state_at a idx ≡ state
      → weight (decayed_state state) ≤ weight state
      → IsSound (replace_state a idx (weight state) (decayed_state state))
  decay_register-IsSound state e le =
      subst (λ t. IsSound (replace_state a idx (weight t) (decayed_state state))) e
        (lighter-IsSound idx (decayed_state state) s h (rw e le))

  decay_at-IsSound :
      (state : EntropicState) → state_at a idx ≡ state → IsSound (decay_at a idx state).0
  unfolding decay_at
  decay_at-IsSound (leased _ _) e = s
  decay_at-IsSound (valid p) e =
      decay_register-IsSound (valid p) e (decayed_state-lighter (valid p))
  decay_at-IsSound (decayed f) e =
      decay_register-IsSound (decayed f) e (decayed_state-lighter (decayed f))
  decay_at-IsSound (pending p) e =
      decay_register-IsSound (pending p) e (decayed_state-lighter (pending p))
  decay_at-IsSound consumed e = decay_register-IsSound consumed e (decayed_state-lighter consumed)

  pub evict_at-IsSound :
      (state : EntropicState) → state_at a idx ≡ state → IsSound (evict_at a idx state)
  unfolding evict_at
  evict_at-IsSound (valid _) e = s
  evict_at-IsSound (leased _ _) e = s
  evict_at-IsSound (decayed f) e = consume_register-IsSound idx (decayed f) e s h
  evict_at-IsSound (pending _) e = s
  evict_at-IsSound consumed e = s

module _ {a : Arena} (reg : ℕ) (s : IsSound a) where
  pub consume-IsSound : IsSound (consume a reg).0
  unfolding consume
  consume-IsSound =
      consume_at-IsSound reg (ensure_register-IsSound reg s) (ensure_register-lt a reg) _ refl

  pub consume_entropic-IsSound : IsSound (consume_entropic a reg).0
  unfolding consume_entropic
  consume_entropic-IsSound =
      consume_entropic_at-IsSound reg (ensure_register-IsSound reg s) (ensure_register-lt a reg) _
        refl

  pub set_consumed-IsSound : IsSound (set_consumed a reg).0
  unfolding set_consumed
  set_consumed-IsSound =
      set_consumed_at-IsSound reg (ensure_register-IsSound reg s) (ensure_register-lt a reg) _ refl

  pub decay-IsSound : IsSound (decay a reg).0
  unfolding decay
  decay-IsSound =
      decay_at-IsSound reg (ensure_register-IsSound reg s) (ensure_register-lt a reg) _ refl

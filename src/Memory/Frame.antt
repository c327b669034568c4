-- ===== src/Memory/Frame.antt =====
-- crates/causm-core/src/value.rs: what a method of `Arena` leaves alone.
pub mod Calls
use causm.Prelude.{
  ℕ, ◌+◌, ◌-◌, ◌≤◌, ◌≡◌, ◌≢◌, refl, ◌∙◌, Bool, true, false, Bool-cases, inl, inr, Option, some,
  none, String, List, [], ◌∷◌, length, length-set, length-resize, get_or-set_ne, ltb, leb, add64,
  suc, arith, Result, ok, err, str_eq, parse_usize,
}
use causm.Value
use causm.Value.{
  EntropicState, valid, leased, decayed, pending, consumed, Payload, struct, topology, array,
  Fields, Payloads, MemoryError, weight,
}
use causm.Arena.{
  Arena, ValueMetadata, state_at, ensure_register, replace_state, overwrite, put_metadata,
  insert_at, insert, stamp_metadata, insert_with_metadata, set_metadata, evict_at, evict_from,
  evict_decayed, consume_at, consume, consume_entropic_at, consume_entropic, set_consumed_at,
  set_consumed, decay_at, decay,
}
use causm.Arena.Sound.{state_at-ensure_register}
use causm.FieldOps.{consume_from, consume_field_at, consume_field_entropic, consume_field}
use causm.Updates.{
  lose, commit, elems_length, update_array, update_field_at, update_field, open_compound,
  update_entry, update_inner, update_index_at, update_index_field, deep_set, commit_deep,
  update_deep_at, update_deep_field,
}

-- no register is dropped, and the watermark stays
pub record IsSteady (a b : Arena) : Type 0 where
  pub longer : length a.registers ≤ length b.registers
  pub base_used : b.base_watermark_used ≡ a.base_watermark_used
  pub base_regs : b.base_watermark_regs ≡ a.base_watermark_regs

-- and besides, only one register can read differently
pub record IsLocal (reg : ℕ) (a b : Arena) : Type 0 where
  pub steady : IsSteady a b
  pub others : (j : ℕ) → reg ≢ j → state_at b j ≡ state_at a j

pub IsSteady-refl : (a : Arena) → IsSteady a a
IsSteady-refl a = record { longer = omega arith; base_used = refl; base_regs = refl }

pub IsSteady-trans : {a b c : Arena} → IsSteady a b → IsSteady b c → IsSteady a c
IsSteady-trans p q = record {
  longer = omega (arith, p.longer, q.longer);
  base_used = q.base_used ∙ p.base_used;
  base_regs = q.base_regs ∙ p.base_regs;
}

pub IsLocal-refl : (reg : ℕ) (a : Arena) → IsLocal reg a a
IsLocal-refl reg a = record { steady = IsSteady-refl a; others = λ j ne. refl }

pub IsLocal-trans : {reg : ℕ} {a b c : Arena} → IsLocal reg a b → IsLocal reg b c → IsLocal reg a c
IsLocal-trans p q = record {
  steady = IsSteady-trans p.steady q.steady;
  others = λ j ne. q.others j ne ∙ p.others j ne;
}

pub replace_state-IsLocal :
    (a : Arena) (idx w : ℕ) (s : EntropicState) → IsLocal idx a (replace_state a idx w s)
unfolding replace_state
replace_state-IsLocal a idx w s = record {
  steady = record {
    longer = omega (arith, length-set a.registers idx s);
    base_used = refl;
    base_regs = refl;
  };
  others = λ j ne. get_or-set_ne a.registers idx j s consumed ne;
}

pub overwrite-IsLocal :
    (a : Arena) (idx : ℕ) (s : EntropicState) → IsLocal idx a (overwrite a idx s)
unfolding overwrite
overwrite-IsLocal a idx s = record {
  steady = record {
    longer = omega (arith, length-set a.registers idx s);
    base_used = refl;
    base_regs = refl;
  };
  others = λ j ne. get_or-set_ne a.registers idx j s consumed ne;
}

pub put_metadata-IsLocal :
    (reg : ℕ) (a : Arena) (idx : ℕ) (m : Option ValueMetadata)
    → IsLocal reg a (put_metadata a idx m)
unfolding put_metadata
put_metadata-IsLocal reg a idx m = record {
  steady = record { longer = omega arith; base_used = refl; base_regs = refl };
  others = λ j ne. refl;
}

pub ensure_register-IsSteady : (a : Arena) (reg : ℕ) → IsSteady a (ensure_register a reg)
unfolding ensure_register
ensure_register-IsSteady a reg = elim (Bool-cases (leb (length a.registers) reg)) [
  | inl e ↦ rw e (record {
    longer = ground (arith, length-resize a.registers (suc reg) consumed);
    base_used = refl;
    base_regs = refl;
  })
  | inr e ↦ rw e (IsSteady-refl a)
]

pub ensure_register-IsLocal : (a : Arena) (r reg : ℕ) → IsLocal r a (ensure_register a reg)
ensure_register-IsLocal a r reg = record {
  steady = ensure_register-IsSteady a reg;
  others = λ j ne. state_at-ensure_register a reg j;
}

cleared-IsLocal :
    (a : Arena) (idx w : ℕ) → IsLocal idx a (put_metadata (replace_state a idx w consumed) idx none)
cleared-IsLocal a idx w =
    IsLocal-trans (replace_state-IsLocal a idx w consumed) (put_metadata-IsLocal idx _ idx none)

module _ (a : Arena) (idx : ℕ) where
  pub insert_at-IsLocal : (s : EntropicState) → IsLocal idx a (insert_at a idx s).0
  unfolding insert_at
  insert_at-IsLocal s =
      elim (Bool-cases (ltb a.capacity (add64 (a.used - weight (state_at a idx)) (weight s)))) [
        | inl e ↦ rw e (IsLocal-refl idx a)
        | inr e ↦ rw e (record {
          steady = record {
            longer = omega (arith, length-set a.registers idx s);
            base_used = refl;
            base_regs = refl;
          };
          others = λ j ne. get_or-set_ne a.registers idx j s consumed ne;
        })
      ]

  pub consume_at-IsLocal : (s : EntropicState) → IsLocal idx a (consume_at a idx s).0
  unfolding consume_at
  consume_at-IsLocal (valid p) = cleared-IsLocal a idx (weight (valid p))
  consume_at-IsLocal (decayed _) = IsLocal-refl idx a
  consume_at-IsLocal (leased _ _) = IsLocal-refl idx a
  consume_at-IsLocal _ = IsLocal-refl idx a

  pub consume_entropic_at-IsLocal :
      (s : EntropicState) → IsLocal idx a (consume_entropic_at a idx s).0
  unfolding consume_entropic_at
  consume_entropic_at-IsLocal (leased _ _) = IsLocal-refl idx a
  consume_entropic_at-IsLocal consumed = IsLocal-refl idx a
  consume_entropic_at-IsLocal s = cleared-IsLocal a idx (weight s)

  pub set_consumed_at-IsLocal : (s : EntropicState) → IsLocal idx a (set_consumed_at a idx s).0
  unfolding set_consumed_at
  set_consumed_at-IsLocal (leased _ _) = IsLocal-refl idx a
  set_consumed_at-IsLocal s = cleared-IsLocal a idx (weight s)

  pub decay_at-IsLocal : (s : EntropicState) → IsLocal idx a (decay_at a idx s).0
  unfolding decay_at
  decay_at-IsLocal (leased _ _) = IsLocal-refl idx a
  decay_at-IsLocal s = replace_state-IsLocal a idx (weight s) _

  pub evict_at-IsSteady : (s : EntropicState) → IsSteady a (evict_at a idx s)
  unfolding evict_at
  evict_at-IsSteady (decayed f) = (cleared-IsLocal a idx (weight (decayed f))).steady
  evict_at-IsSteady _ = IsSteady-refl a

  consume_from-IsLocal :
      (old : EntropicState) (fs : Fields) (key : String) (found : Option EntropicState)
      → IsLocal idx a (consume_from a idx old fs key found).0
  unfolding consume_from
  consume_from-IsLocal old fs key none = IsLocal-refl idx a
  consume_from-IsLocal old fs key (some t) = replace_state-IsLocal a idx (weight old) _

  pub consume_field_at-IsLocal :
      (s : EntropicState) (key : String) → IsLocal idx a (consume_field_at a idx s key).0
  unfolding consume_field_at
  consume_field_at-IsLocal (valid (struct f)) key = consume_from-IsLocal _ f key _
  consume_field_at-IsLocal (valid (topology f)) key = consume_from-IsLocal _ f key _
  consume_field_at-IsLocal (decayed f) key = consume_from-IsLocal _ f key _
  consume_field_at-IsLocal _ key = IsLocal-refl idx a

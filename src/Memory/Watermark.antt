-- ===== src/Memory/Watermark.antt =====
-- crates/causm-core/src/value.rs: the two methods of `Arena` that recount `used`.
use causm.Prelude.{
  ℕ, ◌+◌, ◌-◌, ◌*◌, ◌^◌, ◌≤◌, ◌<◌, ◌≡◌, refl, ◌∙◌, length, ok, arith, ltb, lt→ltb, add64,
  get_or-set_self, get_or-take, get_or_beyond, length-take-le, true, Bool-cases, inl, inr,
  length-set, take, set, ◌≢◌, List, [], ◌∷◌, length-take,
}
use causm.Value.{EntropicState, consumed, weight}
use causm.Value.Weight.{weight-ge}
use causm.Arena.{
  Arena, state_at, ensure_register, insert_at, insert, freeze_base_watermark,
  reset_to_base_watermark, compact_consumed, total_weight,
}
use causm.Memory.{Op, apply, run}
use causm.Memory.Frame.{IsSteady, IsSteady-refl, IsSteady-trans, ensure_register-IsSteady}
use causm.Memory.Frame.Calls.{
  insert-IsLocal, insert_with_metadata-IsLocal, set_metadata-IsLocal, evict_decayed-IsSteady,
  consume-IsLocal, consume_entropic-IsLocal, set_consumed-IsLocal, decay-IsLocal,
  consume_field-IsLocal, consume_field_entropic-IsLocal, update_field-IsLocal,
  update_index_field-IsLocal, update_deep_field-IsLocal,
}
use causm.Arena.Totals.{total_weight-set, length-le-total, weight-consumed}

-- the snapback on its own
reset_to_base_watermark_lem :
    (a : Arena) (j : ℕ)
    → (j < a.base_watermark_regs → state_at (reset_to_base_watermark a) j ≡ state_at a j)
      × (a.base_watermark_regs ≤ j → state_at (reset_to_base_watermark a) j ≡ consumed)
      × ((reset_to_base_watermark a).used ≡ a.base_watermark_used)
unfolding reset_to_base_watermark
reset_to_base_watermark_lem a j =
    elim (Bool-cases (ltb a.base_watermark_regs (length a.registers))) [
      | inl more ↦ (
        λ h. rw more (get_or-take a.base_watermark_regs a.registers j consumed h),
        λ h. rw more (
            get_or_beyond (take a.base_watermark_regs a.registers) j consumed
              (omega (arith, length-take-le {0} a.base_watermark_regs a.registers))),
        refl,
      )
      | inr same ↦ (
        λ h. rw same refl,
        λ h. rw same (get_or_beyond a.registers j consumed (ground arith)),
        refl,
      )
    ]

-- the calls that do not move the watermark
abbrev pub KeepsMark : Op → Type 0
KeepsMark Op.clear = ⊥
KeepsMark Op.freeze_base_watermark = ⊥
KeepsMark _ = Unit {0}

abbrev pub AllKeepMark : List Op → Type 0
AllKeepMark [] = Unit {0}
AllKeepMark (op ∷ ops) = KeepsMark op × AllKeepMark ops

apply-IsSteady : (a : Arena) (op : Op) → KeepsMark op → IsSteady a (apply a op)
unfolding apply
apply-IsSteady a (Op.insert r state) u = (insert-IsLocal a r state).steady
apply-IsSteady a (Op.insert_with_metadata r state meta) u =
    (insert_with_metadata-IsLocal a r state meta).steady
apply-IsSteady a (Op.set_metadata r meta) u = (set_metadata-IsLocal a r r meta).steady
apply-IsSteady a Op.clear u = absurd u
apply-IsSteady a Op.freeze_base_watermark u = absurd u
apply-IsSteady a Op.evict_decayed u = evict_decayed-IsSteady a
apply-IsSteady a (Op.ensure_register r) u = ensure_register-IsSteady a r
apply-IsSteady a (Op.consume r) u = (consume-IsLocal a r).steady
apply-IsSteady a (Op.consume_entropic r) u = (consume_entropic-IsLocal a r).steady
apply-IsSteady a (Op.set_consumed r) u = (set_consumed-IsLocal a r).steady
apply-IsSteady a (Op.decay r) u = (decay-IsLocal a r).steady
apply-IsSteady a (Op.consume_field r key) u = (consume_field-IsLocal a r key).steady
apply-IsSteady a (Op.consume_field_entropic r key) u =
    (consume_field_entropic-IsLocal a r key).steady
apply-IsSteady a (Op.update_field r key v) u = (update_field-IsLocal a r key v).steady
apply-IsSteady a (Op.update_index_field r index key v) u =
    (update_index_field-IsLocal a r index key v).steady
apply-IsSteady a (Op.update_deep_field r path v) u = (update_deep_field-IsLocal a r path v).steady

run-IsSteady : (a : Arena) (ops : List Op) → AllKeepMark ops → IsSteady a (run a ops)
unfolding run
run-IsSteady a [] k = IsSteady-refl a
run-IsSteady a (op ∷ ops) k =
    IsSteady-trans (apply-IsSteady a op k.0) (run-IsSteady (apply a op) ops k.1)

length-reset_to_base_watermark :
    (a : Arena)
    → a.base_watermark_regs ≤ length a.registers
    → length (reset_to_base_watermark a).registers ≡ a.base_watermark_regs
unfolding reset_to_base_watermark
length-reset_to_base_watermark a h = ground (arith, length-take a.base_watermark_regs a.registers)

-- A freeze, then any history of `&mut` calls, failing ones included, without another freeze, a
-- `clear`, a `compact_consumed` or a snapback, then the snapback: `used` is what it was at the
-- freeze, there are as many registers as at the freeze, and each of these holds what the history
-- left in it.
pub reset-run-freeze :
    (a : Arena) (ops : List Op)
    → AllKeepMark ops
    → let c = run (freeze_base_watermark a) ops in
      ((reset_to_base_watermark c).used ≡ a.used)
      × (length (reset_to_base_watermark c).registers ≡ length a.registers)
      × ((j : ℕ) → j < length a.registers → state_at (reset_to_base_watermark c) j ≡ state_at c j)
unfolding freeze_base_watermark
reset-run-freeze a ops k =
    let s = run-IsSteady (freeze_base_watermark a) ops k in
    let c = run (freeze_base_watermark a) ops in
    let back : (reset_to_base_watermark c).used ≡ c.base_watermark_used =
      (reset_to_base_watermark_lem c 0).2 in
    (
      back ∙ s.base_used,
      length-reset_to_base_watermark c (omega (arith, s.longer, s.base_regs)) ∙ s.base_regs,
      λ j h. (reset_to_base_watermark_lem c j).0 (omega (arith, s.base_regs, h)),
    )

in_range : (a : Arena) (reg : ℕ) → reg < length a.registers → ensure_register a reg ≡ a
unfolding ensure_register
in_range a reg h = ground arith

-- what a successful `insert_at` leaves
insert_at-stored :
    (a : Arena) (idx : ℕ) (state : EntropicState)
    → idx < length a.registers
    → (insert_at a idx state).1 ≡ ok tt
    → (state_at (insert_at a idx state).0 idx ≡ state)
      × ((insert_at a idx state).0.base_watermark_used ≡ a.base_watermark_used)
      × ((insert_at a idx state).0.base_watermark_regs ≡ a.base_watermark_regs)
unfolding insert_at
insert_at-stored a idx state h e =
    elim (Bool-cases (ltb a.capacity (add64 (a.used - weight (state_at a idx)) (weight state)))) [
      | inl full ↦ absurd (no_room full e)
      | inr room ↦ rw room (get_or-set_self a.registers idx state consumed h, refl, refl)
    ]
  where
    no_room :
        ltb a.capacity (add64 (a.used - weight (state_at a idx)) (weight state)) ≡ true
        → (insert_at a idx state).1 ≡ ok tt
        → ⊥
    no_room full q = ground arith

-- A value written after the freeze into a register that already existed survives the snapback, but
-- `used` is what it was before the write.
pub reset-forgets_write :
    (a : Arena) (reg : ℕ) (state : EntropicState)
    → reg < length a.registers
    → (insert (freeze_base_watermark a) reg state).1 ≡ ok tt
    → let b = reset_to_base_watermark (insert (freeze_base_watermark a) reg state).0 in
      (state_at b reg ≡ state) × (b.used ≡ a.used)
unfolding insert freeze_base_watermark
reset-forgets_write a reg state h e =
    let f = freeze_base_watermark a in
    let same : ensure_register f reg ≡ f = in_range f reg h in
    let (s, u, r) = insert_at-stored f reg state h (rw same at e) in
    let (below, above, back) = reset_to_base_watermark_lem (insert_at f reg state).0 reg in
    rw same (below (rw r h) ∙ s, back ∙ u)

-- Where the capacity is below 8 bytes a register, no insertion into an existing register succeeds
-- behind `compact_consumed`, which counts 8 bytes for each empty register.
pub compact-blocks_insert :
    (a : Arena) (reg : ℕ) (state : EntropicState)
    → reg < length a.registers
    → a.capacity < 8 * length a.registers
    → total_weight a.registers + weight state < 2 ^ 64
    → (insert (compact_consumed a) reg state).1 ≢ ok tt
unfolding insert insert_at compact_consumed
compact-blocks_insert a reg state h small fits =
    rw (in_range (compact_consumed a) reg h) (rw (lt→ltb _ _ over) (λ e. cc))
  where
    over : a.capacity < add64 (total_weight a.registers - weight (state_at a reg)) (weight state)
    over = omega (
      arith,
      total_weight-set a.registers reg consumed h,
      length-set a.registers reg consumed,
      length-le-total (set a.registers reg consumed),
      weight-consumed,
      weight-ge state,
    )

-- ===== src/Branches/Consume.antt =====
-- crates/causm-runtime/src/vm/entropy.rs: consuming a register consumes what is entangled with it.
use causm.Prelude.{
  ℕ, ◌<◌, ◌≡◌, ◌≢◌, refl, sym, ap, subst, ◌∙◌, Bool, true, false, ◌||◌, Option, some, none, String,
  str_eq, eq_iff, List, [], ◌∷◌, if◌then◌else◌, ◌==◌, ==→eq, length, arith, Bool-cases, inl, inr,
  get_or-set_self, get_or-set_ne,
}
use causm.Prelude.Assoc.{lookup-insert}
use causm.Value.{EntropicState, valid, leased, decayed, pending, consumed}
use causm.Arena.{Arena, state_at, ensure_register, replace_state, put_metadata, consume_at, consume}
use causm.Arena.Sound.{state_at-ensure_register, ensure_register-lt}
use causm.Timeline.{Timeline}
use causm.Entanglement.{Register, same, contains, entangled_with}
use causm.Entanglement.Search.{same-eq}
use causm.Entanglement.Closure.{entangled_with-Closes}
use causm.Branches.{
  Vm, get_branch, set_branch, consume_found, consume_on, consume_each, consume_reg,
}

-- what `consume` leaves of a state: only a valid value is moved out
abbrev pub taken : EntropicState → EntropicState
taken (valid _) = consumed
taken s = s

taken_idem : (s : EntropicState) → taken (taken s) ≡ taken s
taken_idem (valid p) = refl
taken_idem (leased _ _) = refl
taken_idem (decayed _) = refl
taken_idem (pending _) = refl
taken_idem consumed = refl

-- two registers' worth of taking, in turn
taken_twice :
    (s s' : EntropicState) (first second : Bool)
    → s' ≡ (if first then taken s else s)
    → (if second then taken s' else s') ≡ (if first || second then taken s else s)
taken_twice s s' true true h = ap taken h ∙ taken_idem s
taken_twice s s' true false h = h
taken_twice s s' false true h = ap taken h
taken_twice s s' false false h = h

state_at-consume_at_self :
    (a : Arena) (reg : ℕ) (s : EntropicState)
    → reg < length a.registers
    → state_at a reg ≡ s
    → state_at (consume_at a reg s).0 reg ≡ taken s
unfolding consume_at put_metadata replace_state
state_at-consume_at_self a reg (valid p) h e = get_or-set_self a.registers reg consumed consumed h
state_at-consume_at_self a reg (leased _ _) h e = e
state_at-consume_at_self a reg (decayed _) h e = e
state_at-consume_at_self a reg (pending _) h e = e
state_at-consume_at_self a reg consumed h e = e

state_at-consume_at_other :
    (a : Arena) (reg j : ℕ) (s : EntropicState)
    → reg ≢ j
    → state_at (consume_at a reg s).0 j ≡ state_at a j
unfolding consume_at put_metadata replace_state
state_at-consume_at_other a reg j (valid p) ne =
    get_or-set_ne a.registers reg j consumed consumed ne
state_at-consume_at_other a reg j (leased _ _) ne = refl
state_at-consume_at_other a reg j (decayed _) ne = refl
state_at-consume_at_other a reg j (pending _) ne = refl
state_at-consume_at_other a reg j consumed ne = refl

state_at-consume_self :
    (a : Arena) (reg : ℕ) → state_at (consume a reg).0 reg ≡ taken (state_at a reg)
unfolding consume
state_at-consume_self a reg =
    state_at-consume_at_self (ensure_register a reg) reg (state_at (ensure_register a reg) reg)
      (ensure_register-lt a reg) refl
    ∙ ap taken (state_at-ensure_register a reg reg)

state_at-consume_other :
    (a : Arena) (reg j : ℕ) → reg ≢ j → state_at (consume a reg).0 j ≡ state_at a j
unfolding consume
state_at-consume_other a reg j ne =
    state_at-consume_at_other (ensure_register a reg) reg j (state_at (ensure_register a reg) reg)
      ne
    ∙ state_at-ensure_register a reg j

get_branch-set_branch :
    (vm : Vm) (id j : String) (t : Timeline)
    → get_branch (set_branch vm id t) j ≡ (if str_eq id j then some t else get_branch vm j)
unfolding get_branch set_branch
get_branch-set_branch vm id j t =
    ground (
      arith,
      eq_iff id "main",
      eq_iff j "main",
      eq_iff id j,
      lookup-insert id j t vm.active_branches,
    )

-- the state of a register of some branch; without the branch there is nothing in it
abbrev pub held : Option Timeline → ℕ → EntropicState
held none reg = consumed
held (some t) reg = state_at t.arena reg

abbrev pub state_of : Vm → Register → EntropicState
state_of vm (id, reg) = held (get_branch vm id) reg

state_of-consume_found_none :
    (vm : Vm) (y x : Register)
    → get_branch vm y.0 ≡ none
    → state_of vm x ≡ (if same y x then taken (state_of vm x) else state_of vm x)
state_of-consume_found_none vm y x e = elim (Bool-cases (same y x)) [
  | inl m ↦
      let gone : state_of vm x ≡ consumed =
        ap (state_of vm) (sym (same-eq y x m)) ∙ ap (λ o. held o y.1) e in
      rw m (gone ∙ sym (ap taken gone))
  | inr m ↦ rw m refl
]

-- one timeline's registers, of which `r` is consumed
held-consume :
    (t : Timeline) (r s : ℕ)
    → state_at (consume t.arena r).0 s
      ≡ (if r == s then taken (state_at t.arena s) else state_at t.arena s)
held-consume t r s = elim (Bool-cases (r == s)) [
  | inl e ↦ rw e (
      subst (λ j. state_at (consume t.arena r).0 j ≡ taken (state_at t.arena j)) (==→eq r s e)
        (state_at-consume_self t.arena r))
  | inr e ↦ let ne : r ≢ s = λ q. ground arith in rw e (state_at-consume_other t.arena r s ne)
]

state_of-consume_found_some :
    (vm : Vm) (b c : String) (r s : ℕ) (t : Timeline)
    → get_branch vm b ≡ some t
    → held (get_branch (set_branch vm b (record t { arena = (consume t.arena r).0 })) c) s
      ≡ (if same (b, r) (c, s) then taken (state_of vm (c, s)) else state_of vm (c, s))
state_of-consume_found_some vm b c r s t e =
    rw (get_branch-set_branch vm b c (record t { arena = (consume t.arena r).0 }))
      (elim (Bool-cases (str_eq b c)) [
        | inl m ↦
            let there : get_branch vm c ≡ some t = ap (get_branch vm) (sym (names m)) ∙ e in
            rw (m, there) (held-consume t r s)
        | inr m ↦ rw m refl
      ])
  where
    names : str_eq b c ≡ true → b ≡ c
    names m = ground (arith, eq_iff b c)

-- `consume` on one register of one branch moves the value out of that one, if it is valid.
state_of-consume_on :
    (vm : Vm) (y x : Register)
    → state_of (consume_on vm y) x ≡ (if same y x then taken (state_of vm x) else state_of vm x)
unfolding consume_on
state_of-consume_on vm y x = go (get_branch vm y.0) refl
  where
    go :
        (o : Option Timeline)
        → get_branch vm y.0 ≡ o
        → state_of (consume_found vm y o) x
          ≡ (if same y x then taken (state_of vm x) else state_of vm x)
    go none e = state_of-consume_found_none vm y x e
    go (some t) e = state_of-consume_found_some vm y.0 x.0 y.1 x.1 t e

state_of-consume_each :
    (vm : Vm) (xs : List Register) (x : Register)
    → state_of (consume_each vm xs) x
      ≡ (if contains xs x then taken (state_of vm x) else state_of vm x)
unfolding consume_each contains
state_of-consume_each vm [] x = refl
state_of-consume_each vm (y ∷ ys) x =
    state_of-consume_each (consume_on vm y) ys x
    ∙ taken_twice (state_of vm x) (state_of (consume_on vm y) x) (same y x) (contains ys x)
        (state_of-consume_on vm y x)

-- `consume_reg` reaches exactly the registers that are entangled with the one that it is given, the
-- given one with them, in whatever branch: of those, each that held a valid value is consumed, and
-- any other state stays. Every other register of every branch holds what it held.
pub consume_reg_lem :
    (vm : Vm) (id : String) (reg : ℕ)
    → (acc : List Register) × (entangled_with vm.entanglements (id, reg) ≡ some acc)
      × ((x : Register)
          → state_of (consume_reg vm id reg) x
            ≡ (if contains acc x then taken (state_of vm x) else state_of vm x))
unfolding consume_reg
consume_reg_lem vm id reg =
    let (acc, e, _, _, _) = entangled_with-Closes vm.entanglements (id, reg) in
    (acc, e, λ x. rw (consume_reg, e) (state_of-consume_each vm acc x))

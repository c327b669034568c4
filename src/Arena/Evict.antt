-- ===== src/Arena/Evict.antt =====
-- crates/causm-core/src/value.rs: `Arena::evict_decayed`, a loop over all registers.
use causm.Prelude.{
  ℕ, suc, zero, ◌+◌, ◌≤◌, ◌<◌, ◌≡◌, ◌≢◌, refl, ◌∙◌, List, [], ◌∷◌, length, get_or, arith,
  length-set, get_or-set_self, get_or-set_ne,
}
use causm.Value.{EntropicState, valid, leased, decayed, pending, consumed}
use causm.Arena.{Arena, state_at, replace_state, put_metadata, evict_at, evict_from, evict_decayed}
use causm.Arena.Sound.{IsSound}
use causm.Arena.Keeps.{evict_at-IsSound}

-- what an eviction leaves of a state
abbrev pub evicted : EntropicState → EntropicState
evicted (decayed _) = consumed
evicted s = s

length-evict_at :
    (a : Arena) (i : ℕ) (s : EntropicState) → length (evict_at a i s).registers ≡ length a.registers
unfolding evict_at put_metadata replace_state
length-evict_at a i (valid _) = refl
length-evict_at a i (leased _ _) = refl
length-evict_at a i (decayed f) = length-set a.registers i consumed
length-evict_at a i (pending _) = refl
length-evict_at a i consumed = refl

state_at-evict_at_ne :
    (a : Arena) (i j : ℕ) (s : EntropicState) → i ≢ j → state_at (evict_at a i s) j ≡ state_at a j
unfolding evict_at put_metadata replace_state
state_at-evict_at_ne a i j (valid _) ne = refl
state_at-evict_at_ne a i j (leased _ _) ne = refl
state_at-evict_at_ne a i j (decayed f) ne = get_or-set_ne a.registers i j consumed consumed ne
state_at-evict_at_ne a i j (pending _) ne = refl
state_at-evict_at_ne a i j consumed ne = refl

state_at-evict_at_self :
    (a : Arena) (i : ℕ) (s : EntropicState)
    → state_at a i ≡ s
    → i < length a.registers
    → state_at (evict_at a i s) i ≡ evicted s
unfolding evict_at put_metadata replace_state
state_at-evict_at_self a i (valid _) e h = e
state_at-evict_at_self a i (leased _ _) e h = e
state_at-evict_at_self a i (decayed f) e h = get_or-set_self a.registers i consumed consumed h
state_at-evict_at_self a i (pending _) e h = e
state_at-evict_at_self a i consumed e h = e

-- The rounds left, `ss`, are the registers from `i` on, and fit below the end.
record IsRest (a : Arena) (i : ℕ) (ss : List EntropicState) : Type 0 where
  same : (k : ℕ) → k < length ss → state_at a (i + k) ≡ get_or ss k consumed
  inside : i + length ss ≤ length a.registers

IsRest-step :
    (a : Arena) (i : ℕ) (s : EntropicState) (ss : List EntropicState)
    → IsRest a i (s ∷ ss)
    → IsRest (evict_at a i s) (suc i) ss
IsRest-step a i s ss r = record {
  same = λ k h.
      state_at-evict_at_ne a i (suc i + k) s (omega arith)
      ∙ subst-index k (r.same (suc k) (omega arith));
  inside = omega (arith, length-evict_at a i s, r.inside);
}
  where
    subst-index :
        (k : ℕ)
        → state_at a (i + suc k) ≡ get_or ss k consumed
        → state_at a (suc i + k) ≡ get_or ss k consumed
    subst-index k e = let p : suc i + k ≡ i + suc k = omega arith in rw p e

head-state :
    (a : Arena) (i : ℕ) (s : EntropicState) (ss : List EntropicState)
    → IsRest a i (s ∷ ss)
    → state_at a i ≡ s
head-state a i s ss r = let p : i + 0 ≡ i = omega arith in rw p at (r.same 0 (omega arith))

evict_from-IsSound :
    (ss : List EntropicState) (a : Arena) (i : ℕ)
    → IsRest a i ss
    → IsSound a
    → IsSound (evict_from a i ss)
unfolding evict_from
evict_from-IsSound [] a i r s = s
evict_from-IsSound (t ∷ ss) a i r s =
    evict_from-IsSound ss (evict_at a i t) (suc i) (IsRest-step a i t ss r)
      (evict_at-IsSound i s (omega (arith, r.inside)) t (head-state a i t ss r))

-- below the loop's index nothing changes any more
state_at-evict_from_below :
    (ss : List EntropicState) (a : Arena) (i j : ℕ)
    → j < i
    → state_at (evict_from a i ss) j ≡ state_at a j
unfolding evict_from
state_at-evict_from_below [] a i j h = refl
state_at-evict_from_below (t ∷ ss) a i j h =
    state_at-evict_from_below ss (evict_at a i t) (suc i) j (omega arith)
    ∙ state_at-evict_at_ne a i j t (omega arith)

state_at-evict_from :
    (ss : List EntropicState) (a : Arena) (i k : ℕ)
    → IsRest a i ss
    → k < length ss
    → state_at (evict_from a i ss) (i + k) ≡ evicted (get_or ss k consumed)
unfolding evict_from
state_at-evict_from [] a i k r h = elim h [ ]
state_at-evict_from (t ∷ ss) a i zero r h =
    let p : i + 0 ≡ i = omega arith in
    rw p (
      state_at-evict_from_below ss (evict_at a i t) (suc i) i (omega arith)
      ∙ state_at-evict_at_self a i t (head-state a i t ss r) (omega (arith, r.inside)))
state_at-evict_from (t ∷ ss) a i (suc k) r h =
    let p : i + suc k ≡ suc i + k = omega arith in
    rw p (state_at-evict_from ss (evict_at a i t) (suc i) k (IsRest-step a i t ss r) (omega arith))

IsRest-all : (a : Arena) → IsRest a 0 a.registers
IsRest-all a = record {
  same = λ k h. let p : 0 + k ≡ k = omega arith in rw p;
  inside = omega arith;
}

pub evict_decayed-IsSound : {a : Arena} → IsSound a → IsSound (evict_decayed a)
unfolding evict_decayed
evict_decayed-IsSound {a} s = evict_from-IsSound a.registers a 0 (IsRest-all a) s

-- After `evict_decayed` a register that was structurally decayed is consumed, and every other
-- register holds what it held.
pub state_at-evict_decayed :
    (a : Arena) (j : ℕ)
    → j < length a.registers
    → state_at (evict_decayed a) j ≡ evicted (state_at a j)
unfolding evict_decayed
state_at-evict_decayed a j h =
    let p : 0 + j ≡ j = omega arith in
    rw p at (state_at-evict_from a.registers a 0 j (IsRest-all a) h)

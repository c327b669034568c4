-- ===== src/Arena/Totals.antt =====
-- crates/causm-core/src/value.rs: the sum and the largest of the registers' weights.
use causm.Prelude.{
  ℕ, zero, suc, ◌+◌, ◌*◌, ◌≤◌, ◌<◌, ◌≡◌, List, [], ◌∷◌, length, get_or, set, resize, arith,
}
use causm.Value.{EntropicState, consumed, weight}
use causm.Value.Weight.{weight-ge}
use causm.Arena.{total_weight}

-- every register weighs at most `b`
abbrev pub Within : ℕ → List EntropicState → Type 0
Within b [] = Unit {0}
Within b (s ∷ ss) = (weight s ≤ b) × Within b ss

pub weight-consumed : weight consumed ≡ 8
unfolding weight
weight-consumed = omega arith

pub total_weight-set :
    (ss : List EntropicState) (i : ℕ) (s : EntropicState)
    → i < length ss
    → total_weight (set ss i s) + weight (get_or ss i consumed) ≡ total_weight ss + weight s
total_weight-set [] i s h = elim h [ ]
total_weight-set (t ∷ ss) zero s h = omega arith
total_weight-set (t ∷ ss) (suc i) s h = omega (arith, total_weight-set ss i s (omega arith))

pub weight-le-total :
    (ss : List EntropicState) (i : ℕ)
    → i < length ss
    → weight (get_or ss i consumed) ≤ total_weight ss
weight-le-total [] i h = elim h [ ]
weight-le-total (t ∷ ss) zero h = omega arith
weight-le-total (t ∷ ss) (suc i) h = omega (arith, weight-le-total ss i (omega arith))

pub total_weight-resize :
    (ss : List EntropicState) (n : ℕ)
    → length ss ≤ n
    → total_weight (resize ss n consumed) + 8 * length ss ≡ total_weight ss + 8 * n
total_weight-resize [] zero h = omega arith
total_weight-resize [] (suc n) h =
    omega (arith, weight-consumed, total_weight-resize [] n (omega arith))
total_weight-resize (s ∷ ss) zero h = absurd (omega arith)
total_weight-resize (s ∷ ss) (suc n) h = omega (arith, total_weight-resize ss n (omega arith))

pub length-le-total : (ss : List EntropicState) → 8 * length ss ≤ total_weight ss
length-le-total [] = omega arith
length-le-total (s ∷ ss) = omega (arith, weight-ge s, length-le-total ss)

pub Within-get :
    (b : ℕ) (ss : List EntropicState) (i : ℕ)
    → 8 ≤ b
    → Within b ss
    → weight (get_or ss i consumed) ≤ b
Within-get b [] i h w = omega (arith, weight-consumed)
Within-get b (s ∷ ss) zero h w = w.0
Within-get b (s ∷ ss) (suc i) h w = Within-get b ss i h w.1

pub Within-set :
    (b : ℕ) (ss : List EntropicState) (i : ℕ) (s : EntropicState)
    → weight s ≤ b
    → Within b ss
    → Within b (set ss i s)
Within-set b [] i s h w = tt
Within-set b (t ∷ ss) zero s h w = (h, w.1)
Within-set b (t ∷ ss) (suc i) s h w = (w.0, Within-set b ss i s h w.1)

pub Within-resize :
    (b : ℕ) (ss : List EntropicState) (n : ℕ)
    → 8 ≤ b
    → Within b ss
    → Within b (resize ss n consumed)
Within-resize b ss zero h w = tt
Within-resize b [] (suc n) h w = (omega (arith, weight-consumed), Within-resize b [] n h tt)
Within-resize b (s ∷ ss) (suc n) h w = (w.0, Within-resize b ss n h w.1)

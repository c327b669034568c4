-- ===== src/Spsc/Window.antt =====
-- crates/causm-concurrency/src/queue/spsc.rs: the cells from one position to another, round the end.
use causm.Prelude.{
  ℕ, zero, suc, ◌+◌, ◌/◌, ◌%◌, ◌≤◌, ◌<◌, ◌≡◌, ◌≢◌, refl, ◌∙◌, ap, ap₂, Option, none, List, [], ◌∷◌,
  ◌++◌, get_or, set, arith, get_or-set_ne, sym,
}
use native.Mathlib.Decide.{dec_lt}
use native.Mathlib.Nat.{div-add-mod}

-- Two positions less than one round apart are in different cells.
pub cell_ne : (n a b : ℕ) → a < b → b < a + n → a % n ≢ b % n
cell_ne n a b lt near e = elim (dec_lt (a / n) (b / n)) [
  | yes p ↦ grind (arith, div-add-mod a n, div-add-mod b n)
  | no p ↦ grind (arith, div-add-mod a n, div-add-mod b n)
]

module _ {A : Type 0} where
  abbrev pub window : List (Option A) → ℕ → ℕ → ℕ → List (Option A)
  window buf n from zero = []
  window buf n from (suc k) = get_or buf (from % n) none ∷ window buf n (suc from) k

  pub window_snoc :
      (buf : List (Option A)) (n from k : ℕ)
      → window buf n from (suc k) ≡ window buf n from k ++ (get_or buf ((from + k) % n) none ∷ [])
  window_snoc buf n from zero = ap (λ i. get_or buf (i % n) none ∷ []) (omega arith)
  window_snoc buf n from (suc k) = ap (◌∷◌ (get_or buf (from % n) none)) (
      window_snoc buf n (suc from) k
      ∙ ap (λ i. window buf n (suc from) k ++ (get_or buf (i % n) none ∷ [])) (omega arith))

  -- A write at the position behind the window, less than a round away, leaves the window alone.
  pub window-set :
      (buf : List (Option A)) (n from k at : ℕ) (v : Option A)
      → from + k ≤ at
      → at < from + n
      → window (set buf (at % n) v) n from k ≡ window buf n from k
  window-set buf n from zero at v h near = refl
  window-set buf n from (suc k) at v h near =
      ap₂ ◌∷◌
        (get_or-set_ne buf (at % n) (from % n) v none
          (λ e. cell_ne n from at (omega arith) near (sym e)))
        (window-set buf n (suc from) k at v (omega arith) (omega arith))

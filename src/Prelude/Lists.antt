-- ===== src/Prelude/Lists.antt =====
-- Lists measured and indexed by native numbers, under the library's names.
use Prim.Native.Nat.{ℕ, zero, suc, ◌+◌, ◌<◌, ◌≤◌, ◌-◌}
use mathlib.Core.Path.{◌≡◌, refl, ap}
use mathlib.Core.Logic.{◌≢◌}
use mathlib.Core.List.{List, [], ◌∷◌, ◌++◌}
use native.Mathlib.Omega.{arith}

module _ {ℓ} {A : Type ℓ} where
  abbrev pub length : List A → ℕ
  length [] = 0
  length (x ∷ xs) = suc (length xs)

  abbrev pub get_or : List A → ℕ → A → A
  get_or [] i d = d
  get_or (x ∷ xs) zero d = x
  get_or (x ∷ xs) (suc i) d = get_or xs i d

  -- A write out of bounds changes nothing.
  abbrev pub set : List A → ℕ → A → List A
  set [] i v = []
  set (x ∷ xs) zero v = v ∷ xs
  set (x ∷ xs) (suc i) v = x ∷ set xs i v

  abbrev pub take : ℕ → List A → List A
  take zero xs = []
  take (suc n) [] = []
  take (suc n) (x ∷ xs) = x ∷ take n xs

  abbrev pub drop : ℕ → List A → List A
  drop zero xs = xs
  drop (suc n) [] = []
  drop (suc n) (x ∷ xs) = drop n xs

  -- `Vec::resize`: cuts the list to `n` elements, or fills it up with `d`.
  abbrev pub resize : List A → ℕ → A → List A
  resize xs zero d = []
  resize [] (suc n) d = d ∷ resize [] n d
  resize (x ∷ xs) (suc n) d = x ∷ resize xs n d

  abbrev pub replicate : ℕ → A → List A
  replicate zero d = []
  replicate (suc n) d = d ∷ replicate n d

  pub length-append : (xs ys : List A) → length (xs ++ ys) ≡ length xs + length ys
  length-append [] ys = omega arith
  length-append (x ∷ xs) ys = omega (arith, length-append xs ys)

  pub length-set : (xs : List A) (i : ℕ) (v : A) → length (set xs i v) ≡ length xs
  length-set [] i v = refl
  length-set (x ∷ xs) zero v = refl
  length-set (x ∷ xs) (suc i) v = ap suc (length-set xs i v)

  pub length-resize : (xs : List A) (n : ℕ) (d : A) → length (resize xs n d) ≡ n
  length-resize xs zero d = refl
  length-resize [] (suc n) d = ap suc (length-resize [] n d)
  length-resize (x ∷ xs) (suc n) d = ap suc (length-resize xs n d)

  pub length-replicate : (n : ℕ) (d : A) → length (replicate n d) ≡ n
  length-replicate zero d = refl
  length-replicate (suc n) d = ap suc (length-replicate n d)

  pub get_or-set_self :
      (xs : List A) (i : ℕ) (v d : A) → i < length xs → get_or (set xs i v) i d ≡ v
  get_or-set_self [] i v d h = elim h [ ]
  get_or-set_self (x ∷ xs) zero v d h = refl
  get_or-set_self (x ∷ xs) (suc i) v d h = get_or-set_self xs i v d (omega arith)

  pub get_or-set_ne :
      (xs : List A) (i j : ℕ) (v d : A) → i ≢ j → get_or (set xs i v) j d ≡ get_or xs j d
  get_or-set_ne [] i j v d h = refl
  get_or-set_ne (x ∷ xs) zero zero v d h = absurd (h refl)
  get_or-set_ne (x ∷ xs) zero (suc j) v d h = refl
  get_or-set_ne (x ∷ xs) (suc i) zero v d h = refl
  get_or-set_ne (x ∷ xs) (suc i) (suc j) v d h = get_or-set_ne xs i j v d (λ e. h (ap suc e))

  -- Growing a list by its default element changes no read that has that default.
  pub get_or-resize :
      (xs : List A) (n j : ℕ) (d : A) → length xs ≤ n → get_or (resize xs n d) j d ≡ get_or xs j d
  get_or-resize [] zero j d h = refl
  get_or-resize [] (suc n) zero d h = refl
  get_or-resize [] (suc n) (suc j) d h = get_or-resize [] n j d (omega arith)
  get_or-resize (x ∷ xs) zero j d h = absurd (omega arith)
  get_or-resize (x ∷ xs) (suc n) zero d h = refl
  get_or-resize (x ∷ xs) (suc n) (suc j) d h = get_or-resize xs n j d (omega arith)

  pub get_or-take :
      (n : ℕ) (xs : List A) (j : ℕ) (d : A) → j < n → get_or (take n xs) j d ≡ get_or xs j d
  get_or-take zero xs j d h = elim h [ ]
  get_or-take (suc n) [] j d h = refl
  get_or-take (suc n) (x ∷ xs) zero d h = refl
  get_or-take (suc n) (x ∷ xs) (suc j) d h = get_or-take n xs j d (omega arith)

  pub get_or_beyond : (xs : List A) (j : ℕ) (d : A) → length xs ≤ j → get_or xs j d ≡ d
  get_or_beyond [] j d h = refl
  get_or_beyond (x ∷ xs) zero d h = absurd (omega arith)
  get_or_beyond (x ∷ xs) (suc j) d h = get_or_beyond xs j d (omega arith)

  pub length-take-le : (n : ℕ) (xs : List A) → length (take n xs) ≤ n
  length-take-le zero xs = omega arith
  length-take-le (suc n) [] = omega arith
  length-take-le (suc n) (x ∷ xs) = omega (arith, length-take-le n xs)

  pub length-take : (n : ℕ) (xs : List A) → n ≤ length xs → length (take n xs) ≡ n
  length-take zero xs h = refl
  length-take (suc n) [] h = absurd (omega arith)
  length-take (suc n) (x ∷ xs) h = ap suc (length-take n xs (omega arith))

  pub length-drop : (n : ℕ) (xs : List A) → length (drop n xs) ≡ length xs - n
  length-drop zero xs = omega arith
  length-drop (suc n) [] = omega arith
  length-drop (suc n) (x ∷ xs) = omega (arith, length-drop n xs)

  pub drop-append : (n : ℕ) (xs ys : List A) → n ≤ length xs → drop n (xs ++ ys) ≡ drop n xs ++ ys
  drop-append zero xs ys h = refl
  drop-append (suc n) [] ys h = absurd (omega arith)
  drop-append (suc n) (x ∷ xs) ys h = drop-append n xs ys (omega arith)

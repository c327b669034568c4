-- ===== src/Entanglement/Closure.antt =====
-- crates/causm-runtime/src/vm/entropy.rs: the loop of `consume_reg` ends, with the smallest set that
-- holds the register and every set that it touches.
use causm.Prelude.{
  ℕ, zero, suc, ◌<◌, ◌≡◌, sym, ap, subst, Bool, true, false, inl, inr, Option, some, List, [], ◌∷◌,
  ◌++◌, length, arith, Bool-cases,
}
use causm.Entanglement.{Register, contains, touches, visit, round, search, members, entangled_with}
use causm.Entanglement.Search.{
  In, In-head, In-tail, In-cases, contains-append, missing, missing-le, Grew, Grew-refl, Grew-trans,
  offer_all-Grew, offer_all-In, offer_all-from,
}

-- Whatever holds of one member of a set holds of all.
abbrev pub Respects : List (List Register) → (Register → Type 0) → Type 0
Respects [] S = Unit {0}
Respects (set ∷ sets) S = ((x y : Register) → In x set → In y set → S x → S y) × Respects sets S

touches-of : (xs set : List Register) (x : Register) → In x xs → In x set → touches xs set ≡ true
unfolding touches contains
touches-of [] set x i j = ground arith
touches-of (z ∷ zs) set x i j = elim (In-cases z x zs i) [
  | inl e ↦ ground (arith, subst (λ w. In w set) (sym e) j)
  | inr i' ↦ ground (arith, touches-of zs set x i' j)
]

touches-to : (xs set : List Register) → touches xs set ≡ true → (x : Register) × In x xs × In x set
unfolding touches
touches-to [] set e = ground arith
touches-to (z ∷ zs) set e = elim (Bool-cases (contains set z)) [
  | inl j ↦ (z, In-head z zs, j)
  | inr n ↦
      let t : touches zs set ≡ true = ground arith in
      let (x, i, j) = touches-to zs set t in (x, In-tail z x zs i, j)
]

visit-Grew :
    (all current set : List Register) (r : List Register × Bool)
    → ((y : Register) → In y set → In y all)
    → Grew all r (visit current set r)
unfolding visit
visit-Grew all current set r sub = elim (Bool-cases (touches current set)) [
  | inl e ↦ rw e (offer_all-Grew all set r sub)
  | inr e ↦ rw e (Grew-refl all r)
]

-- the sets are among the members
abbrev Among : List (List Register) → List Register → Type 0
Among [] all = Unit {0}
Among (set ∷ sets) all = ((y : Register) → In y set → In y all) × Among sets all

Among-grow :
    (sets : List (List Register)) (all more : List Register)
    → Among sets all
    → Among sets (more ++ all)
Among-grow [] all more a = tt
Among-grow (set ∷ sets) all more (h, a) =
    ((λ y i. ground (arith, contains-append more all y, h y i)), Among-grow sets all more a)

Among-members : (sets : List (List Register)) → Among sets (members sets)
Among-members [] = tt
Among-members (set ∷ sets) = (
  (λ y i. ground (arith, contains-append set (members sets) y)),
  Among-grow sets (members sets) set (Among-members sets),
)

round-Grew :
    (all current : List Register) (sets : List (List Register)) (r : List Register × Bool)
    → Among sets all
    → Grew all r (round current sets r)
unfolding round
round-Grew all current [] r a = Grew-refl all r
round-Grew all current (set ∷ sets) r (h, a) =
    Grew-trans all r (visit current set r) (round current sets (visit current set r))
      (visit-Grew all current set r h) (round-Grew all current sets (visit current set r) a)

-- A quiet round found every touched set inside `to_consume`.
round-Respects :
    (all acc : List Register) (sets : List (List Register)) (r : List Register × Bool)
    → Among sets all
    → round acc sets r ≡ (acc, false)
    → Respects sets (λ x. In x acc)
unfolding round visit
round-Respects all acc [] r a e = tt
round-Respects all acc (set ∷ sets) r (h, a) e = (
  (λ x y i j k.
      let into : In y (visit acc set r).0 =
        rw (touches-of acc set x k i) (offer_all-In set r y j) in
      subst (λ p. In y p.0) e ((round-Grew all acc sets (visit acc set r) a).kept y into)),
  round-Respects all acc sets (visit acc set r) a e,
)

-- A round stays inside whatever respects the sets.
round-from :
    (current : List Register) (sets : List (List Register)) (r : List Register × Bool)
    (S : Register → Type 0)
    → Respects sets S
    → ((y : Register) → In y current → S y)
    → ((y : Register) → In y r.0 → S y)
    → (y : Register) → In y (round current sets r).0
    → S y
unfolding round visit
round-from current [] r S res cur old = old
round-from current (set ∷ sets) r S (h, res) cur old =
    round-from current sets (visit current set r) S res cur
      (elim (Bool-cases (touches current set)) [
        | inl e ↦
            let (x, i, j) = touches-to current set e in
            rw e (offer_all-from set r S old (λ z k. h x z j k (cur x i)))
        | inr e ↦ rw e old
      ])

-- What the search promises from the registers that it starts with: it ends, and what it found holds
-- them, holds every set that it touches, and lies in everything that does both.
abbrev pub Closes : List (List Register) → List Register → Option (List Register) → Type 1
Closes sets start found =
    (acc : List Register) × (found ≡ some acc)
    × ((y : Register) → In y start → In y acc)
    × Respects sets (λ x. In x acc)
    × ((S : Register → Type 0)
        → Respects sets S
        → ((y : Register) → In y start → S y)
        → (y : Register) → In y acc
        → S y)

search-Closes :
    (n : ℕ) (sets : List (List Register)) (acc : List Register)
    → missing (members sets) acc < n
    → Closes sets acc (search n sets acc)
unfolding search
search-Closes zero sets acc h = absurd (omega arith)
search-Closes (suc n) sets acc h =
    let g : Grew (members sets) (acc, false) (round acc sets (acc, false)) =
      round-Grew (members sets) acc sets (acc, false) (Among-members sets) in
    elim (Bool-cases (round acc sets (acc, false)).1) [
      | inl e ↦
          let smaller : missing (members sets) (round acc sets (acc, false)).0 < n =
            elim (g.raised e) [ inl absurd_flag ↦ ground arith | inr lt ↦ omega arith ] in
          let (found, ends, kept, res, least) =
            search-Closes n sets (round acc sets (acc, false)).0 smaller in
          rw e (
            found,
            ends,
            (λ y i. kept y (g.kept y i)),
            res,
            (λ S rs st. least S rs (round-from acc sets (acc, false) S rs st st)),
          )
      | inr e ↦
          let q : round acc sets (acc, false) ≡ (acc, false) = g.quiet e in
          rw e (
            acc,
            ap (λ p. some p.0) q,
            (λ y i. i),
            round-Respects (members sets) acc sets (acc, false) (Among-members sets) q,
            (λ S rs st. st),
          )
    ]

-- The search for the registers that are entangled with one always ends. It finds the register
-- itself; a set of entangled registers of which it finds one member it finds whole; and it finds
-- no register that a chain of overlapping sets does not lead to.
pub entangled_with-Closes :
    (entanglements : List (List Register)) (x : Register)
    → Closes entanglements (x ∷ []) (entangled_with entanglements x)
unfolding entangled_with
entangled_with-Closes entanglements x =
    search-Closes (suc (length (members entanglements))) entanglements (x ∷ [])
      (omega (arith, missing-le (members entanglements) (x ∷ [])))

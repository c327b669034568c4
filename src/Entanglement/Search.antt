-- ===== src/Entanglement/Search.antt =====
-- crates/causm-runtime/src/vm/entropy.rs: what the rounds of `consume_reg` add.
use causm.Prelude.{
  ℕ, ◌+◌, ◌≤◌, ◌<◌, ◌≡◌, refl, sym, ap, ap₂, ◌∙◌, subst, Bool, true, false, ◌||◌, ◌⊎◌, inl, inr,
  eq_iff, List, [], ◌∷◌, ◌++◌, length, if◌then◌else◌, arith, Bool-cases,
}
use causm.Entanglement.{Register, same, contains, offer, offer_all}

abbrev pub In : Register → List Register → Type 0
In x xs = contains xs x ≡ true

pub same-eq : (x y : Register) → same x y ≡ true → x ≡ y
same-eq (b, r) (c, s) e = ap₂ (λ n i. (n, i)) names numbers
  where
    names : b ≡ c
    names = ground (arith, eq_iff b c)

    numbers : r ≡ s
    numbers = ground (arith, eq_iff b c)

same_refl : (x : Register) → same x x ≡ true
same_refl (b, r) = ground (arith, eq_iff b b)

pub contains-append :
    (xs ys : List Register) (y : Register) → contains (xs ++ ys) y ≡ contains xs y || contains ys y
unfolding contains
contains-append [] ys y = refl
contains-append (x ∷ xs) ys y = ground (arith, contains-append xs ys y)

pub In-head : (x : Register) (xs : List Register) → In x (x ∷ xs)
unfolding contains
In-head x xs = ground (arith, same_refl x)

pub In-tail : (x y : Register) (xs : List Register) → In y xs → In y (x ∷ xs)
unfolding contains
In-tail x y xs i = ground arith

pub In-cases : (x y : Register) (xs : List Register) → In y (x ∷ xs) → (x ≡ y) ⊎ In y xs
unfolding contains
In-cases x y xs i = elim (Bool-cases (same x y)) [
  | inl e ↦ inl (same-eq x y e)
  | inr e ↦ inr (ground arith)
]

-- how many of `all` are not in the accumulator, counted by place
abbrev pub missing : List Register → List Register → ℕ
missing [] acc = 0
missing (x ∷ xs) acc = (if contains acc x then 0 else 1) + missing xs acc

pub missing-le : (all acc : List Register) → missing all acc ≤ length all
missing-le [] acc = omega arith
missing-le (x ∷ xs) acc = ground (arith, missing-le xs acc)

missing-snoc :
    (all acc : List Register) (x : Register) → missing all (acc ++ x ∷ []) ≤ missing all acc
unfolding contains
missing-snoc [] acc x = omega arith
missing-snoc (y ∷ ys) acc x = ground (arith, contains-append acc (x ∷ []) y, missing-snoc ys acc x)

missing-snoc_lt :
    (all acc : List Register) (x : Register)
    → In x all
    → contains acc x ≡ false
    → missing all (acc ++ x ∷ []) < missing all acc
unfolding contains
missing-snoc_lt [] acc x i n = ground arith
missing-snoc_lt (y ∷ ys) acc x i n = elim (Bool-cases (same y x)) [
  | inl e ↦
      let q : y ≡ x = same-eq y x e in
      let absent : contains acc y ≡ false = ap (contains acc) q ∙ n in
      let present : same x y ≡ true = subst (λ z. same x z ≡ true) (sym q) (same_refl x) in
      ground (arith, contains-append acc (x ∷ []) y, missing-snoc ys acc x)
  | inr e ↦
      let i' : In x ys = ground arith in
      ground (arith, contains-append acc (x ∷ []) y, missing-snoc_lt ys acc x i' n)
]

-- What a part of a round does to `to_consume` and `entangled_found`: nothing is taken out, nothing
-- changes without the flag, and the flag is only raised when something new came in.
pub record Grew (all : List Register) (r r' : List Register × Bool) : Type 0 where
  pub kept : (y : Register) → In y r.0 → In y r'.0
  pub quiet : r'.1 ≡ false → r' ≡ r
  pub fewer : missing all r'.0 ≤ missing all r.0
  pub raised : r'.1 ≡ true → (r.1 ≡ true) ⊎ (missing all r'.0 < missing all r.0)

pub Grew-refl : (all : List Register) (r : List Register × Bool) → Grew all r r
Grew-refl all r = record {
  kept = λ y i. i;
  quiet = λ e. refl;
  fewer = omega arith;
  raised = λ e. inl e;
}

pub Grew-trans :
    (all : List Register) (r s t : List Register × Bool)
    → Grew all r s
    → Grew all s t
    → Grew all r t
Grew-trans all r s t g h = record {
  kept = λ y i. h.kept y (g.kept y i);
  quiet = λ e. let q : t ≡ s = h.quiet e in q ∙ g.quiet (sym (ap (λ p. p.1) q) ∙ e);
  fewer = omega (arith, g.fewer, h.fewer);
  raised = λ e. elim (h.raised e) [
    | inl e' ↦ elim (g.raised e') [ inl e'' ↦ inl e'' | inr lt ↦ inr (omega (arith, h.fewer)) ]
    | inr lt ↦ inr (omega (arith, g.fewer))
  ];
}

offer-Grew :
    (all : List Register) (x : Register) (r : List Register × Bool)
    → In x all
    → Grew all r (offer x r)
unfolding offer
offer-Grew all x (acc, found) i = elim (Bool-cases (contains acc x)) [
  | inl e ↦ rw e (Grew-refl all (acc, found))
  | inr e ↦ rw e (record {
    kept = λ y h. ground (arith, contains-append acc (x ∷ []) y);
    quiet = λ h. ground arith;
    fewer = missing-snoc all acc x;
    raised = λ h. inr (missing-snoc_lt all acc x i e);
  })
]

offer-In : (x : Register) (r : List Register × Bool) → In x (offer x r).0
unfolding offer contains
offer-In x (acc, found) = elim (Bool-cases (contains acc x)) [
  | inl e ↦ rw e e
  | inr e ↦ rw e (ground (arith, same_refl x, contains-append acc (x ∷ []) x))
]

offer-from : (x y : Register) (r : List Register × Bool) → In y (offer x r).0 → In y r.0 ⊎ (x ≡ y)
unfolding offer contains
offer-from x y (acc, found) i = elim (Bool-cases (contains acc x)) [
  | inl e ↦ inl (ground arith)
  | inr e ↦ elim (Bool-cases (same x y)) [
    | inl s ↦ inr (same-eq x y s)
    | inr s ↦ inl (ground (arith, contains-append acc (x ∷ []) y))
  ]
]

pub offer_all-Grew :
    (all set : List Register) (r : List Register × Bool)
    → ((y : Register) → In y set → In y all)
    → Grew all r (offer_all set r)
unfolding offer_all contains
offer_all-Grew all [] r sub = Grew-refl all r
offer_all-Grew all (x ∷ xs) r sub =
    Grew-trans all r (offer x r) (offer_all xs (offer x r))
      (offer-Grew all x r (sub x (In-head x xs)))
      (offer_all-Grew all xs (offer x r) (λ y i. sub y (In-tail x y xs i)))

-- every member of the set is in `to_consume` behind the loop over it
pub offer_all-In :
    (set : List Register) (r : List Register × Bool) (y : Register)
    → In y set
    → In y (offer_all set r).0
unfolding offer_all contains
offer_all-In [] r y i = ground arith
offer_all-In (x ∷ xs) r y i = elim (In-cases x y xs i) [
  | inl e ↦
      (offer_all-Grew xs xs (offer x r) (λ z j. j)).kept y
        (subst (λ z. In z (offer x r).0) e (offer-In x r))
  | inr j ↦ offer_all-In xs (offer x r) y j
]

-- and nothing else came in
pub offer_all-from :
    (set : List Register) (r : List Register × Bool) (S : Register → Type 0)
    → ((y : Register) → In y r.0 → S y)
    → ((y : Register) → In y set → S y)
    → (y : Register) → In y (offer_all set r).0
    → S y
unfolding offer_all contains
offer_all-from [] r S old new y i = old y i
offer_all-from (x ∷ xs) r S old new y i =
    offer_all-from xs (offer x r) S
      (λ z j. elim (offer-from x z r j) [
        | inl o ↦ old z o
        | inr e ↦ subst S e (new x (In-head x xs))
      ])
      (λ z j. new z (In-tail x z xs j)) y i

-- ===== src/Branches/Split/Linked.antt =====
-- crates/causm-runtime/src/vm/branching.rs: what a split does to the sets of entangled registers.
use causm.Prelude.{
  ℕ, ◌≡◌, ◌≢◌, Bool, true, false, ◌||◌, ◌&&◌, String, str_eq, eq_iff, List, [], ◌∷◌, ◌==◌, ==→eq,
  arith, Bool-cases, inl, inr,
}
use causm.Entanglement.{Register, contains}
use causm.Branches.Split.{
  insert_member, parent_regs, new_entries, link, link_sets, link_regs, link_entries,
}

abbrev has : List ℕ → ℕ → Bool
has [] k = false
has (r ∷ rs) k = r == k || has rs k

abbrev has_any : List (List ℕ) → ℕ → Bool
has_any [] k = false
has_any (rs ∷ entries) k = has rs k || has_any entries k

module _ (parent child : String) where
  -- Set by set, the registers of `child` that came in are those whose number `h` has and under which
  -- the set holds a register of `parent`.
  abbrev pub Linked : (ℕ → Bool) → List (List Register) → List (List Register) → Type 0
  Linked h [] [] = Unit {0}
  Linked h (set ∷ sets) (set' ∷ sets') =
      ((x : Register)
        → contains set' x
          ≡ contains set x || (str_eq child x.0 && h x.1 && contains set (parent, x.1)))
      × Linked h sets sets'
  Linked h [] (set' ∷ sets') = true ≡ false
  Linked h (set ∷ sets) [] = true ≡ false

  Linked-refl : (sets : List (List Register)) → Linked (λ k. false) sets sets
  Linked-refl [] = tt
  Linked-refl (set ∷ sets) = ((λ x. ground arith), Linked-refl sets)

  names : (b : String) → str_eq child b ≡ true → child ≡ b
  names b m = ground (arith, eq_iff child b)

  contains-link :
      (r : ℕ) (set : List Register) (x : Register)
      → contains (link parent child r set) x
        ≡ contains set x || (str_eq child x.0 && r == x.1 && contains set (parent, x.1))
  unfolding link insert_member contains
  contains-link r set (b, k) = elim (Bool-cases (r == k)) [
    | inl e ↦ rw⁻¹ (==→eq r k e) (elim (Bool-cases (str_eq child b)) [
      | inl m ↦ rw⁻¹ (names b m) (ground (arith, eq_iff child child))
      | inr m ↦ ground arith
    ])
    | inr e ↦ ground arith
  ]

  link_sets-Linked :
      (r : ℕ) (sets : List (List Register))
      → Linked (λ k. r == k) sets (link_sets parent child r sets)
  unfolding link_sets
  link_sets-Linked r [] = tt
  link_sets-Linked r (set ∷ sets) = ((λ x. contains-link r set x), link_sets-Linked r sets)

  module _ (ne : parent ≢ child) where
    Linked-trans :
        (h h' : ℕ → Bool) (s s' s'' : List (List Register))
        → Linked h s s'
        → Linked h' s' s''
        → Linked (λ k. h k || h' k) s s''
    Linked-trans h h' [] [] [] f g = tt
    Linked-trans h h' (a ∷ s) (b ∷ s') (c ∷ s'') (f, fs) (g, gs) = (
      (λ x. ground (arith, f x, f (parent, x.1), g x, eq_iff child parent)),
      Linked-trans h h' s s' s'' fs gs,
    )
    Linked-trans h h' [] [] (_ ∷ _) f g = g
    Linked-trans h h' [] (_ ∷ _) s'' f g = ground arith
    Linked-trans h h' (_ ∷ _) [] s'' f g = ground arith
    Linked-trans h h' (_ ∷ _) (_ ∷ _) [] f g = ground arith

    link_regs-Linked :
        (rs : List ℕ) (sets : List (List Register))
        → Linked (has rs) sets (link_regs parent child rs sets)
    unfolding link_regs
    link_regs-Linked [] sets = Linked-refl sets
    link_regs-Linked (r ∷ rs) sets =
        Linked-trans (λ k. r == k) (has rs) sets (link_sets parent child r sets)
          (link_regs parent child rs (link_sets parent child r sets)) (link_sets-Linked r sets)
          (link_regs-Linked rs (link_sets parent child r sets))

    link_entries-Linked :
        (entries : List (List ℕ)) (sets : List (List Register))
        → Linked (has_any entries) sets (link_entries parent child entries sets)
    unfolding link_entries
    link_entries-Linked [] sets = Linked-refl sets
    link_entries-Linked (rs ∷ entries) sets =
        Linked-trans (has rs) (has_any entries) sets (link_regs parent child rs sets)
          (link_entries parent child entries (link_regs parent child rs sets))
          (link_regs-Linked rs sets) (link_entries-Linked entries (link_regs parent child rs sets))

-- the number of every register of `parent` in a set is among the entries gathered from it
has-parent_regs :
    (parent : String) (set : List Register) (k : ℕ)
    → contains set (parent, k) ≡ true
    → has (parent_regs parent set) k ≡ true
unfolding parent_regs contains
has-parent_regs parent [] k i = ground arith
has-parent_regs parent ((b, r) ∷ set) k i = elim (Bool-cases (contains set (parent, k))) [
  | inl j ↦
      let rest : has (parent_regs parent set) k ≡ true = has-parent_regs parent set k j in
      elim (Bool-cases (str_eq b parent)) [ inl m ↦ rw m (ground arith) | inr m ↦ rw m rest ]
  | inr j ↦ let m : str_eq b parent ≡ true = ground arith in rw m (ground arith)
]

-- Every number that the sets hold under `parent` is gathered, so what came in is all of them.
Linked-all :
    (parent child : String) (h : ℕ → Bool) (sets sets' : List (List Register))
    → ((k : ℕ) → has_any (new_entries parent sets) k ≡ true → h k ≡ true)
    → Linked parent child h sets sets'
    → Linked parent child (λ k. true) sets sets'
unfolding new_entries
Linked-all parent child h [] [] sub l = tt
Linked-all parent child h [] (_ ∷ _) sub l = l
Linked-all parent child h (_ ∷ _) [] sub l = l
Linked-all parent child h (set ∷ sets) (set' ∷ sets') sub (f, l) = (
  (λ x. elim (Bool-cases (contains set (parent, x.1))) [
    | inl j ↦
        let given : h x.1 ≡ true = sub x.1 (ground (arith, has-parent_regs parent set x.1 j)) in
        ground (arith, f x)
    | inr j ↦ ground (arith, f x)
  ]),
  Linked-all parent child h sets sets' (λ k e. sub k (ground arith)) l,
)

-- A split of `child` off `parent` puts into every set, for each register of `parent` in it, the same
-- register of `child`, and nothing else.
pub link_entries_lem :
    (parent child : String) (sets : List (List Register))
    → parent ≢ child
    → Linked parent child
        (λ k. true)
        sets
        (link_entries parent child (new_entries parent sets) sets)
link_entries_lem parent child sets ne =
    Linked-all parent child (has_any (new_entries parent sets)) sets
      (link_entries parent child (new_entries parent sets) sets) (λ k e. e)
      (link_entries-Linked parent child ne (new_entries parent sets) sets)

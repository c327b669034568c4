-- ===== src/Wcet/Max/Largest.antt =====
-- crates/causm-wcet/src/wcet.rs: `find_max_value` against its meaning.
use causm.Prelude.{
  ℕ, suc, ◌+◌, ◌-◌, ◌*◌, ◌^◌, ◌≤◌, ◌<◌, ◌≡◌, refl, sym, ap, ◌∙◌, ◌⊎◌, Bool, true, false, Bool-cases,
  Option, some, [], ◌∷◌, inl, inr, ltb, arith,
}
use causm.Wcet.Backend.{SolverBackend, IsSolver}
use causm.Wcet.Max.{check_with, first_bounds, from_initial, find_max_value}
use causm.Wcet.Scopes.{Scopes, Ready, Answers, check_with-Ready, check_with-Answers, pop-Ready}
use causm.Wcet.Max.Search.{Between, Maximum, reach, search-Maximum}

module _ (b : SolverBackend) (v : IsSolver b) (val : b.IntTerm) (p : b.BoolTerm) where
  -- The largest value under the condition `p`; 0 where the condition cannot be true.
  abbrev pub IsLargest : ℕ → Type 0
  IsLargest n =
      ((m : v.Model) → v.truth m p ≡ true → v.value m val ≤ n)
      × (((m : v.Model) × (v.truth m p ≡ true) × (v.value m val ≡ n))
          ⊎ (((m : v.Model) → v.truth m p ≡ false) × (n ≡ 0)))

  -- The values that the search is made for: a value above 100,000 is below `2 ^ 63`, and at most
  -- twice as large as any other, which is above 100,000 too; or it is the least.
  abbrev pub InRange : Type 0
  InRange =
      (m m' : v.Model)
      → v.truth m p ≡ true
      → v.truth m' p ≡ true
      → (v.value m val ≤ 100000)
        ⊎ ((v.value m val ≤ v.value m' val)
            ⊎ ((100000 < v.value m' val)
                × (v.value m val ≤ 2 * v.value m' val)
                × (v.value m val < 2 ^ 63)))

  abbrev pub Finds : Option ℕ × b.State → Type 0
  Finds (o, s) = ((n : ℕ) × (o ≡ some n) × IsLargest n) × v.Reaches s []

  -- the scope in which the search runs
  abbrev scope : Scopes b v
  scope = (p ∷ []) ∷ []

  Maximum-Finds :
      (o : Option ℕ) (s : b.State)
      → Maximum b v val scope o
      → Ready b v scope s
      → Finds (o, b.pop 1 s)
  Maximum-Finds o s (n, e, (m, ((t, u), u'), q), most) r = (
    (n, e, ((λ m' t'. most m' ((t', tt), tt)), inl (m, t, q))),
    (pop-Ready b v [] (p ∷ []) s r).0,
  )

  module _ (m : v.Model) (t : v.truth m p ≡ true) (range : InRange) (m' : v.Model)
      (t' : v.truth m' p ≡ true) (greater : v.value m val < v.value m' val) where
    abbrev bounds : ℕ × ℕ × ℕ
    bounds = first_bounds (v.value m val)

    initial-Between : Between b v val scope bounds.0 bounds.1 bounds.2
    initial-Between =
        let near = range m' m t' t in
        elim (Bool-cases (ltb 100000 (v.value m val))) [
          | inl h ↦ rw h (record {
            attained = (m, ((t, tt), tt), refl);
            at_most = λ n ((t'', u), u'). let near' = range n m t'' t in ground arith;
            close = omega arith;
            small = ground arith;
          })
          | inr h ↦ rw h (record {
            attained = (m, ((t, tt), tt), refl);
            at_most = λ n ((t'', u), u'). let near' = range n m t'' t in ground arith;
            close = omega arith;
            small = omega arith;
          })
        ]

    fits : suc bounds.1 ≤ v.value m val + reach 65
    fits = let i = initial-Between.small in let e : reach 65 ≡ 2 ^ 65 - 1 = refl in omega arith

  from_initial-Finds :
      (m : v.Model) (s : b.State)
      → v.truth m p ≡ true
      → Ready b v scope s
      → v.Supported val
      → InRange
      → Finds (from_initial b val (some (v.value m val)) s)
  unfolding from_initial
  from_initial-Finds m s t r sup range =
      go (check_with b q s).0 refl (check_with-Answers b v scope q s r sq)
    where
      x : ℕ
      x = v.value m val

      q : b.BoolTerm
      q = b.int_gt val (b.int_from_u64 x)

      sq : v.SupportedBool q
      sq = (v.compare_supported val (b.int_from_u64 x) sup (v.int_supported x)).2

      q_means : (m' : v.Model) → v.truth m' q ≡ ltb x (v.value m' val)
      q_means m' =
          (v.compare_truth m' val (b.int_from_u64 x)).2
          ∙ ap (λ n. ltb n (v.value m' val)) (v.int_value m' x)

      s' : b.State
      s' = (check_with b q s).1

      r' : Ready b v ((q ∷ []) ∷ scope) s'
      r' = check_with-Ready b v scope q s r sq

      go :
          (c : Bool)
          → (check_with b q s).0 ≡ c
          → Answers b v scope q c s'
          → Finds (from_initial b val (some x) s)
      go true e (m', ((t', u), u'), h, g) = rw e (
          let greater : x < v.value m' val = let h' = sym (q_means m') ∙ h in ground arith in
          let (f, r'') =
            search-Maximum b v val scope 65 _ _ _ (b.pop 1 s')
              (initial-Between m t range m' t' greater) (fits m t range m' t' greater)
              (pop-Ready b v scope (q ∷ []) s' r') sup in
          Maximum-Finds _ _ f r'')
      go false e a = rw e (
        (
          x,
          refl,
          (
            (λ m' t'. let h = sym (q_means m') ∙ a m' ((t', tt), tt) in ground arith),
            inl (m, t, refl),
          ),
        ),
        v.pop_reaches 2 s' ((q ∷ []) ∷ scope) r'.0,
      )

  -- On every solver that keeps the promises of `IsSolver` (among them a sound and complete check
  -- and an exact evaluation), for a term and a condition that the solver supports and whose values
  -- are in the range of the search, and from a state without open scopes: `find_max_value` comes to
  -- an end, gives the largest value that the term has under the condition, 0 where the condition
  -- cannot be true, and leaves no scope open.
  pub find_max_value-IsLargest :
      (s : b.State)
      → v.Reaches s []
      → v.SupportedBool p
      → v.Supported val
      → InRange
      → Finds (find_max_value b val p s)
  unfolding find_max_value
  find_max_value-IsLargest s r sp sup range =
      go (check_with b p s).0 refl (check_with-Answers b v [] p s (r, tt) sp)
    where
      s' : b.State
      s' = (check_with b p s).1

      go :
          (c : Bool)
          → (check_with b p s).0 ≡ c
          → Answers b v [] p c s'
          → Finds (find_max_value b val p s)
      go true e (m, u, t, f) = rw e (
          rw (f val sup)
            (from_initial-Finds m s' t (check_with-Ready b v [] p s (r, tt) sp) sup range))
      go false e a = rw e (
        (0, refl, ((λ m t. cc (a m tt)), inr ((λ m. a m tt), refl))),
        (pop-Ready b v [] (p ∷ []) s' (check_with-Ready b v [] p s (r, tt) sp)).0,
      )

-- a number that a term is, whatever the unknowns are
abbrev pub Constant : (b : SolverBackend) → IsSolver b → b.IntTerm → ℕ → Type 0
Constant b v c n = v.Supported c × ((m : v.Model) → v.value m c ≡ n)

-- `find_max_value` gives the value of a term that is constant, however large.
pub find_max_value_constant :
    (b : SolverBackend) (v : IsSolver b) (val : b.IntTerm) (n : ℕ) (s : b.State)
    → v.Reaches s []
    → Constant b v val n
    → ((find_max_value b val (b.bool_from_bool true) s).0 ≡ some n)
      × v.Reaches (find_max_value b val (b.bool_from_bool true) s).1 []
find_max_value_constant b v val n s r (sup, f) =
    let p : b.BoolTerm = b.bool_from_bool true in
    let t : (m : v.Model) → v.truth m p ≡ true = λ m. v.bool_truth m true in
    let ((k, e, (most, which)), r') =
      find_max_value-IsLargest b v val p s r (v.bool_supported true) sup
        (λ m m' u u'. inr (inl (let h = f m in let h' = f m' in omega arith))) in
    (e ∙ ap (λ x. some x) (same k which), r')
  where
    same :
        (k : ℕ)
        → ((m : v.Model) × (v.truth m (b.bool_from_bool true) ≡ true) × (v.value m val ≡ k))
          ⊎ (((m : v.Model) → v.truth m (b.bool_from_bool true) ≡ false) × (k ≡ 0))
        → k ≡ n
    same k (inl (m, t, e)) = sym e ∙ f m
    same k (inr (no_model, e)) = cc (no_model v.some_model, v.bool_truth v.some_model true)

-- ===== src/Wcet/Max/Search.antt =====
-- crates/causm-wcet/src/wcet.rs: the loop of `find_max_value` and its invariant.
use causm.Prelude.{
  ℕ, zero, suc, ◌+◌, ◌-◌, ◌*◌, ◌/◌, ◌^◌, ◌≤◌, ◌<◌, ◌≡◌, refl, sym, ap, ◌∙◌, subst, Bool, true,
  false, Bool-cases, Option, some, [], ◌∷◌, inl, inr, ltb, leb, add64, sub64, arith,
}
use causm.Wcet.Backend.{SolverBackend, IsSolver}
use causm.Wcet.Max.{narrow, check_with, search}
use causm.Wcet.Scopes.{
  Scopes, Possible, Ready, Answers, check_with-Ready, check_with-Answers, pop-Ready,
}

-- the width that the fuel is enough for
abbrev pub reach : ℕ → ℕ
reach zero = 0
reach (suc fuel) = suc (2 * reach fuel)

module _ (b : SolverBackend) (v : IsSolver b) (val : b.IntTerm) (vs : Scopes b v) where
  -- a value that the term takes
  abbrev pub Attained : ℕ → Type 0
  Attained n = (m : v.Model) × Possible b v vs m × (v.value m val ≡ n)

  abbrev pub AtMost : ℕ → Type 0
  AtMost n = (m : v.Model) → Possible b v vs m → v.value m val ≤ n

  -- The invariant of the loop.
  pub record Between (low high max_val : ℕ) : Type 0 where
    pub attained : Attained max_val
    pub at_most : AtMost high
    pub close : low ≤ suc max_val
    pub small : suc high < 2 ^ 64

  abbrev pub Maximum : Option ℕ → Type 0
  Maximum o = (n : ℕ) × (o ≡ some n) × Attained n × AtMost n

  Between-Maximum :
      (low high max_val : ℕ) → Between low high max_val → high < low → Maximum (some max_val)
  Between-Maximum low high max_val i h = (
    max_val,
    refl,
    i.attained,
    (λ m p. let le = i.at_most m p in let le' = i.close in omega arith),
  )

  -- the bounds that a round leaves, and that the interval is halved
  abbrev Narrowed : ℕ → ℕ × ℕ × ℕ → Type 0
  Narrowed w (low, high, max_val) = Between low high max_val × (suc high ≤ low + w)

  module _ (low high max_val w mid : ℕ) (i : Between low high max_val) (le : low ≤ high)
      (fits : suc high ≤ low + suc (2 * w)) (middle : mid ≡ low + (high - low) / 2) where
    narrow-greater :
        (x : ℕ) → mid < x → Attained x → Narrowed w (narrow true (some x) mid (low, high, max_val))
    unfolding narrow
    narrow-greater x h (m, p, e) =
        let top = i.at_most m p in
        let small = i.small in
        let e' : add64 x 1 ≡ suc x = omega arith in
        let t : ltb mid x ≡ true = ground arith in
        rw t (
          rw e' (
            record {
              attained = (m, p, e);
              at_most = i.at_most;
              close = omega arith;
              small = i.small;
            },
            omega arith,
          ))

    narrow-same : Attained mid → Narrowed w (narrow true (some mid) mid (low, high, max_val))
    unfolding narrow
    narrow-same a =
        let small = i.small in
        let e' : add64 mid 1 ≡ suc mid = omega arith in
        let t : ltb mid mid ≡ false = ground arith in
        rw t (
          rw e' (
            record { attained = a; at_most = i.at_most; close = omega arith; small = i.small },
            omega arith,
          ))

    narrow-below :
        (e : Option ℕ)
        → ((m : v.Model) → Possible b v vs m → v.value m val < mid)
        → Narrowed w (narrow false e mid (low, high, max_val))
    unfolding narrow
    narrow-below e h =
        let (m, p, q) = i.attained in
        let lt = h m p in
        let small = i.small in
        let e' : sub64 mid 1 ≡ mid - 1 = omega arith in
        rw e' (
          record {
            attained = i.attained;
            at_most = λ m' p'. let lt' = h m' p' in omega arith;
            close = i.close;
            small = omega arith;
          },
          omega arith,
        )

    -- the test of a round
    abbrev test : b.BoolTerm
    test = b.int_ge val (b.int_from_u64 mid)

    test_means : (m : v.Model) → v.truth m test ≡ leb mid (v.value m val)
    test_means m =
        (v.compare_truth m val (b.int_from_u64 mid)).3
        ∙ ap (λ n. leb n (v.value m val)) (v.int_value m mid)

    round-Narrowed :
        (s : b.State) (c : Bool)
        → v.Supported val
        → Answers b v vs test c s
        → Narrowed w (narrow c (b.eval_u64 val s) mid (low, high, max_val))
    round-Narrowed s true sup (m, p, t, f) =
        subst (λ o. Narrowed w (narrow true o mid (low, high, max_val))) (sym (f val sup))
          (let h : leb mid (v.value m val) ≡ true = sym (test_means m) ∙ t in
            elim (Bool-cases (ltb mid (v.value m val))) [
              | inl lt ↦ narrow-greater (v.value m val) (ground arith) (m, p, refl)
              | inr ge ↦
                  let same : v.value m val ≡ mid = ground arith in
                  subst (λ x. Narrowed w (narrow true (some x) mid (low, high, max_val))) (sym same)
                    (narrow-same (m, p, same))
            ])
    round-Narrowed s false sup a = narrow-below (b.eval_u64 val s) (λ m p.
        let h : leb mid (v.value m val) ≡ false = sym (test_means m) ∙ a m p in ground arith)

  -- With enough fuel the loop ends with the largest value, and closes the scopes that it opens.
  pub search-Maximum :
      (fuel low high max_val : ℕ) (s : b.State)
      → Between low high max_val
      → suc high ≤ low + reach fuel
      → Ready b v vs s
      → v.Supported val
      → Maximum (search b fuel val (low, high, max_val) s).0
        × Ready b v vs (search b fuel val (low, high, max_val) s).1
  unfolding search
  search-Maximum zero low high max_val s i fits r sup =
      let h : leb low high ≡ false = ground arith in
      rw h (Between-Maximum low high max_val i (omega arith), r)
  search-Maximum (suc fuel) low high max_val s i fits r sup = elim (Bool-cases (leb low high)) [
    | inr h ↦ rw h (Between-Maximum low high max_val i (ground arith), r)
    | inl h ↦
        let mid : ℕ = low + (high - low) / 2 in
        let p : b.BoolTerm = b.int_ge val (b.int_from_u64 mid) in
        let sp : v.SupportedBool p =
          (v.compare_supported val (b.int_from_u64 mid) sup (v.int_supported mid)).3 in
        let s' : b.State = (check_with b p s).1 in
        let n =
          round-Narrowed low high max_val (reach fuel) mid i (ground arith) fits refl s'
            (check_with b p s).0 sup (check_with-Answers b v vs p s r sp) in
        rw h (
          search-Maximum fuel _ _ _ (b.pop 1 s') n.0 n.1
            (pop-Ready b v vs (p ∷ []) s' (check_with-Ready b v vs p s r sp)) sup)
  ]

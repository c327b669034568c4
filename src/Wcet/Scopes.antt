-- ===== src/Wcet/Scopes.antt =====
-- crates/causm-wcet/src/wcet.rs: what a `check` in a scope of its own says.
use causm.Prelude.{◌≡◌, refl, Bool, true, false, Bool-cases, some, List, [], ◌∷◌, inl, inr}
use causm.Wcet.Backend.{SolverBackend, AllScopes, IsSolver}
use causm.Wcet.Max.{check_with}

module _ (b : SolverBackend) (v : IsSolver b) where
  abbrev pub Scopes : Type 0
  Scopes = List (List b.BoolTerm)

  -- the models of the open scopes
  abbrev pub Possible : Scopes → v.Model → Type 0
  Possible vs m = AllScopes (λ p. v.truth m p ≡ true) vs

  abbrev pub Ready : Scopes → b.State → Type 0
  Ready vs s = v.Reaches s vs × AllScopes v.SupportedBool vs

  -- what the answer to a `check` of `p` says, and what the solver's model gives
  abbrev pub Answers : Scopes → b.BoolTerm → Bool → b.State → Type 0
  Answers vs p true s =
      (m : v.Model) × Possible vs m
      × (v.truth m p ≡ true)
      × ((t : b.IntTerm) → v.Supported t → b.eval_u64 t s ≡ some (v.value m t))
  Answers vs p false s = (m : v.Model) → Possible vs m → v.truth m p ≡ false

  open_scope :
      (vs : Scopes) (p : b.BoolTerm) (s : b.State)
      → Ready vs s
      → v.SupportedBool p
      → Ready ((p ∷ []) ∷ vs) (b.assert p (b.push s))
  open_scope vs p s (r, a) q =
      (v.assert_reaches p (b.push s) [] vs (v.push_reaches s vs r), ((q, tt), a))

  pub check_with-Ready :
      (vs : Scopes) (p : b.BoolTerm) (s : b.State)
      → Ready vs s
      → v.SupportedBool p
      → Ready ((p ∷ []) ∷ vs) (check_with b p s).1
  check_with-Ready vs p s r q =
      let (r', a) = open_scope vs p s r q in
      (v.check_reaches (b.assert p (b.push s)) ((p ∷ []) ∷ vs) r', a)

  pub check_with-Answers :
      (vs : Scopes) (p : b.BoolTerm) (s : b.State)
      → Ready vs s
      → v.SupportedBool p
      → Answers vs p (check_with b p s).0 (check_with b p s).1
  check_with-Answers vs p s r q = go (check_with b p s).0 refl
    where
      go : (c : Bool) → (check_with b p s).0 ≡ c → Answers vs p c (check_with b p s).1
      go true e =
          let (r', a) = open_scope vs p s r q in
          let (m, ((h, u), n), f) = v.check_sound (b.assert p (b.push s)) ((p ∷ []) ∷ vs) r' a e in
          (m, n, h, f)
      go false e = λ m n. elim (Bool-cases (v.truth m p)) [
        | inr f ↦ f
        | inl t ↦
            let (r', a) = open_scope vs p s r q in
            cc (v.check_complete (b.assert p (b.push s)) ((p ∷ []) ∷ vs) m r' a ((t, tt), n))
      ]

  pub pop-Ready :
      (vs : Scopes) (ps : List b.BoolTerm) (s : b.State) → Ready (ps ∷ vs) s → Ready vs (b.pop 1 s)
  pop-Ready vs ps s (r, (a, as')) = (v.pop_reaches 1 s (ps ∷ vs) r, as')

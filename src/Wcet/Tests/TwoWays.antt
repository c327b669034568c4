-- ===== src/Wcet/Tests/TwoWays.antt =====
-- A solver with one unknown truth value, which tries both: an instance of the interface with
-- negations and conditional terms.
use causm.Prelude.{
  ℕ, ◌+◌, ◌≡◌, refl, sym, ap, subst, inl, inr, Bool, true, false, ◌&&◌, not, Bool-cases, some, List,
  [], ◌∷◌, ◌++◌, drop, if◌then◌else◌, ltb, leb, ◌==◌, arith,
}
use causm.Wcet.Backend.{SolverBackend, All, AllScopes, IsSolver}

abbrev Condition : Type 0
Condition = Bool → Bool

pub record Tried : Type 0 where
  pub scopes : List (List Condition)
  pub found : Bool

abbrev assert_in : Condition → List (List Condition) → List (List Condition)
assert_in p [] = []
assert_in p (ps ∷ v) = (ps ++ p ∷ []) ∷ v

abbrev all_at : Bool → List Condition → Bool
all_at m [] = true
all_at m (p ∷ ps) = p m && all_at m ps

abbrev scopes_at : Bool → List (List Condition) → Bool
scopes_at m [] = true
scopes_at m (ps ∷ v) = all_at m ps && scopes_at m v

abbrev and_at : List Condition → Condition
and_at ps m = all_at m ps

abbrev sum_at : List (Bool → ℕ) → Bool → ℕ
sum_at [] m = 0
sum_at (t ∷ ts) m = t m + sum_at ts m

abbrev pub two_ways : SolverBackend
two_ways = record {
  State = Tried;
  BoolTerm = Condition;
  IntTerm = Bool → ℕ;
  new = record { scopes = []; found = false };
  reset = λ s. record { scopes = []; found = false };
  check = λ s. (
    if scopes_at false s.scopes then true else scopes_at true s.scopes,
    record s { found = if scopes_at false s.scopes then false else true },
  );
  push = λ s. record s { scopes = [] ∷ s.scopes };
  pop = λ n s. record s { scopes = drop n s.scopes };
  assert = λ p s. record s { scopes = assert_in p s.scopes };
  bool_from_bool = λ c m. c;
  bool_not = λ p m. not (p m);
  bool_and = and_at;
  int_from_u64 = λ n m. n;
  int_add = sum_at;
  int_lt = λ s t m. ltb (s m) (t m);
  int_le = λ s t m. leb (s m) (t m);
  int_gt = λ s t m. ltb (t m) (s m);
  int_ge = λ s t m. leb (t m) (s m);
  int_eq = λ s t m. s m == t m;
  int_ite = λ p s t m. if p m then s m else t m;
  eval_u64 = λ t s. some (t s.found);
}

all_at-All : (m : Bool) (ps : List Condition) → all_at m ps ≡ true → All (λ p. p m ≡ true) ps
all_at-All m [] h = tt
all_at-All m (p ∷ ps) h = (ground arith, all_at-All m ps (ground arith))

scopes_at-Holding :
    (m : Bool) (v : List (List Condition)) → scopes_at m v ≡ true → AllScopes (λ p. p m ≡ true) v
scopes_at-Holding m [] h = tt
scopes_at-Holding m (ps ∷ v) h =
    (all_at-All m ps (ground arith), scopes_at-Holding m v (ground arith))

All-all_at : (m : Bool) (ps : List Condition) → All (λ p. p m ≡ true) ps → all_at m ps ≡ true
All-all_at m [] h = refl
All-all_at m (p ∷ ps) (h, h') = ground (arith, All-all_at m ps h')

Holding-scopes_at :
    (m : Bool) (v : List (List Condition)) → AllScopes (λ p. p m ≡ true) v → scopes_at m v ≡ true
Holding-scopes_at m [] h = refl
Holding-scopes_at m (ps ∷ v) (h, h') = ground (arith, All-all_at m ps h, Holding-scopes_at m v h')

pub found-Holding :
    (v : List (List Condition))
    → (if scopes_at false v then true else scopes_at true v) ≡ true
    → AllScopes (λ p. p (if scopes_at false v then false else true) ≡ true) v
found-Holding v h = elim (Bool-cases (scopes_at false v)) [
  | inl e ↦ rw e (scopes_at-Holding false v e)
  | inr e ↦ rw e (scopes_at-Holding true v (ground arith))
]

pub Holding-found :
    (v : List (List Condition)) (m : Bool)
    → AllScopes (λ p. p m ≡ true) v
    → (if scopes_at false v then true else scopes_at true v) ≡ true
Holding-found v false h = let e = Holding-scopes_at false v h in ground arith
Holding-found v true h = let e = Holding-scopes_at true v h in ground arith

pub and_true : (x y : Bool) → x && (y && true) ≡ x && y
and_true x y = ground arith

-- All of the terms are supported.
abbrev pub two_ways-IsSolver : IsSolver two_ways
two_ways-IsSolver = record {
  Model = Bool;
  some_model = false;
  value = λ m t. t m;
  truth = λ m p. p m;
  Supported = λ t. Unit {0};
  SupportedBool = λ p. Unit {0};
  Choice = Unit {0};
  plus = λ i j. i + (j + 0);
  Reaches = λ s v. s.scopes ≡ v;
  bool_supported = λ c. tt;
  bool_truth = λ m c. refl;
  and_supported = λ p q g h. tt;
  and_truth = λ m p q. and_true (p m) (q m);
  int_supported = λ n. tt;
  int_value = λ m n. refl;
  add_supported = λ s t g h. tt;
  add_value = λ m s t g h. refl;
  compare_supported = λ s t g h. (tt, tt, tt, tt, tt);
  compare_truth = λ m s t. (refl, refl, refl, refl, refl);
  not_supported = λ ch p g. tt;
  not_truth = λ m p. refl;
  ite_supported = λ ch p s t g h h'. tt;
  ite_value = λ m p s t. refl;
  new_reaches = refl;
  reset_reaches = λ s. refl;
  push_reaches = λ s v r. ap (λ w. [] ∷ w) r;
  assert_reaches = λ p s ps v r. ap (assert_in p) r;
  pop_reaches = λ n s v r. ap (drop n) r;
  check_reaches = λ s v r. r;
  check_sound = λ s v r g h. (
    (if scopes_at false s.scopes then false else true),
    subst (AllScopes (λ p. p (if scopes_at false s.scopes then false else true) ≡ true)) r
        (found-Holding s.scopes h),
    (λ t l. refl),
  );
  check_complete =
      λ s v m r g h. Holding-found s.scopes m (subst (AllScopes (λ p. p m ≡ true)) (sym r) h);
}

-- ===== src/Branches/Merge/Union.antt =====
-- crates/causm-runtime/src/vm/branching.rs: the fields of a union of two topologies.
use causm.Prelude.{
  ◌≡◌, refl, ap, subst, ◌∙◌, Bool, true, false, Option, some, none, String, str_eq, eq_iff,
  if◌then◌else◌, arith,
}
use causm.Value.{EntropicState, Fields, empty_map, entry, get}
use causm.Value.Maps.{get-insert}
use causm.Branches.Merge.{
  ResolutionStrategy, KeyRules, rule_for, Resolved, merge_field, merge_fields,
  resolve_entropic_conflict,
}

-- no key twice, as in every `HashMap`
abbrev pub Distinct : Fields → Type 0
Distinct empty_map = Unit {0}
Distinct (entry k s fs) = (get k fs ≡ none) × Distinct fs

-- the field of the union, of what comes in and what is there
abbrev pub united :
    (EntropicState → EntropicState → EntropicState)
    → Option EntropicState
    → Option EntropicState
    → Option EntropicState
united f none there = there
united f (some s) none = some s
united f (some s) (some e) = some (f s e)

module _ (same : EntropicState → EntropicState → Bool) where
  get-merge_field :
      (j k : String) (s : EntropicState) (f : EntropicState → Resolved) (o : Option EntropicState)
      (fs : Fields)
      → get k (merge_field same j s f o fs).0
        ≡ (if str_eq j k then united (λ s' e. (f e).0) (some s) o else get k fs)
  get-merge_field j k s f none fs = get-insert j k s fs
  get-merge_field j k s f (some e) fs = get-insert j k (f e).0 fs

  -- The loop over the fields of a union gives each name what the two sides say of it: the field of
  -- the side that has it, and where both have it the resolution by the rule of the name or the
  -- default.
  pub get-merge_fields :
      (fs there : Fields) (rs : KeyRules) (d : ResolutionStrategy) (b k : String)
      → Distinct fs
      → get k (merge_fields same fs there rs d b).0
        ≡ united
            (λ s e. (resolve_entropic_conflict same s e (rule_for k rs d) b).0)
            (get k fs)
            (get k there)
  unfolding merge_fields get
  get-merge_fields empty_map there rs d b k p = refl
  get-merge_fields (entry j s fs) there rs d b k (fresh, p) =
      get-merge_fields fs there' rs d b k p ∙ step
    where
      resolve : String → EntropicState → EntropicState → EntropicState
      resolve k s e = (resolve_entropic_conflict same s e (rule_for k rs d) b).0

      there' : Fields
      there' =
          (merge_field same j s (λ e. resolve_entropic_conflict same s e (rule_for j rs d) b)
            (get j there) there).0

      got :
          get k there'
          ≡ (if str_eq j k then united (resolve j) (some s) (get j there) else get k there)
      got =
          get-merge_field j k s (λ e. resolve_entropic_conflict same s e (rule_for j rs d) b)
            (get j there) there

      step :
          united (resolve k) (get k fs) (get k there')
          ≡ united (resolve k) (if str_eq j k then some s else get k fs) (get k there)
      step = go (str_eq j k) refl got
        where
          same_name : str_eq j k ≡ true → j ≡ k
          same_name e = ground (arith, eq_iff j k)

          go :
              (c : Bool)
              → str_eq j k ≡ c
              → get k there'
                ≡ (if c then united (resolve j) (some s) (get j there) else get k there)
              → united (resolve k) (get k fs) (get k there')
                ≡ united (resolve k) (if c then some s else get k fs) (get k there)
          go true e g =
              ap (λ o. united (resolve k) o (get k there'))
                (subst (λ z. get z fs ≡ none) (same_name e) fresh)
              ∙ g
              ∙ ap (λ z. united (resolve z) (some s) (get z there)) (same_name e)
          go false e g = ap (λ o. united (resolve k) (get k fs) o) g

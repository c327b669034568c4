-- ===== src/Value/Decay.antt =====
-- crates/causm-core/src/value.rs: `EntropicState::decay_recursive`.
use mathlib.Core.Option
use causm.Prelude.{◌≡◌, refl, ap, ap₂, Option, none, String, arith}
use causm.Value.{
  EntropicState, valid, leased, decayed, pending, consumed, struct, topology, integer, Fields,
  empty_map, entry, decay_recursive, decay_fields, get,
}

-- no valid value at any depth: what is left is decayed, pending or consumed, under leases or not
abbrev mutual
  pub IsInert : EntropicState → Type 0
  IsInert (valid p) = ⊥
  IsInert (leased s e) = IsInert s
  IsInert (decayed fs) = AllInert fs
  IsInert (pending p) = Unit {0}
  IsInert consumed = Unit {0}

  pub AllInert : Fields → Type 0
  AllInert empty_map = Unit {0}
  AllInert (entry k s fs) = IsInert s × AllInert fs

mutual
  unfolding decay_recursive

  inert : (s : EntropicState) → IsInert (decay_recursive s)
  inert (valid (struct fs)) = all_inert fs
  inert (valid (topology fs)) = all_inert fs
  inert (valid (integer _)) = tt
  inert (valid _) = tt
  inert (leased s e) = inert s
  inert (decayed fs) = all_inert fs
  inert (pending p) = tt
  inert consumed = tt

  all_inert : (fs : Fields) → AllInert (decay_fields fs)
  all_inert empty_map = tt
  all_inert (entry k s fs) = (inert s, all_inert fs)

mutual
  unfolding decay_recursive

  idem : (s : EntropicState) → decay_recursive (decay_recursive s) ≡ decay_recursive s
  idem (valid (struct fs)) = ap decayed (idem_fields fs)
  idem (valid (topology fs)) = ap decayed (idem_fields fs)
  idem (valid (integer _)) = refl
  idem (valid _) = refl
  idem (leased s e) = ap (λ t. leased t e) (idem s)
  idem (decayed fs) = ap decayed (idem_fields fs)
  idem (pending p) = refl
  idem consumed = refl

  idem_fields : (fs : Fields) → decay_fields (decay_fields fs) ≡ decay_fields fs
  idem_fields empty_map = refl
  idem_fields (entry k s fs) = ap₂ (entry k) (idem s) (idem_fields fs)

get-decay_fields :
    (k : String) (fs : Fields) → get k (decay_fields fs) ≡ Option.map decay_recursive (get k fs)
unfolding get decay_recursive
get-decay_fields k empty_map = refl
get-decay_fields k (entry j t fs) = ground (arith, get-decay_fields k fs)

-- the field of a compound, decayed or not, under leases or not
abbrev pub field : String → EntropicState → Option EntropicState
field k (valid (struct fs)) = get k fs
field k (valid (topology fs)) = get k fs
field k (valid _) = none
field k (leased s e) = field k s
field k (decayed fs) = get k fs
field k (pending p) = none
field k consumed = none

field-decay_recursive :
    (k : String) (s : EntropicState)
    → field k (decay_recursive s) ≡ Option.map decay_recursive (field k s)
unfolding decay_recursive get
field-decay_recursive k (valid (struct fs)) = get-decay_fields k fs
field-decay_recursive k (valid (topology fs)) = get-decay_fields k fs
field-decay_recursive k (valid (integer _)) = refl
field-decay_recursive k (valid _) = refl
field-decay_recursive k (leased s e) = field-decay_recursive k s
field-decay_recursive k (decayed fs) = get-decay_fields k fs
field-decay_recursive k (pending p) = refl
field-decay_recursive k consumed = refl

-- A recursive decay leaves no valid value at any depth, a second decay changes nothing, and each
-- field of a struct, a topology or a decayed compound, under leases or not, is there afterwards
-- exactly where it was before and holds the decay of what it held.
pub decay_recursive_complete :
    (s : EntropicState)
    → IsInert (decay_recursive s)
      × (decay_recursive (decay_recursive s) ≡ decay_recursive s)
      × ((k : String) → field k (decay_recursive s) ≡ Option.map decay_recursive (field k s))
decay_recursive_complete s = (inert s, idem s, λ k. field-decay_recursive k s)

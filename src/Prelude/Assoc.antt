-- ===== src/Prelude/Assoc.antt =====
-- A `HashMap` with text keys as an association list: the first entry of a key counts.
use mathlib.Core.Path.{◌≡◌, refl}
use mathlib.Core.List.{List, [], ◌∷◌}
use mathlib.Core.Option.{Option, none, some}
use Prim.Native.String.{String}
use text.Mathlib.Text.{◌==◌ as str_eq}
use text.Mathlib.TextEquality.{eq_iff}
use native.Mathlib.Omega.{arith}
use causm.Prelude.Tests.{if◌then◌else◌}

-- `get` and `insert` of a map
module _ {ℓ} {V : Type ℓ} where
  unfoldable pub lookup : String → List (String × V) → Option V
  lookup key [] = none
  lookup key (entry ∷ rest) = if str_eq entry.0 key then some entry.1 else lookup key rest

  unfoldable pub insert : String → V → List (String × V) → List (String × V)
  insert key value [] = (key, value) ∷ []
  insert key value (entry ∷ rest) =
      if str_eq entry.0 key then (entry.0, value) ∷ rest else entry ∷ insert key value rest

  -- A written key reads back, and every other key reads as before.
  pub lookup-insert :
      (key other : String) (value : V) (entries : List (String × V))
      → lookup other (insert key value entries)
        ≡ (if str_eq key other then some value else lookup other entries)
  unfolding lookup insert
  lookup-insert key other value [] = refl
  lookup-insert key other value (entry ∷ rest) = ground (
    arith,
    eq_iff entry.0 key,
    eq_iff entry.0 other,
    eq_iff key other,
    lookup-insert key other value rest,
  )

-- ===== src/Entanglement/Tests.antt =====
-- A search over three sets, and the theorem on it.
use causm.Prelude.{◌≡◌, refl, List, [], ◌∷◌, some}
use causm.Entanglement.{Register, contains, entangled_with}
use causm.Entanglement.Closure.{Closes, entangled_with-Closes}

-- The second set links the first to the third register of "left".
abbrev sets : List (List Register)
sets =
    (("main", 3) ∷ ("right", 3) ∷ [])
    ∷ (("left", 1) ∷ ("right", 3) ∷ [])
    ∷ (("main", 8) ∷ ("left", 8) ∷ [])
    ∷ []

entangled_with_runs :
    entangled_with sets ("left", 1) ≡ some (("left", 1) ∷ ("right", 3) ∷ ("main", 3) ∷ [])
unfolding entangled_with contains
entangled_with_runs = refl

entangled_with-Closes_example : Closes sets (("left", 1) ∷ []) (entangled_with sets ("left", 1))
entangled_with-Closes_example = entangled_with-Closes sets ("left", 1)

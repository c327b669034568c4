-- ===== src/Entanglement.antt =====
-- crates/causm-runtime/src/vm/entropy.rs: `consume_reg`, the search for all registers that are
-- entangled with one. A register is the name of its branch with its number; a `HashSet` of them is
-- a list, of which only the members count. The destructor calls of `trigger_auto_drop` are foreign
-- code.
pub mod Search
pub mod Closure
mod Tests
use causm.Prelude.{
  ℕ, zero, suc, Bool, true, false, ◌&&◌, ◌||◌, Option, some, none, String, str_eq, List, [], ◌∷◌,
  ◌++◌, length, if◌then◌else◌, ◌==◌,
}

abbrev pub Register : Type 0
Register = String × ℕ

abbrev pub same : Register → Register → Bool
same x y = str_eq x.0 y.0 && x.1 == y.1

-- `contains`
unfoldable pub contains : List Register → Register → Bool
contains [] y = false
contains (x ∷ xs) y = same x y || contains xs y

-- `if !to_consume.contains(entangled) { push; entangled_found = true }`; the pair is `to_consume`
-- with `entangled_found`.
unfoldable pub offer : Register → List Register × Bool → List Register × Bool
offer x (acc, found) = if contains acc x then (acc, found) else (acc ++ x ∷ [], true)

-- `for entangled in set`
unfoldable pub offer_all : List Register → List Register × Bool → List Register × Bool
unfolding offer
offer_all [] r = r
offer_all (x ∷ xs) r = offer_all xs (offer x r)

-- `current_to_consume.iter().any(|item| set.contains(item))`
unfoldable pub touches : List Register → List Register → Bool
touches [] set = false
touches (x ∷ xs) set = contains set x || touches xs set

unfoldable pub visit : List Register → List Register → List Register × Bool → List Register × Bool
unfolding touches offer_all
visit current set r = if touches current set then offer_all set r else r

-- `for set in &self.entanglements`
unfoldable pub round :
    List Register → List (List Register) → List Register × Bool → List Register × Bool
unfolding visit
round current [] r = r
round current (set ∷ sets) r = round current sets (visit current set r)

-- `while entangled_found`; `none` when the fuel is used up
unfoldable pub search : ℕ → List (List Register) → List Register → Option (List Register)
unfolding round
search zero entanglements to_consume = none
search (suc n) entanglements to_consume =
    let (acc, found) = round to_consume entanglements (to_consume, false) in
    let rest = search n entanglements acc in if found then rest else some acc

-- the members of all sets
abbrev pub members : List (List Register) → List Register
members [] = []
members (set ∷ sets) = set ++ members sets

-- the registers that `consume_reg` consumes
unfoldable pub entangled_with : List (List Register) → Register → Option (List Register)
unfolding search
entangled_with entanglements x =
    search (suc (length (members entanglements))) entanglements (x ∷ [])

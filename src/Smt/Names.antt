-- ===== src/Smt/Names.antt =====
-- Sets of names, as the solver keeps them in a `HashSet` or in a vector without duplicates.
use causm.Prelude.{
  ◌≡◌, refl, Bool, true, false, ◌||◌, inl, inr, Bool-cases, String, str_eq, eq_iff, List, [], ◌∷◌,
  ◌++◌, if◌then◌else◌, arith,
}

abbrev pub member : List String → String → Bool
member [] x = false
member (y ∷ ys) x = str_eq y x || member ys x

abbrev pub In : String → List String → Type 0
In x xs = member xs x ≡ true

pub member-append :
    (xs ys : List String) (x : String) → member (xs ++ ys) x ≡ member xs x || member ys x
member-append [] ys x = refl
member-append (y ∷ xs) ys x = ground (arith, member-append xs ys x)

-- every one of the first names is one of the second
abbrev pub Within : List String → List String → Type 0
Within xs ys = (x : String) → In x xs → In x ys

pub Within-append : (xs ys zs : List String) → Within (xs ++ ys) zs → Within xs zs × Within ys zs
Within-append xs ys zs w = (
  λ x i. w x (ground (arith, member-append xs ys x)),
  λ x i. w x (ground (arith, member-append xs ys x)),
)

pub In-head : (x : String) (xs : List String) → In x (x ∷ xs)
In-head x xs = ground (arith, eq_iff x x)

-- `insert` of a set, and `push` behind `!out.contains(..)`
abbrev pub include : String → List String → List String
include x xs = if member xs x then xs else xs ++ x ∷ []

abbrev pub include_all : List String → List String → List String
include_all [] xs = xs
include_all (y ∷ ys) xs = include_all ys (include y xs)

pub member-include :
    (x : String) (xs : List String) (y : String)
    → member (include x xs) y ≡ str_eq x y || member xs y
member-include x xs y = elim (Bool-cases (member xs x)) [
  | inl e ↦ ground (arith, eq_iff x y)
  | inr e ↦ ground (arith, member-append xs (x ∷ []) y)
]

pub member-include_all :
    (ys xs : List String) (z : String) → member (include_all ys xs) z ≡ member ys z || member xs z
member-include_all [] xs z = refl
member-include_all (y ∷ ys) xs z =
    ground (arith, member-include_all ys (include y xs) z, member-include y xs z)

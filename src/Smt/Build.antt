-- ===== src/Smt/Build.antt =====
-- crates/causm-smt/src/oxiz/ast.rs and backend.rs: the constructors that simplify.
pub mod Sound
use causm.Prelude.{ℕ, Bool, true, false, Option, some, none, if◌then◌else◌, ltb, saturating_add}
use causm.Prelude.{not as bool_not}
use causm.Smt.Ast.{
  BoolExpr, lit, var, implies, int_cmp, IntExpr, int_lit, int_var, int_add, int_ite, Bools,
  no_bools, bool, Ints, no_ints, int, append, snoc, snoc_int, same, same_int,
}

unfoldable pub not : BoolExpr → BoolExpr
not (lit b) = lit (bool_not b)
not (BoolExpr.not inner) = inner
not other = BoolExpr.not other

-- the loop of `and`, onto `simplified`; `none` is its early return
unfoldable pub gather_and : Bools → Bools → Option Bools
gather_and no_bools simplified = some simplified
gather_and (bool (lit true) args) simplified = gather_and args simplified
gather_and (bool (lit false) args) simplified = none
gather_and (bool (BoolExpr.and sub) args) simplified = gather_and args (append simplified sub)
gather_and (bool other args) simplified = gather_and args (snoc simplified other)

abbrev pub finish_and : Bools → BoolExpr
finish_and no_bools = lit true
finish_and (bool a no_bools) = a
finish_and (bool a (bool b rest)) = BoolExpr.and (bool a (bool b rest))

unfoldable pub and : Bools → BoolExpr
unfolding gather_and
and args = elim (gather_and args no_bools) [
  | none ↦ lit false
  | some simplified ↦ finish_and simplified
]

unfoldable pub gather_or : Bools → Bools → Option Bools
gather_or no_bools simplified = some simplified
gather_or (bool (lit false) args) simplified = gather_or args simplified
gather_or (bool (lit true) args) simplified = none
gather_or (bool (BoolExpr.or sub) args) simplified = gather_or args (append simplified sub)
gather_or (bool other args) simplified = gather_or args (snoc simplified other)

abbrev pub finish_or : Bools → BoolExpr
finish_or no_bools = lit false
finish_or (bool a no_bools) = a
finish_or (bool a (bool b rest)) = BoolExpr.or (bool a (bool b rest))

unfoldable pub or : Bools → BoolExpr
unfolding gather_or
or args = elim (gather_or args no_bools) [
  | none ↦ lit true
  | some simplified ↦ finish_or simplified
]

unfoldable pub ite : BoolExpr → BoolExpr → BoolExpr → BoolExpr
unfolding same
ite (lit true) t e = t
ite (lit false) t e = e
ite c t e = if same t e then t else BoolExpr.ite c t e

-- `implies`; the first arm that fits counts
unfoldable pub implies_to : BoolExpr → BoolExpr → BoolExpr
implies_to (lit false) b = lit true
implies_to (lit true) b = b
implies_to a (lit true) = lit true
implies_to a b = implies a b

unfoldable pub eq : BoolExpr → BoolExpr → BoolExpr
unfolding same
eq a b = if same a b then lit true else BoolExpr.eq a b

-- the inner loop of `IntExpr::add`: literals go to the constant, the rest to `simplified`
unfoldable pub gather_sub : Ints → ℕ → Ints → ℕ × Ints
gather_sub no_ints const_sum simplified = (const_sum, simplified)
gather_sub (int (int_lit v) args) const_sum simplified =
    gather_sub args (saturating_add const_sum v) simplified
gather_sub (int other args) const_sum simplified =
    gather_sub args const_sum (snoc_int simplified other)

unfoldable pub gather_add : Ints → ℕ × Ints → ℕ × Ints
unfolding gather_sub
gather_add no_ints r = r
gather_add (int (int_lit v) args) (const_sum, simplified) =
    gather_add args (saturating_add const_sum v, simplified)
gather_add (int (int_add sub) args) (const_sum, simplified) =
    gather_add args (gather_sub sub const_sum simplified)
gather_add (int other args) (const_sum, simplified) =
    gather_add args (const_sum, snoc_int simplified other)

abbrev pub finish_add : Ints → IntExpr
finish_add no_ints = int_lit 0
finish_add (int a no_ints) = a
finish_add (int a (int b rest)) = int_add (int a (int b rest))

unfoldable pub add : Ints → IntExpr
unfolding gather_add
add args =
    let (const_sum, simplified) = gather_add args (0, no_ints) in
    finish_add (if ltb 0 const_sum then snoc_int simplified (int_lit const_sum) else simplified)

unfoldable pub choose : BoolExpr → IntExpr → IntExpr → IntExpr
unfolding same_int
choose (lit true) t e = t
choose (lit false) t e = e
choose c t e = if same_int t e then t else int_ite c t e

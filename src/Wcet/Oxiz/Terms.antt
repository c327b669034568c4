-- ===== src/Wcet/Oxiz/Terms.antt =====
-- crates/causm-smt/src/oxiz/backend.rs: the integer literals and the conditions
-- on them that `OxiZBackend` builds.
use causm.Prelude.{
  ℕ, ◌≡◌, refl, ◌∙◌, inl, inr, Bool, true, false, Bool-cases, Option, some, none, String,
  if◌then◌else◌, ltb, saturating_add, arith,
}
use causm.Smt.Ast.{
  IntCmpOp, BoolExpr, lit, and, int_cmp, IntExpr, int_lit, Bools, no_bools, bool, append, no_ints,
  int,
}
use causm.Smt.Ast.Meaning.{holds, value}
use causm.Smt.Build
use causm.Smt.Solver.Ground.{IsGround, AreGround}

abbrev pub IsLiteral : IntExpr → Type 0
IsLiteral (int_lit n) = Unit {0}
IsLiteral _ = true ≡ false

abbrev pub Unknowns : Type 0
Unknowns = (String → Bool) × (String → ℕ)

pub compare-IsGround :
    (op : IntCmpOp) (s t : IntExpr) → IsLiteral s → IsLiteral t → IsGround (int_cmp op s t)
unfolding IsGround
compare-IsGround op (int_lit i) (int_lit j) h h' = tt
compare-IsGround op (int_lit i) _ h h' = cc
compare-IsGround op _ t h h' = cc

abbrev summed : Bool → ℕ → IntExpr
summed c n = Build.finish_add (if c then int (int_lit n) no_ints else no_ints)

summed-IsLiteral : (c : Bool) (n : ℕ) → IsLiteral (summed c n)
summed-IsLiteral true n = tt
summed-IsLiteral false n = tt

value-summed : (m : Unknowns) (n : ℕ) → value m.0 m.1 (summed (ltb 0 n) n) ≡ n
unfolding holds
value-summed m n = elim (Bool-cases (ltb 0 n)) [ inl h ↦ rw h refl | inr h ↦ rw h (ground arith) ]

pub add-IsLiteral :
    (s t : IntExpr) → IsLiteral s → IsLiteral t → IsLiteral (Build.add (int s (int t no_ints)))
unfolding Build.add
add-IsLiteral (int_lit i) (int_lit j) h h' =
    let n = saturating_add (saturating_add 0 i) j in summed-IsLiteral (ltb 0 n) n
add-IsLiteral (int_lit i) _ h h' = cc
add-IsLiteral _ t h h' = cc

pub value-add :
    (m : Unknowns) (s t : IntExpr)
    → IsLiteral s
    → IsLiteral t
    → value m.0 m.1 (Build.add (int s (int t no_ints)))
      ≡ saturating_add (value m.0 m.1 s) (value m.0 m.1 t)
unfolding Build.add holds
value-add m (int_lit i) (int_lit j) h h' =
    let e : saturating_add (saturating_add 0 i) j ≡ saturating_add i j = ground arith in
    value-summed m (saturating_add (saturating_add 0 i) j) ∙ e
value-add m (int_lit i) _ h h' = cc
value-add m _ t h h' = cc

append-AreGround : (as' bs : Bools) → AreGround as' → AreGround bs → AreGround (append as' bs)
unfolding IsGround
append-AreGround no_bools bs g h = h
append-AreGround (bool a as') bs (g, g') h = (g, append-AreGround as' bs g' h)

finish_and-IsGround : (as' : Bools) → AreGround as' → IsGround (Build.finish_and as')
unfolding IsGround
finish_and-IsGround no_bools g = tt
finish_and-IsGround (bool a no_bools) (g, h) = g
finish_and-IsGround (bool a (bool b rest)) g = g

abbrev FromGathered : Option Bools → Type 0
FromGathered none = Unit {0}
FromGathered (some as') = AreGround as'

gather_and-Ground :
    (args simplified : Bools)
    → AreGround args
    → AreGround simplified
    → FromGathered (Build.gather_and args simplified)
unfolding Build.gather_and IsGround
gather_and-Ground no_bools simplified g h = h
gather_and-Ground (bool (lit true) args) simplified (g, g') h =
    gather_and-Ground args simplified g' h
gather_and-Ground (bool (lit false) args) simplified (g, g') h = tt
gather_and-Ground (bool (and sub) args) simplified (g, g') h =
    gather_and-Ground args (append simplified sub) g' (append-AreGround simplified sub h g)
gather_and-Ground (bool (int_cmp op i j) args) simplified (g, g') h =
    gather_and-Ground args (append simplified (bool (int_cmp op i j) no_bools)) g'
      (append-AreGround simplified (bool (int_cmp op i j) no_bools) h (g, tt))
gather_and-Ground (bool _ args) simplified (g, g') h = cc

pub and-IsGround : (args : Bools) → AreGround args → IsGround (Build.and args)
unfolding Build.and IsGround
and-IsGround args g = go (Build.gather_and args no_bools) (gather_and-Ground args no_bools g tt)
  where
    go :
        (o : Option Bools)
        → FromGathered o
        → IsGround (elim o as (λ _. BoolExpr) [
          | none ↦ lit false
          | some simplified ↦ Build.finish_and simplified
        ])
    go none h = tt
    go (some as') h = finish_and-IsGround as' h

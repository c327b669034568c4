-- ===== src/Smt/Ast.antt =====
-- crates/causm-smt/src/oxiz/ast.rs: formulas and integer terms. `Arc` is sharing only.
pub mod Meaning
use causm.Prelude.{ℕ, Bool, true, false, ◌&&◌, String, str_eq, ◌==◌}

pub data IntCmpOp : Type 0 where
  lt le gt ge eq : IntCmpOp

mutual
  pub data BoolExpr : Type 0 where
    lit : Bool → BoolExpr
    var : String → BoolExpr
    not : BoolExpr → BoolExpr
    and or : Bools → BoolExpr
    ite : BoolExpr → BoolExpr → BoolExpr → BoolExpr
    eq implies : BoolExpr → BoolExpr → BoolExpr
    int_cmp : IntCmpOp → IntExpr → IntExpr → BoolExpr

  pub data IntExpr : Type 0 where
    int_lit : ℕ → IntExpr
    int_var : String → IntExpr
    int_add : Ints → IntExpr
    int_ite : BoolExpr → IntExpr → IntExpr → IntExpr

  -- `Vec<BoolExpr>` and `Vec<IntExpr>`
  pub data Bools : Type 0 where
    no_bools : Bools
    bool : BoolExpr → Bools → Bools

  pub data Ints : Type 0 where
    no_ints : Ints
    int : IntExpr → Ints → Ints

-- `extend` and `push`
abbrev pub append : Bools → Bools → Bools
append no_bools bs = bs
append (bool a as') bs = bool a (append as' bs)

abbrev pub snoc : Bools → BoolExpr → Bools
snoc as' b = append as' (bool b no_bools)

abbrev pub append_ints : Ints → Ints → Ints
append_ints no_ints bs = bs
append_ints (int a as') bs = int a (append_ints as' bs)

abbrev pub snoc_int : Ints → IntExpr → Ints
snoc_int as' b = append_ints as' (int b no_ints)

-- the derived `PartialEq`
unfoldable pub same_op : IntCmpOp → IntCmpOp → Bool
same_op lt lt = true
same_op le le = true
same_op gt gt = true
same_op ge ge = true
same_op IntCmpOp.eq IntCmpOp.eq = true
same_op _ _ = false

unfoldable mutual
  unfolding same_op

  pub same : BoolExpr → BoolExpr → Bool
  same (lit true) (lit true) = true
  same (lit false) (lit false) = true
  same (var x) (var y) = str_eq x y
  same (not a) (not b) = same a b
  same (and as') (and bs) = same_all as' bs
  same (or as') (or bs) = same_all as' bs
  same (ite c t e) (ite c' t' e') = same c c' && same t t' && same e e'
  same (BoolExpr.eq a b) (BoolExpr.eq a' b') = same a a' && same b b'
  same (implies a b) (implies a' b') = same a a' && same b b'
  same (int_cmp o a b) (int_cmp o' a' b') = same_op o o' && same_int a a' && same_int b b'
  same _ _ = false

  pub same_int : IntExpr → IntExpr → Bool
  same_int (int_lit m) (int_lit n) = m == n
  same_int (int_var x) (int_var y) = str_eq x y
  same_int (int_add as') (int_add bs) = same_ints as' bs
  same_int (int_ite c t e) (int_ite c' t' e') = same c c' && same_int t t' && same_int e e'
  same_int _ _ = false

  pub same_all : Bools → Bools → Bool
  same_all no_bools no_bools = true
  same_all (bool a as') (bool b bs) = same a b && same_all as' bs
  same_all _ _ = false

  pub same_ints : Ints → Ints → Bool
  same_ints no_ints no_ints = true
  same_ints (int a as') (int b bs) = same_int a b && same_ints as' bs
  same_ints _ _ = false

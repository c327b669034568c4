-- ===== src/Wcet/Max.antt =====
-- crates/causm-wcet/src/wcet.rs: `find_max_value`, the binary search for the largest value of a term.
pub mod Search
pub mod Largest
use causm.Prelude.{
  ℕ, zero, suc, ◌+◌, ◌-◌, ◌*◌, ◌/◌, ◌%◌, ◌^◌, Bool, true, false, Option, some, none, ltb, leb,
  if◌then◌else◌, add64, sub64,
}
use causm.Wcet.Backend.{SolverBackend}

-- what one round of the binary search makes of `low`, `high` and `max_val`
unfoldable pub narrow : Bool → Option ℕ → ℕ → ℕ × ℕ × ℕ → ℕ × ℕ × ℕ
narrow true (some v) mid (low, high, max_val) =
    if ltb mid v then (add64 v 1, high, v) else (add64 mid 1, high, mid)
narrow true none mid (low, high, max_val) = (add64 mid 1, high, mid)
narrow false e mid (low, high, max_val) = (low, sub64 mid 1, max_val)

-- a solver in front of the search loop: `initial_val` is a value that the term takes
abbrev pub first_bounds : ℕ → ℕ × ℕ × ℕ
first_bounds initial_val = (
  initial_val,
  if ltb 100000 initial_val then (initial_val * 2) % 2 ^ 64 else 100000,
  initial_val,
)

module _ (b : SolverBackend) where
  -- `check` behind an assertion in a new scope, which stays open
  abbrev pub check_with : b.BoolTerm → b.State → Bool × b.State
  check_with p s = b.check (b.assert p (b.push s))

  -- the loop of `find_max_value`
  unfoldable pub search : ℕ → b.IntTerm → ℕ × ℕ × ℕ → b.State → Option ℕ × b.State
  unfolding narrow
  search zero val (low, high, max_val) s = if leb low high then (none, s) else (some max_val, s)
  search (suc fuel) val (low, high, max_val) s =
      let mid = low + (high - low) / 2 in
      let (yes_or_no, s') = check_with (b.int_ge val (b.int_from_u64 mid)) s in
      let rest =
        search fuel val (narrow yes_or_no (b.eval_u64 val s') mid (low, high, max_val))
          (b.pop 1 s') in
      if leb low high then rest else (some max_val, s)

  -- the fuel is 65: the interval is at most `2 ^ 63` numbers long, and each round halves it
  abbrev pub search_then_pop : b.IntTerm → ℕ × ℕ × ℕ → b.State → Option ℕ × b.State
  search_then_pop val bounds s = let (found, s') = search 65 val bounds s in (found, b.pop 1 s')

  -- the part of `find_max_value` behind the first `check`
  unfoldable pub from_initial : b.IntTerm → Option ℕ → b.State → Option ℕ × b.State
  unfolding search
  from_initial val none s = search_then_pop val (0, 100000, 0) s
  from_initial val (some initial_val) s =
      let (greater, s') = check_with (b.int_gt val (b.int_from_u64 initial_val)) s in
      if greater
      then search_then_pop val (first_bounds initial_val) (b.pop 1 s')
      else (some initial_val, b.pop 2 s')

  unfoldable pub find_max_value : b.IntTerm → b.BoolTerm → b.State → Option ℕ × b.State
  unfolding from_initial
  find_max_value val path_cond s =
      let (possible, s') = check_with path_cond s in
      if possible then from_initial val (b.eval_u64 val s') s' else (some 0, b.pop 1 s')

-- ===== src/Value/Weight.antt =====
-- crates/causm-core/src/value.rs: bounds on the weights of states and maps.
use causm.Prelude.{◌+◌, ◌≤◌, ◌≡◌, some, String, arith}
use causm.Value.{
  EntropicState, valid, leased, decayed, pending, consumed, Fields, empty_map, entry, weight,
  fields_weight, get, insert, remove,
}

-- No state is lighter than `Consumed`.
pub weight-ge : (s : EntropicState) → 8 ≤ weight s
unfolding weight
weight-ge (valid p) = omega arith
weight-ge (leased s e) = omega arith
weight-ge (decayed fs) = omega arith
weight-ge (pending p) = omega arith
weight-ge consumed = omega arith

pub fields_weight-insert_consumed :
    (k : String) (fs : Fields) → fields_weight (insert k consumed fs) ≤ fields_weight fs + 8
unfolding weight insert
fields_weight-insert_consumed k empty_map = omega arith
fields_weight-insert_consumed k (entry j t fs) =
    ground (arith, weight-ge t, fields_weight-insert_consumed k fs)

pub fields_weight-remove :
    (k : String) (fs : Fields) (s : EntropicState)
    → get k fs ≡ some s
    → fields_weight (remove k fs) + weight s ≡ fields_weight fs
unfolding weight get remove
fields_weight-remove k empty_map s h = cc
fields_weight-remove k (entry j t fs) s h = ground (arith, fields_weight-remove k fs s)

pub fields_weight-insert_le :
    (k : String) (s : EntropicState) (fs : Fields)
    → fields_weight (insert k s fs) ≤ fields_weight fs + weight s
unfolding weight insert
fields_weight-insert_le k s empty_map = omega arith
fields_weight-insert_le k s (entry j t fs) = ground (arith, fields_weight-insert_le k s fs)

-- A key that is there has its state replaced.
pub fields_weight-insert_found :
    (k : String) (s : EntropicState) (fs : Fields) (t : EntropicState)
    → get k fs ≡ some t
    → fields_weight (insert k s fs) + weight t ≡ fields_weight fs + weight s
unfolding weight insert get
fields_weight-insert_found k s empty_map t h = cc
fields_weight-insert_found k s (entry j u fs) t h =
    ground (arith, fields_weight-insert_found k s fs t)

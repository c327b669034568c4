-- ===== src/Value/Maps.antt =====
-- crates/causm-core/src/value.rs: the laws of the field maps.
use causm.Prelude.{◌≡◌, ◌≢◌, refl, some, String, str_eq, if◌then◌else◌, eq_iff, arith}
use causm.Value.{EntropicState, Fields, empty_map, entry, get, insert, remove}

pub get-insert :
    (k j : String) (s : EntropicState) (fs : Fields)
    → get j (insert k s fs) ≡ (if str_eq k j then some s else get j fs)
unfolding get insert
get-insert k j s empty_map = refl
get-insert k j s (entry i t fs) =
    ground (arith, eq_iff k j, eq_iff i k, eq_iff i j, get-insert k j s fs)

pub get-remove_ne : (k j : String) (fs : Fields) → k ≢ j → get j (remove k fs) ≡ get j fs
unfolding get remove
get-remove_ne k j empty_map ne = refl
get-remove_ne k j (entry i t fs) ne =
    ground (arith, eq_iff i k, eq_iff i j, get-remove_ne k j fs ne)

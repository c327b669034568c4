-- ===== src/Value.antt =====
-- crates/causm-core/src/value.rs: the entropic states of a value, payloads, and their weights.
-- A `HashMap<String, EntropicState>` is an association list in which the first entry of a key
-- counts; nothing modelled reads its order.
pub mod Weight
pub mod Maps
pub mod Decay
use causm.Prelude.{ℕ, ◌+◌, ℤ, Bool, true, false, Option, some, none, String, str_eq}
use causm.Prelude.{if◌then◌else◌, List}
use Prim.Native.String.{len}

pub data MemoryError : Type 0 where
  already_consumed structurally_decayed not_a_struct clone_budget_exceeded leased : MemoryError
  out_of_memory : ℕ → ℕ → MemoryError
  key_not_found : String → MemoryError

pub record PendingPromise : Type 0 where
  pub capability : String
  pub params : List (String × String)
  pub requested_at : ℕ
  pub ready_at : ℕ
  pub deadline_at : ℕ

mutual
  pub data EntropicState : Type 0 where
    valid : Payload → EntropicState
    leased : EntropicState → ℕ → EntropicState
    decayed : Fields → EntropicState
    pending : PendingPromise → EntropicState
    consumed : EntropicState

  -- A `Float` is the bit pattern of its `f64`.
  pub data Payload : Type 0 where
    integer : ℤ → Payload
    float : ℕ → Payload
    bool : Bool → Payload
    string : String → Payload
    struct : Fields → Payload
    topology : Fields → Payload
    array : Payloads → Payload
    tuple : Payloads → Payload
    range : ℤ → ℤ → Payload
    null : Payload

  pub data Fields : Type 0 where
    empty_map : Fields
    entry : String → EntropicState → Fields → Fields

  pub data Payloads : Type 0 where
    no_items : Payloads
    item : Payload → Payloads → Payloads

unfoldable pub is_readable : EntropicState → Bool
is_readable consumed = false
is_readable _ = true

unfoldable pub is_consumed : EntropicState → Bool
is_consumed consumed = true
is_consumed _ = false

unfoldable pub is_leased : EntropicState → Bool
is_leased (leased _ _) = true
is_leased _ = false

unfoldable pub can_mutate : EntropicState → Bool
can_mutate consumed = false
can_mutate (leased _ _) = false
can_mutate _ = true

-- `weight` of `EntropicState` and of `Payload`, and the sums over fields and elements.
unfoldable mutual
  pub weight : EntropicState → ℕ
  weight (valid p) = payload_weight p + 16
  weight (leased original _) = weight original + 24
  weight (decayed fields) = fields_weight fields + 32
  weight (pending _) = 64
  weight consumed = 8

  pub payload_weight : Payload → ℕ
  payload_weight (integer _) = 8
  payload_weight (float _) = 8
  payload_weight (bool _) = 1
  payload_weight (string s) = len s + 24
  payload_weight (struct fields) = fields_weight fields + 48
  payload_weight (topology fields) = fields_weight fields + 64
  payload_weight (array elems) = elems_weight elems + 24
  payload_weight (tuple elems) = elems_weight elems + 24
  payload_weight (range _ _) = 16
  payload_weight null = 8

  pub fields_weight : Fields → ℕ
  fields_weight empty_map = 0
  fields_weight (entry k s fs) = weight s + fields_weight fs

  pub elems_weight : Payloads → ℕ
  elems_weight no_items = 0
  elems_weight (item p ps) = payload_weight p + elems_weight ps

-- `decay_recursive`; a field map is walked by `values_mut`.
unfoldable mutual
  pub decay_recursive : EntropicState → EntropicState
  decay_recursive (valid (struct fields)) = decayed (decay_fields fields)
  decay_recursive (valid (topology fields)) = decayed (decay_fields fields)
  decay_recursive (valid _) = decayed empty_map
  decay_recursive (leased original expiration_ms) = leased (decay_recursive original) expiration_ms
  decay_recursive (decayed fields) = decayed (decay_fields fields)
  decay_recursive s = s

  pub decay_fields : Fields → Fields
  decay_fields empty_map = empty_map
  decay_fields (entry k s fs) = entry k (decay_recursive s) (decay_fields fs)

-- `HashMap::get`
unfoldable pub get : String → Fields → Option EntropicState
get k empty_map = none
get k (entry j s fs) = if str_eq j k then some s else get k fs

-- `HashMap::insert`
unfoldable pub insert : String → EntropicState → Fields → Fields
insert k s empty_map = entry k s empty_map
insert k s (entry j t fs) = if str_eq j k then entry j s fs else entry j t (insert k s fs)

-- `HashMap::remove`
unfoldable pub remove : String → Fields → Fields
remove k empty_map = empty_map
remove k (entry j t fs) = if str_eq j k then fs else entry j t (remove k fs)

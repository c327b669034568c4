-- ===== src/Mailbox.antt =====
-- crates/causm-concurrency/src/mailbox: `BoundedMailbox`, a queue of fixed capacity with an overflow
-- policy. The buffer is a `VecDeque`, oldest message first.
pub mod Bounds
pub mod Order
pub mod Calls
mod Tests
use causm.Prelude.{
  ℕ, zero, suc, Bool, true, false, Option, some, none, List, [], ◌∷◌, ◌++◌, length, drop,
  if◌then◌else◌, ltb, leb, ◌==◌, Result, ok, err,
}

pub data SaturationPolicy : Type 0 where
  evict_decayed ring_buffer throttle fail_fast : SaturationPolicy

pub data MailboxOverflowAction : Type 0 where
  evicted_oldest overwritten dropped_new blocked : MailboxOverflowAction

pub data MailboxError (A : Type 0) : Type 0 where
  full : A → MailboxError A
  zero_capacity : MailboxError A

pub record BoundedMailbox (A : Type 0) : Type 0 where
  pub buffer : List A
  pub capacity : ℕ
  pub policy : SaturationPolicy

-- Both evicting policies overwrite the oldest message.
unfoldable pub evicts : SaturationPolicy → Bool
evicts ring_buffer = true
evicts evict_decayed = true
evicts throttle = false
evicts fail_fast = false

-- the mailbox behind a push, and its result
abbrev pub Pushed : Type 0 → Type 0
Pushed A = BoundedMailbox A × Result (MailboxError A) (Option MailboxOverflowAction)

module _ {A : Type 0} where
  -- `none` is the failed assertion on a capacity of 0.
  unfoldable pub new : ℕ → SaturationPolicy → Option (BoundedMailbox A)
  new capacity policy =
      if capacity == 0
      then none
      else some (record { buffer = []; capacity = capacity; policy = policy })

  unfoldable pub is_full : BoundedMailbox A → Bool
  is_full m = leb m.capacity (length m.buffer)

  unfoldable pub set_policy : BoundedMailbox A → SaturationPolicy → BoundedMailbox A
  set_policy m policy = record m { policy = policy }

  -- `pop_back` of a deque
  unfoldable pub drop_last : List A → List A
  drop_last [] = []
  drop_last (x ∷ []) = []
  drop_last (x ∷ y ∷ xs) = x ∷ drop_last (y ∷ xs)

  unfoldable pub push : BoundedMailbox A → A → Pushed A
  unfolding evicts
  push m message =
      if ltb (length m.buffer) m.capacity
      then (record m { buffer = m.buffer ++ (message ∷ []) }, ok none)
      else if evicts m.policy
      then (record m { buffer = drop 1 m.buffer ++ (message ∷ []) }, ok (some evicted_oldest))
      else (m, err (full message))

  unfoldable pub try_push :
      BoundedMailbox A → A → BoundedMailbox A × Result (MailboxError A) (Unit {0})
  try_push m message =
      if leb m.capacity (length m.buffer)
      then (m, err (full message))
      else (record m { buffer = m.buffer ++ (message ∷ []) }, ok tt)

  -- the oldest message, and the buffer without it
  unfoldable pub take_front : List A → Option A × List A
  take_front [] = (none, [])
  take_front (x ∷ xs) = (some x, xs)

  -- `pop` and `pop_front`
  unfoldable pub pop : BoundedMailbox A → BoundedMailbox A × Option A
  unfolding take_front
  pop m = let (x, rest) = take_front m.buffer in (record m { buffer = rest }, x)

  unfoldable pub push_front : BoundedMailbox A → A → Pushed A
  unfolding evicts drop_last
  push_front m message =
      if ltb (length m.buffer) m.capacity
      then (record m { buffer = message ∷ m.buffer }, ok none)
      else if evicts m.policy
      then (record m { buffer = message ∷ drop_last m.buffer }, ok (some evicted_oldest))
      else (m, err (full message))

  -- what `append` does behind a refused push: its evicting arm cannot be reached by `push`
  unfoldable pub force : BoundedMailbox A → A → BoundedMailbox A
  force m item = record m { buffer = drop 1 m.buffer ++ (item ∷ []) }

  -- The loop of `append`: the list is what `other` still holds. On `break` the popped message is in
  -- neither mailbox.
  unfoldable pub append_from : BoundedMailbox A → List A → BoundedMailbox A × List A
  unfolding force
  append_from m [] = (m, [])
  append_from m (x ∷ xs) = elim (push m x).1 [
    | ok _ ↦ append_from (push m x).0 xs
    | err (full item) ↦ elim (evicts m.policy) [
      | true ↦ append_from (force (push m x).0 item) xs
      | false ↦ ((push m x).0, xs)
    ]
    | err zero_capacity ↦ ((push m x).0, xs)
  ]

  -- `append`: this mailbox and the other one behind the call
  unfoldable pub append : BoundedMailbox A → BoundedMailbox A → BoundedMailbox A × BoundedMailbox A
  unfolding append_from
  append m other =
      let (m', rest) = append_from m other.buffer in (m', record other { buffer = rest })

  -- `VecDeque::remove`: out of range nothing is removed
  unfoldable pub remove_at : List A → ℕ → Option A × List A
  remove_at [] i = (none, [])
  remove_at (x ∷ xs) zero = (some x, xs)
  remove_at (x ∷ xs) (suc i) = let (y, rest) = remove_at xs i in (y, x ∷ rest)

  unfoldable pub remove : BoundedMailbox A → ℕ → BoundedMailbox A × Option A
  unfolding remove_at
  remove m index = let (y, rest) = remove_at m.buffer index in (record m { buffer = rest }, y)

  unfoldable pub peek : BoundedMailbox A → Option A
  unfolding take_front
  peek m = (take_front m.buffer).0

  unfoldable pub clear : BoundedMailbox A → BoundedMailbox A
  clear m = record m { buffer = [] }

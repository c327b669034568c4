-- ===== src/Mailbox/Calls.antt =====
-- crates/causm-concurrency/src/mailbox/bounded.rs: a history of calls on one mailbox.
use causm.Prelude.{ℕ, ◌≡◌, some, List, [], ◌∷◌, arith}
use causm.Mailbox
use causm.Mailbox.{BoundedMailbox, SaturationPolicy}
use causm.Mailbox.Bounds.{
  IsBounded, made, push-IsBounded, try_push-IsBounded, pop-IsBounded, push_front-IsBounded,
  remove-IsBounded, append_from-IsBounded,
}

-- a call on one mailbox; `append` is given the other mailbox's messages
pub data Call (A : Type 0) : Type 0 where
  push try_push push_front : A → Call A
  pop clear : Call A
  remove : ℕ → Call A
  set_policy : SaturationPolicy → Call A
  append : List A → Call A

module _ {A : Type 0} where
  unfoldable pub behind : BoundedMailbox A → Call A → BoundedMailbox A
  behind m (Call.push x) = (Mailbox.push m x).0
  behind m (Call.try_push x) = (Mailbox.try_push m x).0
  behind m (Call.push_front x) = (Mailbox.push_front m x).0
  behind m Call.pop = (Mailbox.pop m).0
  behind m Call.clear = Mailbox.clear m
  behind m (Call.remove i) = (Mailbox.remove m i).0
  behind m (Call.set_policy p) = Mailbox.set_policy m p
  behind m (Call.append xs) = (Mailbox.append_from m xs).0

  unfoldable pub run : BoundedMailbox A → List (Call A) → BoundedMailbox A
  unfolding behind
  run m [] = m
  run m (c ∷ cs) = run (behind m c) cs

  behind-IsBounded : (m : BoundedMailbox A) (c : Call A) → IsBounded m → IsBounded (behind m c)
  unfolding behind Mailbox.clear Mailbox.set_policy
  behind-IsBounded m (Call.push x) b = push-IsBounded x b
  behind-IsBounded m (Call.try_push x) b = try_push-IsBounded x b
  behind-IsBounded m (Call.push_front x) b = push_front-IsBounded x b
  behind-IsBounded m Call.pop b = pop-IsBounded b
  behind-IsBounded m Call.clear b = omega (arith, b.positive)
  behind-IsBounded m (Call.remove i) b = remove-IsBounded i b
  behind-IsBounded m (Call.set_policy p) b = omega (arith, b.positive, b.within)
  behind-IsBounded m (Call.append xs) b = append_from-IsBounded xs m b

  run_from-IsBounded :
      (cs : List (Call A)) (m : BoundedMailbox A) → IsBounded m → IsBounded (run m cs)
  unfolding run
  run_from-IsBounded [] m b = b
  run_from-IsBounded (c ∷ cs) m b = run_from-IsBounded cs (behind m c) (behind-IsBounded m c b)

-- A mailbox that `new` makes never holds more messages than its capacity, whatever calls follow,
-- with whatever policy is set in between.
pub run-IsBounded :
    {A : Type 0} (capacity : ℕ) (policy : SaturationPolicy) (m : BoundedMailbox A)
    (cs : List (Call A))
    → Mailbox.new capacity policy ≡ some m
    → IsBounded (run m cs)
run-IsBounded capacity policy m cs h = run_from-IsBounded cs m (made capacity policy m h)

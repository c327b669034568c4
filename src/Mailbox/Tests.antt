-- ===== src/Mailbox/Tests.antt =====
-- The theorems on mailboxes at concrete mailboxes.
use causm.Prelude.{ℕ, ◌≡◌, refl, List, [], ◌∷◌, arith}
use causm.Mailbox.{BoundedMailbox, new, evicts, append, ring_buffer, throttle}
use causm.Mailbox.Bounds.{IsBounded}
use causm.Mailbox.Calls.{Call, run, run-IsBounded}
use causm.Mailbox.Order.{append_newest, append-loses_one}

abbrev empty_ring : BoundedMailbox ℕ
empty_ring = record { buffer = []; capacity = 3; policy = ring_buffer }

abbrev ring : BoundedMailbox ℕ
ring = record { buffer = 1 ∷ 2 ∷ []; capacity = 3; policy = ring_buffer }

abbrev slow : BoundedMailbox ℕ
slow = record { buffer = 1 ∷ 2 ∷ []; capacity = 3; policy = throttle }

abbrev tick : BoundedMailbox ℕ
tick = record { buffer = 3 ∷ 4 ∷ 5 ∷ []; capacity = 3; policy = ring_buffer }

abbrev calls : List (Call ℕ)
calls =
    Call.push 1
    ∷ Call.push_front 2
    ∷ Call.push 3
    ∷ Call.push 4
    ∷ Call.append (5 ∷ 6 ∷ [])
    ∷ Call.pop
    ∷ []

run-IsBounded_example : IsBounded (run empty_ring calls)
unfolding new
run-IsBounded_example = run-IsBounded 3 ring_buffer empty_ring calls refl

append_newest_example :
    ((append ring tick).0.buffer ≡ 3 ∷ 4 ∷ 5 ∷ []) × ((append ring tick).1.buffer ≡ [])
unfolding evicts
append_newest_example = append_newest ring tick (omega arith) refl

-- message 4 is gone
append-loses_one_example :
    ((append slow tick).0.buffer ≡ 1 ∷ 2 ∷ 3 ∷ []) × ((append slow tick).1.buffer ≡ 5 ∷ [])
unfolding evicts
append-loses_one_example = append-loses_one slow tick 1 refl refl

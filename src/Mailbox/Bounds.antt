-- ===== src/Mailbox/Bounds.antt =====
-- crates/causm-concurrency/src/mailbox/bounded.rs: no operation fills a mailbox beyond its capacity.
use causm.Prelude.{
  ℕ, zero, suc, ◌-◌, ◌≤◌, ◌<◌, ◌≡◌, refl, true, false, some, none, List, [], ◌∷◌, ◌++◌, length,
  drop, ltb, arith, length-append, length-drop, ok, err, Bool-cases, inl, inr, lt→ltb, le→not_ltb,
  not_ltb→le, ltb→lt,
}
use causm.Mailbox.{
  BoundedMailbox, new, SaturationPolicy, full, evicts, drop_last, push, try_push, pop, push_front,
  append_from, remove_at, remove, evicted_oldest,
}

-- The mailbox was made by `new`, and holds no more than it may.
pub record IsBounded {A : Type 0} (m : BoundedMailbox A) : Type 0 where
  pub positive : 0 < m.capacity
  pub within : length m.buffer ≤ m.capacity

module _ {A : Type 0} where
  length-drop_last : (xs : List A) → length (drop_last xs) ≡ length xs - 1
  unfolding drop_last
  length-drop_last [] = omega arith
  length-drop_last (x ∷ []) = omega arith
  length-drop_last (x ∷ y ∷ xs) = omega (arith, length-drop_last (y ∷ xs))

  length-remove_at : (xs : List A) (i : ℕ) → length (remove_at xs i).1 ≤ length xs
  unfolding remove_at
  length-remove_at [] i = omega arith
  length-remove_at (x ∷ xs) zero = omega arith
  length-remove_at (x ∷ xs) (suc i) = omega (arith, length-remove_at xs i)

  pub made :
      (capacity : ℕ) (policy : SaturationPolicy) (m : BoundedMailbox A)
      → new capacity policy ≡ some m
      → IsBounded m
  unfolding new
  made capacity policy m h = ground arith

  pub push-IsBounded : {m : BoundedMailbox A} (x : A) → IsBounded m → IsBounded (push m x).0
  unfolding push
  push-IsBounded {m} x b = ground (
    arith,
    length-append {0} m.buffer (x ∷ []),
    length-append {0} (drop 1 m.buffer) (x ∷ []),
    length-drop {0} 1 m.buffer,
  )

  pub try_push-IsBounded : {m : BoundedMailbox A} (x : A) → IsBounded m → IsBounded (try_push m x).0
  unfolding try_push
  try_push-IsBounded {m} x b = ground (arith, length-append {0} m.buffer (x ∷ []))

  pub pop-IsBounded : {m : BoundedMailbox A} → IsBounded m → IsBounded (pop m).0
  unfolding pop
  pop-IsBounded {m} b = ground arith

  pub push_front-IsBounded :
      {m : BoundedMailbox A} (x : A) → IsBounded m → IsBounded (push_front m x).0
  unfolding push_front
  push_front-IsBounded {m} x b = ground (arith, length-drop_last m.buffer)

  pub remove-IsBounded : {m : BoundedMailbox A} (i : ℕ) → IsBounded m → IsBounded (remove m i).0
  unfolding remove
  remove-IsBounded {m} i b = record {
    positive = b.positive;
    within = omega (arith, length-remove_at m.buffer i, b.within);
  }

  force-IsBounded :
      {m : BoundedMailbox A} (x : A)
      → IsBounded m
      → IsBounded (record m { buffer = drop 1 m.buffer ++ (x ∷ []) })
  force-IsBounded {m} x b = omega (
    arith,
    b.positive,
    b.within,
    length-append {0} (drop 1 m.buffer) (x ∷ []),
    length-drop {0} 1 m.buffer,
  )

-- A push: there is room, the policy evicts, or the message is refused.
module _ {A : Type 0} (m : BoundedMailbox A) (x : A) where
  pub push_room :
      length m.buffer < m.capacity
      → push m x ≡ (record m { buffer = m.buffer ++ (x ∷ []) }, ok none)
  unfolding push
  push_room h = rw (lt→ltb _ _ h) refl

  pub push-evicts :
      m.capacity ≤ length m.buffer
      → evicts m.policy ≡ true
      → push m x ≡ (record m { buffer = drop 1 m.buffer ++ (x ∷ []) }, ok (some evicted_oldest))
  unfolding push
  push-evicts h e = rw (le→not_ltb _ _ h, e) refl

  pub push_refused :
      m.capacity ≤ length m.buffer → evicts m.policy ≡ false → push m x ≡ (m, err (full x))
  unfolding push
  push_refused h e = rw (le→not_ltb _ _ h, e) refl

-- The steps of the loop of `append`.
module _ {A : Type 0} (m : BoundedMailbox A) (x : A) (xs : List A) where
  pub append_from_room :
      length m.buffer < m.capacity
      → append_from m (x ∷ xs) ≡ append_from (record m { buffer = m.buffer ++ (x ∷ []) }) xs
  unfolding append_from
  append_from_room h = let p = push_room m x h in rw (p, append_from) (rw p refl)

  pub append_from-evicts :
      m.capacity ≤ length m.buffer
      → evicts m.policy ≡ true
      → append_from m (x ∷ xs) ≡ append_from (record m { buffer = drop 1 m.buffer ++ (x ∷ []) }) xs
  unfolding append_from
  append_from-evicts h e = let p = push-evicts m x h e in rw (p, append_from) (rw p refl)

  pub append_from_breaks :
      m.capacity ≤ length m.buffer → evicts m.policy ≡ false → append_from m (x ∷ xs) ≡ (m, xs)
  unfolding append_from
  append_from_breaks h e = let p = push_refused m x h e in rw (p, append_from) (rw e (rw p refl))

module _ {A : Type 0} where
  pub append_from-IsBounded :
      (xs : List A) (m : BoundedMailbox A) → IsBounded m → IsBounded (append_from m xs).0
  unfolding append_from
  append_from-IsBounded [] m b = b
  append_from-IsBounded (x ∷ xs) m b = elim (Bool-cases (ltb (length m.buffer) m.capacity)) [
    | inl h ↦ rw (append_from_room m x xs (ltb→lt _ _ h)) (
        append_from-IsBounded xs _
          (omega (arith, length-append {0} m.buffer (x ∷ []), ltb→lt _ _ h, b.positive)))
    | inr h ↦ elim (Bool-cases (evicts m.policy)) [
      | inl e ↦
          rw (append_from-evicts m x xs (not_ltb→le _ _ h) e)
            (append_from-IsBounded xs _ (force-IsBounded x b))
      | inr e ↦ rw (append_from_breaks m x xs (not_ltb→le _ _ h) e) b
    ]
  ]

-- ===== src/Mailbox/Order.antt =====
-- crates/causm-concurrency/src/mailbox/bounded.rs: which messages `append` keeps, and in what order.
use causm.Prelude.{
  ℕ, zero, suc, ◌+◌, ◌-◌, ◌≤◌, ◌<◌, ◌≡◌, refl, ◌∙◌, ap, ap₂, sym, true, false, List, [], ◌∷◌, ◌++◌,
  length, drop, take, arith, length-append, length-drop, append_assoc, append-nil, ltb, Bool-cases,
  inl, inr, not_ltb→le, ltb→lt,
}
use causm.Mailbox.{BoundedMailbox, evicts, append_from, append}
use causm.Mailbox.Bounds.{IsBounded, append_from_room, append_from-evicts, append_from_breaks}

module _ {A : Type 0} where
  -- One more message at the end of a full buffer, and the oldest dropped: the same suffix.
  drop_shift :
      (n : ℕ) (b : List A) (x : A) (xs : List A)
      → 0 < length b
      → drop (suc n) (b ++ (x ∷ xs)) ≡ drop n ((drop 1 b ++ (x ∷ [])) ++ xs)
  drop_shift n [] x xs h = absurd (omega arith)
  drop_shift n (y ∷ b) x xs h = ap (drop n) (sym (append_assoc b (x ∷ []) xs))

  shifted :
      (x : A) (xs : List A) (m : BoundedMailbox A)
      → IsBounded m
      → m.capacity ≤ length m.buffer
      → drop
          (length (drop 1 m.buffer ++ (x ∷ [])) + length xs - m.capacity)
          ((drop 1 m.buffer ++ (x ∷ [])) ++ xs)
        ≡ drop (length m.buffer + suc (length xs) - m.capacity) (m.buffer ++ (x ∷ xs))
  shifted x xs m b h =
      ap (λ n. drop n ((drop 1 m.buffer ++ (x ∷ [])) ++ xs)) {y = length xs}
        (omega (
          arith,
          length-append {0} (drop 1 m.buffer) (x ∷ []),
          length-drop {0} 1 m.buffer,
          b.positive,
          b.within,
        ))
      ∙ sym (drop_shift (length xs) m.buffer x xs (omega (arith, b.positive)))
      ∙ ap (λ n. drop n (m.buffer ++ (x ∷ xs))) {x = suc (length xs)} (omega (arith, b.within))

  evicting :
      (xs : List A) (m : BoundedMailbox A)
      → IsBounded m
      → evicts m.policy ≡ true
      → append_from m xs ≡ (
        record m { buffer = drop (length m.buffer + length xs - m.capacity) (m.buffer ++ xs) },
        [],
      )
  unfolding append_from
  evicting [] m b e =
      let none_dropped : length m.buffer + 0 - m.capacity ≡ 0 = omega (arith, b.within) in
      rw (none_dropped, append-nil) refl
  evicting (x ∷ xs) m b e = elim (Bool-cases (ltb (length m.buffer) m.capacity)) [
    | inl h ↦ rw (append_from_room m x xs (ltb→lt _ _ h)) (
        evicting xs (record m { buffer = m.buffer ++ (x ∷ []) })
          (omega (arith, length-append {0} m.buffer (x ∷ []), ltb→lt _ _ h, b.positive)) e
        ∙ ap (λ buf. (record m { buffer = buf }, []))
            (ap₂ drop (omega (arith, length-append {0} m.buffer (x ∷ [])))
              (append_assoc m.buffer (x ∷ []) xs)))
    | inr h ↦ rw (append_from-evicts m x xs (not_ltb→le _ _ h) e) (
        evicting xs (record m { buffer = drop 1 m.buffer ++ (x ∷ []) })
          (omega (
            arith,
            length-append {0} (drop 1 m.buffer) (x ∷ []),
            length-drop {0} 1 m.buffer,
            b.positive,
            b.within,
          ))
          e
        ∙ ap (λ buf. (record m { buffer = buf }, [])) (shifted x xs m b (not_ltb→le _ _ h)))
  ]

  refusing :
      (xs : List A) (m : BoundedMailbox A) (free : ℕ)
      → evicts m.policy ≡ false
      → length m.buffer + free ≡ m.capacity
      → append_from m xs ≡ (record m { buffer = m.buffer ++ take free xs }, drop (suc free) xs)
  unfolding append_from
  refusing [] m zero e h = rw append-nil refl
  refusing [] m (suc free) e h = rw append-nil refl
  refusing (x ∷ xs) m zero e h = rw (append_from_breaks m x xs (omega arith) e) (rw append-nil refl)
  refusing (x ∷ xs) m (suc free) e h = rw (append_from_room m x xs (omega arith)) (
      refusing xs (record m { buffer = m.buffer ++ (x ∷ []) }) free e
        (omega (arith, length-append {0} m.buffer (x ∷ [])))
      ∙ ap (λ buf. (record m { buffer = buf }, drop (suc free) xs))
          (append_assoc m.buffer (x ∷ []) (take free xs)))

  -- Under an evicting policy `append` moves everything: the mailbox then holds the newest messages
  -- of both, in order, as many as its capacity allows, and the other mailbox is empty.
  pub append_newest :
      (m other : BoundedMailbox A)
      → IsBounded m
      → evicts m.policy ≡ true
      → ((append m other).0.buffer
          ≡ drop (length m.buffer + length other.buffer - m.capacity) (m.buffer ++ other.buffer))
        × ((append m other).1.buffer ≡ [])
  unfolding append
  append_newest m other b e = let q = evicting other.buffer m b e in rw q (refl, refl)

  -- Under a refusing policy `append` fills the free slots with the oldest of the other's messages
  -- and leaves the other without one message more: where the other holds more messages than there
  -- are free slots, the first that does not fit is in neither mailbox.
  pub append-loses_one :
      (m other : BoundedMailbox A) (free : ℕ)
      → evicts m.policy ≡ false
      → length m.buffer + free ≡ m.capacity
      → ((append m other).0.buffer ≡ m.buffer ++ take free other.buffer)
        × ((append m other).1.buffer ≡ drop (suc free) other.buffer)
  unfolding append
  append-loses_one m other free e h = let q = refusing other.buffer m free e h in rw q (refl, refl)

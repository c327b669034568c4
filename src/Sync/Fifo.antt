-- ===== src/Sync/Fifo.antt =====
-- crates/causm-concurrency/src/sync.rs: the channel is a bounded queue, whatever its threads do.
use causm.Prelude.{
  ℕ, ◌≤◌, ◌<◌, ◌≡◌, refl, sym, ap, subst, ◌∙◌, Bool, true, false, some, none, List, [], ◌++◌,
  length, append_assoc, if◌then◌else◌, ◌==◌, ==→eq, arith,
}
use causm.Sync.{
  BoundedChannel, new, Thread, idle, send_asleep, recv_asleep, Call, send, recv, close, Notice,
  start, wake, Threads, set, Wakes, quietly, one, nobody, everyone, gives, takes, Run, begin, calls,
  moves, wakes,
}
use causm.Sync.Knows.{Knows}
use causm.Sync.Steps.{Good, AllGood, move-AllGood}

module _ {V : Type 0} where
  wake-Knows : (j : ℕ) (t : Thread V) (c : BoundedChannel V) → Knows j t c → Knows j (wake t) c
  wake-Knows j (send_asleep v) c k = tt
  wake-Knows j recv_asleep c k = tt
  wake-Knows j t c k = k

  -- a property of each thread, behind a change of one
  pub set-each :
      (P : ℕ → Thread V → Type 0) (ts : Threads V) (i : ℕ) (t : Thread V)
      → P i t
      → ((j : ℕ) → (j == i) ≡ false → P j (ts j))
      → (j : ℕ) → P j (set ts i t j)
  set-each P ts i t p q j = go (j == i) refl
    where
      go : (b : Bool) → (j == i) ≡ b → P j (if b then t else ts j)
      go true e = subst (λ k. P k t) (sym (==→eq j i e)) p
      go false e = q j e

  Wakes-Knows :
      (n : Notice) (ts us : Threads V) (c : BoundedChannel V)
      → Wakes n ts us
      → ((j : ℕ) → Knows j (ts j) c)
      → (j : ℕ) → Knows j (us j) c
  Wakes-Knows n ts us c (quietly _) k = k
  Wakes-Knows n ts us c (one _ w a) k =
      set-each (λ j t. Knows j t c) ts w (wake (ts w)) (wake-Knows w (ts w) c (k w)) (λ j e. k j)
  Wakes-Knows n ts us c (nobody _ a) k = k
  Wakes-Knows n ts us c (everyone _) k = λ j. wake-Knows j (ts j) c (k j)

  -- what holds at every moment
  pub record Sound (n : ℕ) (c : BoundedChannel V) (ts : Threads V) (ps qs : List V) : Type 0 where
    pub same_capacity : c.capacity ≡ n
    pub bounded : length c.buffer ≤ c.capacity
    pub knows : (j : ℕ) → Knows j (ts j) c
    pub fifo : ps ≡ qs ++ c.buffer

  start-Knows : (j : ℕ) (op : Call V) (c : BoundedChannel V) → Knows j (start op) c
  start-Knows j (send v) c = tt
  start-Knows j recv c = tt
  start-Knows j close c = tt

  moved :
      (n i : ℕ) (c d : BoundedChannel V) (ts us : Threads V) (ps qs : List V) (t : Thread V)
      (notice : Notice)
      → Sound n c ts ps qs
      → Good i (ts i) t c d
      → Wakes notice (set ts i t) us
      → Sound n d us (ps ++ gives (ts i)) (qs ++ takes t)
  moved n i c d ts us ps qs t notice s g w = record {
    same_capacity = g.same_capacity ∙ s.same_capacity;
    bounded = g.bounded;
    knows =
        Wakes-Knows notice (set ts i t) us d w
          (set-each (λ j u. Knows j u d) ts i t g.knows (λ j e. g.others j (ts j) e (s.knows j)));
    fifo =
        ap (λ xs. xs ++ gives (ts i)) s.fifo
        ∙ append_assoc qs c.buffer (gives (ts i))
        ∙ ap (λ xs. qs ++ xs) g.balanced
        ∙ sym (append_assoc qs (takes t) d.buffer);
  }

  -- the channel of a successful `new`
  abbrev pub empty : ℕ → BoundedChannel V
  empty n = record { capacity = n; buffer = []; closed = false; lock = none }

  pub made : (n : ℕ) (c : BoundedChannel V) → new n ≡ some c → (empty n ≡ c) × (0 < n)
  unfolding new
  made n c = go (n == 0) refl
    where
      go :
          (b : Bool)
          → (n == 0) ≡ b
          → (if b then none else some (empty n)) ≡ some c
          → (empty n ≡ c) × (0 < n)
      go true q e = cc
      go false q e = (cc, ground arith)

  module _ (allowed : ℕ → Call V → Type 0) where
    pub Run-Sound :
        (n : ℕ) (c : BoundedChannel V) {d : BoundedChannel V} {ts : Threads V} {ps qs : List V}
        → new n ≡ some c
        → Run allowed c d ts ps qs
        → Sound n d ts ps qs
    Run-Sound n c e begin =
        subst (λ (b : BoundedChannel V). Sound n b (λ i. idle) [] []) (made n c e).0
          (record { same_capacity = refl; bounded = omega arith; knows = λ j. tt; fifo = refl })
    Run-Sound n c e (calls {d = d} {ts = ts} {ps = ps} {qs = qs} r i op a q) =
        let s : Sound n d ts ps qs = Run-Sound n c e r in
        record {
          same_capacity = s.same_capacity;
          bounded = s.bounded;
          knows =
              set-each (λ j t. Knows j t d) ts i (start op) (start-Knows i op d) (λ j n. s.knows j);
          fifo = s.fifo;
        }
    Run-Sound n c e (moves {d = d} {ts = ts} {ps = ps} {qs = qs} r i d' t notice us q w) =
        let s : Sound n d ts ps qs = Run-Sound n c e r in
        moved n i d d' ts us ps qs t notice s
          (subst (AllGood i (ts i) d) q (move-AllGood i (ts i) d s.bounded (s.knows i))) w
    Run-Sound n c e (wakes {d = d} {ts = ts} {ps = ps} {qs = qs} r w) =
        let s : Sound n d ts ps qs = Run-Sound n c e r in
        record {
          same_capacity = s.same_capacity;
          bounded = s.bounded;
          knows =
              set-each (λ j t. Knows j t d) ts w (wake (ts w)) (wake-Knows w (ts w) d (s.knows w))
                (λ j n. s.knows j);
          fifo = s.fifo;
        }

    -- At every moment of every run of any number of threads from a new channel on, whatever they
    -- call, the values that were put in are those that were taken out, in the same order, and the
    -- ones in the buffer, of which there are never more than the capacity that was asked for.
    pub channel_fifo :
        (n : ℕ) (c d : BoundedChannel V) (ts : Threads V) (ps qs : List V)
        → new n ≡ some c
        → Run allowed c d ts ps qs
        → (ps ≡ qs ++ d.buffer) × (length d.buffer ≤ n)
    channel_fifo n c d ts ps qs e r =
        let s : Sound n d ts ps qs = Run-Sound n c e r in
        (s.fifo, omega (arith, s.bounded, s.same_capacity))

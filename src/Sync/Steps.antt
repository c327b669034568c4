-- ===== src/Sync/Steps.antt =====
-- crates/causm-concurrency/src/sync.rs: what one step of one thread does to a channel.
use causm.Prelude.{
  ℕ, ◌≤◌, ◌≡◌, refl, sym, ap, subst, ◌∙◌, Bool, true, false, inl, inr, Option, some, none, List, [],
  ◌∷◌, ◌++◌, length, length-append, append-nil, if◌then◌else◌, leb, ◌==◌, arith,
}
use causm.Sync.{
  BoundedChannel, Thread, idle, sent, received, send_lock, send_full, send_closed, send_wait,
  send_asleep, send_last, send_push, recv_lock, recv_pop, recv_closed, recv_wait, recv_asleep,
  close_store, close_notify, quiet, Moved, release, acquire, pop_front, move, gives, takes,
}
use causm.Sync.Knows.{Knows, Knows-other, Knows-free, Knows-closed}

module _ {V : Type 0} where
  -- what a step of thread `i` from `c` does: it keeps the capacity and the bound, the thread knows
  -- what it has to, the others know what they did, and no value comes or goes unseen
  pub record Good (i : ℕ) (t u : Thread V) (c d : BoundedChannel V) : Type 0 where
    pub same_capacity : d.capacity ≡ c.capacity
    pub bounded : length d.buffer ≤ d.capacity
    pub knows : Knows i u d
    pub others : (j : ℕ) (o : Thread V) → (j == i) ≡ false → Knows j o c → Knows j o d
    pub balanced : c.buffer ++ gives t ≡ takes u ++ d.buffer

  abbrev pub AllGood : ℕ → Thread V → BoundedChannel V → Moved V → Type 0
  AllGood i t c none = Unit {0}
  AllGood i t c (some (d, u, n)) = Good i t u c d

  unmoved :
      (t u : Thread V) (vs : List V) → gives t ≡ [] → takes u ≡ [] → vs ++ gives t ≡ takes u ++ vs
  unmoved t u vs g e = ap (λ xs. vs ++ xs) g ∙ append-nil vs ∙ sym (ap (λ xs. xs ++ vs) e)

  -- a step that leaves the channel
  stays-Good :
      (i : ℕ) (t u : Thread V) (c : BoundedChannel V)
      → length c.buffer ≤ c.capacity
      → gives t ≡ []
      → takes u ≡ []
      → Knows i u c
      → Good i t u c c
  stays-Good i t u c b g e k = record {
    same_capacity = refl;
    bounded = b;
    knows = k;
    others = λ j o n k'. k';
    balanced = unmoved t u c.buffer g e;
  }

  acquire-AllGood :
      (i : ℕ) (t u : Thread V) (c : BoundedChannel V) (o : Option ℕ)
      → length c.buffer ≤ c.capacity
      → gives t ≡ []
      → takes u ≡ []
      → c.lock ≡ o
      → Knows i u (record c { lock = some i })
      → AllGood i t c (acquire i u c o)
  unfolding acquire
  acquire-AllGood i t u c (some l) b g e q k = tt
  acquire-AllGood i t u c none b g e q k = record {
    same_capacity = refl;
    bounded = b;
    knows = k;
    others = λ j o n k'. Knows-free j o c (record c { lock = some i }) q k';
    balanced = unmoved t u c.buffer g e;
  }

  release-Good :
      (i : ℕ) (t u : Thread V) (c : BoundedChannel V)
      → length c.buffer ≤ c.capacity
      → gives t ≡ []
      → takes u ≡ []
      → c.lock ≡ some i
      → Knows i u (release c)
      → Good i t u c (release c)
  release-Good i t u c b g e l k = record {
    same_capacity = refl;
    bounded = b;
    knows = k;
    others = λ j o n k'. Knows-other i j o c (release c) n l k';
    balanced = unmoved t u c.buffer g e;
  }

  full-Good :
      (i : ℕ) (v : V) (c : BoundedChannel V)
      → length c.buffer ≤ c.capacity
      → c.lock ≡ some i
      → (b : Bool) → leb c.capacity (length c.buffer) ≡ b
      → Good i (send_full v) (if b then send_closed v else send_last v) c c
  full-Good i v c b l true e = stays-Good i (send_full v) (send_closed v) c b refl refl l
  full-Good i v c b l false e =
      stays-Good i (send_full v) (send_last v) c b refl refl (l, inl (ground arith))

  closed-Good :
      (i : ℕ) (v : V) (c : BoundedChannel V)
      → length c.buffer ≤ c.capacity
      → c.lock ≡ some i
      → (b : Bool) → c.closed ≡ b
      → Good i (send_closed v) (if b then send_last v else send_wait v) c c
  closed-Good i v c b l true e = stays-Good i (send_closed v) (send_last v) c b refl refl (l, inr e)
  closed-Good i v c b l false e = stays-Good i (send_closed v) (send_wait v) c b refl refl l

  last-AllGood :
      (i : ℕ) (v : V) (c : BoundedChannel V)
      → length c.buffer ≤ c.capacity
      → Knows i (send_last v) c
      → (b : Bool) → c.closed ≡ b
      → AllGood i
          (send_last v)
          c
          (if b then some (release c, sent false, quiet) else some (c, send_push v, quiet))
  last-AllGood i v c b (l, r) true e = release-Good i (send_last v) (sent false) c b refl refl l tt
  last-AllGood i v c b (l, inl r) false e =
      stays-Good i (send_last v) (send_push v) c b refl refl (l, r)
  last-AllGood i v c b (l, inr r) false e = cc

  pop_front-AllGood :
      (i : ℕ) (c : BoundedChannel V) (vs : List V)
      → length c.buffer ≤ c.capacity
      → c.lock ≡ some i
      → c.buffer ≡ vs
      → AllGood i recv_pop c (pop_front c vs)
  unfolding pop_front
  pop_front-AllGood i c [] b l e = stays-Good i recv_pop recv_closed c b refl refl l
  pop_front-AllGood i c (v ∷ vs) b l e = record {
    same_capacity = refl;
    bounded = fits (subst (λ xs. length xs ≤ c.capacity) e b);
    knows = tt;
    others = λ j o n k. Knows-other i j o c (record c { buffer = vs; lock = none }) n l k;
    balanced = append-nil c.buffer ∙ e;
  }
    where
      fits : length (v ∷ vs) ≤ c.capacity → length vs ≤ c.capacity
      fits h = omega arith

  recv_closed-AllGood :
      (i : ℕ) (c : BoundedChannel V)
      → length c.buffer ≤ c.capacity
      → c.lock ≡ some i
      → (b : Bool)
      → AllGood i recv_closed c
          (if b then some (release c, received none, quiet) else some (c, recv_wait, quiet))
  recv_closed-AllGood i c b l true = release-Good i recv_closed (received none) c b refl refl l tt
  recv_closed-AllGood i c b l false = stays-Good i recv_closed recv_wait c b refl refl l

  push-Good :
      (i : ℕ) (v : V) (c : BoundedChannel V)
      → Knows i (send_push v) c
      → Good i (send_push v) (sent true) c (record c { buffer = c.buffer ++ v ∷ []; lock = none })
  push-Good i v c (l, r) = record {
    same_capacity = refl;
    bounded = omega (arith, r, length-append c.buffer (v ∷ []));
    knows = tt;
    others = λ j o n k.
        Knows-other i j o c (record c { buffer = c.buffer ++ v ∷ []; lock = none }) n l k;
    balanced = refl;
  }

  pub move-AllGood :
      (i : ℕ) (t : Thread V) (c : BoundedChannel V)
      → length c.buffer ≤ c.capacity
      → Knows i t c
      → AllGood i t c (move i t c)
  unfolding move
  move-AllGood i (send_lock v) c b k =
      acquire-AllGood i (send_lock v) (send_full v) c c.lock b refl refl refl refl
  move-AllGood i (send_full v) c b k = full-Good i v c b k (leb c.capacity (length c.buffer)) refl
  move-AllGood i (send_closed v) c b k = closed-Good i v c b k c.closed refl
  move-AllGood i (send_wait v) c b k =
      release-Good i (send_wait v) (send_asleep v) c b refl refl k tt
  move-AllGood i (send_last v) c b k = last-AllGood i v c b k c.closed refl
  move-AllGood i (send_push v) c b k = push-Good i v c k
  move-AllGood i recv_lock c b k =
      acquire-AllGood i recv_lock recv_pop c c.lock b refl refl refl refl
  move-AllGood i recv_pop c b k = pop_front-AllGood i c c.buffer b k refl
  move-AllGood i recv_closed c b k = recv_closed-AllGood i c b k c.closed
  move-AllGood i recv_wait c b k = release-Good i recv_wait recv_asleep c b refl refl k tt
  move-AllGood i close_store c b k = record {
    same_capacity = refl;
    bounded = b;
    knows = tt;
    others = λ j o n k'. Knows-closed j o c k';
    balanced = append-nil c.buffer;
  }
  move-AllGood i close_notify c b k = stays-Good i close_notify idle c b refl refl tt
  move-AllGood i (send_asleep v) c b k = tt
  move-AllGood i recv_asleep c b k = tt
  move-AllGood i idle c b k = tt
  move-AllGood i (sent x) c b k = tt
  move-AllGood i (received x) c b k = tt

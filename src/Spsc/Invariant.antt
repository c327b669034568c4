-- ===== src/Spsc/Invariant.antt =====
-- crates/causm-concurrency/src/queue/spsc.rs: what holds between any two steps of the two threads.
use causm.Prelude.{
  ℕ, suc, ◌+◌, ◌-◌, ◌%◌, ◌^◌, ◌≤◌, ◌<◌, ◌≡◌, refl, ◌∙◌, ap, ap₂, sym, Option, some, none, List, [],
  ◌∷◌, ◌++◌, append-nil, length, length-set, get_or, set, get_or-set_self, get_or-set_ne, leb,
  arith, Bool-cases, inl, inr, add64,
}
use native.Mathlib.Nat.{mod-lt}
use causm.Spsc.{
  SpscQueue, Producer, Consumer, Event, quiet, empty, push, full, pop, producer_step, consumer_step,
  pushes, pops,
}
use causm.Spsc.Window.{cell_ne, window, window_snoc, window-set}

module _ {A : Type 0} where
  pub record IsValid (q : SpscQueue A) : Type 0 where
    pub positive : 0 < q.size
    pub cells : length q.buffer ≡ q.size
    pub ordered : q.head ≤ q.tail
    pub near : q.tail ≤ q.head + q.size

  -- The producer's locals: its `tail` is current, its `head` may be old.
  abbrev pub ProducerKnows : SpscQueue A → Producer A → Type 0
  ProducerKnows q Producer.idle = Unit {0}
  ProducerKnows q (Producer.loaded_tail v t) = t ≡ q.tail
  ProducerKnows q (Producer.loaded_head v t h) = (t ≡ q.tail) × (h ≤ q.head)
  ProducerKnows q (Producer.written v t) =
      (t ≡ q.tail) × (q.tail < q.head + q.size) × (get_or q.buffer (q.tail % q.size) none ≡ some v)

  -- The consumer's locals: its `head` is current, its `tail` may be old.
  abbrev pub ConsumerKnows : SpscQueue A → Consumer A → Type 0
  ConsumerKnows q Consumer.idle = Unit {0}
  ConsumerKnows q (Consumer.loaded_head h) = h ≡ q.head
  ConsumerKnows q (Consumer.loaded_tail h t) = (h ≡ q.head) × (t ≤ q.tail)
  ConsumerKnows q (Consumer.read h x) =
      (h ≡ q.head) × (q.head < q.tail) × (get_or q.buffer (q.head % q.size) none ≡ x)

  -- the cells that hold unread values, oldest first
  abbrev pub contents : SpscQueue A → List (Option A)
  contents q = window q.buffer q.size q.head (q.tail - q.head)

  pub record Good (q : SpscQueue A) (p : Producer A) (c : Consumer A) : Type 0 where
    pub valid : IsValid q
    pub producing : ProducerKnows q p
    pub consuming : ConsumerKnows q c

  -- What one step of a thread does: the invariant, the flow of values, and the growth of `tail`.
  pub record Stepped (q : SpscQueue A) (out : SpscQueue A × Producer A × Consumer A × Event A)
      : Type 0 where
    pub good : Good out.0 out.1 out.2
    pub flow : contents q ++ pushes (out.3 ∷ []) ≡ pops (out.3 ∷ []) ++ contents out.0
    pub growth : out.0.tail ≤ q.tail + 1

  -- A write into the cell behind the last unread value.
  write-Good :
      (q : SpscQueue A) (c : Consumer A) (v : A)
      → IsValid q
      → q.tail < q.head + q.size
      → ConsumerKnows q c
      → Stepped q (
        record q { buffer = set q.buffer (q.tail % q.size) (some v) },
        Producer.written v q.tail,
        c,
        quiet,
      )
  write-Good q c v valid room knows = record {
    good = record {
      valid = record {
        positive = valid.positive;
        cells = length-set q.buffer (q.tail % q.size) (some v) ∙ valid.cells;
        ordered = valid.ordered;
        near = valid.near;
      };
      producing = (
        refl,
        room,
        get_or-set_self q.buffer (q.tail % q.size) (some v) none
            (omega (arith, mod-lt q.tail valid.positive, valid.cells)),
      );
      consuming = consumer_kept c knows;
    };
    flow =
        append-nil (contents q)
        ∙ sym (
            window-set q.buffer q.size q.head (q.tail - q.head) q.tail (some v)
              (omega (arith, valid.ordered)) room);
    growth = omega arith;
  }
    where
      consumer_kept :
          (c : Consumer A)
          → ConsumerKnows q c
          → ConsumerKnows (record q { buffer = set q.buffer (q.tail % q.size) (some v) }) c
      consumer_kept Consumer.idle k = k
      consumer_kept (Consumer.loaded_head h) k = k
      consumer_kept (Consumer.loaded_tail h t) k = k
      consumer_kept (Consumer.read h x) k = (
        k.0,
        k.1,
        get_or-set_ne q.buffer (q.tail % q.size) (q.head % q.size) (some v) none
              (λ e. cell_ne q.size q.head q.tail k.1 room (sym e))
            ∙ k.2,
      )

  -- The store that publishes the written value.
  publish-Good :
      (q : SpscQueue A) (c : Consumer A) (v : A)
      → q.tail + 1 < 2 ^ 64
      → IsValid q
      → ProducerKnows q (Producer.written v q.tail)
      → ConsumerKnows q c
      → Stepped q (record q { tail = add64 q.tail 1 }, Producer.idle, c, push v)
  publish-Good q c v small valid wrote knows = record {
    good = record {
      valid = record {
        positive = valid.positive;
        cells = valid.cells;
        ordered = omega (arith, valid.ordered);
        near = omega (arith, wrote.1);
      };
      producing = tt;
      consuming = consumer_kept c knows;
    };
    flow =
        ap (λ x. contents q ++ (x ∷ [])) (sym wrote.2 ∙ ap cell at_end)
        ∙ sym (window_snoc q.buffer q.size q.head (q.tail - q.head))
        ∙ ap (window q.buffer q.size q.head) one_more;
    growth = omega arith;
  }
    where
      cell : ℕ → Option A
      cell i = get_or q.buffer (i % q.size) none

      at_end : q.tail ≡ q.head + (q.tail - q.head)
      at_end = omega (arith, valid.ordered)

      one_more : suc (q.tail - q.head) ≡ add64 q.tail 1 - q.head
      one_more = omega (arith, valid.ordered)

      consumer_kept :
          (c : Consumer A)
          → ConsumerKnows q c
          → ConsumerKnows (record q { tail = add64 q.tail 1 }) c
      consumer_kept Consumer.idle k = k
      consumer_kept (Consumer.loaded_head h) k = k
      consumer_kept (Consumer.loaded_tail h t) k = (k.0, omega (arith, k.1))
      consumer_kept (Consumer.read h x) k = (k.0, omega (arith, k.1), k.2)

  -- The store that releases the cell that was read.
  release-Good :
      (q : SpscQueue A) (p : Producer A) (x : Option A)
      → q.tail < 2 ^ 64
      → IsValid q
      → ProducerKnows q p
      → ConsumerKnows q (Consumer.read q.head x)
      → Stepped q (record q { head = add64 q.head 1 }, p, Consumer.idle, pop x)
  release-Good q p x small valid knows had = record {
    good = record {
      valid = record {
        positive = valid.positive;
        cells = valid.cells;
        ordered = omega (arith, had.1);
        near = omega (arith, valid.near, had.1);
      };
      producing = producer_kept p knows;
      consuming = tt;
    };
    flow =
        append-nil (contents q)
        ∙ ap (window q.buffer q.size q.head) one_less
        ∙ ap₂ ◌∷◌ had.2 (
            ap₂ (window q.buffer q.size) {x = suc q.head} {y = add64 q.head 1}
              (omega (arith, had.1)) (omega (arith, had.1)));
    growth = omega arith;
  }
    where
      one_less : q.tail - q.head ≡ suc (q.tail - q.head - 1)
      one_less = omega (arith, had.1)

      producer_kept :
          (p : Producer A)
          → ProducerKnows q p
          → ProducerKnows (record q { head = add64 q.head 1 }) p
      producer_kept Producer.idle k = k
      producer_kept (Producer.loaded_tail v t) k = k
      producer_kept (Producer.loaded_head v t h) k = (k.0, omega (arith, k.1, had.1))
      producer_kept (Producer.written v t) k = (k.0, omega (arith, k.1, had.1), k.2)

  -- A step that changes only the stepping thread's locals and hands no value over.
  quiet-Good :
      (q : SpscQueue A) (p : Producer A) (c : Consumer A) (e : Event A)
      → Good q p c
      → pushes (e ∷ []) ≡ []
      → pops (e ∷ []) ≡ []
      → Stepped q (q, p, c, e)
  quiet-Good q p c e g no_push no_pop = record {
    good = g;
    flow = rw (no_push, no_pop) (append-nil (contents q));
    growth = omega arith;
  }

  pub producer_step-Stepped :
      (q : SpscQueue A) (value : A) (p : Producer A) (c : Consumer A)
      → q.tail + 1 < 2 ^ 64
      → Good q p c
      → let (q', p', e) = producer_step q value p in Stepped q (q', p', c, e)
  unfolding producer_step
  producer_step-Stepped q value Producer.idle c small g =
      quiet-Good q _ c quiet (record { valid = g.valid; producing = refl; consuming = g.consuming })
        refl refl
  producer_step-Stepped q value (Producer.loaded_tail v t) c small g =
      quiet-Good q _ c quiet
        (record {
          valid = g.valid;
          producing = (g.producing, omega arith);
          consuming = g.consuming;
        })
        refl refl
  producer_step-Stepped q value (Producer.loaded_head v t h) c small g =
      elim (Bool-cases (leb q.size (t - h))) [
        | inl full' ↦ rw full' (
            quiet-Good q Producer.idle c (full v)
              (record { valid = g.valid; producing = tt; consuming = g.consuming }) refl refl)
        | inr room ↦ rw room (
            rw g.producing.0 (
              write-Good q c v g.valid
                (ground (arith, g.producing.0, g.producing.1, g.valid.ordered)) g.consuming))
      ]
  producer_step-Stepped q value (Producer.written v t) c small g =
      rw g.producing.0
        (publish-Good q c v small g.valid (refl, g.producing.1, g.producing.2) g.consuming)

  pub consumer_step-Stepped :
      (q : SpscQueue A) (p : Producer A) (c : Consumer A)
      → q.tail < 2 ^ 64
      → Good q p c
      → let (q', c', e) = consumer_step q c in Stepped q (q', p, c', e)
  unfolding consumer_step
  consumer_step-Stepped q p Consumer.idle small g =
      quiet-Good q p _ quiet (record { valid = g.valid; producing = g.producing; consuming = refl })
        refl refl
  consumer_step-Stepped q p (Consumer.loaded_head h) small g =
      quiet-Good q p _ quiet
        (record {
          valid = g.valid;
          producing = g.producing;
          consuming = (g.consuming, omega arith);
        })
        refl refl
  consumer_step-Stepped q p (Consumer.loaded_tail h t) small g = elim (Bool-cases (leb t h)) [
    | inl none' ↦ rw none' (
        quiet-Good q p Consumer.idle empty
          (record { valid = g.valid; producing = g.producing; consuming = tt }) refl refl)
    | inr some' ↦ rw some' (
        quiet-Good q p _ quiet
          (record {
            valid = g.valid;
            producing = g.producing;
            consuming = (
              g.consuming.0,
              ground (arith, g.consuming.0, g.consuming.1),
              ap (λ i. get_or q.buffer (i % q.size) none) (sym g.consuming.0),
            );
          })
          refl refl)
  ]
  consumer_step-Stepped q p (Consumer.read h x) small g =
      rw g.consuming.0
        (release-Good q p x small g.valid g.producing (refl, g.consuming.1, g.consuming.2))

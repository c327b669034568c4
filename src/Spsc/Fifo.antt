-- ===== src/Spsc/Fifo.antt =====
-- crates/causm-concurrency/src/queue/spsc.rs: the queue is a bounded FIFO under every schedule.
use causm.Prelude.{
  ℕ, zero, suc, ◌+◌, ◌^◌, ◌≤◌, ◌<◌, ◌≡◌, refl, ◌∙◌, ap, sym, subst, Option, some, none, List, [],
  ◌∷◌, ◌++◌, append-nil, append_assoc, length, replicate, length-replicate, arith, ◌==◌, false,
}
use mathlib.Core.Option.{some-injective}
use causm.Spsc.{
  SpscQueue, System, Producer, Consumer, Event, quiet, empty, push, full, pop, Turn, produce,
  consume, new, step, run, pushes, pops,
}
use causm.Spsc.Invariant.{Good, contents, producer_step-Stepped, consumer_step-Stepped}

module _ {A : Type 0} where
  abbrev pub GoodSystem : System A → Type 0
  GoodSystem s = Good s.queue s.producer s.consumer

  pushes-cons : (e : Event A) (es : List (Event A)) → pushes (e ∷ es) ≡ pushes (e ∷ []) ++ pushes es
  pushes-cons quiet es = refl
  pushes-cons empty es = refl
  pushes-cons (push v) es = refl
  pushes-cons (full v) es = refl
  pushes-cons (pop v) es = refl

  pops-cons : (e : Event A) (es : List (Event A)) → pops (e ∷ es) ≡ pops (e ∷ []) ++ pops es
  pops-cons quiet es = refl
  pops-cons empty es = refl
  pops-cons (push v) es = refl
  pops-cons (full v) es = refl
  pops-cons (pop v) es = refl

  -- one turn of either thread
  record Turned (s : System A) (out : System A × Event A) : Type 0 where
    good : GoodSystem out.0
    flow : contents s.queue ++ pushes (out.1 ∷ []) ≡ pops (out.1 ∷ []) ++ contents out.0.queue
    growth : out.0.queue.tail ≤ s.queue.tail + 1

  step-Turned :
      (s : System A) (t : Turn A) → s.queue.tail + 1 < 2 ^ 64 → GoodSystem s → Turned s (step s t)
  unfolding step
  step-Turned s (produce v) small g =
      let k = producer_step-Stepped s.queue v s.producer s.consumer small g in
      record { good = k.good; flow = k.flow; growth = k.growth }
  step-Turned s consume small g =
      let k = consumer_step-Stepped s.queue s.producer s.consumer (omega arith) g in
      record { good = k.good; flow = k.flow; growth = k.growth }

  record Ran (s : System A) (out : System A × List (Event A)) : Type 0 where
    good : GoodSystem out.0
    flow : contents s.queue ++ pushes out.1 ≡ pops out.1 ++ contents out.0.queue

  run-Ran :
      (ts : List (Turn A)) (s : System A)
      → s.queue.tail + length ts < 2 ^ 64
      → GoodSystem s
      → Ran s (run s ts)
  unfolding run
  run-Ran [] s small g = record { good = g; flow = append-nil (contents s.queue) }
  run-Ran (t ∷ ts) s small g =
      let now = step-Turned s t (omega arith) g in
      let later = run-Ran ts (step s t).0 (omega (arith, now.growth)) now.good in
      record {
        good = later.good;
        flow =
            joined (contents s.queue) (contents (step s t).0.queue)
              (contents (run (step s t).0 ts).0.queue) (step s t).1 (run (step s t).0 ts).1 now.flow
              later.flow;
      }
    where
      joined :
          (before between after : List (Option A)) (e : Event A) (es : List (Event A))
          → before ++ pushes (e ∷ []) ≡ pops (e ∷ []) ++ between
          → between ++ pushes es ≡ pops es ++ after
          → before ++ pushes (e ∷ es) ≡ pops (e ∷ es) ++ after
      joined before between after e es p q =
          ap (◌++◌ before) (pushes-cons e es)
          ∙ sym (append_assoc before (pushes (e ∷ [])) (pushes es))
          ∙ ap (λ l. l ++ pushes es) p
          ∙ append_assoc (pops (e ∷ [])) between (pushes es)
          ∙ ap (◌++◌ (pops (e ∷ []))) q
          ∙ sym (append_assoc (pops (e ∷ [])) (pops es) after)
          ∙ ap (λ l. l ++ after) (sym (pops-cons e es))

-- a fresh queue with both threads outside their calls
abbrev pub start : {A : Type 0} → SpscQueue A → System A
start q = record { queue = q; producer = Producer.idle; consumer = Consumer.idle }

-- the queue that `new` makes
abbrev fresh : {A : Type 0} → ℕ → SpscQueue A
fresh n = record { size = n; buffer = replicate n none; head = 0; tail = 0 }

abbrev IsFresh : {A : Type 0} → SpscQueue A → Type 0
IsFresh q = GoodSystem (start q) × (contents q ≡ []) × (q.tail ≡ 0)

fresh-IsFresh : {A : Type 0} (n : ℕ) → 0 < n → IsFresh (fresh {A = A} n)
fresh-IsFresh {A} n h = (
  record {
    valid = record {
      positive = h;
      cells = length-replicate n none;
      ordered = omega arith;
      near = omega arith;
    };
    producing = tt;
    consuming = tt;
  },
  refl,
  refl,
)

new-IsFresh : {A : Type 0} (n : ℕ) (q : SpscQueue A) → new n ≡ some q → IsFresh q
unfolding new
new-IsFresh zero q h = cc
new-IsFresh (suc n) q h =
    let nonzero : (suc n == 0) ≡ false = ground arith in
    subst IsFresh (some-injective (fresh (suc n)) q (rw nonzero at h))
      (fresh-IsFresh (suc n) (omega arith))

-- However the steps of one producer and one consumer interleave on a fresh queue, for fewer than
-- 2^64 steps: the values popped, followed by the unread contents of the queue, are the values whose
-- push succeeded, in order, so that no uninitialised cell is read; `head` never passes `tail`, and
-- `tail` is never more than the number of cells ahead of `head`.
pub run_fifo :
    {A : Type 0} (n : ℕ) (q : SpscQueue A) (ts : List (Turn A))
    → new n ≡ some q
    → length ts < 2 ^ 64
    → let (s, es) = run (start q) ts in
      (pushes es ≡ pops es ++ contents s.queue)
      × (s.queue.head ≤ s.queue.tail)
      × (s.queue.tail ≤ s.queue.head + s.queue.size)
run_fifo n q ts h small =
    let (g, none_yet, t) = new-IsFresh n q h in
    let r = run-Ran ts (start q) (omega arith) g in
    (
      ap (λ l. l ++ pushes (run (start q) ts).1) (sym none_yet) ∙ r.flow,
      r.good.valid.ordered,
      r.good.valid.near,
    )

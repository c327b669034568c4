-- ===== src/Scheduler/Order.antt =====
-- crates/causm-concurrency/src/scheduler/actor_pool.rs: the order in which actors get their turns.
use causm.Prelude.{
  ℕ, suc, ◌<◌, ◌≡◌, refl, sym, ap, ◌∙◌, subst, Bool, true, false, Option, some, none, String, List,
  [], ◌∷◌, ◌++◌, length, append_assoc, append-nil, if◌then◌else◌, arith, ok, err,
}
use causm.Prelude.Assoc
use causm.Smt.Names.{member, include}
use causm.Mailbox.{BoundedMailbox, push, Pushed, take_front}
use causm.Scheduler.{
  ActorPool, ActorHandle, register_actor, get_actor_mut, change, send_to, send_found, finish_send,
  next_ready_actor, requeue_actor, contains,
}

pub data Call (M : Type 0) : Type 0 where
  register : String → BoundedMailbox M → ℕ → Call M
  use_actor : String → (ActorHandle M → ActorHandle M) → Call M
  send : String → M → Call M
  next : Call M
  requeue : String → Call M

include-Grown :
    (name : String) (xs : List String) → (more : List String) × (include name xs ≡ xs ++ more)
include-Grown name xs = go (member xs name)
  where
    go : (b : Bool) → (more : List String) × ((if b then xs else xs ++ name ∷ []) ≡ xs ++ more)
    go true = ([], sym (append-nil xs))
    go false = (name ∷ [], refl)

module _ {M : Type 0} where
  unfoldable pub apply : Call M → ActorPool M → ActorPool M
  unfolding register_actor get_actor_mut send_to next_ready_actor requeue_actor
  apply (register name mailbox budget) p = register_actor name mailbox budget p
  apply (use_actor name f) p = get_actor_mut name f p
  apply (send target message) p = (send_to target message p).0
  apply next p = (next_ready_actor p).0
  apply (requeue name) p = requeue_actor name p

  -- the turns that a history of calls gives, in order
  abbrev pub gave : Call M → ActorPool M → List String → List String
  gave next p rest = elim (next_ready_actor p).1 [ none ↦ rest | some name ↦ name ∷ rest ]
  gave _ p rest = rest

  unfoldable pub turns : List (Call M) → ActorPool M → List String
  unfolding apply
  turns [] p = []
  turns (c ∷ cs) p = gave c p (turns cs (apply c p))

  unfoldable pub asked : List (Call M) → ℕ
  asked [] = 0
  asked (next ∷ cs) = suc (asked cs)
  asked (_ ∷ cs) = asked cs

  abbrev Grown : ActorPool M → ActorPool M → Type 0
  Grown p p' = (more : List String) × (p'.ready_queue ≡ p.ready_queue ++ more)

  finish_send-Grown :
      (target : String) (h : ActorHandle M) (r : Pushed M) (p : ActorPool M)
      → Grown p (finish_send target h r p).0
  finish_send-Grown target h (mailbox, err e) p = ([], sym (append-nil p.ready_queue))
  finish_send-Grown target h (mailbox, ok action) p = include-Grown target p.ready_queue

  send-Grown :
      (target : String) (message : M) (p : ActorPool M) → Grown p (send_to target message p).0
  unfolding send_to
  send-Grown target message p = go (Assoc.lookup target p.actors)
    where
      go : (o : Option (ActorHandle M)) → Grown p (send_found o target message p).0
      go none = ([], sym (append-nil p.ready_queue))
      go (some h) = finish_send-Grown target h (push h.mailbox message) p

  use-Grown :
      (name : String) (f : ActorHandle M → ActorHandle M) (p : ActorPool M)
      → Grown p (get_actor_mut name f p)
  unfolding get_actor_mut
  use-Grown name f p = go (Assoc.lookup name p.actors)
    where
      go : (o : Option (ActorHandle M)) → Grown p (change o name f p)
      go none = ([], sym (append-nil p.ready_queue))
      go (some h) = ([], sym (append-nil p.ready_queue))

  requeue-Grown : (name : String) (p : ActorPool M) → Grown p (requeue_actor name p)
  unfolding requeue_actor
  requeue-Grown name p = go (contains (Assoc.lookup name p.actors))
    where
      go :
          (b : Bool)
          → Grown p
              (record p { ready_queue = if b then include name p.ready_queue else p.ready_queue })
      go true = include-Grown name p.ready_queue
      go false = ([], sym (append-nil p.ready_queue))

  grown-queue :
      (p p' : ActorPool M) (xs ys : List String) (name : String) (more : List String)
      → p'.ready_queue ≡ p.ready_queue ++ more
      → p.ready_queue ≡ xs ++ name ∷ ys
      → p'.ready_queue ≡ xs ++ name ∷ (ys ++ more)
  grown-queue p p' xs ys name more g e =
      g ∙ ap (λ zs. zs ++ more) e ∙ append_assoc xs (name ∷ ys) more

  abbrev pub Served : List String → String → List (Call M) → ActorPool M → Type 0
  Served xs name cs p = (rest : List String) × (turns cs p ≡ xs ++ name ∷ rest)

  -- Whatever else is called in between, the actors that are in the queue get the next turns, in the
  -- order of the queue: one that has `length xs` names in front of it gets its turn behind theirs, as
  -- soon as `next_ready_actor` has been called more often than that.
  pub turns-Served :
      (cs : List (Call M)) (p : ActorPool M) (xs ys : List String) (name : String)
      → p.ready_queue ≡ xs ++ name ∷ ys
      → length xs < asked cs
      → Served xs name cs p
  unfolding turns asked next_ready_actor take_front register_actor
  turns-Served [] p xs ys name e lt = absurd (omega arith)
  turns-Served (next ∷ cs) p [] ys name e lt =
      subst (λ (q : List String). Served [] name (next ∷ cs) (record p { ready_queue = q })) (sym e)
        (turns cs (record p { ready_queue = ys }), refl)
  turns-Served (next ∷ cs) p (x ∷ xs) ys name e lt =
      let (rest, t) =
        turns-Served cs (record p { ready_queue = xs ++ name ∷ ys }) xs ys name refl
          (omega arith) in
      subst (λ (q : List String). Served (x ∷ xs) name (next ∷ cs) (record p { ready_queue = q }))
        (sym e) (rest, ap (λ zs. x ∷ zs) t)
  turns-Served (register n mailbox budget ∷ cs) p xs ys name e lt =
      turns-Served cs (register_actor n mailbox budget p) xs (ys ++ n ∷ []) name
        (grown-queue p (register_actor n mailbox budget p) xs ys name (n ∷ []) refl e) lt
  turns-Served (use_actor n f ∷ cs) p xs ys name e lt =
      let (more, g) = use-Grown n f p in
      turns-Served cs (get_actor_mut n f p) xs (ys ++ more) name
        (grown-queue p (get_actor_mut n f p) xs ys name more g e) lt
  turns-Served (send target message ∷ cs) p xs ys name e lt =
      let (more, g) = send-Grown target message p in
      turns-Served cs (send_to target message p).0 xs (ys ++ more) name
        (grown-queue p (send_to target message p).0 xs ys name more g e) lt
  turns-Served (requeue n ∷ cs) p xs ys name e lt =
      let (more, g) = requeue-Grown n p in
      turns-Served cs (requeue_actor n p) xs (ys ++ more) name
        (grown-queue p (requeue_actor n p) xs ys name more g e) lt

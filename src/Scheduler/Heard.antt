-- ===== src/Scheduler/Heard.antt =====
-- crates/causm-concurrency/src/scheduler/actor_pool.rs: messages, the ready queue and
-- the turns.
use causm.Prelude.{
  ℕ, ◌≡◌, refl, sym, ap, ◌∙◌, subst, ◌⊎◌, inl, inr, ◌||◌, Bool, true, false, Bool-cases, Option,
  some, none, String, str_eq, eq_iff, List, [], ◌∷◌, ◌++◌, if◌then◌else◌, arith, ok, err, ltb,
  length, drop,
}
use causm.Prelude.Assoc
use causm.Prelude.Assoc.{lookup-insert}
use causm.Smt.Names.{member, member-append, In, include, member-include}
use causm.Mailbox.{
  evicted_oldest, full, evicts, BoundedMailbox, MailboxError, push, Pushed, take_front,
}
use causm.Scheduler.Turns.{
  without, Schedule, receive, keep_time, Step, registers, sends, begins, receives, times, ends,
  rests, Reached, begin, step, IsHeard, AllHeard,
}
use causm.Scheduler.{
  ActorPool, ActorHandle, register_actor, get_actor_mut, change, send_to, send_found, finish_send,
  next_ready_actor, requeue_actor, contains,
}

member-without :
    (name y : String) (xs : List String)
    → str_eq name y ≡ false
    → member (without name xs) y ≡ member xs y
member-without name y [] h = refl
member-without name y (x ∷ xs) h =
    ground (arith, eq_iff x name, eq_iff x y, eq_iff name y, member-without name y xs h)

module _ {M : Type 0} where
  IsHeard-mono :
      (s s' : Schedule M) (name : String) (o : Option (ActorHandle M))
      → (member s.pool.ready_queue name || member s.running name ≡ true
          → member s'.pool.ready_queue name || member s'.running name ≡ true)
      → IsHeard s name o
      → IsHeard s' name o
  IsHeard-mono s s' name none f h = tt
  IsHeard-mono s s' name (some a) f (inl h) = inl (f h)
  IsHeard-mono s s' name (some a) f (inr h) = inr h

  -- one actor is changed, and none leaves the queue or ends its turn
  AllHeard-insert :
      (s s' : Schedule M) (name : String) (h : ActorHandle M)
      → s'.pool.actors ≡ Assoc.insert name h s.pool.actors
      → ((x : String)
          → member s.pool.ready_queue x || member s.running x ≡ true
          → member s'.pool.ready_queue x || member s'.running x ≡ true)
      → IsHeard s' name (some h)
      → AllHeard s
      → AllHeard s'
  AllHeard-insert s s' name h e mono new_heard all x =
      subst (IsHeard s' x) (sym (ap (Assoc.lookup x) e ∙ lookup-insert name x h s.pool.actors))
        (elim (Bool-cases (str_eq name x)) [
          | inl q ↦
              let same : name ≡ x = ground (arith, eq_iff name x) in
              rw q (subst (λ y. IsHeard s' y (some h)) same new_heard)
          | inr q ↦ rw q (IsHeard-mono s s' x (Assoc.lookup x s.pool.actors) (mono x) (all x))
        ])

  registers-AllHeard :
      (p : ActorPool M) (r : List String) (name : String) (mailbox : BoundedMailbox M) (budget : ℕ)
      → AllHeard (record { pool = p; running = r })
      → AllHeard (record { pool = register_actor name mailbox budget p; running = r })
  unfolding register_actor
  registers-AllHeard p r name mailbox budget all =
      AllHeard-insert (record { pool = p; running = r })
        (record { pool = register_actor name mailbox budget p; running = r }) name _ refl
        (λ x h. ground (arith, member-append p.ready_queue (name ∷ []) x))
        (inl (ground (arith, member-append p.ready_queue (name ∷ []) name, eq_iff name name))) all

  push-refused :
      (m mb : BoundedMailbox M) (x : M) (e : MailboxError M)
      → push m x ≡ (mb, err e)
      → mb.buffer ≡ m.buffer
  unfolding push
  push-refused m mb x e = go (ltb (length m.buffer) m.capacity) (evicts m.policy)
    where
      go :
          (b c : Bool)
          → ◌≡◌ {A = Pushed M}
              (if b
                then (record m { buffer = m.buffer ++ (x ∷ []) }, ok none)
                else if c
                then (record m { buffer = drop 1 m.buffer ++ (x ∷ []) }, ok (some evicted_oldest))
                else (m, err (full x)))
              (mb, err e)
          → mb.buffer ≡ m.buffer
      go true c q = cc (ap (λ (r : Pushed M). r.1) q)
      go false true q = cc (ap (λ (r : Pushed M). r.1) q)
      go false false q = ap (λ (r : Pushed M). r.0.buffer) (sym q)

  sends-AllHeard :
      (p : ActorPool M) (r : List String) (target : String) (message : M)
      → AllHeard (record { pool = p; running = r })
      → AllHeard (record { pool = (send_to target message p).0; running = r })
  unfolding send_to
  sends-AllHeard p r target message all = go (Assoc.lookup target p.actors) (all target)
    where
      finish :
          (h : ActorHandle M) (pushed : Pushed M)
          → push h.mailbox message ≡ pushed
          → IsHeard (record { pool = p; running = r }) target (some h)
          → AllHeard (record { pool = (finish_send target h pushed p).0; running = r })
      finish h (mailbox, err e) q heard =
          AllHeard-insert (record { pool = p; running = r })
            (record { pool = (finish_send target h (mailbox, err e) p).0; running = r }) target
            (record h { mailbox = mailbox }) refl (λ x m. m) (still heard) all
        where
          still :
              (member p.ready_queue target || member r target ≡ true) ⊎ (h.mailbox.buffer ≡ [])
              → (member p.ready_queue target || member r target ≡ true) ⊎ (mailbox.buffer ≡ [])
          still (inl i) = inl i
          still (inr i) = inr (push-refused h.mailbox mailbox message e q ∙ i)
      finish h (mailbox, ok a) q heard =
          AllHeard-insert (record { pool = p; running = r })
            (record { pool = (finish_send target h (mailbox, ok a) p).0; running = r }) target
            (record h { mailbox = mailbox }) refl
            (λ x m. ground (arith, member-include target p.ready_queue x))
            (inl (ground (arith, member-include target p.ready_queue target, eq_iff target target)))
            all

      go :
          (o : Option (ActorHandle M))
          → IsHeard (record { pool = p; running = r }) target o
          → AllHeard (record { pool = (send_found o target message p).0; running = r })
      go none heard = all
      go (some h) heard = finish h (push h.mailbox message) refl heard

  begins-AllHeard :
      (p : ActorPool M) (r : List String) (name : String)
      → (next_ready_actor p).1 ≡ some name
      → AllHeard (record { pool = p; running = r })
      → AllHeard (record { pool = (next_ready_actor p).0; running = name ∷ r })
  unfolding next_ready_actor take_front
  begins-AllHeard p r name e all x = go p.ready_queue e (all x)
    where
      go :
          (q : List String)
          → (take_front q).0 ≡ some name
          → IsHeard
              (record { pool = record p { ready_queue = q }; running = r })
              x
              (Assoc.lookup x p.actors)
          → IsHeard
              (record { pool = record p { ready_queue = (take_front q).1 }; running = name ∷ r })
              x
              (Assoc.lookup x p.actors)
      go [] k h = cc k
      go (y ∷ ys) k h =
          let same : y ≡ name = cc k in
          IsHeard-mono (record { pool = record p { ready_queue = y ∷ ys }; running = r })
            (record { pool = record p { ready_queue = ys }; running = name ∷ r }) x
            (Assoc.lookup x p.actors)
            (λ m. subst (λ z. member ys x || (str_eq z x || member r x) ≡ true) same (ground arith))
            h

  uses-AllHeard :
      (p : ActorPool M) (r : List String) (name : String) (f : ActorHandle M → ActorHandle M)
      → In name r
      → AllHeard (record { pool = p; running = r })
      → AllHeard (record { pool = get_actor_mut name f p; running = r })
  unfolding get_actor_mut
  uses-AllHeard p r name f i all = go (Assoc.lookup name p.actors)
    where
      go :
          (o : Option (ActorHandle M)) → AllHeard (record { pool = change o name f p; running = r })
      go none = all
      go (some h) =
          AllHeard-insert (record { pool = p; running = r })
            (record { pool = change (some h) name f p; running = r }) name (f h) refl (λ x m. m)
            (inl (ground arith)) all

  ends-AllHeard :
      (p : ActorPool M) (r : List String) (name : String)
      → AllHeard (record { pool = p; running = r })
      → AllHeard (record { pool = requeue_actor name p; running = without name r })
  unfolding requeue_actor
  ends-AllHeard p r name all x = elim (Bool-cases (str_eq name x)) [
    | inl q ↦
        let same : name ≡ x = ground (arith, eq_iff name x) in
        subst (λ y. IsHeard ended y (Assoc.lookup y ended.pool.actors)) same
          (own (Assoc.lookup name p.actors))
    | inr q ↦ other (contains (Assoc.lookup name p.actors)) (member-without name x r q)
  ]
    where
      ended : Schedule M
      ended = record { pool = requeue_actor name p; running = without name r }

      own :
          (o : Option (ActorHandle M))
          → (let s' : Schedule M = record {
            pool = record p {
              ready_queue = if contains o then include name p.ready_queue else p.ready_queue;
            };
            running = without name r;
          } in
              IsHeard s' name o)
      own none = tt
      own (some h) = inl (ground (arith, member-include name p.ready_queue name, eq_iff name name))

      other :
          (c : Bool)
          → member (without name r) x ≡ member r x
          → (let s' : Schedule M = record {
            pool = record p {
              ready_queue = if c then include name p.ready_queue else p.ready_queue;
            };
            running = without name r;
          } in
              IsHeard s' x (Assoc.lookup x p.actors))
      other true w =
          IsHeard-mono (record { pool = p; running = r })
            (record {
              pool = record p { ready_queue = include name p.ready_queue };
              running = without name r;
            })
            x (Assoc.lookup x p.actors)
            (λ m. ground (arith, w, member-include name p.ready_queue x)) (all x)
      other false w =
          IsHeard-mono (record { pool = p; running = r })
            (record { pool = p; running = without name r }) x (Assoc.lookup x p.actors)
            (λ m. ground (arith, w)) (all x)

  rests-AllHeard :
      (p : ActorPool M) (r : List String) (name : String) (h : ActorHandle M)
      → Assoc.lookup name p.actors ≡ some h
      → h.mailbox.buffer ≡ []
      → AllHeard (record { pool = p; running = r })
      → AllHeard (record { pool = p; running = without name r })
  rests-AllHeard p r name h e empty all x = elim (Bool-cases (str_eq name x)) [
    | inl q ↦
        let same : name ≡ x = ground (arith, eq_iff name x) in
        subst
          (λ y. IsHeard (record { pool = p; running = without name r }) y (Assoc.lookup y p.actors))
          same
          (subst (IsHeard (record { pool = p; running = without name r }) name) (sym e) (inr empty))
    | inr q ↦
        IsHeard-mono (record { pool = p; running = r })
          (record { pool = p; running = without name r }) x (Assoc.lookup x p.actors)
          (λ m. ground (arith, member-without name x r q)) (all x)
  ]

  Step-AllHeard : {s s' : Schedule M} → Step s s' → AllHeard s → AllHeard s'
  Step-AllHeard (registers {p = p} {r = r} name mailbox budget) all =
      registers-AllHeard p r name mailbox budget all
  Step-AllHeard (sends {p = p} {r = r} target message) all = sends-AllHeard p r target message all
  Step-AllHeard (begins {p = p} {r = r} name e) all = begins-AllHeard p r name e all
  Step-AllHeard (receives {p = p} {r = r} name i) all = uses-AllHeard p r name receive i all
  Step-AllHeard (times {p = p} {r = r} name f i) all = uses-AllHeard p r name (keep_time f) i all
  Step-AllHeard (ends {p = p} {r = r} name i) all = ends-AllHeard p r name all
  Step-AllHeard (rests {p = p} {r = r} name h e empty) all = rests-AllHeard p r name h e empty all

  -- However actors are registered, addressed, given turns and put back, an actor that has messages
  -- is in the ready queue or has its turn.
  pub Reached-AllHeard : {s : Schedule M} → Reached s → AllHeard s
  unfolding Assoc.lookup
  Reached-AllHeard begin = λ name. tt
  Reached-AllHeard (step r t) = Step-AllHeard t (Reached-AllHeard r)

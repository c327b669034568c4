-- ===== src/Spsc.antt =====
-- crates/causm-concurrency/src/queue/spsc.rs: the single-producer single-consumer queue, run by one
-- producer thread and one consumer thread. Each atomic load or store and each access to a cell is
-- one step of its thread; a schedule says whose turn it is. Memory is sequentially consistent.
-- A cell that was never written is `none`; `assume_init_read` of it would be undefined behaviour.
use causm.Prelude.{
  ℕ, zero, suc, ◌+◌, ◌-◌, ◌%◌, Bool, true, false, Option, some, none, List, [], ◌∷◌, ◌++◌, length,
  get_or, set, replicate, if◌then◌else◌, ltb, leb, ◌==◌, add64, map,
}
pub mod Window
pub mod Invariant
pub mod Fifo
mod Tests

pub record SpscQueue (A : Type 0) : Type 0 where
  pub size : ℕ
  pub buffer : List (Option A)
  pub head : ℕ
  pub tail : ℕ

-- where the producer stands in `try_push`, with its local variables
pub data Producer (A : Type 0) : Type 0 where
  idle : Producer A
  loaded_tail : A → ℕ → Producer A
  loaded_head : A → ℕ → ℕ → Producer A
  written : A → ℕ → Producer A

-- where the consumer stands in `try_pop`
pub data Consumer (A : Type 0) : Type 0 where
  idle : Consumer A
  loaded_head : ℕ → Consumer A
  loaded_tail : ℕ → ℕ → Consumer A
  read : ℕ → Option A → Consumer A

pub record System (A : Type 0) : Type 0 where
  pub queue : SpscQueue A
  pub producer : Producer A
  pub consumer : Consumer A

-- what a call returns, at the step that returns: `push` and `pop` succeed, `full` hands the value
-- back, `empty` is `None`
pub data Event (A : Type 0) : Type 0 where
  quiet empty : Event A
  push full : A → Event A
  pop : Option A → Event A

pub data Turn (A : Type 0) : Type 0 where
  produce : A → Turn A
  consume : Turn A

module _ {A : Type 0} where
  -- `none` is the failed assertion.
  unfoldable pub new : ℕ → Option (SpscQueue A)
  new n =
      if n == 0
      then none
      else some (record { size = n; buffer = replicate n none; head = 0; tail = 0 })

  unfoldable pub len : SpscQueue A → ℕ
  len q = q.tail - q.head

  unfoldable pub is_empty : SpscQueue A → Bool
  is_empty q = leb q.tail q.head

  unfoldable pub is_full : SpscQueue A → Bool
  unfolding len
  is_full q = leb q.size (len q)

  -- the next step of `try_push`; `value` is the argument of a call that begins here
  unfoldable pub producer_step : SpscQueue A → A → Producer A → SpscQueue A × Producer A × Event A
  producer_step q value Producer.idle = (q, Producer.loaded_tail value q.tail, quiet)
  producer_step q value (Producer.loaded_tail v tail) =
      (q, Producer.loaded_head v tail q.head, quiet)
  producer_step q value (Producer.loaded_head v tail head) =
      if leb q.size (tail - head) then (q, Producer.idle, full v) else (
        record q { buffer = set q.buffer (tail % q.size) (some v) },
        Producer.written v tail,
        quiet,
      )
  producer_step q value (Producer.written v tail) =
      (record q { tail = add64 tail 1 }, Producer.idle, push v)

  -- the next step of `try_pop`
  unfoldable pub consumer_step : SpscQueue A → Consumer A → SpscQueue A × Consumer A × Event A
  consumer_step q Consumer.idle = (q, Consumer.loaded_head q.head, quiet)
  consumer_step q (Consumer.loaded_head head) = (q, Consumer.loaded_tail head q.tail, quiet)
  consumer_step q (Consumer.loaded_tail head tail) =
      if leb tail head
      then (q, Consumer.idle, empty)
      else (q, Consumer.read head (get_or q.buffer (head % q.size) none), quiet)
  consumer_step q (Consumer.read head value) =
      (record q { head = add64 head 1 }, Consumer.idle, pop value)

  unfoldable pub step : System A → Turn A → System A × Event A
  unfolding producer_step consumer_step
  step s (produce v) =
      let (q, p, e) = producer_step s.queue v s.producer in
      (record s { queue = q; producer = p }, e)
  step s consume =
      let (q, c, e) = consumer_step s.queue s.consumer in (record s { queue = q; consumer = c }, e)

  unfoldable pub run : System A → List (Turn A) → System A × List (Event A)
  unfolding step
  run s [] = (s, [])
  run s (t ∷ ts) = let (s', e) = step s t in let (s'', es) = run s' ts in (s'', e ∷ es)

  -- the values whose push succeeded, and the values that were popped, in order
  abbrev pub pushes : List (Event A) → List (Option A)
  pushes [] = []
  pushes (push v ∷ es) = some v ∷ pushes es
  pushes (_ ∷ es) = pushes es

  abbrev pub pops : List (Event A) → List (Option A)
  pops [] = []
  pops (pop v ∷ es) = v ∷ pops es
  pops (_ ∷ es) = pops es

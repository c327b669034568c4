-- ===== src/Spsc/Tests.antt =====
-- A schedule of the single-producer single-consumer queue.
use causm.Prelude.{ℕ, ◌+◌, ◌≤◌, ◌≡◌, refl, some, none, List, [], ◌∷◌, ◌++◌, arith}
use causm.Spsc.{
  SpscQueue, Turn, produce, consume, quiet, full, push, pop, empty, new, run, pushes, pops,
}
use causm.Spsc.Invariant.{contents}
use causm.Spsc.Fifo.{start, run_fifo}

abbrev one_cell : SpscQueue ℕ
one_cell = record { size = 1; buffer = none ∷ []; head = 0; tail = 0 }

-- The consumer starts on an empty queue, and the producer's second push finds it full.
abbrev schedule : List (Turn ℕ)
schedule =
    produce 7
    ∷ consume
    ∷ produce 0
    ∷ produce 0
    ∷ consume
    ∷ produce 0
    ∷ consume
    ∷ consume
    ∷ produce 8
    ∷ produce 0
    ∷ produce 0
    ∷ consume
    ∷ consume
    ∷ consume
    ∷ consume
    ∷ []

run_events :
    (run (start one_cell) schedule).1
    ≡ quiet
      ∷ quiet
      ∷ quiet
      ∷ quiet
      ∷ quiet
      ∷ push 7
      ∷ empty
      ∷ quiet
      ∷ quiet
      ∷ quiet
      ∷ full 8
      ∷ quiet
      ∷ quiet
      ∷ pop (some 7)
      ∷ quiet
      ∷ []
unfolding run
run_events = refl

run_fifo_example :
    let (s, es) = run (start one_cell) schedule in
    (pushes es ≡ pops es ++ contents s.queue)
    × (s.queue.head ≤ s.queue.tail)
    × (s.queue.tail ≤ s.queue.head + s.queue.size)
unfolding new
run_fifo_example = run_fifo 1 one_cell schedule refl (omega arith)

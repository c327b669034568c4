-- ===== src/Lib.antt =====
-- Causm: the runtime's memory, mailboxes, queues and timelines, and the solver of its analyses.
--
-- Causm is a language whose values decay, are leased and are consumed once. Its virtual machine
-- (crates/causm-runtime) runs branches of time, called timelines. A timeline keeps a clock, a
-- budget and an arena of registers (crates/causm-core/src/value.rs); its instruction handlers
-- change the registers by the arena's methods. Actors exchange messages through bounded mailboxes
-- and lock-free queues (crates/causm-concurrency). The static analyses ask an SMT solver of the
-- repository's own (crates/causm-smt/src/oxiz) whether a path can violate a bound.
--
-- The files, and the code each is about:
--   Prelude      shared names; words, results, lists, text and association lists.
--   Value        crates/causm-core/src/value.rs: EntropicState, Payload, their weights, the
--                recursive decay. Value/Weight, Value/Maps and Value/Decay hold the lemmas.
--   Arena        value.rs: Arena and its methods on whole registers. A method takes the arena and
--                returns the arena it leaves with its result. Arena/Totals sums weights,
--                Arena/Sound has the accounting invariant, Arena/Keeps the registers that a method
--                leaves alone, Arena/Evict the eviction loop, Arena/Store the insertion that fits.
--   FieldOps     value.rs: peek_field, consume_field, consume_field_entropic.
--   Updates      value.rs: update_field, update_index_field, update_deep_field, deep_set.
--   Memory       histories of calls on one arena (Op, apply, run) and what holds over them:
--                Memory/Sound, Memory/Linear, Memory/Leases and Memory/Watermark;
--                Memory/Frame has what a method leaves alone, for each in Frame/Calls.
--   Mailbox      crates/causm-concurrency/src/mailbox/bounded.rs and policies.rs; Mailbox/Bounds,
--                Mailbox/Order and Mailbox/Calls.
--   Spsc         crates/causm-concurrency/src/queue/spsc.rs: the two threads' calls cut at each
--                access to shared memory, and schedules of them; Spsc/Window has the cells between
--                the counters, Spsc/Invariant what each step keeps, Spsc/Fifo the whole schedule.
--   Sync         crates/causm-concurrency/src/sync.rs: BoundedChannel, the calls of any number of
--                threads cut where they touch shared memory, and a relation of their runs;
--                Sync/Knows and Sync/Steps have single steps, Sync/Fifo and Sync/Close whole runs. Sync/Mutex is
--                Mutex in the same way, with Mutex/Owner.
--   Scheduler    crates/causm-concurrency/src/scheduler: the actor pool and the time slices; an
--                instant and a duration are numbers. Scheduler/Order has histories of calls,
--                Scheduler/Turns a relation of what the loop over the actors does, Scheduler/Heard
--                its invariant, Scheduler/Slices the slices.
--   Timeline     crates/causm-runtime/src/vm/state.rs, error.rs and core.rs: Timeline,
--                consume_budget, decay on access, insertion by the saturation policies, of
--                which Timeline/Insert has the laws.
--   Handlers     crates/causm-runtime/src/vm/handlers/temporal.rs and entropic.rs: Isolate,
--                EndIsolate, AssertTime, Lease, EndLease, PeriodicEpoch, EndPeriodicEpoch, Clone,
--                Anchor, and the restoration that ends Rewind; Handlers/Leases, Handlers/Clock,
--                Handlers/Clones.
--   Entanglement crates/causm-runtime/src/vm/entropy.rs: the search of consume_reg for entangled
--                registers; Entanglement/Search has its rounds, Entanglement/Closure their result.
--   Branches     crates/causm-runtime/src/vm/state.rs, core.rs and entropy.rs: Vm with its
--                branches, and consume_reg over them in Branches/Consume. Branches/Split is
--                split_timeline of branching.rs; Branches/Split/Linked has what it does to the
--                entangled sets, Branches/Split/Fork the whole split. Branches/Merge is
--                resolve_entropic_conflict of branching.rs, with Merge/Union.
--   Smt          crates/causm-smt/src/oxiz. Smt/Ast is ast.rs, with the meaning of formulas in
--                Ast/Meaning; Smt/Build its simplifying constructors, with Build/Sound. The rest
--                is solver.rs: Smt/Eval the evaluators (Eval/Partial, Eval/Exact), Smt/Propagate
--                the propagation (Propagate/Grows and Propagate/Ends for its end, Propagate/Keeps
--                for models), Smt/Bounds the integer unknowns (Bounds/Equations), Smt/Dpll the
--                search (Dpll/Search for its end, Dpll/Clauses, Dpll/Decided and Dpll/Complete for
--                clauses), Smt/Solver the assertions, scopes and checks (Solver/Flat, Solver/Sound,
--                Solver/Decides, Solver/Ground, Solver/Negated, Solver/Scopes). Smt/Names has
--                sets of names.
--   Wcet         crates/causm-wcet/src/wcet.rs with the costs of crates/causm-core/src/lib.rs and
--                crates/causm-types/src/statement.rs (Wcet/Cost): the analysis over an interface of
--                solvers, Wcet/Backend, which is the trait of crates/causm-smt/src/backend.rs with
--                the promises that the analysis relies on. Wcet/Max is its binary search, Wcet/Times
--                the same analysis with numbers, Wcet/Refines the comparison of the two, and
--                Wcet/Oxiz the solver of the repository as an instance of the interface, with the
--                larger of two clocks in Oxiz/Choices.
-- The modules named Tests run the definitions on small inputs.
--
-- How the state corresponds: a struct is a record with the source's fields, an enum a data type
-- with its constructors. A HashMap with text keys is a list of entries of which the first with a
-- key counts. A u64 is a natural number; where the source adds with `+` the sum is reduced modulo
-- 2^64, as the release build does, and the saturating operations are written out. A float is its
-- bit pattern and only moved. `mem::replace` of a register is written as the state that each path
-- leaves in it. Memory of the queue and of the channel is sequentially consistent.
--
-- Bounds: the accounting of the arena is about capacities and states below 2^62 bytes, so that no
-- sum of two wraps; the queue is about fewer than 2^64 steps, so that no counter wraps. Every loop
-- is a recursion on a list or a value, but for three: the `while` of consume_reg has one more round
-- than there are members of all entangled sets, and each round but the last adds one of them; the
-- `while` of the solver's propagate has one more than there are names it can set, and each round
-- but the last sets one; solve_dpll goes one deeper than there are decision variables, each of
-- which is decided once. The order in which a hash set or map is gone through is a parameter of the
-- solver, `iterate`, one function of the members for the whole run; each hash set of the source has
-- a seed of its own. The loop of find_max_value has 65 rounds of fuel: its interval is at most 2^63
-- numbers long, and each round halves it.
--
-- Not modelled: the loop of merge_timelines over the registers of its branches, the interpreter's
-- loop and its decay handlers, the causal rollback of Rewind, the MPMC queue, formatting (Display,
-- render_decay), foreign calls, the frontend, the type checker (of which the analysis of times uses
-- the cost of an expression, a number of each statement here), the optimiser, the relational
-- solver, the bindings to z3 (calls of a library outside the repository) and the tools.
pub mod Prelude
pub mod Value
pub mod Arena
pub mod FieldOps
pub mod Updates
pub mod Memory
pub mod Mailbox
pub mod Timeline
pub mod Handlers
pub mod Spsc
pub mod Entanglement
pub mod Branches
pub mod Smt
pub mod Sync
pub mod Wcet
pub mod Scheduler

-- ===== src/Lib.antt =====
-- BHC_SCHEDULER: the queue, the job life cycle, the machine registry, the allocator, the
-- executor and the scheduler's loop.
--
-- The program is a batch scheduler in one process. A job is created (src/core/job.c), stored in a
-- SQLite database (src/persistence/db.c) and put in a priority queue (src/core/queue.c). The scheduler
-- takes jobs from the queue, the allocator (src/resources/allocator.c) books cores, GPUs, memory and
-- disk for them on the machines of the registry (src/resources/registry.c), the executor
-- (src/core/executor.c) runs and watches their processes, and each change of a job's status goes to the
-- database and to an event stream.
--
-- Which file models what, each under the names of the C functions:
--   Common     byte strings with `strcmp` and `strncpy` into a field, the `int` results, C's `int` as ℤ,
--              arrays as lists, results that may fail
--   Job        include/job.h, and the state machine and the identifiers of src/core/job.c
--   Db         the transactions and the tables of jobs and allocations of src/persistence/db.c
--   Lifecycle  job creation and status changes of src/core/job.c. Children: Transitions
--              (sequences of requests), Persistence (what a change leaves in the tables), Creation
--   Queue      src/core/queue.c. Children: Before (the order), Sift and Sink (the two loops that mend
--              the heap), Extract (taking an entry from the middle), Contents (push and pop), Selection
--              (by predicate, by identifier), Starvation (putting the head back)
--   Registry   src/resources/registry.c. Children: Changes (adding, replacing and removing machines),
--              Booking (reserve and release), Invariant, Upsert, Removal, Calls (any history)
--   Alloc      src/resources/allocator.c. Children: Fit (the allocator's test), Books (what is held
--              against what is reserved), Records (the allocator's table), Balance (each operation),
--              Machines (the registry's operations), Multi and Spread (over several machines),
--              Diagnosis (why a job waits), History (any history), Rollback
--   Dependencies  `db_check_deps_status` of src/persistence/db.c. Child: Verdict
--   Quota      `resolve_quota` and `db_quota_check` of src/persistence/db.c. Children: Limits, Edit
--              (insert, update and delete)
--   Recovery   `db_recover_after_restart` of src/persistence/db.c. Children: Outcome, Retry
--              (`db_retry_job`)
--   Columns    the statements of src/persistence/db.c that write single columns of a job
--   Executor   the table of active executions of src/core/executor.c (POSIX). Children: Finish (what is
--              done when a job has ended), Watch (the watcher thread), Process (`spawn_process`), Launch
--              (`executor_spawn` and the launcher thread), Script (the texts that reach a shell); and
--              for the proofs Table, Effects, Threads, Books, Spawn, Completion, Stopping, Closing, Asking,
--              Shutdown, Contract (what the executor promises), Steps (any history), Quoting
--   Schedule   src/core/scheduler.c: the table of jobs for which a machine was asked for, and the text
--              helpers. Children: Tick (the scan, with the experimental features off, and the dispatch),
--              Loop (a round of the thread: the periodic checks and the scan),
--              Control (cancellation, timeouts, start and stop), Held (the jobs that wait for others or
--              for files); and for the proofs Soundness, Placing, Scanning, Cancelling, Stopping, Restoring,
--              Releasing
--   Decision   src/decision_core_default.c: the map from fidelities to cores, the cores that zones ask for
--              and the selection within a budget; Fidelity and Budget have the proofs
--
-- State is passed explicitly. A function that holds a lock from its start to its end is one step, and a
-- history of calls is a list of steps in the order in which they get the locks; the functions of the
-- allocator hold its lock throughout, except that `alloc_release` unlocks before it marks the rows of
-- the database, which is taken as one step with the rest; so a history interleaves whole calls. A read
-- out of an array, and a loop that runs out of fuel, is `none`; the theorems say that neither happens.
-- `heap_up` has the index plus one as fuel and falls in each round; `heap_down` has the length plus one
-- and rises.
-- The reserved amounts of a machine, its totals and its minimums are never negative, so they are
-- natural numbers; amounts that a caller passes are integers. `int` is not bounded: the registry
-- compares before it adds, so a reserved amount never exceeds a total, which is itself an `int`; the
-- quotas add first, with 32 bits, and the theorem on them asks for sums that fit. A row of the table of
-- jobs may have the status 1 of before version 1, which the enum no longer names.
--
-- In the executor a step is a whole function of one thread, and the launcher is two steps, the start of
-- the process and the end without one: what another thread does between two locked parts of the same
-- function is not seen. The wait of `executor_shutdown` has one more than the number of executions as
-- fuel; each wait is ended by the end of an execution.
--
-- Not modelled: SQLite, cJSON and mongoose are third-party code. An oracle says for each statement
-- whether it succeeds, and flags whether memory is found and what the calls of the operating system
-- answer. Log lines, locks, what a child process does, files, the network and the HTTP routes are left
-- out, as are the Windows side of the executor and what the experimental features add to the scan. What
-- the decision core answers is a parameter of the scheduler; of the core itself, its input file, its
-- floating-point priorities and the JSON that it writes are left out.
pub mod Common
pub mod Job
pub mod Db
pub mod Lifecycle
pub mod Queue
pub mod Registry
pub mod Alloc
pub mod Executor
pub mod Dependencies
pub mod Quota
pub mod Recovery
pub mod Columns
pub mod Schedule
pub mod Decision

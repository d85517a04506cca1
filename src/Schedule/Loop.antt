-- ===== src/Schedule/Loop.antt =====
-- src/core/scheduler.c: one round of `scheduler_thread`, with the experimental features off.
use bhc_scheduler.Common.{
  ℕ, ◌%◌, ◌≤◌, ◌≡◌, refl, ap, Bool, true, ◌==◌, Option, none, some, List, [], ◌∷◌, if◌then◌else◌,
  if_cases, arith, inl, inr, ◌⊎◌,
}
use bhc_scheduler.Common.Fallible.{◌>>=◌, Yields, Yields-some, Yields-bind, Yields-weaken}
use bhc_scheduler.Common.Int.{ℤ}
use bhc_scheduler.Common.Rc.{Rc, ok, error, conflict}
use bhc_scheduler.Common.Text.{CText}
use bhc_scheduler.Job.{Job, created, running, failed}
use bhc_scheduler.Alloc.Balance.{IsBalanced, same-IsBalanced, alloc_release-IsBalanced}
use bhc_scheduler.Executor.{
  ActiveExecution, ExecSystem, find_active, mark_terminated, kill_running, terminate_found,
  active_request_termination, executor_timeout,
}
use bhc_scheduler.Executor.Books.{books}
use bhc_scheduler.Executor.Steps.{IsSound, request-Refines}
use bhc_scheduler.Schedule.Tick.{Surroundings, SchedSystem, db_of, with_db, scan_queue}
use bhc_scheduler.Schedule.Soundness.{IsReady, with_db-IsReady}
use bhc_scheduler.Schedule.Scanning.{load, scan_queue-Within}
use bhc_scheduler.Schedule.Control.{
  db_load_jobs_by_status, timed_out, store_timeout, end_timed_out, check_each, check_loaded,
  scheduler_check_timeouts,
}
use bhc_scheduler.Schedule.Held.{HeldCalls, check_held_each, held_loaded, scheduler_check_held_jobs}
use bhc_scheduler.Schedule.Releasing.{check_held-ReleasedRightly}

-- What the periodic checks read of the rest: whether memory is found for the rows they load, the answers to
-- the check of held jobs, the text of a timeout, and the limit that is configured.
pub record Periodic : Type 0 where
  pub held_memory : Bool
  pub timeout_memory : Bool
  pub held : HeldCalls
  pub timeout_text : Job → CText
  pub job_timeout_seconds : ℤ

abbrev pub periodic_checks : Periodic → SchedSystem → Option SchedSystem
periodic_checks p s = scheduler_check_held_jobs p.held_memory p.held s >>= λ t.
    some (scheduler_check_timeouts p.timeout_memory p.timeout_text p.job_timeout_seconds t)

-- The body of the thread's loop; `tick` is the count after `++tick`.
pub scheduler_tick : Periodic → Surroundings → ℕ → SchedSystem → Option SchedSystem
unfolding scan_queue
scheduler_tick p around tick s =
    let checked = periodic_checks p s >>= scan_queue around in
    if tick % 10 == 0 then checked else scan_queue around s

held_each-IsReady :
    (calls : HeldCalls) (jobs : List Job) (s : SchedSystem)
    → IsReady s
    → Yields IsReady (check_held_each calls jobs s)
unfolding check_held_each
held_each-IsReady calls [] s ready = Yields-some s ready
held_each-IsReady calls (j ∷ jobs) s ready =
    Yields-bind _ _ (check_held-ReleasedRightly calls j s ready)
      λ t (fine, _). held_each-IsReady calls jobs t fine

loaded-IsReady :
    (calls : HeldCalls) (s : SchedSystem) (o : Option (List Job))
    → IsReady s
    → Yields IsReady (held_loaded calls s o)
loaded-IsReady calls s none ready = Yields-some s ready
loaded-IsReady calls s (some jobs) ready = held_each-IsReady calls jobs s ready

held_jobs-IsReady :
    (memory : Bool) (calls : HeldCalls) (s : SchedSystem)
    → IsReady s
    → Yields IsReady (scheduler_check_held_jobs memory calls s)
unfolding scheduler_check_held_jobs
held_jobs-IsReady memory calls s ready =
    let (jobs, d) = db_load_jobs_by_status memory created (db_of s) in
    loaded-IsReady calls (with_db d s) jobs (with_db-IsReady d s ready)

-- The executor's part of the invariant.
abbrev IsRight : ExecSystem → Type 0
IsRight e = IsBalanced e.alloc × IsSound e

mark-books :
    (reason : CText) (e : ActiveExecution) (s : ExecSystem)
    → books (kill_running e.pid (mark_terminated failed reason e s)) ≡ books s
unfolding mark_terminated
mark-books reason e s = ground arith

request-books :
    (reason : CText) (s : ExecSystem) (o : Option ActiveExecution)
    → books (terminate_found failed reason s o).1 ≡ books s
request-books reason s none = refl
request-books reason s (some e) = mark-books reason e s

timeout-IsRight :
    (id reason : CText) (s : ExecSystem)
    → IsRight s
    → IsRight (executor_timeout id (some reason) s).1
unfolding executor_timeout active_request_termination
timeout-IsRight id reason s (balanced, sound) =
    let found = find_active id s.executions in
    let same = request-books reason s found in
    let (order, settled, _) = request-Refines id failed reason s found refl refl sound in
    (same-IsBalanced s.alloc _ (ap (λ b. b.0) same) (ap (λ b. b.1) same) balanced, (order, settled))

stored-IsRight :
    (id reason : CText) (now : ℕ) (e : ExecSystem)
    → IsRight e
    → IsRight (store_timeout id reason now e)
stored-IsRight id reason now e (balanced, sound) =
    (alloc_release-IsBalanced id _ (same-IsBalanced e.alloc _ refl refl balanced), sound)

ended-IsRight :
    (id reason : CText) (now : ℕ) (r : Rc × ExecSystem)
    → IsRight r.1
    → IsRight (end_timed_out id reason now r)
ended-IsRight id reason now (ok, e) right = right
ended-IsRight id reason now (error, e) right = stored-IsRight id reason now e right
ended-IsRight id reason now (conflict, e) right = stored-IsRight id reason now e right

each-IsRight :
    (text : Job → CText) (configured : ℤ) (now : ℕ) (jobs : List Job) (e : ExecSystem)
    → IsRight e
    → IsRight (check_each text configured now jobs e)
unfolding check_each
each-IsRight text configured now [] e right = right
each-IsRight text configured now (j ∷ jobs) e right =
    if_cases (λ (x : ExecSystem). IsRight (check_each text configured now jobs x))
      (timed_out configured now j) _ _
      (λ _. each-IsRight text configured now jobs _ (
        ended-IsRight j.id (text j) now (executor_timeout j.id (some (text j)) e)
          (timeout-IsRight j.id (text j) e right)))
      (λ _. each-IsRight text configured now jobs e right)

check_loaded-IsRight :
    (text : Job → CText) (configured : ℤ) (o : Option (List Job)) (e : ExecSystem)
    → IsRight e
    → IsRight (check_loaded text configured o e)
check_loaded-IsRight text configured none e right = right
check_loaded-IsRight text configured (some jobs) e right =
    each-IsRight text configured e.alloc.db.now jobs e right

timeouts-IsReady :
    (memory : Bool) (text : Job → CText) (configured : ℤ) (s : SchedSystem)
    → IsReady s
    → IsReady (scheduler_check_timeouts memory text configured s)
unfolding scheduler_check_timeouts
timeouts-IsReady memory text configured s ready =
    let (jobs, d) = db_load_jobs_by_status memory running (db_of s) in
    let (valid, balanced, sound) = with_db-IsReady d s ready in
    let (b, o) = check_loaded-IsRight text configured jobs (with_db d s).exec (balanced, sound) in
    (valid, b, o)

-- A round of the scheduler's thread ends without a read out of the queue's array and keeps the invariants of
-- the queue, the allocator and the executor. In a round without the periodic checks, which can queue jobs
-- that were held, there are never more jobs in the queue and under way than there were before.
pub scheduler_tick-IsReady :
    (p : Periodic) (around : Surroundings) (tick : ℕ) (s : SchedSystem)
    → IsReady s
    → Yields
        (λ t. IsReady t × (((tick % 10 == 0) ≡ true) ⊎ (load t ≤ load s)))
        (scheduler_tick p around tick s)
unfolding scheduler_tick
scheduler_tick-IsReady p around tick s ready =
    if_cases (Yields (λ t. IsReady t × (((tick % 10 == 0) ≡ true) ⊎ (load t ≤ load s))))
      (tick % 10 == 0) _ _
      (λ periodic. Yields-bind _ _ (checks-IsReady p s ready) λ t fine.
        Yields-weaken _ (scan_queue-Within around t fine) λ u (kept, _). (kept, inl periodic))
      (λ _. Yields-weaken _ (scan_queue-Within around s ready) λ u (kept, low). (kept, inr low))
  where
    checks-IsReady :
        (p : Periodic) (s : SchedSystem) → IsReady s → Yields IsReady (periodic_checks p s)
    checks-IsReady p s ready =
        Yields-bind _ _ (held_jobs-IsReady p.held_memory p.held s ready) λ t fine.
          Yields-some _
            (timeouts-IsReady p.timeout_memory p.timeout_text p.job_timeout_seconds t fine)

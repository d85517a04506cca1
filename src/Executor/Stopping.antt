-- ===== src/Executor/Stopping.antt =====
-- A request to stop against the start of the process.
use bhc_scheduler.Common.{
  ℕ, ◌<◌, ◌≡◌, refl, ap, true, false, some, List, [], ◌∷◌, ◌++◌, arith, inl, inr, Bool-cases, ◌==◌,
}
use bhc_scheduler.Common.Text.{CText, str_same}
use bhc_scheduler.Job.{JobStatus}
use bhc_scheduler.Executor.{
  ActiveExecution, ExecSystem, find_active, find_execution, put, mark_terminated, kill_running,
  terminate_found, active_request_termination, active_set_process,
}
use bhc_scheduler.Executor.Table.{Ordered-Descending, find_active-own, find_execution-Every}
use bhc_scheduler.Executor.Effects.{Settled, stops, mark_terminated-cases}
use bhc_scheduler.Executor.Threads.{set_process-executions}
use bhc_scheduler.Executor.Steps.{IsSound}
use bhc_scheduler.Executor.Asking.{killed-executions}

-- The last signal went to this process.
abbrev pub LastKilled : ℕ → ExecSystem → Type 0
LastKilled pid s = (before : List ℕ) × (s.killed ≡ before ++ pid ∷ [])

pub find_execution-put :
    (x e : ActiveExecution) (es : List ActiveExecution)
    → find_execution x.handle es ≡ some e
    → find_execution x.handle (put x es) ≡ some x
unfolding find_execution put
find_execution-put x e [] found = cc
find_execution-put x e (y ∷ es) found = ground (arith, find_execution-put x e es)

found_id :
    (id : CText) (es : List ActiveExecution) (e : ActiveExecution)
    → find_active id es ≡ some e
    → str_same e.job.id id ≡ true
unfolding find_active
found_id id [] e found = cc
found_id id (y ∷ es) e found = ground (arith, found_id id es e)

-- A write through the pointer does not hide the execution from a search by its job.
find_active-put :
    (id : CText) (x e : ActiveExecution) (es : List ActiveExecution)
    → find_active id es ≡ some e
    → find_execution e.handle es ≡ some e
    → x.handle ≡ e.handle
    → x.job.id ≡ e.job.id
    → find_active id (put x es) ≡ some x
unfolding find_active find_execution put
find_active-put id x e [] found own same key = cc
find_active-put id x e (y ∷ es) found own same key = elim (Bool-cases (str_same y.job.id id)) [
  | inl here ↦
      let mine : y ≡ e = ground arith in
      let hit : (y.handle == x.handle) ≡ true = rw mine (ground arith) in
      let named : str_same x.job.id id ≡ true = rw (key, ← mine) here in rw hit (rw named refl)
  | inr there ↦ elim (Bool-cases (y.handle == x.handle)) [
    | inl hit ↦
        let same_place : (y.handle == e.handle) ≡ true = rw (← same) hit in
        let mine : some y ≡ some e = rw same_place at own in
        let equal : y ≡ e = ground arith in
        absurd (ground (arith, found_id id es e (rw there at found), rw equal at there))
    | inr miss ↦
        let other : (y.handle == e.handle) ≡ false = rw (← same) miss in
        rw miss
          (rw there (find_active-put id x e es (rw there at found) (rw other at own) same key))
  ]
]

set_process-killed :
    (e : ActiveExecution) (pid : ℕ) (s : ExecSystem)
    → e.termination_requested ≡ true
    → LastKilled pid (active_set_process e pid s)
unfolding active_set_process
set_process-killed e pid s before = rw before (s.killed, refl)

kill_running-killed : (pid : ℕ) (s : ExecSystem) → 0 < pid → LastKilled pid (kill_running pid s)
kill_running-killed pid s positive = (s.killed, ground arith)

pub request_is :
    (job_id : CText) (status : JobStatus) (reason : CText) (s : ExecSystem) (e : ActiveExecution)
    → find_active job_id s.executions ≡ some e
    → (active_request_termination job_id status reason s).1
      ≡ kill_running e.pid (mark_terminated status reason e s)
unfolding active_request_termination
request_is job_id status reason s e found = ap (λ o. (terminate_found status reason s o).1) found

-- Whether a request to stop a job comes before the executor knows the job's process or after, the
-- process is killed.
pub stopped_process_killed :
    (job_id : CText) (status : JobStatus) (reason : CText) (pid : ℕ) (s : ExecSystem)
    → (e : ActiveExecution) → IsSound s
    → find_active job_id s.executions ≡ some e
    → stops status ≡ true
    → 0 < pid
    → ((x : ActiveExecution) × (find_execution e.handle
            (active_request_termination job_id status reason s).1.executions
          ≡ some x)
        × LastKilled pid
            (active_set_process x pid (active_request_termination job_id status reason s).1))
      × LastKilled pid
          (active_request_termination job_id status reason (active_set_process e pid s)).1
stopped_process_killed job_id status reason pid s e (order, settled) found stop positive =
    let (b, d) = Ordered-Descending s.executions order in
    let own = find_active-own job_id b s.executions e d found in
    let mine = find_execution-Every Settled e.handle s.executions e settled own in
    let new : ActiveExecution = record e { pid = pid } in
    let later = active_set_process e pid s in
    let written = set_process-executions e pid s in
    (
      rw (request_is job_id status reason s e found) (
          rw (killed-executions e.pid (mark_terminated status reason e s))
            (elim (mark_terminated-cases status reason e s stop mine) [
              | inl (before, same) ↦ (e, rw same own, set_process-killed e pid _ before)
              | inr (first, (x, stopped, now)) ↦ (
                x,
                rw (now, ← stopped.0) (find_execution-put x e s.executions (rw stopped.0 own)),
                set_process-killed x pid _ stopped.3,
              )
            ])),
      rw
          (request_is job_id status reason later new
            (rw written (find_active-put job_id new e s.executions found own refl refl)))
          (kill_running-killed pid (mark_terminated status reason new later) positive),
    )

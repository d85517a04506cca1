-- ===== src/Schedule/Cancelling.antt =====
-- `scheduler_cancel_job`: a job in the queue, one the executor has, and one that only the database has.
use mathlib.Core.Option
use mathlib.Core.Path.{subst}
use bhc_scheduler.Common.{
  sym, ℕ, ◌<◌, ◌≡◌, refl, ap, true, false, Option, none, some, length, arith, inl, inr, ◌⊎◌,
  if_cases, suc, List,
}
use bhc_scheduler.Common.Fallible.{Yields, Yields-some, Yields-bind}
use bhc_scheduler.Common.Text.{CText, str_same, is_empty, c_text, copy_field}
use bhc_scheduler.Common.Rc.{Rc, ok, error}
use bhc_scheduler.Job.{Job, JobStatus, cancelled, transition_allowed}
use bhc_scheduler.Db.{NoFailure, find_job, db_get_job}
use bhc_scheduler.Lifecycle.{World}
use bhc_scheduler.Lifecycle.Transitions.{job_set_status_r-cases}
use bhc_scheduler.Lifecycle.Persistence.{row_after, accepted_row, other_rows_kept}
use bhc_scheduler.Queue.{Queue}
use bhc_scheduler.Queue.Sift.{nth}
use bhc_scheduler.Queue.Contents.{IsValid}
use bhc_scheduler.Queue.Selection.{FirstWith, TakenFrom, queue_remove-FirstWith}
use bhc_scheduler.Executor.{
  ActiveExecution, ExecSystem, find_active, find_execution, mark_terminated,
  active_request_termination, executor_cancel, terminate_found, world_of, reason_or,
}
use bhc_scheduler.Executor.Table.{
  view_of, Ordered-Descending, find_active-own, find_execution-Every,
}
use bhc_scheduler.Executor.Effects.{Settled, mark_terminated-cases}
use bhc_scheduler.Executor.Contract.{asked, Stopped-view, asked_again}
use bhc_scheduler.Executor.Steps.{IsSound}
use bhc_scheduler.Executor.Asking.{killed-executions}
use bhc_scheduler.Executor.Stopping.{find_execution-put}
use bhc_scheduler.Schedule.Tick.{SchedSystem, db_of, with_db}
use bhc_scheduler.Schedule.Control.{
  is_waiting, cancel_row, cancel_stored, cancel_active, cancel_removed, scheduler_cancel_job,
}

abbrev pub rows_of : SchedSystem → List Job
rows_of s = (db_of s).tables.jobs

-- The job's row, if the table has it, is CANCELLED with the reason; all others are as they were.
abbrev pub RowCancelled : Job → CText → SchedSystem → SchedSystem → Type 0
RowCancelled j reason s t =
    (find_job j.id (rows_of t)
      ≡ Option.map (row_after j cancelled reason (db_of s).now) (find_job j.id (rows_of s)))
    × ((k : CText) → str_same k j.id ≡ false → find_job k (rows_of t) ≡ find_job k (rows_of s))

-- A change of the job to CANCELLED: with the result 0 in its row, otherwise nowhere.
abbrev pub Changed : Job → CText → SchedSystem → Rc → SchedSystem → Type 0
Changed j reason s rc t =
    ((transition_allowed j.status cancelled ≡ true) × (rc ≡ ok) × RowCancelled j reason s t)
    ⊎ ((transition_allowed j.status cancelled ≡ false) × (rc ≡ error) × (rows_of t ≡ rows_of s))

cancel_row-Changed :
    (j : Job) (reason : CText) (s : SchedSystem)
    → NoFailure (db_of s)
    → Changed j reason s (cancel_row j reason s).0 (cancel_row j reason s).1
cancel_row-Changed j reason s fine =
    let w = world_of s.exec in
    let n = (db_of s).statements in
    elim (job_set_status_r-cases j cancelled (some reason) w) [
      | inl (refused, same) ↦ inr (
        refused,
        ap (λ (r : Rc × Job × World). r.0) same,
        ap (λ (r : Rc × Job × World). r.2.db.tables.jobs) same,
      )
      | inr (allowed, done, _) ↦ inl (
        allowed,
        done,
        (
          accepted_row j cancelled (some reason) w allowed (fine n) (fine (suc n)),
          λ k differs. other_rows_kept j cancelled (some reason) w k differs,
        ),
      )
    ]

-- A job that the queue had is out of it and changed, and the executor's table is as it was.
abbrev pub Withdrawn : CText → CText → SchedSystem → Rc → SchedSystem → Type 0
Withdrawn id reason s rc t =
    (at : ℕ) × FirstWith id s.queue.heap at
    × TakenFrom s.queue at (some (nth s.queue.heap at), t.queue)
    × (t.exec.executions ≡ s.exec.executions)
    × Changed (nth s.queue.heap at) reason s rc t

-- The execution was asked to end; a request that came before keeps its outcome.
abbrev pub Asked : CText → CText → SchedSystem → Rc → SchedSystem → Type 0
Asked id reason s rc t =
    (e : ActiveExecution) × (find_active id s.exec.executions ≡ some e)
    × (rc ≡ ok)
    × ((x : ActiveExecution) × (find_execution e.handle t.exec.executions ≡ some x)
        × (view_of x ≡ asked cancelled (copy_field 256 reason) (view_of e)))

-- What becomes of the row that was read: a CREATED or QUEUED job is changed, of any other nothing is.
abbrev pub LookedAt : CText → SchedSystem → Rc → SchedSystem → Option Job → Type 0
LookedAt reason s rc t row =
    ((j : Job) × (row ≡ some j)
      × (is_waiting j.status ≡ true)
      × (rc ≡ ok)
      × RowCancelled j reason s t)
    ⊎ (((j : Job) → row ≡ some j → is_waiting j.status ≡ false)
        × (rc ≡ error)
        × (rows_of t ≡ rows_of s))

-- Only the database can have the job.
abbrev pub Looked : CText → CText → SchedSystem → Rc → SchedSystem → Type 0
Looked id reason s rc t =
    (find_active id s.exec.executions ≡ none)
    × (t.exec.executions ≡ s.exec.executions)
    × LookedAt reason s rc t (find_job id (rows_of s))

abbrev pub NotQueued : CText → SchedSystem → Type 0
NotQueued id s = (k : ℕ) → k < length s.queue.heap → str_same (nth s.queue.heap k).id id ≡ false

waiting-allowed :
    (status : JobStatus) → is_waiting status ≡ true → transition_allowed status cancelled ≡ true
unfolding transition_allowed
waiting-allowed status h = ground arith

-- What `cancel_stored` does: no execution and no queue changes.
abbrev StoredRight : CText → SchedSystem → Option Job → Rc × SchedSystem → Type 0
StoredRight reason s row r =
    (r.1.exec.executions ≡ s.exec.executions)
    × (r.1.queue ≡ s.queue)
    × LookedAt reason s r.0 r.1 row

cancel_stored-Right :
    (reason : CText) (o : Option Job) (s : SchedSystem)
    → NoFailure (db_of s)
    → StoredRight reason s o (cancel_stored reason o s)
cancel_stored-Right reason none s fine = (refl, refl, inr (λ j h. absurd (cc), refl, refl))
cancel_stored-Right reason (some k) s fine =
    if_cases (StoredRight reason s (some k)) (is_waiting k.status) _ _
      (λ waits. (
        refl,
        refl,
        elim (cancel_row-Changed k reason s fine) [
          | inl (_, done, row) ↦ inl (k, refl, waits, done, row)
          | inr (refused, _, _) ↦ absurd (let allowed = waiting-allowed k.status waits in cc)
        ],
      ))
      (λ other. (refl, refl, inr (λ j h. (let same : k ≡ j = cc in rw (← same) other), refl, refl)))

-- The job has an execution: it is asked to end, unless it was asked before.
request-Asked :
    (id : CText) (reason : CText) (s : ExecSystem) (e : ActiveExecution)
    → IsSound s
    → find_active id s.executions ≡ some e
    → (x : ActiveExecution) × (find_execution e.handle
          (terminate_found cancelled reason s (some e)).1.executions
        ≡ some x)
      × (view_of x ≡ asked cancelled (copy_field 256 reason) (view_of e))
request-Asked id reason s e (order, settled) found =
    let (b, d) = Ordered-Descending s.executions order in
    let own = find_active-own id b s.executions e d found in
    let mine = find_execution-Every Settled e.handle s.executions e settled own in
    rw (killed-executions e.pid (mark_terminated cancelled reason e s))
      (elim (mark_terminated-cases cancelled reason e s refl mine) [
        | inl (before, same) ↦
            (e, rw same own, sym (asked_again cancelled (copy_field 256 reason) e before))
        | inr (first, (x, stopped, now)) ↦ (
          x,
          rw (now, ← stopped.0) (find_execution-put x e s.executions (rw stopped.0 own)),
          Stopped-view cancelled reason e x stopped first,
        )
      ])

-- What `scheduler_cancel_job` does with a job that is not in the queue.
found_cases :
    (id reason : CText) (s : SchedSystem) (o : Option ActiveExecution)
    → IsSound s.exec
    → NoFailure (db_of s)
    → find_active id s.exec.executions ≡ o
    → let r = cancel_active id reason (terminate_found cancelled reason s.exec o) s in
      (Asked id reason s r.0 r.1 ⊎ Looked id reason s r.0 r.1) × (r.1.queue ≡ s.queue)
unfolding db_get_job
found_cases id reason s none sound fine missing =
    let (row, d) = db_get_job id (db_of s) in
    let whole : row ≡ find_job id (rows_of s) = rw (fine (db_of s).statements) refl in
    let (kept, same, how) = cancel_stored-Right reason row (with_db d s) fine in
    let r = cancel_stored reason row (with_db d s) in
    (inr (missing, kept, subst (λ o. LookedAt reason s r.0 r.1 o) whole how), same)
found_cases id reason s (some e) sound fine found =
    (inl (e, found, refl, request-Asked id reason s.exec e sound found), refl)

-- The three ways in which a cancellation goes.
abbrev pub Cancelled : CText → CText → SchedSystem → Rc × SchedSystem → Type 0
Cancelled id reason s (rc, t) =
    IsValid t.queue
    × (Withdrawn id reason s rc t
        ⊎ (NotQueued id s
            × (t.queue ≡ s.queue)
            × (Asked id reason s rc t ⊎ Looked id reason s rc t)))

removed_cases :
    (id reason : CText) (s : SchedSystem) (r : Option Job × Queue)
    → IsSound s.exec
    → IsValid s.queue
    → NoFailure (db_of s)
    → ((r ≡ (none, s.queue)) × NotQueued id s)
      ⊎ ((at : ℕ) × FirstWith id s.queue.heap at × TakenFrom s.queue at r)
    → Cancelled id reason s (cancel_removed id reason s r)
unfolding executor_cancel active_request_termination
removed_cases id reason s (some j, q) sound valid fine (inl (same, _)) =
    absurd (let nothing = ap (λ (a : Option Job × Queue). a.0) same in cc)
removed_cases id reason s (some j, q) sound valid fine (inr (at, first, (taken, right))) =
    let it : j ≡ nth s.queue.heap at = let e = taken.job in cc in
    (
      right,
      inl (
        at,
        first,
        rw (← it) (taken, right),
        refl,
        rw (← it) (cancel_row-Changed j reason (record s { queue = q }) fine),
      ),
    )
removed_cases id reason s (none, q) sound valid fine (inr (at, first, (taken, _))) =
    absurd (let e = taken.job in cc)
removed_cases id reason s (none, q) sound valid fine (inl (same, missing)) =
    let own : q ≡ s.queue = ap (λ (a : Option Job × Queue). a.1) same in
    let (how, kept) = found_cases id reason s _ sound fine refl in
    rw own (rw kept valid, inr (missing, kept, how))

-- `scheduler_cancel_job` with an identifier, where no statement fails, on a valid queue and a sound table of
-- executions, ends with a valid queue. If the queue has the job, the first entry with the identifier is
-- taken out and no execution changes. Otherwise the queue is unchanged; a job that the executor has is asked
-- to end, with the result 0. Of any other job the row is read, and no execution changes. In the first and
-- the last case the result 0 means that the job's row, if the table has it, is now CANCELLED, with the reason
-- and the time, and the other rows are as they were; it is given exactly where the queued job may become
-- CANCELLED, or the row that was read is CREATED or QUEUED. Any other result leaves all rows as they were.
pub scheduler_cancel_job-cases :
    (id : CText) (reason : Option CText) (s : SchedSystem)
    → is_empty id ≡ false
    → NoFailure (db_of s)
    → IsValid s.queue
    → IsSound s.exec
    → Yields
        (Cancelled id (reason_or (c_text "Cancelled") reason) s)
        (scheduler_cancel_job id reason s)
unfolding scheduler_cancel_job
scheduler_cancel_job-cases id reason s named fine valid sound = rw named (
    Yields-bind _ _ (queue_remove-FirstWith id s.queue valid) λ r how.
      Yields-some _
        (removed_cases id (reason_or (c_text "Cancelled") reason) s r sound valid fine how))

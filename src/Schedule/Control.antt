-- ===== src/Schedule/Control.antt =====
-- src/core/scheduler.c: what goes on beside the scan: cancellation, timeouts, the start with the queue that
-- the database remembers, and the stop.
use bhc_scheduler.Common.{
  ℕ, zero, suc, ◌+◌, Bool, false, ◌||◌, not, Option, none, some, List, [], ◌∷◌, ltb, leb, length,
  if◌then◌else◌,
}
use bhc_scheduler.Common.Fallible.{◌>>=◌}
use bhc_scheduler.Common.Int.{ℤ, pos, negsuc, ltb_ℤ, eqb_ℤ}
use bhc_scheduler.Common.Text.{CText, c_text, is_empty}
use bhc_scheduler.Common.Rc.{Rc, ok, error}
use bhc_scheduler.Job.{JobStatus, Job, queued, running, cancelled, failed, created, same_status}
use bhc_scheduler.Db.{
  Db, counted, fate_of, db_get_job, db_update_job_status, db_update_status_reason,
}
use bhc_scheduler.Queue.{
  Queue, queue_create, queue_push, queue_remove, queue_try_pop, queue_shutdown, queue_size,
}
use bhc_scheduler.Recovery.{db_recover_after_restart}
use bhc_scheduler.Alloc.{alloc_shutdown}
use bhc_scheduler.Executor.{ExecSystem, change_status, executor_cancel, executor_timeout, reason_or}
use bhc_scheduler.Executor.Finish.{release_job}
use bhc_scheduler.Executor.Threads.{Ending}
use bhc_scheduler.Executor.Shutdown.{executor_shutdown}
use bhc_scheduler.Schedule.Tick.{SchedSystem, db_of, with_db, note_reason}

-- `job_set_status_r`, whose job is freed afterwards.
abbrev pub cancel_row : Job → CText → SchedSystem → Rc × SchedSystem
cancel_row j reason s =
    let (rc, _, e) = change_status j cancelled reason s.exec in (rc, record s { exec = e })

abbrev pub is_waiting : JobStatus → Bool
is_waiting status = same_status status created || same_status status queued

-- A job that neither the queue nor the executor has.
abbrev pub cancel_stored : CText → Option Job → SchedSystem → Rc × SchedSystem
cancel_stored reason none s = (error, s)
cancel_stored reason (some j) s = if is_waiting j.status then cancel_row j reason s else (error, s)

abbrev pub cancel_active : CText → CText → Rc × ExecSystem → SchedSystem → Rc × SchedSystem
cancel_active job_id reason (ok, e) s = (ok, record s { exec = e })
cancel_active job_id reason (_, e) s =
    let t : SchedSystem = record s { exec = e } in
    let (row, d) = db_get_job job_id (db_of t) in cancel_stored reason row (with_db d t)

abbrev pub cancel_removed : CText → CText → SchedSystem → Option Job × Queue → Rc × SchedSystem
cancel_removed job_id reason s (some j, q) = cancel_row j reason (record s { queue = q })
cancel_removed job_id reason s (none, q) =
    cancel_active job_id reason (executor_cancel job_id (some reason) s.exec)
      (record s { queue = q })

-- `scheduler_cancel_job` with the queue created; `none` is a read out of the queue's array.
unfoldable pub scheduler_cancel_job : CText → Option CText → SchedSystem → Option (Rc × SchedSystem)
scheduler_cancel_job job_id reason s =
    let text = reason_or (c_text "Cancelled") reason in
    if is_empty job_id
    then some (error, s)
    else queue_remove job_id s.queue >>= λ removed. some (cancel_removed job_id text s removed)

-- `ORDER BY priority ASC, submitted_at ASC`
abbrev pub row_before : Job → Job → Bool
row_before a b =
    if eqb_ℤ a.priority b.priority
    then ltb a.submitted_at b.submitted_at
    else ltb_ℤ a.priority b.priority

abbrev pub insert_row : Job → List Job → List Job
insert_row j [] = j ∷ []
insert_row j (k ∷ rows) =
    let later = insert_row j rows in if row_before k j then k ∷ later else j ∷ k ∷ rows

abbrev pub sort_rows : List Job → List Job
sort_rows [] = []
sort_rows (j ∷ rows) = insert_row j (sort_rows rows)

abbrev pub rows_with : JobStatus → List Job → List Job
rows_with status [] = []
rows_with status (j ∷ rows) =
    let later = rows_with status rows in
    if same_status j.status status then record j { batch_id = [] } ∷ later else later

-- The second query, once some rows were counted: `memory` is the result of `calloc`.
abbrev pub load_rows : Bool → JobStatus → Db → Option (List Job) × Db
load_rows memory status d =
    let prepared = fate_of d in
    let stepped = fate_of (counted d) in
    if not memory then (none, d) else if not prepared then (none, counted d) else (
      some (if stepped then sort_rows (rows_with status d.tables.jobs) else []),
      counted (counted d),
    )

-- `db_load_jobs_by_status`: `none` is the result -1. A count that cannot be read counts as 0. The order of
-- rows that agree in both columns is that of the table; `batch_id` is not among the columns.
unfoldable pub db_load_jobs_by_status : Bool → JobStatus → Db → Option (List Job) × Db
db_load_jobs_by_status memory status d =
    let stepped = fate_of (counted d) in
    let after = counted (counted d) in
    if fate_of d
    then (if stepped
        then (if ltb 0 (length (rows_with status d.tables.jobs))
            then load_rows memory status after
            else (some [], after))
        else (some [], after))
    else (none, counted d)

-- The job's own limit, or the one that is configured.
abbrev pub limit_of : ℤ → Job → ℤ
limit_of configured j = if ltb_ℤ (pos 0) j.timeout_seconds then j.timeout_seconds else configured

-- `elapsed >= limit`, for a limit that is positive and a job that has a start time.
unfoldable pub timed_out : ℤ → ℕ → Job → Bool
timed_out configured now j = elim (limit_of configured j) [
  | pos (suc n) ↦ if ltb 0 j.started_at then leb (j.started_at + suc n) now else false
  | _ ↦ false
]

abbrev pub store_timeout : CText → CText → ℕ → ExecSystem → ExecSystem
store_timeout job_id reason now e =
    let marked = (db_update_job_status job_id failed (negsuc 0) now e.alloc.db).1 in
    let named = (db_update_status_reason job_id reason marked).1 in
    release_job job_id (record e { alloc = record (e.alloc) { db = named } })

-- A job that the executor does not have is only marked, and its reservation released.
abbrev pub end_timed_out : CText → CText → ℕ → Rc × ExecSystem → ExecSystem
end_timed_out job_id reason now (ok, e) = e
end_timed_out job_id reason now (_, e) = store_timeout job_id reason now e

-- The loop over the running jobs; `text` prints the reason.
unfoldable pub check_each : (Job → CText) → ℤ → ℕ → List Job → ExecSystem → ExecSystem
unfolding timed_out
check_each text configured now [] e = e
check_each text configured now (j ∷ jobs) e =
    let stopped = end_timed_out j.id (text j) now (executor_timeout j.id (some (text j)) e) in
    check_each text configured now jobs (if timed_out configured now j then stopped else e)

abbrev pub check_loaded : (Job → CText) → ℤ → Option (List Job) → ExecSystem → ExecSystem
check_loaded text configured none e = e
check_loaded text configured (some jobs) e = check_each text configured e.alloc.db.now jobs e

-- `scheduler_check_timeouts`, with the experimental features off.
unfoldable pub scheduler_check_timeouts : Bool → (Job → CText) → ℤ → SchedSystem → SchedSystem
scheduler_check_timeouts memory text configured s =
    let (jobs, d) = db_load_jobs_by_status memory running (db_of s) in
    let t = with_db d s in record t { exec = check_loaded text configured jobs t.exec }

abbrev pub give_up_row : CText → CText → SchedSystem → SchedSystem
give_up_row job_id reason s =
    let marked = (db_update_job_status job_id failed (negsuc 0) (db_of s).now (db_of s)).1 in
    note_reason job_id reason (with_db marked s)

abbrev pub restore_pushed : Job → SchedSystem → Rc × Queue → SchedSystem
restore_pushed j s (ok, q) = record s { queue = q }
restore_pushed j s (_, q) =
    give_up_row j.id (c_text "Failed to restore scheduler queue") (record s { queue = q })

-- The loop of `scheduler_init`; `memory` says for each job whether `malloc` succeeds.
unfoldable pub restore_queue : (Job → Bool) → List Job → SchedSystem → Option SchedSystem
restore_queue memory [] s = some s
restore_queue memory (j ∷ jobs) s =
    let skipped =
      restore_queue memory jobs
        (give_up_row j.id (c_text "Out of memory during startup recovery") s) in
    let pushed = queue_push s.queue_memory s.queue j >>= λ r.
    restore_queue memory jobs (restore_pushed j s r) in
    if memory j then pushed else skipped

abbrev pub restore_loaded : (Job → Bool) → SchedSystem → Option (List Job) → Option SchedSystem
restore_loaded memory s none = some s
restore_loaded memory s (some jobs) = restore_queue memory jobs s

-- `scheduler_init`
unfoldable pub scheduler_init : Bool → (Job → Bool) → SchedSystem → Option SchedSystem
unfolding db_load_jobs_by_status restore_queue
scheduler_init load_memory memory s =
    let fresh : SchedSystem = record s { queue = queue_create 64 } in
    let recovered = (db_recover_after_restart (db_of fresh)).1 in
    let (jobs, d) = db_load_jobs_by_status load_memory queued recovered in
    restore_loaded memory (with_db d fresh) jobs

abbrev pub drained :
    (SchedSystem → Option SchedSystem) → SchedSystem → Option Job × Queue → Option SchedSystem
drained next s (none, q) = some (record s { queue = q })
drained next s (some _, q) = next (record s { queue = q })

-- `while ((queued = queue_try_pop(s_queue)) != NULL) job_free(queued);`
unfoldable pub drain : ℕ → SchedSystem → Option SchedSystem
drain zero s = none
drain (suc fuel) s = queue_try_pop s.queue >>= drained (λ t. drain fuel t) s

abbrev pub stop_drained : SchedSystem → SchedSystem
stop_drained s = record s { exec = record (s.exec) { alloc = alloc_shutdown s.exec.alloc } }

-- `scheduler_stop` after the thread was joined: `next` and the fuel are those of `executor_shutdown`.
unfoldable pub scheduler_stop : (ExecSystem → Ending) → ℕ → SchedSystem → Option SchedSystem
unfolding drain
scheduler_stop next fuel s = do
  e ← executor_shutdown next fuel s.exec
  t ←
      drain (suc (queue_size s.queue))
        (record s { exec = e; queue = queue_shutdown s.queue; is_running = false })
  some (stop_drained t)

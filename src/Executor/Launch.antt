-- ===== src/Executor/Launch.antt =====
-- src/core/executor.c (POSIX): `executor_spawn` and the launcher thread that it leaves the job to.
use bhc_scheduler.Common.{ℕ, Bool, false, not, Option, none, some, if◌then◌else◌}
use bhc_scheduler.Common.Text.{CText, c_text, has_text}
use bhc_scheduler.Common.Rc.{Rc, ok, error}
use bhc_scheduler.Job.{JobStatus, Job, queued, running, cancelled, failed, same_status}
use bhc_scheduler.Db.{Db, db_get_job, db_update_job_started}
use bhc_scheduler.Lifecycle.{World, job_set_status, store_dir}
use bhc_scheduler.Executor.{
  ActiveExecution, ExecSystem, world_of, in_world, change_status, find_execution, store,
  active_register, active_unregister, active_terminal_snapshot, fresh_execution,
}
use bhc_scheduler.Executor.Finish.{release_job, finish_without_process}
use bhc_scheduler.Executor.Watch.{WatchArg}
use bhc_scheduler.Executor.Process.{Host, spawn_process}

abbrev launch_spawned :
    ActiveExecution → Rc × Option WatchArg × ExecSystem → Option WatchArg × ExecSystem
launch_spawned e (ok, wa, s) = (wa, s)
launch_spawned e (_, wa, s) = (
  none,
  finish_without_process e failed
      (if has_text e.job.status_reason
        then e.job.status_reason
        else c_text "Failed to spawn process")
      s,
)

abbrev launch_asked :
    Host → ActiveExecution → ExecSystem → Option (JobStatus × CText) → Option WatchArg × ExecSystem
launch_asked host e s (some _) =
    (none, finish_without_process e cancelled (c_text "Cancelled before launch") s)
launch_asked host e s none = launch_spawned e (spawn_process host e s)

abbrev launch_found : Host → ExecSystem → Option ActiveExecution → Option WatchArg × ExecSystem
launch_found host s none = (none, s)
launch_found host s (some e) = launch_asked host e s (active_terminal_snapshot e)

-- `launcher_thread` on the execution with the address: the watcher that it leaves behind, if any.
unfoldable pub launcher_thread : Host → ℕ → ExecSystem → Option WatchArg × ExecSystem
unfolding active_terminal_snapshot spawn_process finish_without_process
launcher_thread host h s = launch_found host s (find_execution h s.executions)

-- How the calls of `executor_spawn` end: `calloc`, `store_init_job_dirs`, `malloc`, `pthread_create`.
pub record SpawnCalls : Type 0 where
  pub execution_memory : Bool
  pub storage_ok : Bool
  pub launch_memory : Bool
  pub thread_ok : Bool

-- The execution and its reservation are given up; the job is freed.
abbrev pub give_up : ℕ → Job → ExecSystem → Rc × ExecSystem
give_up h j s = (error, active_unregister h (release_job j.id s))

abbrev pub spawn_started : SpawnCalls → ActiveExecution → Rc × Db → ExecSystem → Rc × ExecSystem
spawn_started calls e (ok, d) s =
    let t = store e (record s { alloc = record (s.alloc) { db = d } }) in
    if not calls.launch_memory
    then (error, finish_without_process e failed (c_text "Out of memory") t)
    else if not calls.thread_ok
    then (error, finish_without_process e failed (c_text "Failed to create launcher thread") t)
    else (ok, t)
spawn_started calls e (_, d) s = (
  error,
  finish_without_process e failed (c_text "Failed to persist job start")
      (store e (record s { alloc = record (s.alloc) { db = d } })),
)

abbrev pub spawn_running : SpawnCalls → ℕ → Rc × Job × World → ExecSystem → Rc × ExecSystem
spawn_running calls h (ok, j, w) s =
    let t = in_world s w in
    let now = t.alloc.db.now in
    let e = fresh_execution h (record j { started_at = now }) in
    spawn_started calls e (db_update_job_started j.id j.machine_id now t.alloc.db) t
spawn_running calls h (_, j, w) s = give_up h j (in_world s w)

abbrev pub spawn_stored : SpawnCalls → ℕ → Job → ExecSystem → Rc × ExecSystem
spawn_stored calls h j s =
    if calls.storage_ok
    then (let placed = record j {
      input_dir = store_dir s.config.work_dir j.id (c_text "input");
      output_dir = store_dir s.config.work_dir j.id (c_text "output");
    } in
        spawn_running calls h (job_set_status placed running (world_of s)) s)
    else give_up h j (change_status j failed (c_text "Failed to initialize job storage") s).2

abbrev pub is_queued : Option Job → Bool
is_queued none = false
is_queued (some row) = same_status row.status queued

abbrev pub spawn_registered : SpawnCalls → Job → Option ℕ × ExecSystem → Rc × ExecSystem
spawn_registered calls j (none, s) =
    (error, release_job j.id (change_status j failed (c_text "Executor unavailable") s).2)
spawn_registered calls j (some h, s) =
    let (current, d) = db_get_job j.id s.alloc.db in
    let t = record s { alloc = record (s.alloc) { db = d } } in
    if is_queued current then spawn_stored calls h j t else give_up h j t

-- `executor_spawn`, to which the job is given away.
unfoldable pub executor_spawn : SpawnCalls → Job → ExecSystem → Rc × ExecSystem
unfolding active_register finish_without_process active_unregister
executor_spawn calls j s = spawn_registered calls j (active_register calls.execution_memory j s)

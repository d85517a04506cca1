-- ===== src/Executor.antt =====
-- src/core/executor.c (POSIX): the table of active executions and the jobs that they own.
-- An execution is known by its address, here a number that no other execution of the table has; its
-- job stands in it. The lock is held throughout each of the functions of this file.
pub mod Finish
pub mod Books
pub mod Script
pub mod Watch
pub mod Process
pub mod Launch
pub mod Quoting
pub mod Table
pub mod Effects
pub mod Spawn
pub mod Threads
pub mod Contract
pub mod Closing
pub mod Asking
pub mod Shutdown
pub mod Steps
pub mod Stopping
pub mod Completion
pub mod Samples
mod Tests
use bhc_scheduler.Common.{
  ℕ, suc, Bool, true, false, ◌&&◌, ◌||◌, not, Option, none, some, List, [], ◌∷◌, ◌++◌, ltb, ◌==◌,
  if◌then◌else◌,
}
use bhc_scheduler.Common.Int.{ℤ, pos, negsuc}
use bhc_scheduler.Common.Text.{CText, c_text, str_same, copy_field, is_empty}
use bhc_scheduler.Common.Rc.{Rc, ok, error}
use bhc_scheduler.Job.{JobStatus, Job, queued, running, succeeded, cancelled, failed, same_status}
use bhc_scheduler.Db.{Db, execute}
use bhc_scheduler.Lifecycle.{JobEvent, World, job_set_status_r}
use bhc_scheduler.Registry.{Machine, MachineType, cloud, registry_get_copy}
use bhc_scheduler.Alloc.{AllocSystem, alloc_release}

pub record ActiveExecution : Type 0 where
  pub handle : ℕ
  pub job : Job
  pub termination_requested : Bool
  pub terminal_status : JobStatus
  pub terminal_reason : CText
  pub pid : ℕ

-- The settings that the executor reads, and whether the provider takes an instance down.
pub record ExecConfig : Type 0 where
  pub experimental_features_enabled : Bool
  pub cloud_auto_deprovision : Bool
  pub cloud_deprovision : CText → CText → Bool
  pub ssh_user : CText
  pub ssh_key : CText
  pub ssh_shell : CText
  pub temp_dir : CText
  pub ssh_remote_work_dir : CText
  pub work_dir : CText

-- `killed` lists the processes that were sent a signal, `deprovisioned` the instances taken down.
pub record ExecSystem : Type 0 where
  pub executions : List ActiveExecution
  pub shutting_down : Bool
  pub alloc : AllocSystem
  pub events : List JobEvent
  pub event_memory : Bool
  pub killed : List ℕ
  pub deprovisioned : List CText
  pub config : ExecConfig

abbrev pub world_of : ExecSystem → World
world_of s = record { db = s.alloc.db; events = s.events; event_memory = s.event_memory }

abbrev pub in_world : ExecSystem → World → ExecSystem
in_world s w = record s {
  alloc = record (s.alloc) { db = w.db };
  events = w.events;
  event_memory = w.event_memory;
}

-- `job_set_status_r` on a job, in the world of the executor.
abbrev pub change_status : Job → JobStatus → CText → ExecSystem → Rc × Job × ExecSystem
change_status j status reason s =
    let (rc, j', w) = job_set_status_r j status (some reason) (world_of s) in (rc, j', in_world s w)

unfoldable pub find_execution : ℕ → List ActiveExecution → Option ActiveExecution
find_execution h [] = none
find_execution h (e ∷ es) = if e.handle == h then some e else find_execution h es

-- A write through the pointer to an execution.
unfoldable pub put : ActiveExecution → List ActiveExecution → List ActiveExecution
put new [] = []
put new (e ∷ es) = if e.handle == new.handle then new ∷ es else e ∷ put new es

abbrev pub store : ActiveExecution → ExecSystem → ExecSystem
store e s = record s { executions = put e s.executions }

abbrev pub fresh_execution : ℕ → Job → ActiveExecution
fresh_execution h j = record {
  handle = h;
  job = j;
  termination_requested = false;
  terminal_status = queued;
  terminal_reason = [];
  pid = 0;
}

-- The address of a new execution is that of no other; the newest execution stands first.
abbrev pub fresh_handle : List ActiveExecution → ℕ
fresh_handle [] = 0
fresh_handle (e ∷ es) = suc e.handle

-- `active_register`: `memory` says whether `calloc` succeeds.
unfoldable pub active_register : Bool → Job → ExecSystem → Option ℕ × ExecSystem
active_register memory j s =
    if not memory then (none, s) else if s.shutting_down then (none, s) else (
      some (fresh_handle s.executions),
      record s { executions = fresh_execution (fresh_handle s.executions) j ∷ s.executions },
    )

unfoldable pub without : ℕ → List ActiveExecution → List ActiveExecution
without h [] = []
without h (e ∷ es) = if e.handle == h then es else e ∷ without h es

-- `active_unregister`
unfoldable pub active_unregister : ℕ → ExecSystem → ExecSystem
unfolding without
active_unregister h s = record s { executions = without h s.executions }

-- `active_terminal_snapshot`: the status and the reason that were asked for.
unfoldable pub active_terminal_snapshot : ActiveExecution → Option (JobStatus × CText)
active_terminal_snapshot e =
    if e.termination_requested then some (e.terminal_status, e.terminal_reason) else none

-- SIGTERM and SIGKILL to a process and its group.
abbrev pub kill : ℕ → ExecSystem → ExecSystem
kill pid s = record s { killed = s.killed ++ pid ∷ [] }

-- `active_set_process`: a request that came before the process kills it.
unfoldable pub active_set_process : ActiveExecution → ℕ → ExecSystem → ExecSystem
active_set_process e pid s =
    let t = store (record e { pid = pid }) s in if e.termination_requested then kill pid t else t

-- `active_clear_process`
unfoldable pub active_clear_process : ActiveExecution → ExecSystem → ExecSystem
active_clear_process e s = store (record e { pid = 0 }) s

-- `strcmp(execution->job->id, job_id)` along the list.
unfoldable pub find_active : CText → List ActiveExecution → Option ActiveExecution
find_active job_id [] = none
find_active job_id (e ∷ es) = if str_same e.job.id job_id then some e else find_active job_id es

abbrev pub is_live : JobStatus → Bool
is_live status = same_status status queued || same_status status running

abbrev pub requested : JobStatus → CText → ActiveExecution → ActiveExecution
requested status reason e = record e {
  termination_requested = true;
  terminal_status = status;
  terminal_reason = copy_field 256 reason;
  job = record (e.job) { exit_code = negsuc 0 };
}

-- The first request writes the outcome into the execution and into the job; later ones do nothing.
unfoldable pub mark_terminated : JobStatus → CText → ActiveExecution → ExecSystem → ExecSystem
mark_terminated status reason e s =
    let asked = requested status reason e in
    if e.termination_requested
    then s
    else if is_live e.job.status
    then (let (_, j, t) = change_status asked.job status (copy_field 256 reason) s in
        store (record asked { job = j }) t)
    else store asked s

abbrev pub kill_running : ℕ → ExecSystem → ExecSystem
kill_running pid s = if ltb 0 pid then kill pid s else s

abbrev pub terminate_found :
    JobStatus → CText → ExecSystem → Option ActiveExecution → Rc × ExecSystem
terminate_found status reason s none = (error, s)
terminate_found status reason s (some e) =
    (ok, kill_running e.pid (mark_terminated status reason e s))

-- `active_request_termination`
unfoldable pub active_request_termination : CText → JobStatus → CText → ExecSystem → Rc × ExecSystem
unfolding find_active mark_terminated
active_request_termination job_id status reason s =
    terminate_found status reason s (find_active job_id s.executions)

abbrev pub reason_or : CText → Option CText → CText
reason_or otherwise none = otherwise
reason_or otherwise (some r) = r

-- `executor_cancel`
unfoldable pub executor_cancel : CText → Option CText → ExecSystem → Rc × ExecSystem
executor_cancel job_id reason =
    active_request_termination job_id cancelled (reason_or (c_text "Cancelled") reason)

-- `executor_timeout`
unfoldable pub executor_timeout : CText → Option CText → ExecSystem → Rc × ExecSystem
executor_timeout job_id reason =
    active_request_termination job_id failed (reason_or (c_text "Timed out") reason)

abbrev pub is_ok : Rc → Bool
is_ok ok = true
is_ok _ = false

-- `executor_terminate`
pub executor_terminate : CText → ExecSystem → Bool × ExecSystem
executor_terminate job_id s =
    let (rc, t) = active_request_termination job_id cancelled (c_text "Terminated") s in
    (is_ok rc, t)

-- `executor_is_active`
unfoldable pub executor_is_active : CText → List ActiveExecution → Bool
executor_is_active job_id [] = false
executor_is_active job_id (e ∷ es) =
    if str_same e.job.id job_id then true else executor_is_active job_id es

-- The loop of `executor_shutdown` over the executions of the table.
unfoldable pub shutdown_each : List ActiveExecution → ExecSystem → ExecSystem
unfolding mark_terminated
shutdown_each [] s = s
shutdown_each (e ∷ es) s =
    shutdown_each es
      (kill_running e.pid (mark_terminated cancelled (c_text "Orchestrator shutting down") e s))

-- `executor_shutdown` up to its wait.
unfoldable pub shutdown_begin : ExecSystem → ExecSystem
unfolding shutdown_each
shutdown_begin s = shutdown_each s.executions (record s { shutting_down = true })

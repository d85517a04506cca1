-- ===== src/Executor/Finish.antt =====
-- src/core/executor.c: what is done once the job of an execution has ended, and the end of an execution
-- that never had a process.
use bhc_scheduler.Common.{
  Bool, true, false, ◌&&◌, ◌||◌, not, Option, none, some, [], ◌∷◌, ◌++◌, ◌==◌, if◌then◌else◌,
}
use bhc_scheduler.Common.Int.{negsuc}
use bhc_scheduler.Common.Text.{CText, copy_field, is_empty}
use bhc_scheduler.Job.{JobStatus, Job, succeeded, cancelled, failed, same_status}
use bhc_scheduler.Db.{execute}
use bhc_scheduler.Registry.{Machine, MachineType, cloud, registry_get_copy}
use bhc_scheduler.Alloc.{alloc_release}
use bhc_scheduler.Executor.{
  ActiveExecution, ExecSystem, change_status, active_unregister, active_terminal_snapshot,
}

abbrev is_cloud : MachineType → Bool
is_cloud cloud = true
is_cloud _ = false

abbrev pub holds_nothing : Machine → Bool
holds_nothing m =
    (m.cores_reserved == 0)
    && (m.ram_mb_reserved == 0)
    && (m.disk_mb_reserved == 0)
    && (m.gpu_count_reserved == 0)

-- The row that `db_insert_event` adds is of a table that is not modelled.
abbrev pub deprovision : Machine → ExecSystem → ExecSystem
deprovision m s =
    if s.config.cloud_deprovision m.cloud_provider m.cloud_instance_id
    then record s {
      deprovisioned = s.deprovisioned ++ m.id ∷ [];
      alloc = record (s.alloc) { db = (execute (λ t. t) s.alloc.db).1 };
    }
    else s

abbrev pub deprovision_idle : ExecSystem → Option Machine → ExecSystem
deprovision_idle s none = s
deprovision_idle s (some m) = if is_cloud m.type && holds_nothing m then deprovision m s else s

-- `maybe_auto_deprovision`
unfoldable pub maybe_auto_deprovision : CText → ExecSystem → ExecSystem
maybe_auto_deprovision machine_id s =
    if not (s.config.experimental_features_enabled && s.config.cloud_auto_deprovision)
    then s
    else if is_empty machine_id
    then s
    else deprovision_idle s (registry_get_copy machine_id s.alloc.machines)

-- `alloc_release`, whose result is not looked at.
abbrev pub release_job : CText → ExecSystem → ExecSystem
release_job job_id s = record s { alloc = (alloc_release job_id s.alloc).1 }

abbrev pub asked_or : JobStatus → CText → Option (JobStatus × CText) → JobStatus × CText
asked_or status reason none = (status, copy_field 256 reason)
asked_or status reason (some asked) = asked

abbrev pub has_ended : JobStatus → Bool
has_ended status =
    same_status status succeeded || same_status status failed || same_status status cancelled

-- The job is ended, if it was not, with the outcome given.
unfoldable pub end_job : Job → JobStatus × CText → ExecSystem → ExecSystem
end_job j (status, reason) s =
    if has_ended j.status
    then s
    else (change_status (record j { exit_code = negsuc 0 }) status reason s).2

-- What becomes of an execution whose job has ended: its reservation and its entry go.
unfoldable pub retire : ActiveExecution → ExecSystem → ExecSystem
unfolding active_unregister maybe_auto_deprovision
retire e s =
    active_unregister e.handle (maybe_auto_deprovision e.job.machine_id (release_job e.job.id s))

-- `finish_without_process`
unfoldable pub finish_without_process :
    ActiveExecution → JobStatus → CText → ExecSystem → ExecSystem
unfolding active_terminal_snapshot end_job retire
finish_without_process e status reason s =
    retire e (end_job e.job (asked_or status reason (active_terminal_snapshot e)) s)

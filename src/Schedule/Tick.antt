-- ===== src/Schedule/Tick.antt =====
-- src/core/scheduler.c: the scan of the queue in a tick of the scheduler's thread, with the experimental
-- features off. `Surroundings` holds what the scan reads of the rest: the answers of the system to `executor_spawn`,
-- and the texts that `db_quota_check` and `alloc_diagnose` print.
use bhc_scheduler.Common.{ℕ, zero, suc, Bool, true, false, ◌&&◌, Option, none, some, if◌then◌else◌}
use bhc_scheduler.Common.Fallible.{◌>>=◌}
use bhc_scheduler.Common.Text.{CText, c_text, copy_field, is_empty, has_text}
use bhc_scheduler.Common.Rc.{Rc, ok}
use bhc_scheduler.Job.{Job}
use bhc_scheduler.Db.{Db, execute, db_get_job, db_update_status_reason}
use bhc_scheduler.Queue.{Queue, queue_push, queue_try_pop, queue_size}
use bhc_scheduler.Quota.{db_quota_check}
use bhc_scheduler.Registry.{
  Machine, MachineStatus, MachineType, static, offline, Demand, registry_get_copy,
}
use bhc_scheduler.Alloc.{AllocSystem, alloc_can_fit, alloc_reserve, alloc_reserve_on}
use bhc_scheduler.Executor.{ExecSystem}
use bhc_scheduler.Executor.Finish.{release_job}
use bhc_scheduler.Executor.Launch.{SpawnCalls, is_queued, executor_spawn}

pub record Surroundings : Type 0 where
  pub calls : SpawnCalls
  pub quota_text : CText
  pub diagnosis_text : CText

-- `queue_memory` says whether the queue's array can grow.
pub record SchedSystem : Type 0 where
  pub exec : ExecSystem
  pub queue : Queue
  pub queue_memory : Bool
  pub is_running : Bool

abbrev pub db_of : SchedSystem → Db
db_of s = s.exec.alloc.db

abbrev pub with_alloc : AllocSystem → SchedSystem → SchedSystem
with_alloc a s = record s { exec = record (s.exec) { alloc = a } }

abbrev pub with_db : Db → SchedSystem → SchedSystem
with_db d s = with_alloc (record (s.exec.alloc) { db = d }) s

-- `db_update_status_reason`, whose result is not looked at.
abbrev pub note_reason : CText → CText → SchedSystem → SchedSystem
note_reason id text s = with_db (db_update_status_reason id text (db_of s)).1 s

-- `queue_push(s_queue, job)`, whose result is not looked at.
unfoldable pub requeue : Job → SchedSystem → Option SchedSystem
requeue j s = do (rc, q) ← queue_push s.queue_memory s.queue j; some (record s { queue = q })

abbrev pub dispatch_current : SpawnCalls → Job → Option Job × Db → ExecSystem → ExecSystem
dispatch_current calls j (current, d) e =
    let t : ExecSystem = record e { alloc = record (e.alloc) { db = d } } in
    if is_queued current then (executor_spawn calls j t).1 else release_job j.id t

-- `scheduler_dispatch`
unfoldable pub scheduler_dispatch : SpawnCalls → Job → ExecSystem → ExecSystem
scheduler_dispatch calls j e = dispatch_current calls j (db_get_job j.id e.alloc.db) e

-- A job with its machine: `db_insert_event` writes a table that is not modelled, then the dispatch.
abbrev pub send_off : Surroundings → Job → SchedSystem → SchedSystem
send_off around j s =
    let recorded = with_db (execute (λ t. t) (db_of s)).1 s in
    record recorded { exec = scheduler_dispatch around.calls j recorded.exec }

abbrev pub demand_of : Job → Demand
demand_of j = record {
  cores = j.req_cores;
  gpu = j.req_gpu;
  ram_mb = j.req_ram_mb;
  disk_mb = j.req_disk_mb;
}

abbrev is_static : MachineType → Bool
is_static static = true
is_static _ = false

abbrev is_offline : MachineStatus → Bool
is_offline offline = true
is_offline _ = false

abbrev pub unreachable : Option Machine → Bool
unreachable none = false
unreachable (some m) = is_static m.type && is_offline m.probe_status

-- After `alloc_reserve`.
abbrev pub placed :
    Surroundings → Job → SchedSystem → Rc × Option CText × AllocSystem → Option SchedSystem
placed around j s (ok, some machine_id, a) =
    let t = with_alloc a s in
    if unreachable (registry_get_copy machine_id a.machines)
    then requeue j (record t { exec = release_job j.id t.exec })
    else some (send_off around (record j { machine_id = copy_field 64 machine_id }) t)
placed around j s (_, _, a) = requeue j (with_alloc a s)

-- Any machine that fits.
unfoldable pub scan_anywhere : Surroundings → Job → SchedSystem → Option SchedSystem
unfolding scheduler_dispatch requeue
scan_anywhere around j s =
    if alloc_can_fit (demand_of j) s.exec.alloc
    then placed around j s (alloc_reserve j.id (demand_of j) s.exec.alloc)
    else requeue j (note_reason j.id around.diagnosis_text s)

-- After `alloc_reserve_on`.
abbrev pub pinned_to :
    Surroundings → Job → CText → SchedSystem → Rc × AllocSystem → Option SchedSystem
pinned_to around j machine_id s (ok, a) =
    some (send_off around (record j { machine_id = copy_field 64 machine_id }) (with_alloc a s))
pinned_to around j machine_id s (_, a) = requeue j (
    note_reason j.id (c_text "Waiting for resources on pinned machine (same-machine affinity)")
      (with_alloc a s))

-- The job that the affinity names, if it was found.
abbrev pub scan_pinned : Surroundings → Job → Option Job → SchedSystem → Option SchedSystem
scan_pinned around j none s = scan_anywhere around j s
scan_pinned around j (some ref) s =
    if has_text ref.machine_id
    then pinned_to around j ref.machine_id s
        (alloc_reserve_on j.id ref.machine_id (demand_of j) s.exec.alloc)
    else requeue j
        (note_reason j.id (c_text "Waiting for affinity target job to be assigned a machine") s)

abbrev pub scan_affinity : Surroundings → Job → SchedSystem → Option SchedSystem
scan_affinity around j s =
    let (ref, d) = db_get_job j.same_machine_as (db_of s) in
    if is_empty j.same_machine_as
    then scan_anywhere around j s
    else scan_pinned around j ref (with_db d s)

abbrev pub scan_quota : Surroundings → Job → SchedSystem → Option SchedSystem
scan_quota around j s =
    let (allowed, d) = db_quota_check j.user_id j.app_id j.req_cores j.req_ram_mb (db_of s) in
    if allowed
    then scan_affinity around j (with_db d s)
    else requeue j (note_reason j.id around.quota_text (with_db d s))

-- The body of the scan, for the job that was popped. A job that is not QUEUED in the database is freed.
unfoldable pub scan_job : Surroundings → Job → SchedSystem → Option SchedSystem
unfolding scan_anywhere
scan_job around j s =
    let (row, d) = db_get_job j.id (db_of s) in
    if is_queued row then scan_quota around j (with_db d s) else some (with_db d s)

abbrev pub scan_popped :
    Surroundings
    → (SchedSystem → Option SchedSystem)
    → SchedSystem
    → Option Job × Queue
    → Option SchedSystem
scan_popped around next s (none, q) = some (record s { queue = q })
scan_popped around next s (some j, q) = scan_job around j (record s { queue = q }) >>= next

-- The loop over the jobs that the queue held at its start.
unfoldable pub scan : Surroundings → ℕ → SchedSystem → Option SchedSystem
unfolding scan_job
scan around zero s = some s
scan around (suc n) s =
    let round =
      queue_try_pop s.queue >>= λ popped. scan_popped around (λ t. scan around n t) s popped in
    if s.is_running then round else some s

-- The scan of a tick, over `jobs_to_scan` jobs.
unfoldable pub scan_queue : Surroundings → SchedSystem → Option SchedSystem
unfolding scan
scan_queue around s = scan around (queue_size s.queue) s

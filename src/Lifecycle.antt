-- ===== src/Lifecycle.antt =====
-- src/core/job.c: creating a job and changing its status, with what reaches the database and the
-- event stream. `Job *` is passed in and comes back changed.
pub mod Transitions
pub mod Persistence
pub mod Creation
mod Tests
use bhc_scheduler.Common.{
  ℕ, ◌+◌, Bool, true, false, Option, none, some, List, [], ◌∷◌, ◌++◌, ltb, take, if◌then◌else◌,
}
use bhc_scheduler.Common.Int.{ℤ, pos, negsuc, ltb_ℤ}
use bhc_scheduler.Common.Text.{is_empty, CText, copy_field, c_text}
use bhc_scheduler.Common.Rc.{Rc, ok, error}
use bhc_scheduler.Job.{
  JobStatus, Job, queued, running, succeeded, cancelled, failed, created, transition_allowed,
  gen_uuid, zeroed_job,
}
use bhc_scheduler.Db.{Db, db_insert_job, db_update_job_status, db_update_status_reason}

-- The JSON object that `events_push_user` sends, with the user that may see it.
pub record JobEvent : Type 0 where
  pub id : CText
  pub status : JobStatus
  pub machine_id : CText
  pub reason : CText
  pub user_id : CText

-- What a status change touches beside the job. Building the event takes memory: `event_memory` says
-- whether the allocations of cJSON succeed.
pub record World : Type 0 where
  pub db : Db
  pub events : List JobEvent
  pub event_memory : Bool

abbrev pub text_or : Option CText → CText
text_or none = []
text_or (some t) = t

-- The three cases of the `switch` on the new status, against its `default`.
unfoldable pub is_terminal : JobStatus → Bool
is_terminal succeeded = true
is_terminal cancelled = true
is_terminal failed = true
is_terminal _ = false

abbrev pub set_reason : Option CText → Job → Job
set_reason none j = j
set_reason (some r) j = record j { status_reason = copy_field 256 r }

-- The job after its fields are written.
unfoldable pub marked : Job → JobStatus → Option CText → ℕ → Job
unfolding is_terminal
marked j s reason now =
    let named = set_reason reason (record j { status = s }) in
    if is_terminal s then record named { ended_at = now } else named

-- The `UPDATE` of the status; its result is not looked at.
unfoldable pub persist_status : Job → JobStatus → Db → Db
unfolding is_terminal db_update_job_status
persist_status j s d =
    if is_terminal s
    then (db_update_job_status j.id s j.exit_code d.now d).1
    else (db_update_job_status j.id s (pos 0) 0 d).1

unfoldable pub persist_reason : Job → CText → Db → Db
unfolding db_update_status_reason
persist_reason j r d = if is_empty r then d else (db_update_status_reason j.id r d).1

unfoldable pub push_event : Job → JobStatus → CText → World → World
push_event j s r w =
    if w.event_memory
    then record w {
      events =
          w.events
          ++ record {
            id = j.id;
            status = s;
            machine_id = j.machine_id;
            reason = r;
            user_id = j.user_id;
          }
            ∷ [];
    }
    else w

-- `job_set_status_r`.
unfoldable pub job_set_status_r : Job → JobStatus → Option CText → World → Rc × Job × World
unfolding transition_allowed marked persist_status persist_reason push_event
job_set_status_r j s reason w =
    if transition_allowed j.status s
    then (let j' = marked j s reason w.db.now in
        let d = persist_reason j' (text_or reason) (persist_status j' s w.db) in
        (ok, j', push_event j' s (text_or reason) (record w { db = d })))
    else (error, j, w)

-- `job_set_status`.
unfoldable pub job_set_status : Job → JobStatus → World → Rc × Job × World
unfolding job_set_status_r
job_set_status j s = job_set_status_r j s (some [])

-- What `job_create_ex` is called with.
pub record JobSpec : Type 0 where
  pub command : CText
  pub priority : ℤ
  pub req_cores : ℤ
  pub req_gpu : ℤ
  pub req_ram_mb : ℤ
  pub req_disk_mb : ℤ
  pub user_id : Option CText
  pub app_id : Option CText

-- `value > 0 ? value : otherwise`
abbrev pub positive_or : ℤ → ℤ → ℤ
positive_or otherwise value = if ltb_ℤ (pos 0) value then value else otherwise

-- `store_input_dir` and `store_output_dir`: "<work_dir>/<id>/input" cut to the 512-byte field.
unfoldable pub store_dir : CText → CText → CText → CText
store_dir work_dir id leaf = take 511 (work_dir ++ b'/' ∷ id ++ b'/' ∷ leaf)

-- The job that `job_create_ex` fills in, before it is stored.
unfoldable pub new_job : CText → (ℕ → ℕ) → ℕ → JobSpec → Job
unfolding store_dir gen_uuid
new_job work_dir random now spec =
    let id = gen_uuid random in
    record zeroed_job {
      id = id;
      command = copy_field 512 spec.command;
      user_id = copy_field 128 (text_or spec.user_id);
      app_id = copy_field 128 (text_or spec.app_id);
      status = queued;
      priority = spec.priority;
      req_cores = positive_or (pos 1) spec.req_cores;
      req_gpu = positive_or (pos 0) spec.req_gpu;
      req_ram_mb = positive_or (pos 0) spec.req_ram_mb;
      req_disk_mb = positive_or (pos 0) spec.req_disk_mb;
      submitted_at = now;
      input_dir = store_dir work_dir id (c_text "input");
      output_dir = store_dir work_dir id (c_text "output");
    }

abbrev keep_if_stored : Job → Rc × Db → Option Job × Db
keep_if_stored j (ok, d) = (some j, d)
keep_if_stored j (_, d) = (none, d)

-- `job_create_ex`, where 16 bytes are read from /dev/urandom: NULL if the row cannot be stored.
unfoldable pub job_create_ex : CText → (ℕ → ℕ) → JobSpec → Db → Option Job × Db
job_create_ex work_dir random spec d =
    let j = new_job work_dir random d.now spec in keep_if_stored j (db_insert_job j d)

-- `job_create`: no user and no application.
pub job_create : CText → (ℕ → ℕ) → JobSpec → Db → Option Job × Db
job_create work_dir random spec =
    job_create_ex work_dir random (record spec { user_id = none; app_id = none })

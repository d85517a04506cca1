-- ===== src/Columns.antt =====
-- src/persistence/db.c: the statements that write single columns of a job's row.
mod Tests
use bhc_scheduler.Common.{
  ◌≡◌, refl, Bool, true, false, Option, none, some, List, [], ◌∷◌, if◌then◌else◌, arith, Bool-cases,
  inl, inr,
}
use bhc_scheduler.Common.Int.{ℤ}
use bhc_scheduler.Common.Text.{CText, str_same}
use bhc_scheduler.Common.Rc.{Rc, ok, error}
use bhc_scheduler.Job.{Job}
use bhc_scheduler.Db.{Db, Tables, fate_of, execute, find_job, update_job}

abbrev pub on_job : CText → (Job → Job) → Tables → Tables
on_job id change t = record t { jobs = update_job id change t.jobs }

unfoldable pub db_update_job_timeout : CText → ℤ → Db → Rc × Db
unfolding execute
db_update_job_timeout id seconds = execute (on_job id (λ j. record j { timeout_seconds = seconds }))

unfoldable pub db_update_workflow_id : CText → CText → Db → Rc × Db
unfolding execute
db_update_workflow_id id workflow = execute (on_job id (λ j. record j { workflow_id = workflow }))

unfoldable pub db_update_same_machine_as : CText → CText → Db → Rc × Db
unfolding execute
db_update_same_machine_as id ref = execute (on_job id (λ j. record j { same_machine_as = ref }))

unfoldable pub db_update_job_batch_id : CText → CText → Db → Rc × Db
unfolding execute
db_update_job_batch_id id batch = execute (on_job id (λ j. record j { batch_id = batch }))

-- The columns that a submission sets.
abbrev pub submitted : Job → Job → Job
submitted job row = record row {
  status = job.status;
  input_dir = job.input_dir;
  output_dir = job.output_dir;
  input_files = job.input_files;
  timeout_seconds = job.timeout_seconds;
  status_reason = job.status_reason;
  depends_on = job.depends_on;
  workflow_id = job.workflow_id;
  same_machine_as = job.same_machine_as;
}

-- The primary key makes the number of changed rows 1 where there is a row, and 0 elsewhere.
abbrev pub if_one_row : Option Job → Rc × Db → Rc × Db
if_one_row (some _) (ok, d) = (ok, d)
if_one_row _ (_, d) = (error, d)

-- `db_update_job_submission`
unfoldable pub db_update_job_submission : Job → Db → Rc × Db
db_update_job_submission job d =
    if_one_row (find_job job.id d.tables.jobs) (execute (on_job job.id (submitted job)) d)

pub updated_row :
    (id : CText) (change : Job → Job) (js : List Job) (row : Job)
    → ((j : Job) → (change j).id ≡ j.id)
    → find_job id js ≡ some row
    → find_job id (update_job id change js) ≡ some (change row)
unfolding find_job update_job
updated_row id change [] row keep h = cc
updated_row id change (j ∷ js) row keep h = elim (Bool-cases (str_same j.id id)) [
  | inl e ↦ let same : some j ≡ some row = rw e at h in rw (e, keep j) (rw e (grind arith))
  | inr e ↦ rw e (rw e (updated_row id change js row keep (rw e at h)))
]

submission_written :
    (f : Tables → Tables) (d : Db) (o : Option Job)
    → (if_one_row o (execute f d)).0 ≡ ok
    → ((row : Job) × (o ≡ some row)) × ((if_one_row o (execute f d)).1.tables ≡ f d.tables)
unfolding execute
submission_written f d (some row) h = ((row, refl), ground arith)
submission_written f d none h = absurd (ground arith)

-- When `db_update_job_submission` succeeds there was a row of the job, and the row that is found now has
-- the submission's columns, with all others as they were.
pub db_update_job_submission-find :
    (job : Job) (d : Db)
    → (db_update_job_submission job d).0 ≡ ok
    → (row : Job) × (find_job job.id d.tables.jobs ≡ some row)
      × (find_job job.id (db_update_job_submission job d).1.tables.jobs ≡ some (submitted job row))
unfolding db_update_job_submission
db_update_job_submission-find job d h =
    let ((row, found), e) =
      submission_written (on_job job.id (submitted job)) d (find_job job.id d.tables.jobs) h in
    (row, found, rw e (updated_row job.id (submitted job) d.tables.jobs row (λ _. refl) found))

-- ===== src/Recovery/Retry.antt =====
-- src/persistence/db.c: `db_retry_job`, which puts a job that ended badly back in line. It opens its
-- transaction by itself; the table of artifacts is not modelled, so its DELETE only succeeds or fails.
use bhc_scheduler.Common.{
  suc, ◌≡◌, refl, ap, sym, ◌∙◌, Bool, true, false, ◌||◌, Option, none, some, [], arith,
  if◌then◌else◌,
}
use bhc_scheduler.Common.Int.{pos}
use bhc_scheduler.Common.Text.{CText, c_text}
use bhc_scheduler.Common.Rc.{Rc, ok, error, conflict}
use bhc_scheduler.Job.{Job, queued, failed, cancelled, same_status}
use bhc_scheduler.Db.{Db, Tables, fate_of, counted, is_none, execute, rollback_statement, find_job}
use bhc_scheduler.Columns.{on_job, updated_row}

-- `status IN (?,?)`
abbrev pub retryable : Job → Bool
retryable j = same_status j.status failed || same_status j.status cancelled

abbrev pub retried : Job → Job
retried j =
    if retryable j
    then record j {
      status = queued;
      machine_id = [];
      exit_code = pos 0;
      started_at = 0;
      ended_at = 0;
      status_reason = c_text "Retry requested";
    }
    else j

-- `BEGIN IMMEDIATE;`
unfoldable pub begin_statement : Db → Rc × Db
begin_statement d =
    if fate_of d
    then (if is_none d.saved
        then (ok, record d { saved = some d.tables; statements = suc d.statements })
        else (error, counted d))
    else (error, counted d)

-- `COMMIT;`
unfoldable pub commit_statement : Db → Rc × Db
commit_statement d =
    if fate_of d
    then (ok, record d { saved = none; statements = suc d.statements })
    else (error, counted d)

-- `sqlite3_changes(s_db) == 1`: there is a row, and its status allows it.
abbrev pub one_changed : Option Job → Bool
one_changed none = false
one_changed (some j) = retryable j

abbrev pub given_up : Db → Rc × Db
given_up d = (error, rollback_statement d)

abbrev pub retry_committed : Rc × Db → Rc × Db
retry_committed (ok, d) = (ok, d)
retry_committed (_, d) = given_up d

abbrev pub retry_deleted : Rc × Db → Rc × Db
retry_deleted (ok, d) = retry_committed (commit_statement d)
retry_deleted (_, d) = given_up d

abbrev pub retry_updated : Bool → Rc × Db → Rc × Db
retry_updated true (ok, d) = retry_deleted (execute (λ t. t) d)
retry_updated _ (_, d) = given_up d

abbrev pub retry_begun : CText → Rc × Db → Rc × Db
retry_begun id (ok, d) =
    retry_updated (one_changed (find_job id d.tables.jobs)) (execute (on_job id retried) d)
retry_begun id (_, d) = (error, d)

-- `db_retry_job`
unfoldable pub db_retry_job : CText → Db → Rc × Db
db_retry_job id d = retry_begun id (begin_statement d)

begun_tables : (d : Db) → (begin_statement d).0 ≡ ok → (begin_statement d).1.tables ≡ d.tables
unfolding begin_statement
begun_tables d h = ground arith

run_tables :
    (f : Tables → Tables) (d : Db) → (execute f d).0 ≡ ok → (execute f d).1.tables ≡ f d.tables
unfolding execute
run_tables f d h = ground arith

commit_tables : (d : Db) → (commit_statement d).0 ≡ ok → (commit_statement d).1.tables ≡ d.tables
unfolding commit_statement
commit_tables d h = ground arith

committed_ok : (r : Rc × Db) → (retry_committed r).0 ≡ ok → (r.0 ≡ ok) × (retry_committed r ≡ r)
committed_ok (ok, d) h = (refl, refl)
committed_ok (error, d) h = cc
committed_ok (conflict, d) h = cc

deleted_ok :
    (r : Rc × Db)
    → (retry_deleted r).0 ≡ ok
    → (r.0 ≡ ok) × ((retry_deleted r).1.tables ≡ r.1.tables)
deleted_ok (ok, d) h =
    let (done, e) = committed_ok (commit_statement d) h in
    (refl, ap (λ (x : Rc × Db). x.1.tables) e ∙ commit_tables d done)
deleted_ok (error, d) h = cc
deleted_ok (conflict, d) h = cc

updated_ok :
    (changed : Bool) (r : Rc × Db)
    → (retry_updated changed r).0 ≡ ok
    → (changed ≡ true) × (r.0 ≡ ok) × ((retry_updated changed r).1.tables ≡ r.1.tables)
updated_ok true (ok, d) h =
    let (done, e) = deleted_ok (execute (λ t. t) d) h in
    (refl, refl, e ∙ run_tables (λ t. t) d done)
updated_ok true (error, d) h = cc
updated_ok true (conflict, d) h = cc
updated_ok false (ok, d) h = cc
updated_ok false (error, d) h = cc
updated_ok false (conflict, d) h = cc

begun_ok :
    (id : CText) (r : Rc × Db)
    → (retry_begun id r).0 ≡ ok
    → (r.0 ≡ ok)
      × (one_changed (find_job id r.1.tables.jobs) ≡ true)
      × ((retry_begun id r).1.tables ≡ on_job id retried r.1.tables)
begun_ok id (ok, d) h =
    let (changed, done, e) =
      updated_ok (one_changed (find_job id d.tables.jobs)) (execute (on_job id retried) d) h in
    (refl, changed, e ∙ run_tables (on_job id retried) d done)
begun_ok id (error, d) h = cc
begun_ok id (conflict, d) h = cc

retried_id : (j : Job) → (retried j).id ≡ j.id
retried_id j = ground arith

changed_row :
    (o : Option Job) → one_changed o ≡ true → (j : Job) × (o ≡ some j) × (retryable j ≡ true)
changed_row none h = cc
changed_row (some j) h = (j, refl, h)

-- When `db_retry_job` succeeds, the job was found FAILED or CANCELLED, and its row is now QUEUED, without
-- a machine, times or an exit code, and with the retry as its reason.
pub db_retry_job-retried :
    (id : CText) (d : Db)
    → (db_retry_job id d).0 ≡ ok
    → (j : Job) × (find_job id d.tables.jobs ≡ some j)
      × (retryable j ≡ true)
      × (find_job id (db_retry_job id d).1.tables.jobs ≡ some (retried j))
unfolding db_retry_job
db_retry_job-retried id d h =
    let (done, changed, e) = begun_ok id (begin_statement d) h in
    let same = begun_tables d done in
    let (j, found, fine) =
      changed_row (find_job id d.tables.jobs)
        (ap (λ (t : Tables). one_changed (find_job id t.jobs)) (sym same) ∙ changed) in
    (
      j,
      found,
      fine,
      ap (λ (t : Tables). find_job id t.jobs) (e ∙ ap (on_job id retried) same)
          ∙ updated_row id retried d.tables.jobs j retried_id found,
    )

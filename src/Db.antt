-- ===== src/Db.antt =====
-- src/persistence/db.c: the tables that scheduling reads and writes.
-- SQLite is not modelled. Each statement asks `fate` whether it succeeds; a statement that fails
-- changes nothing, which is what SQLite documents.
use bhc_scheduler.Common.{
  ◌≡◌, ℕ, suc, Bool, true, false, not, Option, none, some, List, [], ◌∷◌, ◌++◌, if◌then◌else◌,
}
use bhc_scheduler.Common.Int.{ℤ, pos}
use bhc_scheduler.Common.Text.{CText, str_same}
use bhc_scheduler.Common.Rc.{Rc, ok, error}
use bhc_scheduler.Job.{JobStatus, Job, running}

-- A row of `allocations`; `released` says whether `released_at` is set.
pub record AllocationRow : Type 0 where
  pub job_id : CText
  pub machine_id : CText
  pub cores : ℤ
  pub gpu : ℤ
  pub ram_mb : ℤ
  pub disk_mb : ℤ
  pub released : Bool

-- A row of `quotas`: a limit of 0 is none, and an empty `user_id` or `app_id` stands for any.
pub record Quota : Type 0 where
  pub user_id : CText
  pub app_id : CText
  pub max_jobs : ℤ
  pub max_ram_mb : ℤ
  pub max_cores : ℤ
  pub max_concurrent : ℤ

pub record Tables : Type 0 where
  pub jobs : List Job
  pub allocations : List AllocationRow
  pub quotas : List Quota

-- `saved` holds the tables as they were when SQLite's open transaction began.
pub record Db : Type 0 where
  pub tables : Tables
  pub saved : Option Tables
  pub transaction_active : Bool  -- s_transaction_active
  pub fate : ℕ → Bool
  pub statements : ℕ
  pub now : ℕ

-- One statement: its fate, and the database with the statement counted.
abbrev pub counted : Db → Db
counted d = record d { statements = suc d.statements }

abbrev pub fate_of : Db → Bool
fate_of d = d.fate d.statements

-- No statement fails.
abbrev pub NoFailure : Db → Type 0
NoFailure d = (n : ℕ) → d.fate n ≡ true

-- A statement that writes: `write` on success, nothing on failure.
unfoldable pub execute : (Tables → Tables) → Db → Rc × Db
execute write d =
    if fate_of d
    then (ok, record d { tables = write d.tables; statements = suc d.statements })
    else (error, counted d)

abbrev pub is_none {ℓ} : {A : Type ℓ} → Option A → Bool
is_none none = true
is_none (some _) = false

-- `BEGIN IMMEDIATE` is an error inside an open transaction.
unfoldable pub db_begin : Db → Rc × Db
db_begin d =
    if d.transaction_active
    then (error, d)
    else if fate_of d
    then (if is_none d.saved
        then (
          ok,
          record d {
            saved = some d.tables;
            transaction_active = true;
            statements = suc d.statements;
          },
        )
        else (error, counted d))
    else (error, counted d)

unfoldable pub restored : Option Tables → Tables → Tables
restored none t = t
restored (some old) t = old

-- `ROLLBACK`: the tables of the start of the transaction come back.
unfoldable pub rollback_statement : Db → Db
unfolding restored
rollback_statement d =
    if fate_of d
    then record d {
      tables = restored d.saved d.tables;
      saved = none;
      statements = suc d.statements;
    }
    else counted d

-- A failing `COMMIT` is followed by a `ROLLBACK`.
unfoldable pub db_commit : Db → Rc × Db
unfolding rollback_statement
db_commit d =
    if not d.transaction_active
    then (error, d)
    else if fate_of d
    then (ok, record d { saved = none; transaction_active = false; statements = suc d.statements })
    else (error, record (rollback_statement (counted d)) { transaction_active = false })

unfoldable pub db_rollback : Db → Rc × Db
unfolding rollback_statement
db_rollback d = if not d.transaction_active then (error, d) else (
  if fate_of d then ok else error,
  record (rollback_statement d) { transaction_active = false },
)

-- `SELECT ... FROM jobs WHERE id=?`
unfoldable pub find_job : CText → List Job → Option Job
find_job id [] = none
find_job id (j ∷ js) = if str_same j.id id then some j else find_job id js

-- `UPDATE jobs SET ... WHERE id=?`
unfoldable pub update_job : CText → (Job → Job) → List Job → List Job
update_job id change [] = []
update_job id change (j ∷ js) = (if str_same j.id id then change j else j) ∷ update_job id change js

abbrev on_jobs : (List Job → List Job) → Tables → Tables
on_jobs f t = record t { jobs = f t.jobs }

-- The columns that the `INSERT` leaves at their defaults.
abbrev pub inserted : Job → Job
inserted j = record j {
  machine_id = [];
  exit_code = pos 0;
  started_at = 0;
  ended_at = 0;
  status_reason = [];
}

-- The primary key refuses an id that is already there.
unfoldable pub db_insert_job : Job → Db → Rc × Db
unfolding execute find_job
db_insert_job j d =
    if is_none (find_job j.id d.tables.jobs)
    then execute (on_jobs (λ js. js ++ inserted j ∷ [])) d
    else (error, counted d)

unfoldable pub db_update_job_status : CText → JobStatus → ℤ → ℕ → Db → Rc × Db
unfolding execute update_job
db_update_job_status id status exit_code ended_at = execute (
    on_jobs (
      update_job id
        (λ j. record j { status = status; exit_code = exit_code; ended_at = ended_at })))

unfoldable pub db_update_job_started : CText → CText → ℕ → Db → Rc × Db
unfolding execute update_job
db_update_job_started id machine_id started_at = execute (
    on_jobs (
      update_job id
        (λ j. record j { machine_id = machine_id; started_at = started_at; status = running })))

unfoldable pub db_update_status_reason : CText → CText → Db → Rc × Db
unfolding execute update_job
db_update_status_reason id reason =
    execute (on_jobs (update_job id (λ j. record j { status_reason = reason })))

unfoldable pub db_update_depends_on : CText → CText → Db → Rc × Db
unfolding execute update_job
db_update_depends_on id deps =
    execute (on_jobs (update_job id (λ j. record j { depends_on = deps })))

-- `db_get_job`: NULL if the statement fails or no row has the id.
unfoldable pub db_get_job : CText → Db → Option Job × Db
db_get_job id d = (if fate_of d then find_job id d.tables.jobs else none, counted d)

abbrev on_allocations : (List AllocationRow → List AllocationRow) → Tables → Tables
on_allocations f t = record t { allocations = f t.allocations }

abbrev pub same_key : CText → CText → AllocationRow → Bool
same_key job_id machine_id a = elim (str_same a.job_id job_id) [
  | true ↦ str_same a.machine_id machine_id
  | false ↦ false
]

-- `INSERT OR REPLACE`: the row with the same (job, machine) goes.
pub without_key : CText → CText → List AllocationRow → List AllocationRow
without_key job_id machine_id [] = []
without_key job_id machine_id (a ∷ rows) =
    let rest = without_key job_id machine_id rows in
    if same_key job_id machine_id a then rest else a ∷ rest

unfoldable pub db_insert_allocation : CText → CText → ℤ → ℤ → ℤ → ℤ → Db → Rc × Db
unfolding execute without_key
db_insert_allocation job_id machine_id cores gpu ram_mb disk_mb =
    execute (on_allocations (λ rows. without_key job_id machine_id rows ++ row ∷ []))
  where
    row : AllocationRow
    row = record {
      job_id = job_id;
      machine_id = machine_id;
      cores = cores;
      gpu = gpu;
      ram_mb = ram_mb;
      disk_mb = disk_mb;
      released = false;
    }

unfoldable pub mark_released : CText → List AllocationRow → List AllocationRow
mark_released job_id [] = []
mark_released job_id (a ∷ rows) =
    (if str_same a.job_id job_id then record a { released = true } else a)
    ∷ mark_released job_id rows

unfoldable pub db_release_allocation : CText → Db → Rc × Db
unfolding execute mark_released
db_release_allocation job_id = execute (on_allocations (mark_released job_id))

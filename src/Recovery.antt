-- ===== src/Recovery.antt =====
-- src/persistence/db.c: `db_recover_after_restart`, which puts the tables in order at start-up.
pub mod Outcome
pub mod Retry
mod Tests
use bhc_scheduler.Common.{
  ℕ, zero, suc, Bool, true, false, Option, none, some, List, [], ◌∷◌, map, if◌then◌else◌,
}
use bhc_scheduler.Common.Int.{ℤ, negsuc}
use bhc_scheduler.Common.Text.{CText, c_text}
use bhc_scheduler.Common.Rc.{Rc, ok}
use bhc_scheduler.Job.{JobStatus, Job, failed, is_under_way}
use bhc_scheduler.Db.{Db, Tables, AllocationRow, execute, db_begin, db_commit, db_rollback}

-- `WHERE status IN (1,2)`
abbrev pub is_running : Job → Bool
is_running j = is_under_way j.status

-- The row of a job that was running when the program stopped.
abbrev pub interrupted : ℕ → Job → Job
interrupted now j =
    if is_running j
    then record j {
      status = failed;
      exit_code = negsuc 0;
      ended_at = now;
      status_reason = c_text "Interrupted by orchestrator restart";
    }
    else j

abbrev pub interrupt_all : ℕ → Tables → Tables
interrupt_all now t = record t { jobs = map (interrupted now) t.jobs }

abbrev pub released_row : AllocationRow → AllocationRow
released_row a = record a { released = true }

abbrev pub release_all : Tables → Tables
release_all t = record t { allocations = map released_row t.allocations }

-- `sqlite3_changes` after the first update.
abbrev pub running_count : List Job → ℕ
running_count [] = zero
running_count (j ∷ js) = if is_running j then suc (running_count js) else running_count js

abbrev pub recover_committed : ℕ → Rc × Db → Option ℕ × Db
recover_committed n (ok, d) = (some n, d)
recover_committed n (_, d) = (none, d)

abbrev pub recover_released : ℕ → Rc × Db → Option ℕ × Db
recover_released n (ok, d) = recover_committed n (db_commit d)
recover_released n (_, d) = (none, (db_rollback d).1)

abbrev pub recover_interrupted : ℕ → Rc × Db → Option ℕ × Db
recover_interrupted n (ok, d) = recover_released n (execute release_all d)
recover_interrupted n (_, d) = (none, (db_rollback d).1)

abbrev pub recover_begun : Rc × Db → Option ℕ × Db
recover_begun (ok, d) =
    recover_interrupted (running_count d.tables.jobs) (execute (interrupt_all d.now) d)
recover_begun (_, d) = (none, d)

-- `db_recover_after_restart`: the number of interrupted jobs; `none` is the result -1.
unfoldable pub db_recover_after_restart : Db → Option ℕ × Db
db_recover_after_restart d = recover_begun (db_begin d)

-- ===== src/Recovery/Tests.antt =====
-- A recovery with one job that was running.
use mathlib.Core.Option
use bhc_scheduler.Common.{◌≡◌, refl, true, false, none, some, [], ◌∷◌}
use bhc_scheduler.Common.Int.{pos}
use bhc_scheduler.Common.Text.{CText, c_text, str_same}
use bhc_scheduler.Job.{Job, JobStatus, zeroed_job}
use bhc_scheduler.Db.{Db, execute, db_begin, db_commit, find_job}
use bhc_scheduler.Recovery.{interrupted, running_count, db_recover_after_restart}
use bhc_scheduler.Recovery.Retry.{
  retryable, retried, begin_statement, commit_statement, db_retry_job, db_retry_job-retried,
}
use bhc_scheduler.Recovery.Outcome.{NoneRunning, AllReleased, db_recover_after_restart-NoneRunning}

abbrev stopped : Db
stopped = record {
  tables = record {
    jobs = record zeroed_job { id = c_text "a"; status = JobStatus.running } ∷ zeroed_job ∷ [];
    allocations =
        record {
          job_id = c_text "a";
          machine_id = c_text "m";
          cores = pos 1;
          gpu = pos 0;
          ram_mb = pos 0;
          disk_mb = pos 0;
          released = false;
        }
        ∷ [];
    quotas = [];
  };
  saved = none;
  transaction_active = false;
  fate = λ _. true;
  statements = 0;
  now = 50;
}

one_interrupted : (db_recover_after_restart stopped).0 ≡ some 1
unfolding db_recover_after_restart db_begin execute db_commit
one_interrupted = refl

db_recover_after_restart-NoneRunning_example :
    let after = (db_recover_after_restart stopped).1.tables in
    (running_count stopped.tables.jobs ≡ 1)
    × NoneRunning after.jobs
    × AllReleased after.allocations
    × ((k : CText)
        → find_job k after.jobs ≡ Option.map (interrupted 50) (find_job k stopped.tables.jobs))
db_recover_after_restart-NoneRunning_example =
    db_recover_after_restart-NoneRunning stopped 1 one_interrupted

abbrev ended : Db
ended = record stopped {
  tables = record {
    jobs = record zeroed_job { id = c_text "a"; status = JobStatus.failed; started_at = 7 } ∷ [];
    allocations = [];
    quotas = [];
  };
}

db_retry_job-retried_example :
    (j : Job) × (find_job (c_text "a") ended.tables.jobs ≡ some j)
    × (retryable j ≡ true)
    × (find_job (c_text "a") (db_retry_job (c_text "a") ended).1.tables.jobs ≡ some (retried j))
unfolding db_retry_job begin_statement commit_statement execute find_job str_same
db_retry_job-retried_example = db_retry_job-retried (c_text "a") ended refl

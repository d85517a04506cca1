-- ===== src/Columns/Tests.antt =====
-- A submission written to a concrete table.
use bhc_scheduler.Common.{true, false, none, [], ◌∷◌}
use bhc_scheduler.Common.Text.{c_text}
use bhc_scheduler.Job.{JobStatus, Job, zeroed_job}
use bhc_scheduler.Db.{Db}

abbrev stored : Db
stored = record {
  tables = record {
    jobs = record zeroed_job { id = c_text "a"; command = c_text "run" } ∷ [];
    allocations = [];
    quotas = [];
  };
  saved = none;
  transaction_active = false;
  fate = λ _. true;
  statements = 0;
  now = 0;
}

abbrev held_job : Job
held_job = record zeroed_job {
  id = c_text "a";
  status = JobStatus.created;
  depends_on = c_text "b";
}

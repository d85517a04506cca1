-- ===== src/Quota/Tests.antt =====
-- The theorems on quotas at a concrete table.
use bhc_scheduler.Common.{arith, ◌≡◌, refl, true, false, none, List, [], ◌∷◌}
use bhc_scheduler.Common.Int.{pos, ◌+ℤ◌}
use bhc_scheduler.Common.Text.{CText, c_text, str_same}
use bhc_scheduler.Job.{JobStatus, Job, zeroed_job}
use bhc_scheduler.Db.{Db, Quota}
use bhc_scheduler.Quota.{
  find_quota, resolve_quota, attempt, db_get_quota, usage_of, is_counted, over_limit, as_int,
  db_quota_check,
}
use bhc_scheduler.Quota.Limits.{
  most_specific, resolve_quota-most_specific, Within, db_quota_check-Within,
}

abbrev user : CText
user = c_text "u"

-- The user may run two jobs.
abbrev two_jobs : Quota
two_jobs = record {
  user_id = user;
  app_id = [];
  max_jobs = pos 2;
  max_ram_mb = pos 0;
  max_cores = pos 10;
  max_concurrent = pos 0;
}

abbrev running_job : CText → Job
running_job app = record zeroed_job {
  user_id = user;
  app_id = app;
  status = JobStatus.running;
  req_cores = pos 4;
}

abbrev quota_db : List Job → Db
quota_db jobs = record {
  tables = record { jobs = jobs; allocations = []; quotas = two_jobs ∷ [] };
  saved = none;
  transaction_active = false;
  fate = λ _. true;
  statements = 0;
  now = 0;
}

-- Two jobs of the user run under one application; a third under another application passes.
abbrev crowded : Db
crowded = quota_db (running_job (c_text "x") ∷ running_job (c_text "x") ∷ [])

third_passes : (db_quota_check user (c_text "y") (pos 4) (pos 0) crowded).0 ≡ true
unfolding db_quota_check resolve_quota attempt db_get_quota find_quota usage_of is_counted
    over_limit as_int str_same ◌+ℤ◌
third_passes = refl

third_refused : (db_quota_check user (c_text "x") (pos 4) (pos 0) crowded).0 ≡ false
unfolding db_quota_check resolve_quota attempt db_get_quota find_quota usage_of is_counted
    over_limit as_int str_same ◌+ℤ◌
third_refused = refl

resolve_quota-most_specific_example :
    (resolve_quota user (c_text "x") crowded).0 ≡ most_specific user (c_text "x") (two_jobs ∷ [])
resolve_quota-most_specific_example =
    resolve_quota-most_specific user (c_text "x") crowded (λ n. refl)

db_quota_check-Within_example :
    Within two_jobs
      (usage_of user (c_text "x") (running_job (c_text "x") ∷ running_job (c_text "x") ∷ []))
unfolding db_quota_check resolve_quota attempt db_get_quota find_quota usage_of is_counted
    over_limit as_int str_same ◌+ℤ◌
db_quota_check-Within_example =
    db_quota_check-Within user (c_text "x") (running_job (c_text "x"))
      (quota_db (running_job (c_text "x") ∷ [])) two_jobs (λ n. refl) refl refl
      (omega arith, omega arith, omega arith) (omega arith, omega arith, omega arith) refl

abbrev wider : Quota
wider = record two_jobs { max_jobs = pos 5 }

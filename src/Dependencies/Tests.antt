-- ===== src/Dependencies/Tests.antt =====
-- The theorems on dependencies at a concrete table of jobs.
use bhc_scheduler.Common.{ℕ, zero, suc, ◌≡◌, ◌↔◌, refl, Bool, true, false, none, [], ◌∷◌}
use bhc_scheduler.Common.Text.{CText, c_text, str_same}
use bhc_scheduler.Job.{JobStatus, Job, zeroed_job}
use bhc_scheduler.Db.{Db, find_job}
use bhc_scheduler.Dependencies.{
  Readiness, tokens, trimmed, query_status, judge, check_tokens, db_check_deps_status,
}
use bhc_scheduler.Dependencies.Verdict.{
  AllSucceeded, SomeBroken, names_of, db_check_deps_status-AllSucceeded, db_check_deps_status_iff,
  db_check_deps_status-SomeBroken,
}

abbrev with_status : CText → JobStatus → Job
with_status id s = record zeroed_job { id = id; status = s }

-- Queries succeed as `fate` says.
abbrev jobs_db : (ℕ → Bool) → Db
jobs_db fate = record {
  tables = record {
    jobs =
        with_status (c_text "a") JobStatus.succeeded
        ∷ with_status (c_text "b") JobStatus.failed
        ∷ with_status (c_text "c") JobStatus.running
        ∷ [];
    allocations = [];
    quotas = [];
  };
  saved = none;
  transaction_active = false;
  fate = fate;
  statements = 0;
  now = 0;
}

splits : names_of (c_text " a ,,b") ≡ c_text " a " ∷ c_text "b" ∷ []
unfolding tokens
splits = refl

a_done : (db_check_deps_status (c_text " a ,,") (jobs_db (λ _. true))).0 ≡ Readiness.ready
unfolding db_check_deps_status tokens check_tokens trimmed query_status judge find_job str_same
a_done = refl

-- A failed job behind one that is running is not noticed yet.
b_hidden : (db_check_deps_status (c_text "c,b") (jobs_db (λ _. true))).0 ≡ Readiness.waiting
unfolding db_check_deps_status tokens check_tokens trimmed query_status judge find_job str_same
b_hidden = refl

b_broken : (db_check_deps_status (c_text "a,b") (jobs_db (λ _. true))).0 ≡ Readiness.broken
unfolding db_check_deps_status tokens check_tokens trimmed query_status judge find_job str_same
b_broken = refl

-- The query on a job that has succeeded is prepared, but fails when it is executed.
second_fails : ℕ → Bool
second_fails zero = true
second_fails (suc zero) = false
second_fails (suc (suc n)) = true

a_given_up : (db_check_deps_status (c_text "a") (jobs_db second_fails)).0 ≡ Readiness.broken
unfolding db_check_deps_status tokens check_tokens trimmed query_status judge find_job str_same
    second_fails
a_given_up = refl

db_check_deps_status-AllSucceeded_example :
    AllSucceeded (names_of (c_text " a ,,")) (jobs_db (λ _. true)).tables.jobs
db_check_deps_status-AllSucceeded_example =
    db_check_deps_status-AllSucceeded (c_text " a ,,") (jobs_db (λ _. true)) a_done

db_check_deps_status_iff_example :
    ((db_check_deps_status (c_text "a,c") (jobs_db (λ _. true))).0 ≡ Readiness.ready)
    ↔ AllSucceeded (names_of (c_text "a,c")) (jobs_db (λ _. true)).tables.jobs
db_check_deps_status_iff_example =
    db_check_deps_status_iff (c_text "a,c") (jobs_db (λ _. true)) (λ n. refl)

db_check_deps_status-SomeBroken_example :
    SomeBroken (names_of (c_text "a,b")) (jobs_db (λ _. true)).tables.jobs
db_check_deps_status-SomeBroken_example =
    db_check_deps_status-SomeBroken (c_text "a,b") (jobs_db (λ _. true)) (λ n. refl) b_broken

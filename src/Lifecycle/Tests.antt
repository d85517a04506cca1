-- ===== src/Lifecycle/Tests.antt =====
-- The theorems on status changes at a concrete job.
use bhc_scheduler.Common.{◌+◌, ◌≤◌, ◌≡◌, refl, ◌⊎◌, true, false, none, some, List, [], ◌∷◌}
use bhc_scheduler.Common.Int.{pos, negsuc, ltb_ℤ}
use bhc_scheduler.Common.Text.{c_text, str_same}
use bhc_scheduler.Job.{JobStatus, Job, zeroed_job, transition_allowed}
use bhc_scheduler.Db.{find_job, inserted}
use bhc_scheduler.Lifecycle.{JobSpec, World, job_set_status_r, job_create_ex, new_job, is_terminal}
use bhc_scheduler.Lifecycle.Transitions.{
  rank, Request, requests, accepted_bounded, terminal_absorbs,
}
use bhc_scheduler.Lifecycle.Persistence.{row_after, accepted_persists}
use bhc_scheduler.Lifecycle.Creation.{job_create_ex-cases}

abbrev job_a : Job
job_a = record zeroed_job { id = c_text "a" }

abbrev world : World
world = record {
  db = record {
    tables = record {
      jobs = job_a ∷ record zeroed_job { id = c_text "b" } ∷ [];
      allocations = [];
      quotas = [];
    };
    saved = none;
    transaction_active = false;
    fate = λ _. true;
    statements = 0;
    now = 100;
  };
  events = [];
  event_memory = true;
}

abbrev history : List Request
history =
    (JobStatus.running, none)
    ∷ (JobStatus.queued, none)
    ∷ (JobStatus.failed, some (c_text "timeout"))
    ∷ (JobStatus.cancelled, none)
    ∷ []

accepted_bounded_example : (requests job_a history world).0 + rank JobStatus.queued ≤ 3
accepted_bounded_example = accepted_bounded job_a history world

abbrev ended : Job
ended = record job_a { status = JobStatus.succeeded }

terminal_absorbs_example : requests ended history world ≡ (0, ended, world)
unfolding is_terminal
terminal_absorbs_example = terminal_absorbs ended history world refl

accepted_persists_example :
    find_job
      (c_text "a")
      (job_set_status_r job_a JobStatus.running (some (c_text "go")) world).2.db.tables.jobs
    ≡ some (row_after job_a JobStatus.running (c_text "go") 100 job_a)
unfolding transition_allowed find_job str_same
accepted_persists_example =
    accepted_persists job_a JobStatus.running (some (c_text "go")) world job_a refl refl refl refl

abbrev spec : JobSpec
spec = record {
  command = c_text "run";
  priority = pos 5;
  req_cores = negsuc 0;
  req_gpu = pos 1;
  req_ram_mb = pos 10;
  req_disk_mb = negsuc 4;
  user_id = none;
  app_id = some (c_text "app");
}

job_create_ex-cases_example :
    let made = job_create_ex (c_text "/w") (λ i. i) spec world.db in
    let j = new_job (c_text "/w") (λ i. i) 100 spec in
    ((made.0 ≡ none) × (made.1.tables ≡ world.db.tables))
    ⊎ ((made.0 ≡ some j)
        × (find_job j.id made.1.tables.jobs ≡ some (inserted j))
        × (j.status ≡ JobStatus.queued)
        × (ltb_ℤ (pos 0) j.req_cores ≡ true)
        × (ltb_ℤ j.req_gpu (pos 0) ≡ false)
        × (ltb_ℤ j.req_ram_mb (pos 0) ≡ false)
        × (ltb_ℤ j.req_disk_mb (pos 0) ≡ false))
job_create_ex-cases_example = job_create_ex-cases (c_text "/w") (λ i. i) spec world.db

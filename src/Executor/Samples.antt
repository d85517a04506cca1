-- ===== src/Executor/Samples.antt =====
-- A system with one running job, for the tests.
use bhc_scheduler.Common.{◌≡◌, ◌≢◌, refl, true, false, none, some, List, [], ◌∷◌, arith}
use bhc_scheduler.Common.Text.{c_text}
use bhc_scheduler.Job.{Job, JobStatus, zeroed_job}
use bhc_scheduler.Executor.{
  ActiveExecution, ExecConfig, ExecSystem, fresh_execution, find_execution,
}
use bhc_scheduler.Executor.Launch.{SpawnCalls}
use bhc_scheduler.Executor.Threads.{Ending, handle_of}
use bhc_scheduler.Executor.Steps.{IsSound}

abbrev pub config : ExecConfig
config = record {
  experimental_features_enabled = false;
  cloud_auto_deprovision = false;
  cloud_deprovision = λ _ _. true;
  ssh_user = [];
  ssh_key = [];
  ssh_shell = [];
  temp_dir = [];
  ssh_remote_work_dir = [];
  work_dir = c_text "/w";
}

abbrev pub job_a : Job
job_a = record zeroed_job { id = c_text "a"; status = JobStatus.running }

abbrev pub running_a : ActiveExecution
running_a = fresh_execution 0 job_a

abbrev pub system : ExecSystem
system = record {
  executions = running_a ∷ [];
  shutting_down = false;
  alloc = record {
    machines = [];
    allocs = [];
    capacity = 0;
    db = record {
      tables = record { jobs = job_a ∷ zeroed_job ∷ []; allocations = []; quotas = [] };
      saved = none;
      transaction_active = false;
      fate = λ _. true;
      statements = 0;
      now = 100;
    };
    memory = true;
  };
  events = [];
  event_memory = true;
  killed = [];
  deprovisioned = [];
  config = config;
}

abbrev pub calls : SpawnCalls
calls = record {
  execution_memory = true;
  storage_ok = true;
  launch_memory = true;
  thread_ok = false;
}

abbrev pub sound : IsSound system
sound = (tt, (refl, tt))

abbrev pub ending_of : List ActiveExecution → Ending
ending_of [] = Ending.never_ran 0 JobStatus.failed []
ending_of (e ∷ _) = Ending.never_ran e.handle JobStatus.failed []

abbrev pub first_ends : ExecSystem → Ending
first_ends s = ending_of s.executions

pub head_is_active :
    (es : List ActiveExecution)
    → es ≢ []
    → (e : ActiveExecution) × (find_execution (handle_of (ending_of es)) es ≡ some e)
unfolding find_execution
head_is_active [] busy = absurd (busy refl)
head_is_active (e ∷ es) busy = (e, ground arith)

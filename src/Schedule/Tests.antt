-- ===== src/Schedule/Tests.antt =====
-- The theorems on the scheduler, and its helpers, at concrete values.
use bhc_scheduler.Common.{none, ◌≡◌, refl, [], arith}
use bhc_scheduler.Common.Text.{c_text}
use bhc_scheduler.Schedule.{count_expected_files, trim_local}
use bhc_scheduler.Common.{◌⊎◌, ◌%◌, ◌==◌, ◌≤◌, true, false, ◌∷◌, Perm}
use bhc_scheduler.Common.Fallible.{Yields}
use bhc_scheduler.Job.{Job, JobStatus, zeroed_job}
use bhc_scheduler.Db.{execute, db_begin, db_commit}
use bhc_scheduler.Registry.{registry_get_copy}
use bhc_scheduler.Queue.Contents.{IsValid}
use bhc_scheduler.Alloc.Balance.{IsBalanced}
use bhc_scheduler.Recovery.{db_recover_after_restart}
use bhc_scheduler.Executor.Samples.{system, calls, sound, first_ends, head_is_active}
use bhc_scheduler.Schedule.Tick.{Surroundings, SchedSystem, db_of, scan_job}
use bhc_scheduler.Schedule.Soundness.{IsReady}
use bhc_scheduler.Schedule.Scanning.{Handled, load, scan_job-Handled}
use bhc_scheduler.Schedule.Loop.{Periodic, scheduler_tick, scheduler_tick-IsReady}
use bhc_scheduler.Common.Int.{pos}
use bhc_scheduler.Schedule.Control.{rows_with, scheduler_stop, scheduler_init, scheduler_cancel_job}
use bhc_scheduler.Schedule.Cancelling.{Cancelled, scheduler_cancel_job-cases}
use bhc_scheduler.Schedule.Held.{HeldCalls, check_held}
use bhc_scheduler.Schedule.Releasing.{ReleasedRightly, check_held-ReleasedRightly}
use bhc_scheduler.Executor.Shutdown.{IsClosing}
use bhc_scheduler.Schedule.Stopping.{scheduler_stop-ends}
use bhc_scheduler.Schedule.Restoring.{scheduler_init-Holding}

abbrev around : Surroundings
around = record { calls = calls; quota_text = c_text "quota"; diagnosis_text = c_text "no machine" }

abbrev scheduler : SchedSystem
scheduler = record {
  exec = system;
  queue = record { heap = zeroed_job ∷ []; capacity = 64; shutdown = false };
  queue_memory = true;
  is_running = true;
}

one_job : IsValid scheduler.queue
one_job = record { heap = λ c p q. absurd (omega arith); fits = omega arith; room = omega arith }

nothing_booked : IsBalanced system.alloc
unfolding registry_get_copy
nothing_booked = record {
  registry = record { fit = tt; distinct = tt; bounded = omega arith };
  books = λ k. refl;
  tidy = tt;
}

all_in_order : IsReady scheduler
all_in_order = (one_job, nothing_booked, sound)

scan_job-Handled_example :
    Yields (λ t. IsReady t × Handled zeroed_job scheduler t) (scan_job around zeroed_job scheduler)
scan_job-Handled_example = scan_job-Handled around zeroed_job scheduler all_in_order

abbrev waiting_job : Job
waiting_job = record zeroed_job { id = c_text "w"; depends_on = c_text "a" }

abbrev held_calls : HeldCalls
held_calls = record {
  decide = λ _. none;
  can_open = λ _. true;
  random = λ _ _ i. i;
  work_dir = c_text "/w";
}

abbrev periodic : Periodic
periodic = record {
  held_memory = true;
  timeout_memory = true;
  held = held_calls;
  timeout_text = λ _. c_text "late";
  job_timeout_seconds = pos 60;
}

scheduler_tick-IsReady_example :
    Yields
      (λ t. IsReady t × (((10 % 10 == 0) ≡ true) ⊎ (load t ≤ load scheduler)))
      (scheduler_tick periodic around 10 scheduler)
scheduler_tick-IsReady_example = scheduler_tick-IsReady periodic around 10 scheduler all_in_order

check_held-ReleasedRightly_example :
    Yields
      (ReleasedRightly held_calls waiting_job scheduler)
      (check_held held_calls waiting_job scheduler)
check_held-ReleasedRightly_example =
    check_held-ReleasedRightly held_calls waiting_job scheduler all_in_order

-- A scheduler whose queue has the job "w".
abbrev with_waiting : SchedSystem
with_waiting = record scheduler {
  queue = record { heap = waiting_job ∷ []; capacity = 64; shutdown = false };
}

scheduler_cancel_job-cases_example :
    Yields
      (Cancelled (c_text "w") (c_text "Cancelled") with_waiting)
      (scheduler_cancel_job (c_text "w") none with_waiting)
scheduler_cancel_job-cases_example =
    scheduler_cancel_job-cases (c_text "w") none with_waiting refl (λ _. refl)
      (record { heap = λ c p q. absurd (omega arith); fits = omega arith; room = omega arith })
      sound

scheduler_stop-ends_example :
    Yields
      (λ t.
        (t.queue.heap ≡ [])
        × (t.queue.shutdown ≡ true)
        × (t.exec.executions ≡ [])
        × IsClosing scheduler.exec t.exec
        × (t.exec.alloc.allocs ≡ []))
      (scheduler_stop first_ends 2 scheduler)
scheduler_stop-ends_example =
    scheduler_stop-ends first_ends scheduler all_in_order
      (λ t closing busy. head_is_active t.executions busy)

scheduler_init-Holding_example :
    Yields
      (λ t.
        IsValid t.queue
        × (t.queue.shutdown ≡ false)
        × Perm t.queue.heap
            (rows_with JobStatus.queued (db_recover_after_restart (db_of scheduler)).1.tables.jobs))
      (scheduler_init true (λ _. true) scheduler)
unfolding db_recover_after_restart db_begin execute db_commit
scheduler_init-Holding_example =
    scheduler_init-Holding (λ _. true) scheduler (λ _. refl) refl (λ _. refl)

three_files : count_expected_files (c_text "a,b,c") ≡ 3
unfolding count_expected_files
three_files = refl

trimmed_domain : trim_local (c_text "  a b ") ≡ c_text "a b"
unfolding trim_local
trimmed_domain = refl

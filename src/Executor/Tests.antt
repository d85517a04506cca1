-- ===== src/Executor/Tests.antt =====
-- The theorems on the executor at a system with one running job.
use bhc_scheduler.Common.{◌*◌, ◌<◌, ◌≡◌, refl, ◌⊎◌, false, some, [], ◌++◌, length, arith}
use bhc_scheduler.Common.Text.{CText, c_text, str_same}
use bhc_scheduler.Job.{JobStatus, zeroed_job}
use bhc_scheduler.Db.{find_job}
use bhc_scheduler.Executor.Samples.{
  job_a, running_a, system, calls, sound, first_ends, head_is_active,
}
use bhc_scheduler.Executor.{
  shutdown_begin, ActiveExecution, ExecSystem, find_execution, find_active,
  active_request_termination, active_set_process,
}
use bhc_scheduler.Executor.Finish.{release_job}
use bhc_scheduler.Executor.Script.{shell_escape}
use bhc_scheduler.Executor.Watch.{WatchArg, watcher_thread}
use bhc_scheduler.Executor.Launch.{executor_spawn}
use bhc_scheduler.Executor.Quoting.{read_quoted, received, shell_escape-read_quoted}
use bhc_scheduler.Executor.Table.{views}
use bhc_scheduler.Executor.Spawn.{GivenUp, Launched, executor_spawn-LaunchedOrNot}
use bhc_scheduler.Executor.Books.{books}
use bhc_scheduler.Executor.Shutdown.{IsClosing, executor_shutdown, executor_shutdown-ends}
use bhc_scheduler.Executor.Steps.{◌⟹◌, ◌⟹*◌, ◌⇝*◌, IsSound, history-Refines}
use bhc_scheduler.Executor.Stopping.{LastKilled, stopped_process_killed}
use bhc_scheduler.Executor.Completion.{EndedRow, jobs_of, watcher_thread-EndedRow}

shell_escape-read_quoted_example :
    (p : CText) × (q : CText) × (c_text "a$b\"c!" ≡ p ++ q)
    × (read_quoted (shell_escape 9 (c_text "a$b\"c!")) ≡ some (received p))
    × (length (shell_escape 9 (c_text "a$b\"c!")) < 9)
    × (2 * length (c_text "a$b\"c!") < 9 → q ≡ [])
shell_escape-read_quoted_example = shell_escape-read_quoted 9 (c_text "a$b\"c!") (omega arith)

executor_spawn-LaunchedOrNot_example :
    GivenUp [] system (executor_spawn calls zeroed_job system)
    ⊎ Launched 1 [] system (executor_spawn calls zeroed_job system)
executor_spawn-LaunchedOrNot_example = executor_spawn-LaunchedOrNot calls zeroed_job system

executor_shutdown-ends_example :
    IsClosing system (shutdown_begin system)
    × ((t : ExecSystem) × (executor_shutdown first_ends 2 system ≡ some t)
        × (t.executions ≡ [])
        × IsClosing system t)
executor_shutdown-ends_example =
    executor_shutdown-ends first_ends system tt (refl, tt)
      (λ t closing busy. head_is_active t.executions busy)

abbrev stop_a : ExecSystem
stop_a = (active_request_termination (c_text "a") JobStatus.cancelled (c_text "x") system).1

abbrev history : system ⟹* (executor_spawn calls zeroed_job stop_a).1
history =
    ◌⟹*◌.then (◌⟹◌.request (c_text "a") JobStatus.cancelled (c_text "x") refl)
      (◌⟹*◌.then (◌⟹◌.spawn calls zeroed_job) ◌⟹*◌.done)

history-Refines_example :
    IsSound (executor_spawn calls zeroed_job stop_a).1
    × (views system.executions ⇝* views (executor_spawn calls zeroed_job stop_a).1.executions)
history-Refines_example =
    history-Refines system (executor_spawn calls zeroed_job stop_a).1 history sound

stopped_process_killed_example :
    ((x : ActiveExecution) × (find_execution 0 stop_a.executions ≡ some x)
      × LastKilled 7 (active_set_process x 7 stop_a))
    × LastKilled 7
        (active_request_termination
          (c_text "a")
          JobStatus.cancelled
          (c_text "x")
          (active_set_process running_a 7 system)).1
unfolding find_active str_same
stopped_process_killed_example =
    stopped_process_killed (c_text "a") JobStatus.cancelled (c_text "x") 7 system running_a sound
      refl refl (omega arith)

abbrev watch : WatchArg
watch = record {
  execution = 0;
  pid = 7;
  is_remote = false;
  remote_host = [];
  remote_output = [];
  known_hosts_path = [];
}

watcher_thread-EndedRow_example :
    EndedRow 3 100 (find_job (c_text "a") (jobs_of (watcher_thread (λ d. d) watch (some 3) system)))
    × (books (watcher_thread (λ d. d) watch (some 3) system)
        ≡ books (release_job (c_text "a") system))
unfolding find_execution find_job str_same
watcher_thread-EndedRow_example =
    watcher_thread-EndedRow (λ d. d) watch (some 3) system running_a job_a (λ _. refl) refl refl
      refl refl refl refl

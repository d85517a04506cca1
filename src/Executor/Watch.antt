-- ===== src/Executor/Watch.antt =====
-- src/core/executor.c (POSIX): what the watcher of a process does when the process has ended.
use bhc_scheduler.Common.{
  ℕ, ◌+◌, ◌/◌, ◌%◌, Bool, ◌&&◌, not, Option, none, some, [], ◌∷◌, ◌++◌, ltb, ◌==◌, if◌then◌else◌,
}
use bhc_scheduler.Common.Int.{ℤ, pos, negsuc}
use bhc_scheduler.Common.Text.{CText, c_text, has_text}
use bhc_scheduler.Job.{JobStatus, Job, succeeded, cancelled, failed, same_status}
use bhc_scheduler.Db.{Db}
use bhc_scheduler.Executor.{
  ActiveExecution, ExecSystem, change_status, find_execution, active_terminal_snapshot,
  active_clear_process,
}
use bhc_scheduler.Executor.Finish.{retire}
use bhc_scheduler.Executor.Script.{printed, build_ssh_opts}

-- `WatchArg`, with the execution by its address.
pub record WatchArg : Type 0 where
  pub execution : ℕ
  pub pid : ℕ
  pub is_remote : Bool
  pub remote_host : CText
  pub remote_output : CText
  pub known_hosts_path : CText

-- The `%d` of an exit code, which is below 256.
unfoldable pub decimal : ℕ → CText
decimal n =
    if ltb n 10
    then (48 + n) ∷ []
    else if ltb n 100
    then (48 + n / 10) ∷ (48 + n % 10) ∷ []
    else (48 + n / 100) ∷ (48 + n / 10 % 10) ∷ (48 + n % 10) ∷ []

-- `WIFEXITED(wstatus) ? WEXITSTATUS(wstatus) : 1`
abbrev pub exit_code_of : Option ℕ → ℕ
exit_code_of none = 1
exit_code_of (some n) = n

-- The status and the reason that the watcher gives a job, if it gives any.
unfoldable pub outcome :
    Bool → CText → ℕ → JobStatus → Option (JobStatus × CText) → Option (JobStatus × CText)
unfolding decimal
outcome is_remote remote_host exit_code now (some (status, reason)) =
    if same_status now cancelled
    then none
    else if same_status now failed
    then none
    else some (status, reason)
outcome is_remote remote_host exit_code now none =
    let text = c_text "Process exited with code " ++ decimal exit_code in
    if exit_code == 0
    then some (succeeded, c_text "Completed successfully")
    else if is_remote
    then some (failed, printed 280 (text ++ c_text " on " ++ remote_host))
    else some (failed, text)

abbrev pub give_outcome : Job → Option (JobStatus × CText) → ExecSystem → Job × ExecSystem
give_outcome j none s = (j, s)
give_outcome j (some (status, reason)) s =
    let (_, j', t) = change_status j status reason s in (j', t)

abbrev pub exit_code_or : Option (JobStatus × CText) → ℕ → ℤ
exit_code_or none exit_code = pos exit_code
exit_code_or (some _) exit_code = negsuc 0

-- `collect` is what `artifact_collect_job` does to the database.
abbrev pub collected : (Db → Db) → ActiveExecution → Job × ExecSystem → ExecSystem
collected collect e (j, s) =
    retire (record e { job = j })
      (record s { alloc = record (s.alloc) { db = collect s.alloc.db } })

-- `watcher_thread` from the snapshot on.
unfoldable pub watch_end :
    (Db → Db) → WatchArg → Option ℕ → ActiveExecution → ExecSystem → ExecSystem
unfolding active_terminal_snapshot outcome retire
watch_end collect wa exited e s =
    let asked = active_terminal_snapshot e in
    let code = exit_code_of exited in
    let j : Job = record (e.job) { exit_code = exit_code_or asked code } in
    collected collect e (give_outcome j (outcome wa.is_remote wa.remote_host code j.status asked) s)

abbrev pub watch_found :
    (Db → Db) → WatchArg → Option ℕ → ExecSystem → Option ActiveExecution → ExecSystem
watch_found collect wa exited s none = s
watch_found collect wa exited s (some e) =
    let idle = record e { pid = 0 } in watch_end collect wa exited idle (active_clear_process e s)

-- `watcher_thread` once `waitpid` has returned.
unfoldable pub watcher_thread : (Db → Db) → WatchArg → Option ℕ → ExecSystem → ExecSystem
unfolding watch_end active_clear_process
watcher_thread collect wa exited s =
    watch_found collect wa exited s (find_execution wa.execution s.executions)

-- The command that the watcher runs to fetch the output of a remote job that was not stopped.
pub fetch_command : WatchArg → ActiveExecution → CText → ExecSystem → Option CText
fetch_command wa e output_dir s =
    if wa.is_remote && has_text s.config.ssh_user && not e.termination_requested
    then some (
        printed 1024 (
          c_text "scp "
          ++ build_ssh_opts s.config wa.known_hosts_path
          ++ c_text " -r "
          ++ s.config.ssh_user
          ++ c_text "@"
          ++ wa.remote_host
          ++ c_text ":"
          ++ wa.remote_output
          ++ c_text "/. '"
          ++ output_dir
          ++ c_text "'"))
    else none

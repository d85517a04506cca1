-- ===== src/Executor/Closing.antt =====
-- What the end of an execution leaves alone: the flag of the shutdown, and the signals sent.
use bhc_scheduler.Common.{◌≡◌, refl, ◌∙◌, Bool, Option, none, some, List, ℕ, arith}
use bhc_scheduler.Common.Text.{CText}
use bhc_scheduler.Job.{JobStatus, Job}
use bhc_scheduler.Db.{Db}
use bhc_scheduler.Registry.{Machine, registry_get_copy}
use bhc_scheduler.Executor.{
  ActiveExecution, ExecSystem, active_clear_process, active_terminal_snapshot, active_unregister,
  find_execution,
}
use bhc_scheduler.Executor.Finish.{
  release_job, deprovision_idle, maybe_auto_deprovision, end_job, retire, finish_without_process,
}
use bhc_scheduler.Executor.Watch.{
  WatchArg, exit_code_of, exit_code_or, outcome, give_outcome, collected, watch_end, watch_found,
  watcher_thread,
}
use bhc_scheduler.Executor.Threads.{Ending, reaped, never_ran, finish_found, end_execution}

-- The flag `s_shutting_down`, and the processes that were sent a signal.
abbrev pub signals : ExecSystem → Bool × List ℕ
signals s = (s.shutting_down, s.killed)

idle-signals : (s : ExecSystem) (m : Option Machine) → signals (deprovision_idle s m) ≡ signals s
idle-signals s none = refl
idle-signals s (some m) = ground arith

deprovision-signals :
    (id : CText) (s : ExecSystem) → signals (maybe_auto_deprovision id s) ≡ signals s
unfolding maybe_auto_deprovision
deprovision-signals id s = ground (arith, idle-signals s (registry_get_copy id s.alloc.machines))

retire-signals : (e : ActiveExecution) (s : ExecSystem) → signals (retire e s) ≡ signals s
unfolding retire active_unregister
retire-signals e s = deprovision-signals e.job.machine_id (release_job e.job.id s)

end_job-signals :
    (j : Job) (asked : JobStatus × CText) (s : ExecSystem) → signals (end_job j asked s) ≡ signals s
unfolding end_job
end_job-signals j asked s = ground arith

finish-signals :
    (status : JobStatus) (reason : CText) (s : ExecSystem) (o : Option ActiveExecution)
    → signals (finish_found status reason s o) ≡ signals s
unfolding finish_without_process
finish-signals status reason s none = refl
finish-signals status reason s (some e) =
    retire-signals e (end_job e.job _ s) ∙ end_job-signals e.job _ s

give_outcome-signals :
    (j : Job) (o : Option (JobStatus × CText)) (s : ExecSystem)
    → signals (give_outcome j o s).1 ≡ signals s
give_outcome-signals j none s = refl
give_outcome-signals j (some (status, reason)) s = refl

collected-signals :
    (collect : Db → Db) (e : ActiveExecution) (r : Job × ExecSystem)
    → signals (collected collect e r) ≡ signals r.1
collected-signals collect e (j, s) =
    retire-signals (record e { job = j })
      (record s { alloc = record (s.alloc) { db = collect s.alloc.db } })

watch_end-signals :
    (collect : Db → Db) (wa : WatchArg) (exited : Option ℕ) (e : ActiveExecution) (s : ExecSystem)
    → signals (watch_end collect wa exited e s) ≡ signals s
unfolding watch_end
watch_end-signals collect wa exited e s =
    let asked = active_terminal_snapshot e in
    let code = exit_code_of exited in
    let j : Job = record (e.job) { exit_code = exit_code_or asked code } in
    let given = outcome wa.is_remote wa.remote_host code j.status asked in
    collected-signals collect e (give_outcome j given s) ∙ give_outcome-signals j given s

watch-signals :
    (collect : Db → Db) (wa : WatchArg) (exited : Option ℕ) (s : ExecSystem)
    → (o : Option ActiveExecution) → signals (watch_found collect wa exited s o) ≡ signals s
unfolding active_clear_process
watch-signals collect wa exited s none = refl
watch-signals collect wa exited s (some e) =
    let idle = record e { pid = 0 } in
    watch_end-signals collect wa exited idle (active_clear_process e s)

-- The end of an execution sends no signal and opens nothing again.
pub end-signals : (x : Ending) (s : ExecSystem) → signals (end_execution x s) ≡ signals s
unfolding end_execution watcher_thread
end-signals (reaped collect wa exited) s =
    watch-signals collect wa exited s (find_execution wa.execution s.executions)
end-signals (never_ran h status reason) s =
    finish-signals status reason s (find_execution h s.executions)

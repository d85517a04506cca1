-- ===== src/Executor/Threads.antt =====
-- What `spawn_process` and the watcher do to the table of executions.
use bhc_scheduler.Common.{
  ℕ, ◌≡◌, refl, ap, ◌∙◌, not, Option, none, some, List, [], ◌∷◌, arith, inl, inr, ◌⊎◌, if_cases,
}
use bhc_scheduler.Common.Text.{CText, has_text}
use bhc_scheduler.Common.Rc.{Rc}
use bhc_scheduler.Job.{JobStatus, Job}
use bhc_scheduler.Db.{Db}
use bhc_scheduler.Executor.{
  ActiveExecution, ExecSystem, put, without, active_set_process, active_clear_process,
  active_terminal_snapshot, find_execution,
}
use bhc_scheduler.Executor.Finish.{finish_without_process}
use bhc_scheduler.Executor.Table.{found_handle}
use bhc_scheduler.Executor.Effects.{retire-executions, finish-executions}
use bhc_scheduler.Executor.Script.{machine_host}
use bhc_scheduler.Executor.Watch.{
  WatchArg, exit_code_of, exit_code_or, outcome, give_outcome, collected, watch_end, watch_found,
  watcher_thread,
}
use bhc_scheduler.Executor.Process.{
  Host, Remote, start_watcher, forked, spawn_local, spawn_remote, spawn_process, script_written,
  upload_command, ssh_command, mkdir_command, remote_of,
}

-- The process of an execution is written, or nothing is.
abbrev pub OnlyProcess : ActiveExecution → List ActiveExecution → List ActiveExecution → Type 0
OnlyProcess e es new = (new ≡ es) ⊎ ((pid : ℕ) × (new ≡ put (record e { pid = pid }) es))

put_again :
    (x y : ActiveExecution) (es : List ActiveExecution)
    → x.handle ≡ y.handle
    → put x (put y es) ≡ put x es
unfolding put
put_again x y [] same = refl
put_again x y (e ∷ es) same = ground (arith, put_again x y es same)

without-put :
    (x : ActiveExecution) (es : List ActiveExecution)
    → without x.handle (put x es) ≡ without x.handle es
unfolding put without
without-put x [] = refl
without-put x (e ∷ es) = ground (arith, without-put x es)

pub set_process-executions :
    (e : ActiveExecution) (pid : ℕ) (s : ExecSystem)
    → (active_set_process e pid s).executions ≡ put (record e { pid = pid }) s.executions
unfolding active_set_process
set_process-executions e pid s = ground arith

abbrev Written : ActiveExecution → ExecSystem → Rc × Option WatchArg × ExecSystem → Type 0
Written e s r = OnlyProcess e s.executions r.2.executions

start_watcher-Written :
    (host : Host) (e : ActiveExecution) (wa : WatchArg) (s : ExecSystem)
    → Written e s (start_watcher host e wa s)
unfolding start_watcher active_clear_process
start_watcher-Written host e wa s =
    if_cases (Written e s) (not host.watch_memory) _ _ (λ _. inl refl)
      (λ _.
        if_cases (Written e s) host.thread_ok _ _
          (λ _. inr (wa.pid, set_process-executions e wa.pid s))
          (λ _. inr (
            0,
            ap (put (record e { pid = 0 })) (set_process-executions e wa.pid s)
                ∙ put_again (record e { pid = 0 }) (record e { pid = wa.pid }) s.executions refl,
          )))

forked-Written :
    (host : Host) (e : ActiveExecution) (wa : ℕ → WatchArg) (child : Option ℕ) (s : ExecSystem)
    → Written e s (forked host e wa child s)
forked-Written host e wa none s = inl refl
forked-Written host e wa (some pid) s = start_watcher-Written host e (wa pid) s

local-Written :
    (host : Host) (e : ActiveExecution) (s : ExecSystem) → Written e s (spawn_local host e s)
unfolding spawn_local
local-Written host e s =
    if_cases (Written e s) (host.wordexp_ok e.job.command) _ _
      (λ _. forked-Written host e _ host.fork s) (λ _. inl refl)

script-Written :
    (host : Host) (name : CText) (r : Remote) (e : ActiveExecution) (s : ExecSystem)
    → (script : Option (CText × CText)) → Written e s (script_written host name r e s script)
script-Written host name r e s none = inl refl
script-Written host name r e s (some (path, _)) =
    if_cases (Written e s) (not (host.system_ok (upload_command r path))) _ _ (λ _. inl refl)
      (λ _.
        if_cases (Written e s) (not (host.wordexp_ok (ssh_command s.config r))) _ _ (λ _. inl refl)
          (λ _. forked-Written host e _ host.fork s))

remote-Written :
    (host : Host) (name : CText) (e : ActiveExecution) (s : ExecSystem)
    → Written e s (spawn_remote host name e s)
unfolding spawn_remote
remote-Written host name e s =
    let r = remote_of s.config name e.job.id in
    if_cases (Written e s) (host.system_ok (mkdir_command r)) _ _
      (λ _. script-Written host name r e s _) (λ _. inl refl)

-- Whichever call of the system fails, `spawn_process` writes at most the process of its execution.
pub spawn_process-Written :
    (host : Host) (e : ActiveExecution) (s : ExecSystem) → Written e s (spawn_process host e s)
unfolding spawn_process
spawn_process-Written host e s =
    let place = machine_host e.job.machine_id s.alloc.machines in
    if_cases (Written e s) place.0 _ _ (λ _. local-Written host e s)
      (λ _.
        if_cases (Written e s) (has_text s.config.ssh_user) _ _
          (λ _. remote-Written host place.1 e s) (λ _. local-Written host e s))

give_outcome-executions :
    (j : Job) (o : Option (JobStatus × CText)) (s : ExecSystem)
    → (give_outcome j o s).1.executions ≡ s.executions
give_outcome-executions j none s = refl
give_outcome-executions j (some (status, reason)) s = refl

collected-executions :
    (collect : Db → Db) (e : ActiveExecution) (r : Job × ExecSystem)
    → (collected collect e r).executions ≡ without e.handle r.1.executions
collected-executions collect e (j, s) =
    retire-executions (record e { job = j })
      (record s { alloc = record (s.alloc) { db = collect s.alloc.db } })

watch_end-executions :
    (collect : Db → Db) (wa : WatchArg) (exited : Option ℕ) (e : ActiveExecution) (s : ExecSystem)
    → (watch_end collect wa exited e s).executions ≡ without e.handle s.executions
unfolding watch_end
watch_end-executions collect wa exited e s =
    let asked = active_terminal_snapshot e in
    let code = exit_code_of exited in
    let j : Job = record (e.job) { exit_code = exit_code_or asked code } in
    let given = outcome wa.is_remote wa.remote_host code j.status asked in
    collected-executions collect e (give_outcome j given s)
    ∙ ap (without e.handle) (give_outcome-executions j given s)

-- The watcher takes exactly its execution out of the table.
pub watcher-executions :
    (collect : Db → Db) (wa : WatchArg) (exited : Option ℕ) (s : ExecSystem) (e : ActiveExecution)
    → find_execution wa.execution s.executions ≡ some e
    → (watcher_thread collect wa exited s).executions ≡ without e.handle s.executions
unfolding watcher_thread active_clear_process
watcher-executions collect wa exited s e found =
    ap (λ o. (watch_found collect wa exited s o).executions) found
    ∙ watch_end-executions collect wa exited (record e { pid = 0 }) (active_clear_process e s)
    ∙ without-put (record e { pid = 0 }) s.executions

-- The end of one execution: its process was reaped, or it never had one.
pub data Ending : Type 0 where
  reaped : (Db → Db) → WatchArg → Option ℕ → Ending
  never_ran : ℕ → JobStatus → CText → Ending

abbrev pub handle_of : Ending → ℕ
handle_of (reaped _ wa _) = wa.execution
handle_of (never_ran h _ _) = h

abbrev pub finish_found : JobStatus → CText → ExecSystem → Option ActiveExecution → ExecSystem
finish_found status reason s none = s
finish_found status reason s (some e) = finish_without_process e status reason s

unfoldable pub end_execution : Ending → ExecSystem → ExecSystem
end_execution (reaped collect wa exited) s = watcher_thread collect wa exited s
end_execution (never_ran h status reason) s =
    finish_found status reason s (find_execution h s.executions)

-- An end takes exactly its execution out of the table.
pub end-executions :
    (x : Ending) (s : ExecSystem) (e : ActiveExecution)
    → find_execution (handle_of x) s.executions ≡ some e
    → (end_execution x s).executions ≡ without (handle_of x) s.executions
unfolding end_execution
end-executions (reaped collect wa exited) s e found =
    watcher-executions collect wa exited s e found
    ∙ ap (λ h. without h s.executions) (found_handle wa.execution s.executions e found)
end-executions (never_ran h status reason) s e found =
    ap (λ o. (finish_found status reason s o).executions) found
    ∙ finish-executions e status reason s
    ∙ ap (λ k. without k s.executions) (found_handle h s.executions e found)

-- The end of an execution that is not in the table changes nothing.
pub end-missing :
    (x : Ending) (s : ExecSystem)
    → find_execution (handle_of x) s.executions ≡ none
    → end_execution x s ≡ s
unfolding end_execution watcher_thread
end-missing (reaped collect wa exited) s missing = ap (watch_found collect wa exited s) missing
end-missing (never_ran h status reason) s missing = ap (finish_found status reason s) missing

-- ===== src/Executor/Completion.antt =====
-- What the end of a process leaves in the database and of the reservation.
use bhc_scheduler.Common.{
  ℕ, suc, ◌≡◌, refl, ap, ◌∙◌, Bool, true, false, Option, none, some, List, arith, inl, inr, ◌==◌,
  Bool-cases, if◌then◌else◌,
}
use bhc_scheduler.Common.Int.{pos}
use bhc_scheduler.Common.Text.{CText, c_text}
use bhc_scheduler.Common.Rc.{Rc}
use bhc_scheduler.Job.{JobStatus, Job, running, succeeded, failed, transition_allowed}
use bhc_scheduler.Registry.{Machine, registry_get_copy}
use bhc_scheduler.Db.{Db, execute, find_job, db_release_allocation}
use bhc_scheduler.Alloc.{
  AllocSystem, AllocRecord, alloc_release, release_found, find_record, discard_record,
}
use bhc_scheduler.Lifecycle.{World, is_terminal}
use bhc_scheduler.Lifecycle.Transitions.{job_set_status_r-cases}
use bhc_scheduler.Lifecycle.Persistence.{row_after, accepted_persists}
use bhc_scheduler.Executor.{
  ActiveExecution, ExecSystem, change_status, find_execution, active_unregister,
  active_clear_process, active_terminal_snapshot, world_of,
}
use bhc_scheduler.Executor.Finish.{release_job, maybe_auto_deprovision, deprovision_idle, retire}
use bhc_scheduler.Executor.Watch.{
  WatchArg, exit_code_of, exit_code_or, outcome, give_outcome, collected, watch_end, watch_found,
  watcher_thread,
}
use bhc_scheduler.Executor.Effects.{marked_fields}
use bhc_scheduler.Executor.Books.{books, retire-books, release_ext}

abbrev pub jobs_of : ExecSystem → List Job
jobs_of s = s.alloc.db.tables.jobs

found-jobs :
    (a : AllocSystem) (o : Option (ℕ × AllocRecord))
    → (release_found a o).1.db.tables.jobs ≡ a.db.tables.jobs
unfolding discard_record
found-jobs a none = refl
found-jobs a (some (i, r)) = refl

release-row_jobs :
    (id : CText) (d : Db) → (db_release_allocation id d).1.tables.jobs ≡ d.tables.jobs
unfolding db_release_allocation execute
release-row_jobs id d = ground arith

release-jobs : (id : CText) (s : ExecSystem) → jobs_of (release_job id s) ≡ jobs_of s
unfolding alloc_release
release-jobs id s =
    release-row_jobs id (release_found s.alloc (find_record id s.alloc.allocs 0)).1.db
    ∙ found-jobs s.alloc (find_record id s.alloc.allocs 0)

idle-jobs : (s : ExecSystem) (m : Option Machine) → jobs_of (deprovision_idle s m) ≡ jobs_of s
unfolding execute
idle-jobs s none = refl
idle-jobs s (some m) = ground arith

deprovision-jobs : (id : CText) (s : ExecSystem) → jobs_of (maybe_auto_deprovision id s) ≡ jobs_of s
unfolding maybe_auto_deprovision
deprovision-jobs id s = ground (arith, idle-jobs s (registry_get_copy id s.alloc.machines))

retire-jobs : (e : ActiveExecution) (s : ExecSystem) → jobs_of (retire e s) ≡ jobs_of s
unfolding retire active_unregister
retire-jobs e s =
    deprovision-jobs e.job.machine_id (release_job e.job.id s) ∙ release-jobs e.job.id s

collected-jobs :
    (collect : Db → Db) (e : ActiveExecution) (r : Job × ExecSystem)
    → ((d : Db) → (collect d).tables.jobs ≡ d.tables.jobs)
    → jobs_of (collected collect e r) ≡ jobs_of r.1
collected-jobs collect e (j, s) keeps = retire-jobs _ _ ∙ keeps s.alloc.db

abbrev pub ended_as : ℕ → JobStatus
ended_as code = if code == 0 then succeeded else failed

outcome_unasked :
    (remote : Bool) (host : CText) (code : ℕ) (now : JobStatus)
    → (text : CText) × (outcome remote host code now none ≡ some (ended_as code, text))
unfolding outcome
outcome_unasked remote host code now = elim (Bool-cases (code == 0)) [
  | inl zero_code ↦ (c_text "Completed successfully", rw zero_code refl)
  | inr bad ↦ elim (Bool-cases remote) [
    | inl r ↦ rw (bad, r) (_, refl)
    | inr l ↦ rw (bad, l) (_, refl)
  ]
]

ended_allowed : (code : ℕ) → transition_allowed running (ended_as code) ≡ true
unfolding transition_allowed
ended_allowed code = ground arith

ended_terminal : (code : ℕ) → is_terminal (ended_as code) ≡ true
unfolding is_terminal
ended_terminal code = ground arith

-- The row of a job whose process ended by itself.
abbrev pub EndedRow : ℕ → ℕ → Option Job → Type 0
EndedRow code now o =
    (row : Job) × (o ≡ some row)
    × (row.status ≡ ended_as code)
    × (row.exit_code ≡ pos code)
    × (row.ended_at ≡ now)

settled_row :
    (code : ℕ) (text : CText) (j : Job) (s : ExecSystem) (row : Job)
    → j.status ≡ running
    → j.exit_code ≡ pos code
    → s.alloc.db.fate s.alloc.db.statements ≡ true
    → s.alloc.db.fate (suc s.alloc.db.statements) ≡ true
    → find_job j.id (jobs_of s) ≡ some row
    → EndedRow code s.alloc.db.now
        (find_job j.id (jobs_of (give_outcome j (some (ended_as code, text)) s).1))
settled_row code text j s row now exit first second there =
    let allowed : transition_allowed j.status (ended_as code) ≡ true =
      rw now (ended_allowed code) in
    let ends = ended_terminal code in
    (
      row_after j (ended_as code) text s.alloc.db.now row,
      accepted_persists j (ended_as code) (some text) (world_of s) row allowed first second there,
      refl,
      rw (ends, exit) refl,
      rw ends refl,
    )

change_key :
    (j : Job) (status : JobStatus) (reason : CText) (s : ExecSystem)
    → (change_status j status reason s).1.id ≡ j.id
change_key j status reason s = elim (job_set_status_r-cases j status (some reason) (world_of s)) [
  | inl (_, e) ↦ ap (λ (r : Rc × Job × World). r.1.id) e
  | inr (_, _, e) ↦
      ap (λ (x : Job). x.id) e ∙ (marked_fields j status (some reason) s.alloc.db.now).0
]

collected-books :
    (collect : Db → Db) (e : ActiveExecution) (r : Job × ExecSystem) (s : ExecSystem)
    → r.0.id ≡ e.job.id
    → books r.1 ≡ books s
    → books (collected collect e r) ≡ books (release_job e.job.id s)
collected-books collect e (j, t) s key same =
    let kept : ExecSystem = record t { alloc = record (t.alloc) { db = collect t.alloc.db } } in
    retire-books (record e { job = j }) kept
    ∙ ap (λ k. books (release_job k kept)) key
    ∙ release_ext e.job.id kept s same

unasked_end :
    (collect : Db → Db) (wa : WatchArg) (exited : Option ℕ) (e : ActiveExecution) (s : ExecSystem)
    → (status : JobStatus) (text : CText) → e.termination_requested ≡ false
    → outcome wa.is_remote wa.remote_host (exit_code_of exited) e.job.status none
      ≡ some (status, text)
    → watch_end collect wa exited e s
      ≡ collected collect e (
          give_outcome
            (record (e.job) { exit_code = pos (exit_code_of exited) })
            (some (status, text))
            s)
unfolding watch_end active_terminal_snapshot
unasked_end collect wa exited e s status text first given =
    let code = exit_code_of exited in
    let none_asked : active_terminal_snapshot e ≡ none = rw first refl in
    ap
      (λ asked. collected collect e (
        give_outcome (record (e.job) { exit_code = exit_code_or asked code })
          (outcome wa.is_remote wa.remote_host code e.job.status asked) s))
      none_asked
    ∙ ap (λ o. collected collect e (give_outcome (record (e.job) { exit_code = pos code }) o s))
        given

-- When the process of a RUNNING job that nobody asked to stop ends by itself, and the two statements that
-- store it succeed, the job's row says SUCCEEDED if the exit code is 0 and FAILED otherwise, with the exit
-- code (1 where a signal ended the process) and the time; and what the job had reserved is released.
-- It is assumed that `artifact_collect_job` leaves the table of jobs alone.
pub watcher_thread-EndedRow :
    (collect : Db → Db) (wa : WatchArg) (exited : Option ℕ) (s : ExecSystem)
    → (e : ActiveExecution) (row : Job) → ((d : Db) → (collect d).tables.jobs ≡ d.tables.jobs)
    → find_execution wa.execution s.executions ≡ some e
    → e.job.status ≡ running
    → e.termination_requested ≡ false
    → s.alloc.db.fate s.alloc.db.statements ≡ true
    → s.alloc.db.fate (suc s.alloc.db.statements) ≡ true
    → find_job e.job.id (jobs_of s) ≡ some row
    → EndedRow
        (exit_code_of exited)
        s.alloc.db.now
        (find_job e.job.id (jobs_of (watcher_thread collect wa exited s)))
      × (books (watcher_thread collect wa exited s) ≡ books (release_job e.job.id s))
unfolding watcher_thread active_clear_process
watcher_thread-EndedRow collect wa exited s e row keeps found now first f1 f2 there =
    let code = exit_code_of exited in
    let (text, given) = outcome_unasked wa.is_remote wa.remote_host code e.job.status in
    let cleared = active_clear_process e s in
    let j : Job = record (e.job) { exit_code = pos code } in
    let end = give_outcome j (some (ended_as code, text)) cleared in
    let is_end : watcher_thread collect wa exited s ≡ collected collect (record e { pid = 0 }) end =
      ap (watch_found collect wa exited s) found
      ∙ unasked_end collect wa exited (record e { pid = 0 }) cleared (ended_as code) text first
          given in
    (
      rw (is_end, collected-jobs collect (record e { pid = 0 }) end keeps)
          (settled_row code text j cleared row now refl f1 f2 there),
      ap books is_end
          ∙ collected-books collect (record e { pid = 0 }) end s
              (change_key j (ended_as code) text cleared) refl,
    )

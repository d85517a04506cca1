-- ===== src/Executor/Effects.antt =====
-- What each function of the executor does to the table of executions.

use bhc_scheduler.Common.{
  ℕ, ◌≡◌, refl, ap, sym, ◌∙◌, Bool, true, false, Option, none, some, arith, inl, inr, Bool-cases,
  ◌⊎◌, ◌||◌,
}
use bhc_scheduler.Common.Text.{CText, copy_field}
use bhc_scheduler.Job.{JobStatus, Job, cancelled, failed, transition_allowed, same_status}
use bhc_scheduler.Registry.{Machine, registry_get_copy}
use bhc_scheduler.Lifecycle.{marked}
use bhc_scheduler.Lifecycle.Transitions.{job_set_status_r-cases}
use bhc_scheduler.Executor.{
  ActiveExecution, ExecSystem, change_status, put, without, is_live, requested, mark_terminated,
  world_of, active_unregister,
}
use bhc_scheduler.Executor.Finish.{
  deprovision_idle, maybe_auto_deprovision, end_job, retire, finish_without_process, release_job,
}

-- A request asks for one of these.
abbrev pub stops : JobStatus → Bool
stops status = same_status status cancelled || same_status status failed

abbrev pub SettledAs : Bool → ActiveExecution → Type 0
SettledAs true e = (e.job.status ≡ e.terminal_status) × (stops e.terminal_status ≡ true)
SettledAs false e = is_live e.job.status ≡ true

-- A job that was not asked to stop is QUEUED or RUNNING; one that was has the outcome asked for.
abbrev pub Settled : ActiveExecution → Type 0
Settled e = SettledAs e.termination_requested e

pub marked_fields :
    (j : Job) (status : JobStatus) (r : Option CText) (now : ℕ)
    → ((marked j status r now).id ≡ j.id) × ((marked j status r now).status ≡ status)
unfolding marked
marked_fields j status r now = ground arith

live-allowed :
    (now status : JobStatus)
    → is_live now ≡ true
    → stops status ≡ true
    → transition_allowed now status ≡ true
unfolding transition_allowed
live-allowed now status live stop = ground arith

-- The status that was asked for is set on a live job, and the executions stay.
pub change_status-live :
    (j : Job) (status : JobStatus) (reason : CText) (s : ExecSystem)
    → is_live j.status ≡ true
    → stops status ≡ true
    → ((change_status j status reason s).1.id ≡ j.id)
      × ((change_status j status reason s).1.status ≡ status)
change_status-live j status reason s live stop =
    elim (job_set_status_r-cases j status (some reason) (world_of s)) [
      | inl (refused, _) ↦ absurd (ground (arith, live-allowed j.status status live stop))
      | inr (_, _, e) ↦ rw e (marked_fields j status (some reason) s.alloc.db.now)
    ]

-- What the first request makes of an execution.
abbrev pub Stopped : JobStatus → CText → ActiveExecution → ActiveExecution → Type 0
Stopped status reason e x =
    (x.handle ≡ e.handle)
    × (x.pid ≡ e.pid)
    × (x.job.id ≡ e.job.id)
    × (x.termination_requested ≡ true)
    × (x.terminal_status ≡ status)
    × (x.terminal_reason ≡ copy_field 256 reason)
    × (x.job.status ≡ status)

pub Stopped-Settled :
    (status : JobStatus) (reason : CText) (e x : ActiveExecution)
    → stops status ≡ true
    → Stopped status reason e x
    → Settled x
Stopped-Settled status reason e x stop (_, _, _, req, st, _, now) =
    rw req (now ∙ sym st, ap stops st ∙ stop)

pub mark_terminated-cases :
    (status : JobStatus) (reason : CText) (e : ActiveExecution) (s : ExecSystem)
    → stops status ≡ true
    → Settled e
    → ((e.termination_requested ≡ true) × (mark_terminated status reason e s ≡ s))
      ⊎ ((e.termination_requested ≡ false)
          × ((x : ActiveExecution) × Stopped status reason e x
              × ((mark_terminated status reason e s).executions ≡ put x s.executions)))
unfolding mark_terminated
mark_terminated-cases status reason e s stop settled = elim (Bool-cases e.termination_requested) [
  | inl before ↦ inl (before, ground arith)
  | inr first ↦
      let live : is_live e.job.status ≡ true = rw first at settled in
      let asked = requested status reason e in
      let (id, now) = change_status-live asked.job status (copy_field 256 reason) s live stop in
      inr (
        first,
        (
          record asked { job = (change_status asked.job status (copy_field 256 reason) s).1 },
          (refl, refl, id, refl, refl, refl, now),
          rw (first, live) refl,
        ),
      )
]

deprovision_idle-executions :
    (s : ExecSystem) (m : Option Machine) → (deprovision_idle s m).executions ≡ s.executions
deprovision_idle-executions s none = refl
deprovision_idle-executions s (some m) = ground arith

deprovision-executions :
    (id : CText) (s : ExecSystem) → (maybe_auto_deprovision id s).executions ≡ s.executions
unfolding maybe_auto_deprovision
deprovision-executions id s =
    ground (arith, deprovision_idle-executions s (registry_get_copy id s.alloc.machines))

pub retire-executions :
    (e : ActiveExecution) (s : ExecSystem) → (retire e s).executions ≡ without e.handle s.executions
unfolding retire active_unregister
retire-executions e s =
    ap (without e.handle) (deprovision-executions e.job.machine_id (release_job e.job.id s))

pub end_job-executions :
    (j : Job) (asked : JobStatus × CText) (s : ExecSystem)
    → (end_job j asked s).executions ≡ s.executions
unfolding end_job
end_job-executions j asked s = ground arith

-- `finish_without_process` takes exactly its execution out of the table.
pub finish-executions :
    (e : ActiveExecution) (status : JobStatus) (reason : CText) (s : ExecSystem)
    → (finish_without_process e status reason s).executions ≡ without e.handle s.executions
unfolding finish_without_process
finish-executions e status reason s =
    retire-executions e (end_job e.job _ s) ∙ ap (without e.handle) (end_job-executions e.job _ s)

-- ===== src/Executor/Spawn.antt =====
-- `executor_spawn` on each of its branches: a running execution, or nothing left of the job.

use bhc_scheduler.Executor.Books.{books, release_ext, finish-books}
use bhc_scheduler.Common.{
  ℕ, ◌≡◌, refl, ap, ◌∙◌, false, not, Option, none, some, List, [], ◌∷◌, arith, inl, inr, Bool-cases,
  ◌⊎◌, if_cases,
}
use bhc_scheduler.Common.Text.{CText, c_text}
use bhc_scheduler.Common.Rc.{Rc, ok, error, conflict}
use bhc_scheduler.Job.{Job, running, failed}
use bhc_scheduler.Db.{Db, db_get_job, db_update_job_started}
use bhc_scheduler.Lifecycle.{World, job_set_status, store_dir}
use bhc_scheduler.Lifecycle.Transitions.{job_set_status_r-cases}
use bhc_scheduler.Executor.{
  ActiveExecution, ExecSystem, put, without, active_unregister, active_register, fresh_execution,
  fresh_handle, change_status, world_of, in_world, store,
}
use bhc_scheduler.Executor.Finish.{release_job, finish_without_process}
use bhc_scheduler.Executor.Effects.{marked_fields, finish-executions}
use bhc_scheduler.Executor.Launch.{
  SpawnCalls, executor_spawn, give_up, spawn_started, spawn_running, spawn_stored, is_queued,
  spawn_registered,
}

-- Nothing is left of the job: no execution, and its reservation is released.
abbrev pub GivenUp : CText → ExecSystem → Rc × ExecSystem → Type 0
GivenUp id s (rc, t) =
    (rc ≡ error) × (t.executions ≡ s.executions) × (books t ≡ books (release_job id s))

-- The job is running, under the address.
abbrev pub Launched : ℕ → CText → ExecSystem → Rc × ExecSystem → Type 0
Launched h id s (rc, t) =
    (rc ≡ ok)
    × ((e : ActiveExecution) × (e.handle ≡ h)
        × (e.job.id ≡ id)
        × (e.job.status ≡ running)
        × (e.termination_requested ≡ false)
        × (t.executions ≡ e ∷ s.executions))
    × (books t ≡ books s)

-- The system with the fresh execution in front of the others.
abbrev Registered : ℕ → ExecSystem → ExecSystem → Type 0
Registered h s t =
    ((x : ActiveExecution) × (x.handle ≡ h) × (t.executions ≡ x ∷ s.executions))
    × (books t ≡ books s)

without_head :
    (x : ActiveExecution) (es : List ActiveExecution) (h : ℕ)
    → x.handle ≡ h
    → without h (x ∷ es) ≡ es
unfolding without
without_head x es h own = ground arith

put_head :
    (new x : ActiveExecution) (es : List ActiveExecution)
    → x.handle ≡ new.handle
    → put new (x ∷ es) ≡ new ∷ es
unfolding put
put_head new x es own = ground arith

give_up-GivenUp :
    (h : ℕ) (j : Job) (s t : ExecSystem) → Registered h s t → GivenUp j.id s (give_up h j t)
unfolding active_unregister
give_up-GivenUp h j s t ((x, own, there), same) =
    (refl, ap (without h) there ∙ without_head x s.executions h own, release_ext j.id t s same)

finish-GivenUp :
    (e : ActiveExecution) (reason : CText) (s t : ExecSystem)
    → t.executions ≡ e ∷ s.executions
    → books t ≡ books s
    → GivenUp e.job.id s (error, finish_without_process e failed reason t)
finish-GivenUp e reason s t there same = (
  refl,
  finish-executions e failed reason t
      ∙ ap (without e.handle) there
      ∙ without_head e s.executions e.handle refl,
  finish-books e failed reason t ∙ release_ext e.job.id t s same,
)

started :
    (calls : SpawnCalls) (e : ActiveExecution) (r : Rc × Db) (s t : ExecSystem)
    → Registered e.handle s t
    → e.job.status ≡ running
    → e.termination_requested ≡ false
    → GivenUp e.job.id s (spawn_started calls e r t)
      ⊎ Launched e.handle e.job.id s (spawn_started calls e r t)
started calls e (ok, d) s t ((x, own, there), same) now first =
    let u : ExecSystem = store e (record t { alloc = record (t.alloc) { db = d } }) in
    let here : u.executions ≡ e ∷ s.executions = ap (put e) there ∙ put_head e x s.executions own in
    elim (Bool-cases calls.launch_memory) [
      | inr no_memory ↦ inl (rw no_memory (finish-GivenUp e (c_text "Out of memory") s u here same))
      | inl memory ↦ elim (Bool-cases calls.thread_ok) [
        | inr no_thread ↦ inl (
            rw (memory, no_thread)
              (finish-GivenUp e (c_text "Failed to create launcher thread") s u here same))
        | inl thread ↦ inr (rw (memory, thread) (refl, (e, refl, refl, now, first, here), same))
      ]
    ]
started calls e (error, d) s t ((x, own, there), same) now first = inl (
    finish-GivenUp e (c_text "Failed to persist job start") s
      (store e (record t { alloc = record (t.alloc) { db = d } }))
      (ap (put e) there ∙ put_head e x s.executions own) same)
started calls e (conflict, d) s t ((x, own, there), same) now first = inl (
    finish-GivenUp e (c_text "Failed to persist job start") s
      (store e (record t { alloc = record (t.alloc) { db = d } }))
      (ap (put e) there ∙ put_head e x s.executions own) same)

abbrev Either : ℕ → CText → ExecSystem → Rc × ExecSystem → Type 0
Either h id s r = GivenUp id s r ⊎ Launched h id s r

running_after :
    (calls : SpawnCalls) (h : ℕ) (id : CText) (r : Rc × Job × World) (s t : ExecSystem)
    → Registered h s t
    → r.1.id ≡ id
    → (r.0 ≡ ok → r.1.status ≡ running)
    → Either h id s (spawn_running calls h r t)
running_after calls h id (ok, j, w) s t reg key now =
    let u : ExecSystem = in_world t w in
    let moment = u.alloc.db.now in
    let e : ActiveExecution = fresh_execution h (record j { started_at = moment }) in
    rw (← key) (
      started calls e (db_update_job_started j.id j.machine_id moment u.alloc.db) s u reg (now refl)
        refl)
running_after calls h id (error, j, w) s t reg key now =
    inl (rw (← key) (give_up-GivenUp h j s (in_world t w) reg))
running_after calls h id (conflict, j, w) s t reg key now =
    inl (rw (← key) (give_up-GivenUp h j s (in_world t w) reg))

set_running :
    (j : Job) (w : World)
    → ((job_set_status j running w).1.id ≡ j.id)
      × ((job_set_status j running w).0 ≡ ok → (job_set_status j running w).1.status ≡ running)
unfolding job_set_status
set_running j w = elim (job_set_status_r-cases j running (some []) w) [
  | inl (_, e) ↦ rw e (refl, λ h. cc)
  | inr (_, done, e) ↦
      let (id, now) = marked_fields j running (some []) w.db.now in rw e (id, λ _. now)
]

stored :
    (calls : SpawnCalls) (h : ℕ) (j : Job) (s t : ExecSystem)
    → Registered h s t
    → Either h j.id s (spawn_stored calls h j t)
stored calls h j s t reg =
    let placed : Job = record j {
      input_dir = store_dir t.config.work_dir j.id (c_text "input");
      output_dir = store_dir t.config.work_dir j.id (c_text "output");
    } in
    let (key, now) = set_running placed (world_of t) in
    if_cases (Either h j.id s) calls.storage_ok _ _
      (λ _. running_after calls h j.id (job_set_status placed running (world_of t)) s t reg key now)
      (λ _. inl (give_up-GivenUp h j s _ reg))

registered :
    (calls : SpawnCalls) (j : Job) (h : ℕ) (s t : ExecSystem)
    → Registered h s t
    → Either h j.id s (spawn_registered calls j (some h, t))
registered calls j h s t reg =
    let u : ExecSystem = record t {
      alloc = record (t.alloc) { db = (db_get_job j.id t.alloc.db).1 };
    } in
    if_cases (Either h j.id s) (is_queued (db_get_job j.id t.alloc.db).0) _ _
      (λ _. stored calls h j s u reg) (λ _. inl (give_up-GivenUp h j s u reg))

unregistered :
    (calls : SpawnCalls) (j : Job) (s : ExecSystem)
    → GivenUp j.id s (spawn_registered calls j (none, s))
unregistered calls j s = (
  refl,
  refl,
  release_ext j.id (change_status j failed (c_text "Executor unavailable") s).2 s refl,
)

-- `executor_spawn` either starts the job, as a new running execution under a fresh address, with its
-- reservation as it was; or fails, and then adds no execution and releases exactly what `alloc_release`
-- releases for the job, whichever of its calls failed.
pub executor_spawn-LaunchedOrNot :
    (calls : SpawnCalls) (j : Job) (s : ExecSystem)
    → GivenUp j.id s (executor_spawn calls j s)
      ⊎ Launched (fresh_handle s.executions) j.id s (executor_spawn calls j s)
unfolding executor_spawn active_register
executor_spawn-LaunchedOrNot calls j s =
    let outcome = λ (r : Option ℕ × ExecSystem).
      Either (fresh_handle s.executions) j.id s (spawn_registered calls j r) in
    if_cases outcome (not calls.execution_memory) _ _ (λ _. inl (unregistered calls j s))
      (λ _.
        if_cases outcome s.shutting_down _ _ (λ _. inl (unregistered calls j s))
          (λ _.
            registered calls j (fresh_handle s.executions) s _
              ((fresh_execution (fresh_handle s.executions) j, refl, refl), refl)))

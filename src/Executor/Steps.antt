-- ===== src/Executor/Steps.antt =====
-- Histories of the executor: the scheduler, its clients, the launcher and watcher threads in any order.
use bhc_scheduler.Common.{
  ℕ, ◌≡◌, refl, ap, ◌∙◌, Bool, true, false, Option, none, some, List, inl, inr,
}
use bhc_scheduler.Common.Text.{CText, copy_field}
use bhc_scheduler.Job.{JobStatus, Job, cancelled}
use bhc_scheduler.Executor.{
  ActiveExecution, ExecSystem, find_active, find_execution, mark_terminated, terminate_found,
  active_request_termination, shutdown_begin,
}
use bhc_scheduler.Executor.Process.{Host, spawn_process}
use bhc_scheduler.Executor.Launch.{SpawnCalls, executor_spawn}
use bhc_scheduler.Executor.Spawn.{executor_spawn-LaunchedOrNot}
use bhc_scheduler.Executor.Table.{
  Seen, views, view_of, Every, Ordered, Ordered-Descending, put-Ordered, put-Every, put-views,
  without-Ordered, without-Every, without-leaves, fresh-Ordered, find_active-own,
  find_execution-Every, Descending-Ordered, found_handle,
}
use bhc_scheduler.Executor.Effects.{
  Settled, SettledAs, Stopped-Settled, stops, mark_terminated-cases,
}
use bhc_scheduler.Executor.Threads.{
  Ending, handle_of, end_execution, end-executions, end-missing, spawn_process-Written,
}
use bhc_scheduler.Executor.Contract.{
  ◌⇝◌, begin, ask, ask_everyone, leave, stay, ask_first, ask_all, Stopped-view, found_views,
  kept_views, missing_views,
}
use bhc_scheduler.Executor.Asking.{killed-executions, shutdown_begin-AllAsked, shutdown_reason}

infix 40 ◌⟹◌
pub data ◌⟹◌ : ExecSystem → ExecSystem → Type 0 where
  spawn : {s : ExecSystem} (calls : SpawnCalls) (j : Job) → s ⟹ (executor_spawn calls j s).1
  request :
      {s : ExecSystem} (job_id : CText) (status : JobStatus) (reason : CText)
      → stops status ≡ true
      → s ⟹ (active_request_termination job_id status reason s).1
  process :
      {s : ExecSystem} (host : Host) (h : ℕ) (e : ActiveExecution)
      → find_execution h s.executions ≡ some e
      → s ⟹ (spawn_process host e s).2
  end : {s : ExecSystem} (x : Ending) → s ⟹ end_execution x s
  shutdown : {s : ExecSystem} → s ⟹ shutdown_begin s

-- Every job in the table is QUEUED or RUNNING, or has the outcome that was asked for; the addresses
-- are distinct.
abbrev pub IsSound : ExecSystem → Type 0
IsSound s = Ordered s.executions × Every Settled s.executions

-- The table keeps its invariant, and takes a step of the contract.
abbrev Refines : ExecSystem → List ActiveExecution → Type 0
Refines s new = Ordered new × Every Settled new × (views s.executions ⇝ views new)

fresh_view : (e : ActiveExecution) → e.termination_requested ≡ false → view_of e ≡ (e.job.id, none)
fresh_view e first = rw first refl

ask_to :
    (id : CText) (status : JobStatus) (reason : CText) (t u : List Seen)
    → u ≡ ask_first id status reason t
    → t ⇝ u
ask_to id status reason t u e = rw e (ask id status reason)

everyone_to :
    (status : JobStatus) (reason : CText) (t u : List Seen) → u ≡ ask_all status reason t → t ⇝ u
everyone_to status reason t u e = rw e (ask_everyone status reason)

stay_at : (t u : List Seen) → u ≡ t → t ⇝ u
stay_at t u e = rw e stay

settled_pid :
    (b : Bool) (pid : ℕ) (e : ActiveExecution)
    → SettledAs b e
    → SettledAs b (record e { pid = pid })
settled_pid true pid e h = h
settled_pid false pid e h = h

pub spawn-Refines :
    (calls : SpawnCalls) (j : Job) (s : ExecSystem)
    → IsSound s
    → Refines s (executor_spawn calls j s).1.executions
spawn-Refines calls j s (order, settled) = elim (executor_spawn-LaunchedOrNot calls j s) [
  | inl (_, same, _) ↦ rw same (order, settled, stay)
  | inr (_, (e, own, id, now, first, new), _) ↦ rw new (
    fresh-Ordered e s.executions own order,
    (rw first (rw now refl), settled),
    rw (fresh_view e first) begin,
  )
]

pub request-Refines :
    (job_id : CText) (status : JobStatus) (reason : CText) (s : ExecSystem)
    (o : Option ActiveExecution)
    → find_active job_id s.executions ≡ o
    → stops status ≡ true
    → IsSound s
    → Refines s (terminate_found status reason s o).1.executions
request-Refines job_id status reason s none missing stop (order, settled) = (
  order,
  settled,
  ask_to job_id status (copy_field 256 reason) (views s.executions) (views s.executions)
      (missing_views job_id status (copy_field 256 reason) s.executions missing),
)
request-Refines job_id status reason s (some e) found stop (order, settled) =
    let text = copy_field 256 reason in
    let (b, d) = Ordered-Descending s.executions order in
    let own = find_active-own job_id b s.executions e d found in
    let mine = find_execution-Every Settled e.handle s.executions e settled own in
    let to = ask_to job_id status text (views s.executions) in
    rw (killed-executions e.pid (mark_terminated status reason e s))
      (elim (mark_terminated-cases status reason e s stop mine) [
        | inl (before, same) ↦
            rw same
              (order, settled, to _ (kept_views job_id status text s.executions e found before))
        | inr (first, (x, stopped, now)) ↦ rw now (
          put-Ordered x s.executions order,
          put-Every Settled x s.executions (Stopped-Settled status reason e x stop stopped) settled,
          to _ (
              found_views job_id status text b s.executions e x d found stopped.0
                (Stopped-view status reason e x stopped first)),
        )
      ])

process-Refines :
    (host : Host) (h : ℕ) (e : ActiveExecution) (s : ExecSystem)
    → find_execution h s.executions ≡ some e
    → IsSound s
    → Refines s (spawn_process host e s).2.executions
process-Refines host h e s found (order, settled) = elim (spawn_process-Written host e s) [
  | inl same ↦ rw same (order, settled, stay)
  | inr (pid, new) ↦ rw new (
    put-Ordered (record e { pid = pid }) s.executions order,
    put-Every Settled (record e { pid = pid }) s.executions
        (settled_pid e.termination_requested pid e
          (find_execution-Every Settled h s.executions e settled found))
        settled,
    stay_at (views s.executions) _ (
        put-views (record e { pid = pid }) e s.executions
          (ap (λ k. find_execution k s.executions) (found_handle h s.executions e found) ∙ found)
          refl),
  )
]

end-Refines :
    (x : Ending) (s : ExecSystem) (o : Option ActiveExecution)
    → find_execution (handle_of x) s.executions ≡ o
    → IsSound s
    → Refines s (end_execution x s).executions
end-Refines x s none missing (order, settled) = rw (end-missing x s missing) (order, settled, stay)
end-Refines x s (some e) found (order, settled) =
    let h = handle_of x in
    rw (end-executions x s e found) (
      without-Ordered h s.executions order,
      without-Every Settled h s.executions settled,
      leave (without-leaves h s.executions e found),
    )

step-Refines : (s t : ExecSystem) → s ⟹ t → IsSound s → Refines s t.executions
unfolding active_request_termination
step-Refines s _ (spawn calls j) sound = spawn-Refines calls j s sound
step-Refines s _ (request job_id status reason stop) sound =
    request-Refines job_id status reason s (find_active job_id s.executions) refl stop sound
step-Refines s _ (process host h e found) sound = process-Refines host h e s found sound
step-Refines s _ (end x) sound =
    end-Refines x s (find_execution (handle_of x) s.executions) refl sound
step-Refines s _ shutdown (order, settled) =
    let (seen, _, fine, _, falling) = shutdown_begin-AllAsked s order settled in
    let (b, d) = Ordered-Descending s.executions order in
    (
      Descending-Ordered b _ (falling b d),
      fine,
      everyone_to cancelled shutdown_reason (views s.executions) _ seen,
    )

infix 40 ◌⟹*◌
pub data ◌⟹*◌ : ExecSystem → ExecSystem → Type 0 where
  done : {s : ExecSystem} → s ⟹* s
  then : {s t u : ExecSystem} → s ⟹ t → t ⟹* u → s ⟹* u

infix 40 ◌⇝*◌
pub data ◌⇝*◌ : List Seen → List Seen → Type 0 where
  ended : {t : List Seen} → t ⇝* t
  next : {t u v : List Seen} → t ⇝ u → u ⇝* v → t ⇝* v

-- Every history of the executor, in which spawns, requests, the launchers and watchers of all jobs and a
-- shutdown follow each other in any order, is a history of the contract: jobs become active, the first
-- outcome that is asked for stays, jobs leave, and nothing else happens. And at its end each job of the
-- table is QUEUED or RUNNING, or has exactly the outcome that was asked for.
pub history-Refines :
    (s t : ExecSystem) → s ⟹* t → IsSound s → IsSound t × (views s.executions ⇝* views t.executions)
history-Refines s _ done sound = (sound, ended)
history-Refines s _ (then {t = t} {u = u} step rest) sound =
    let (order, settled, one) = step-Refines s t step sound in
    let (final, more) = history-Refines t u rest (order, settled) in (final, next one more)

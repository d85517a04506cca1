-- ===== src/Schedule/Soundness.antt =====
-- The scan of a tick against the invariants of the queue, the allocator and the executor.
use bhc_scheduler.Common.{
  none, false, ◌≡◌, refl, ap, true, false, Option, some, ◌∙◌, ◌∷◌, length, Perm, inl, inr, ◌⊎◌,
  if_cases,
}
use bhc_scheduler.Common.Fallible.{Yields, Yields-some, Yields-bind, Yields-weaken}
use bhc_scheduler.Common.Text.{CText, is_empty, has_text}
use bhc_scheduler.Job.{Job, running}
use bhc_scheduler.Db.{Db, execute, db_get_job}
use bhc_scheduler.Queue.Contents.{IsValid, queue_push-Pushed}
use bhc_scheduler.Common.Rc.{ok}
use bhc_scheduler.Registry.{registry_get_copy}
use bhc_scheduler.Alloc.{AllocSystem, alloc_reserve, alloc_reserve_on}
use bhc_scheduler.Alloc.Balance.{IsBalanced, same-IsBalanced, alloc_release-IsBalanced}
use bhc_scheduler.Executor.{ActiveExecution, ExecSystem}
use bhc_scheduler.Executor.Finish.{release_job}
use bhc_scheduler.Executor.Books.{books, release_ext}
use bhc_scheduler.Executor.Launch.{SpawnCalls, is_queued, executor_spawn}
use bhc_scheduler.Executor.Spawn.{executor_spawn-LaunchedOrNot}
use bhc_scheduler.Executor.Steps.{IsSound, spawn-Refines}
use bhc_scheduler.Schedule.Tick.{
  Surroundings, SchedSystem, db_of, with_db, requeue, dispatch_current, scheduler_dispatch,
  send_off, demand_of, unreachable,
}

-- The queue is a valid heap, the registry has reserved what the allocator's records hold, and the
-- executor's table is in order.
abbrev pub IsReady : SchedSystem → Type 0
IsReady s = IsValid s.queue × IsBalanced s.exec.alloc × IsSound s.exec

-- What is left of a dispatch: one more running execution, with the reservation, or a released one.
abbrev pub Sent : CText → ExecSystem → ExecSystem → Type 0
Sent id u t =
    ((e : ActiveExecution) × (e.job.id ≡ id)
      × (e.job.status ≡ running)
      × (t.executions ≡ e ∷ u.executions)
      × (books t ≡ books u))
    ⊎ ((t.executions ≡ u.executions) × (books t ≡ books (release_job id u)))

-- Back in the queue, which refuses a job only after a shutdown or if its array cannot grow.
abbrev pub Back : Job → SchedSystem → SchedSystem → Type 0
Back j s t =
    (t.exec.executions ≡ s.exec.executions)
    × (Perm t.queue.heap (j ∷ s.queue.heap)
        ⊎ ((t.queue ≡ s.queue)
            × ((s.queue.shutdown ≡ true)
                ⊎ ((length s.queue.heap ≡ s.queue.capacity) × (s.queue_memory ≡ false)))))

-- The allocator may choose the machine: the job names no other job to stay with, or none that was found.
abbrev pub Unpinned : Option Job → Job → Type 0
Unpinned ref j = (is_empty j.same_machine_as ≡ true) ⊎ (ref ≡ none)

-- The job must run on the machine of the job that it names.
abbrev pub PinnedTo : CText → Option Job → Job → Type 0
PinnedTo machine_id ref j =
    (is_empty j.same_machine_as ≡ false)
    × (has_text machine_id ≡ true)
    × ((r : Job) × (ref ≡ some r) × (r.machine_id ≡ machine_id))

-- `u` has the reservation that the allocator made for the job on the machine, from the books of `s`; `ref` is
-- the row of the job that this one is to share its machine with.
abbrev pub Booked : Option Job → CText → Job → SchedSystem → ExecSystem → Type 0
Booked ref machine_id j s u =
    (u.executions ≡ s.exec.executions)
    × ((b : AllocSystem) × (b.machines ≡ s.exec.alloc.machines)
        × (b.allocs ≡ s.exec.alloc.allocs)
        × (((alloc_reserve j.id (demand_of j) b ≡ (ok, some machine_id, u.alloc)) × Unpinned ref j)
            ⊎ ((alloc_reserve_on j.id machine_id (demand_of j) b ≡ (ok, u.alloc))
                × PinnedTo machine_id ref j)))

-- The registry is as it was; or the reservation was made on a machine that cannot be reached, and released.
abbrev pub Unbooked : Option Job → Job → SchedSystem → SchedSystem → Type 0
Unbooked ref j s t =
    (t.exec.alloc.machines ≡ s.exec.alloc.machines)
    ⊎ ((machine_id : CText) × (u : ExecSystem) × Booked ref machine_id j s u
        × (unreachable (registry_get_copy machine_id u.alloc.machines) ≡ true)
        × (books t.exec ≡ books (release_job j.id u)))

-- Where a job goes that the quota lets run: back to the queue without a reservation, or with one to the
-- executor.
abbrev pub Moved : Option Job → Job → SchedSystem → SchedSystem → Type 0
Moved ref j s t =
    (Back j s t × Unbooked ref j s t)
    ⊎ ((t.queue ≡ s.queue)
        × ((machine_id : CText) × (u : ExecSystem) × Booked ref machine_id j s u
            × Sent j.id u t.exec))

abbrev pub Scanned : Option Job → Job → SchedSystem → SchedSystem → Type 0
Scanned ref j s t = IsReady t × Moved ref j s t

abbrev pub Requeued : Job → SchedSystem → SchedSystem → Type 0
Requeued j s t = IsReady t × Back j s t × (t.exec ≡ s.exec)

pub requeue-Requeued : (j : Job) (s : SchedSystem) → IsReady s → Yields (Requeued j s) (requeue j s)
unfolding requeue
requeue-Requeued j s (valid, balanced, sound) =
    Yields-bind _ _ (queue_push-Pushed s.queue_memory s.queue j valid) λ (rc, q) (v, how).
      Yields-some _ (
        (v, balanced, sound),
        (
          refl,
          (elim how [ inl (_, _, same, _) ↦ inl same | inr (_, kept, why) ↦ inr (kept, why) ]),
        ),
        refl,
      )

-- Back with the registry as it was.
pub requeue-Scanned :
    (ref : Option Job) (j : Job) (s t : SchedSystem)
    → IsReady t
    → t.queue ≡ s.queue
    → t.queue_memory ≡ s.queue_memory
    → t.exec.executions ≡ s.exec.executions
    → Unbooked ref j s t
    → Yields (Scanned ref j s) (requeue j t)
requeue-Scanned ref j s t fine queue memory same unbooked =
    Yields-weaken _ (requeue-Requeued j t fine)
      λ r (kept, back, exec). (kept, inl (rw (← queue, ← memory, ← same) back, rw exec unbooked))

pub with_db-IsReady : (d : Db) (s : SchedSystem) → IsReady s → IsReady (with_db d s)
with_db-IsReady d s (valid, balanced, sound) =
    (valid, same-IsBalanced s.exec.alloc _ refl refl balanced, sound)

books-IsBalanced : (s t : ExecSystem) → books t ≡ books s → IsBalanced s.alloc → IsBalanced t.alloc
books-IsBalanced s t same balanced =
    same-IsBalanced s.alloc t.alloc (ap (λ b. b.0) same) (ap (λ b. b.1) same) balanced

spawn-IsBalanced :
    (calls : SpawnCalls) (j : Job) (s : ExecSystem)
    → IsBalanced s.alloc
    → IsBalanced (executor_spawn calls j s).1.alloc
spawn-IsBalanced calls j s balanced = elim (executor_spawn-LaunchedOrNot calls j s) [
  | inl (_, _, freed) ↦
      books-IsBalanced (release_job j.id s) (executor_spawn calls j s).1 freed
        (alloc_release-IsBalanced j.id s.alloc balanced)
  | inr (_, _, same) ↦ books-IsBalanced s (executor_spawn calls j s).1 same balanced
]

spawn-Sent :
    (calls : SpawnCalls) (j : Job) (s : ExecSystem) → Sent j.id s (executor_spawn calls j s).1
spawn-Sent calls j s = elim (executor_spawn-LaunchedOrNot calls j s) [
  | inl (_, same, freed) ↦ inr (same, freed)
  | inr (_, (e, _, id, now, _, new), same) ↦ inl (e, id, now, new, same)
]

-- What a dispatch keeps and does.
abbrev SentSoundly : CText → ExecSystem → ExecSystem → Type 0
SentSoundly id s t = IsBalanced t.alloc × IsSound t × Sent id s t

-- Only the books and the executions that a dispatch starts from count.
Sent-ext :
    (id : CText) (s t u : ExecSystem)
    → books s ≡ books t
    → s.executions ≡ t.executions
    → Sent id s u
    → Sent id t u
Sent-ext id s t u same list (inl (e, own, now, new, kept)) =
    inl (e, own, now, new ∙ ap (λ es. e ∷ es) list, kept ∙ same)
Sent-ext id s t u same list (inr (kept, freed)) = inr (kept ∙ list, freed ∙ release_ext id s t same)

dispatch-Soundly :
    (calls : SpawnCalls) (j : Job) (s : ExecSystem) (r : Option Job × Db)
    → IsBalanced s.alloc
    → IsSound s
    → SentSoundly j.id s (dispatch_current calls j r s)
dispatch-Soundly calls j s (current, d) balanced sound =
    let t : ExecSystem = record s { alloc = record (s.alloc) { db = d } } in
    let kept = same-IsBalanced s.alloc t.alloc refl refl balanced in
    if_cases (SentSoundly j.id s) (is_queued current) _ _
      (λ _.
        let (order, settled, _) = spawn-Refines calls j t sound in
        (
          spawn-IsBalanced calls j t kept,
          (order, settled),
          Sent-ext j.id t s (executor_spawn calls j t).1 refl refl (spawn-Sent calls j t),
        ))
      (λ _.
        (alloc_release-IsBalanced j.id t.alloc kept, sound, inr (refl, release_ext j.id t s refl)))

pub send_off-Sent :
    (around : Surroundings) (k : Job) (s : SchedSystem)
    → IsReady s
    → IsReady (send_off around k s) × Sent k.id s.exec (send_off around k s).exec
unfolding scheduler_dispatch
send_off-Sent around k s (valid, balanced, sound) =
    let d = (execute (λ t. t) (db_of s)).1 in
    let u = with_db d s in
    let (b, o, how) =
      dispatch-Soundly around.calls k u.exec (db_get_job k.id d)
        (same-IsBalanced s.exec.alloc u.exec.alloc refl refl balanced) sound in
    ((valid, b, o), Sent-ext k.id u.exec s.exec (send_off around k s).exec refl refl how)

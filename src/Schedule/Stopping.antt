-- ===== src/Schedule/Stopping.antt =====
-- `scheduler_stop`, over the executor's shutdown and the queue.
use bhc_scheduler.Common.{
  ℕ, zero, suc, ◌<◌, ◌≡◌, refl, ap, ◌∙◌, true, false, Option, none, some, [], length, arith, inl,
  inr, ◌⊎◌,
}
use bhc_scheduler.Common.Array.{length-Perm}
use bhc_scheduler.Common.Fallible.{Yields, Yields-some, Yields-bind, Yields-weaken}
use bhc_scheduler.Job.{Job}
use bhc_scheduler.Queue.{Queue, queue_shutdown, queue_size}
use bhc_scheduler.Queue.Contents.{IsValid, Popped, queue_try_pop-Popped}
use bhc_scheduler.Alloc.{alloc_shutdown}
use bhc_scheduler.Executor.{ExecSystem}
use bhc_scheduler.Executor.Threads.{Ending}
use bhc_scheduler.Executor.Shutdown.{EndsOne, IsClosing, executor_shutdown-ends}
use bhc_scheduler.Schedule.Tick.{SchedSystem}
use bhc_scheduler.Schedule.Soundness.{IsReady}
use bhc_scheduler.Schedule.Control.{drained, drain, scheduler_stop}

-- The queue is empty, and the rest is as it was.
abbrev Drained : SchedSystem → SchedSystem → Type 0
Drained s t = (t.queue.heap ≡ []) × (t.queue.shutdown ≡ s.queue.shutdown) × (t.exec ≡ s.exec)

Popped-Drained :
    (next : SchedSystem → Option SchedSystem) (n : ℕ) (s : SchedSystem)
    → ((t : SchedSystem) → IsValid t.queue → length t.queue.heap < n → Yields (Drained t) (next t))
    → length s.queue.heap < suc n
    → (a : Option Job × Queue)
    → ((s.queue.heap ≡ []) × (a ≡ (none, s.queue))) ⊎ ((k : Job) × Popped s.queue k a)
    → Yields (Drained s) (drained next s a)
Popped-Drained next n s step room (none, q) (inl (empty, same)) =
    let own : q ≡ s.queue = ap (λ (a : Option Job × Queue). a.1) same in
    rw own (Yields-some _ (empty, refl, refl))
Popped-Drained next n s step room (none, q) (inr (k, p)) = absurd (let taken = p.taken in cc)
Popped-Drained next n s step room (some j, q) (inl (_, same)) =
    absurd (let nothing = ap (λ (a : Option Job × Queue). a.0) same in cc)
Popped-Drained next n s step room (some j, q) (inr (k, p)) =
    Yields-weaken _ (step (record s { queue = q }) p.valid (omega (arith, length-Perm p.same)))
      λ t (empty, shut, same). (empty, shut ∙ p.shutdown, same)

drain-Drained :
    (n : ℕ) (s : SchedSystem)
    → IsValid s.queue
    → length s.queue.heap < n
    → Yields (Drained s) (drain n s)
unfolding drain
drain-Drained zero s valid room = absurd (omega arith)
drain-Drained (suc n) s valid room =
    Yields-bind _ _ (queue_try_pop-Popped s.queue valid)
      (Popped-Drained (λ t. drain n t) n s (λ t fine small. drain-Drained n t fine small) room)

-- If in the states of the executor's shutdown every wait ends with the end of some active execution,
-- `scheduler_stop` returns; then the queue is empty and takes no job, the executor takes none and sent a
-- signal to every process that ran, no execution is left, and the allocator's table is empty.
pub scheduler_stop-ends :
    (next : ExecSystem → Ending) (s : SchedSystem)
    → IsReady s
    → EndsOne next s.exec
    → Yields
        (λ t.
          (t.queue.heap ≡ [])
          × (t.queue.shutdown ≡ true)
          × (t.exec.executions ≡ [])
          × IsClosing s.exec t.exec
          × (t.exec.alloc.allocs ≡ []))
        (scheduler_stop next (suc (length s.exec.executions)) s)
unfolding scheduler_stop alloc_shutdown queue_shutdown queue_size
scheduler_stop-ends next s (valid, _, (order, settled)) active =
    let (_, (e, done, gone, closed)) = executor_shutdown-ends next s.exec order settled active in
    Yields-bind {P = λ (x : ExecSystem). (x.executions ≡ []) × IsClosing s.exec x} _ _
      (e, done, (gone, closed))
      λ e (none_left, closing).
        Yields-bind _ _
          (drain-Drained (suc (queue_size s.queue))
            (record s { exec = e; queue = queue_shutdown s.queue; is_running = false })
            (record { heap = valid.heap; fits = valid.fits; room = valid.room }) (omega arith))
          λ t (empty, shut, same). Yields-some _ (
            empty,
            shut,
            ap (λ (x : ExecSystem). x.executions) same ∙ none_left,
            (
              ap (λ (x : ExecSystem). x.shutting_down) same ∙ closing.0,
              ap (λ (x : ExecSystem). x.killed) same ∙ closing.1,
              rw (ap (λ (x : ExecSystem). x.executions) same) closing.2,
            ),
            refl,
          )

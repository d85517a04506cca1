-- ===== src/Schedule/Scanning.antt =====
-- The scan of a tick: what becomes of each job that is popped, and of the whole queue.
use bhc_scheduler.Common.{
  ℕ, zero, suc, ◌+◌, ◌≤◌, ◌≡◌, refl, ap, Bool, true, false, if◌then◌else◌, Option, none, some, [],
  length, arith, inl, inr, ◌⊎◌, if_cases,
}
use bhc_scheduler.Common.Array.{length-Perm}
use bhc_scheduler.Common.Fallible.{Yields, Yields-some, Yields-bind, Yields-weaken}
use bhc_scheduler.Common.Text.{CText}
use bhc_scheduler.Job.{Job}
use bhc_scheduler.Db.{Db, db_get_job}
use bhc_scheduler.Queue.{Queue, queue_size}
use bhc_scheduler.Queue.Contents.{Popped, queue_try_pop-Popped}
use bhc_scheduler.Quota.{db_quota_check}
use bhc_scheduler.Executor.{ExecSystem}
use bhc_scheduler.Executor.Launch.{is_queued}
use bhc_scheduler.Schedule.Tick.{
  Surroundings, SchedSystem, db_of, with_db, note_reason, requeue, scan_affinity, scan_job,
  scan_popped, scan, scan_queue,
}
use bhc_scheduler.Schedule.Soundness.{IsReady, Back, Moved, Sent, requeue-Requeued, with_db-IsReady}
use bhc_scheduler.Executor.Books.{books}
use bhc_scheduler.Schedule.Placing.{affinity-Scanned}

abbrev quota_checked : Job → SchedSystem → Bool × Db
quota_checked j s =
    db_quota_check j.user_id j.app_id j.req_cores j.req_ram_mb (db_get_job j.id (db_of s)).1

-- What the quota says of the job, once its row was read.
abbrev pub quota_allows : Job → SchedSystem → Bool
quota_allows j s = (quota_checked j s).0

-- The row of the job that this one is to share its machine with, read after that.
abbrev pub affinity_row : Job → SchedSystem → Option Job
affinity_row j s = (db_get_job j.same_machine_as (quota_checked j s).1).0

-- By the verdict of the quota: back in the queue with the registry as it was, or moved.
abbrev pub ByQuota : Bool → Option Job → Job → SchedSystem → SchedSystem → Type 0
ByQuota false ref j s t = Back j s t × (t.exec.alloc.machines ≡ s.exec.alloc.machines)
ByQuota true ref j s t = Moved ref j s t

ByQuota-read :
    (allowed : Bool) (d : Db) (ref : Option Job) (j : Job) (s t : SchedSystem)
    → ByQuota allowed ref j (with_db d s) t
    → ByQuota allowed ref j s t
ByQuota-read true d ref j s t how = how
ByQuota-read false d ref j s t how = how

by_verdict :
    (around : Surroundings) (j : Job) (s : SchedSystem) (r : Bool × Db)
    → IsReady s
    → Yields
        (λ t. IsReady t × ByQuota r.0 (db_get_job j.same_machine_as r.1).0 j s t)
        (if r.0
          then scan_affinity around j (with_db r.1 s)
          else requeue j (note_reason j.id around.quota_text (with_db r.1 s)))
by_verdict around j s (true, d) ready =
    affinity-Scanned around j (with_db d s) (with_db-IsReady d s ready)
by_verdict around j s (false, d) ready =
    let t = note_reason j.id around.quota_text (with_db d s) in
    Yields-weaken _
      (requeue-Requeued j t (with_db-IsReady _ (with_db d s) (with_db-IsReady d s ready)))
      λ r (kept, back, exec). (kept, (back, ap (λ (x : ExecSystem). x.alloc.machines) exec))

-- The job was stale and nothing but the count of statements changes; or it is treated by its quota.
abbrev pub Handled : Job → SchedSystem → SchedSystem → Type 0
Handled j s t =
    ((is_queued (db_get_job j.id (db_of s)).0 ≡ false)
      × (t.queue ≡ s.queue)
      × (t.exec.executions ≡ s.exec.executions)
      × (books t.exec ≡ books s.exec))
    ⊎ ((is_queued (db_get_job j.id (db_of s)).0 ≡ true)
        × ByQuota (quota_allows j s) (affinity_row j s) j s t)

-- A job that was popped is freed without a trace in queue, executions and books if the database does not
-- have it as QUEUED. Otherwise the verdict of the quota decides. Where the quota refuses, the job goes back to
-- the queue, which refuses it only after a shutdown or if its array cannot grow, and the registry is as it
-- was. Where the quota allows it, the job goes back like this too, with the registry as it was or with the
-- reservation released that was made on an offline static machine; or it leaves the queue with a reservation
-- that the allocator accepted from the books there were (on the machine of the job that it is to share one
-- with, where that job was found), and is a new running execution that has that
-- reservation, or has it released. The invariants of the queue, the allocator and the executor are kept.
pub scan_job-Handled :
    (around : Surroundings) (j : Job) (s : SchedSystem)
    → IsReady s
    → Yields (λ t. IsReady t × Handled j s t) (scan_job around j s)
unfolding scan_job
scan_job-Handled around j s ready =
    let row = db_get_job j.id (db_of s) in
    let after = with_db-IsReady row.1 s ready in
    if_cases (Yields (λ t. IsReady t × Handled j s t)) (is_queued row.0) _ _
      (λ fresh.
        Yields-weaken _ (by_verdict around j (with_db row.1 s) (quota_checked j s) after)
          λ t (fine, moved). (
            fine,
            inr (fresh, ByQuota-read (quota_allows j s) row.1 (affinity_row j s) j s t moved),
          ))
      (λ stale. Yields-some _ (after, inl (stale, refl, refl, refl)))

-- How many jobs the scheduler holds: in the queue and under way.
abbrev pub load : SchedSystem → ℕ
load s = length s.queue.heap + length s.exec.executions

queue_length : (s t : SchedSystem) → t.queue ≡ s.queue → length t.queue.heap ≡ length s.queue.heap
queue_length s t same = ap (λ (q : Queue). length q.heap) same

Back-load : (j : Job) (s t : SchedSystem) → Back j s t → load t ≤ suc (load s)
Back-load j s t (e, inl p) = omega (arith, length-Perm p, ap length e)
Back-load j s t (e, inr (q, _)) = omega (arith, queue_length s t q, ap length e)

Sent-load :
    (id : CText) (u t : ExecSystem) → Sent id u t → length t.executions ≤ suc (length u.executions)
Sent-load id u t (inl (e, _, _, new, _)) = omega (arith, ap length new)
Sent-load id u t (inr (same, _)) = omega (arith, ap length same)

ByQuota-load :
    (allowed : Bool) (ref : Option Job) (j : Job) (s t : SchedSystem)
    → ByQuota allowed ref j s t
    → load t ≤ suc (load s)
ByQuota-load false ref j s t (back, _) = Back-load j s t back
ByQuota-load true ref j s t (inl (back, _)) = Back-load j s t back
ByQuota-load true ref j s t (inr (q, (m, u, (same, _), sent))) =
    omega (arith, queue_length s t q, Sent-load j.id u t.exec sent, ap length same)

moved_load : (j : Job) (s t : SchedSystem) → Handled j s t → load t ≤ suc (load s)
moved_load j s t (inl (_, q, e, _)) = omega (arith, queue_length s t q, ap length e)
moved_load j s t (inr (_, how)) = ByQuota-load (quota_allows j s) (affinity_row j s) j s t how

abbrev ReadyWithin : ℕ → SchedSystem → Type 0
ReadyWithin n t = IsReady t × (load t ≤ n)

Popped-Within :
    (around : Surroundings) (next : SchedSystem → Option SchedSystem) (s : SchedSystem) (bound : ℕ)
    → ((t : SchedSystem) → IsReady t → load t ≤ bound → Yields (ReadyWithin bound) (next t))
    → IsReady s
    → load s ≤ bound
    → (a : Option Job × Queue)
    → ((s.queue.heap ≡ []) × (a ≡ (none, s.queue))) ⊎ ((k : Job) × Popped s.queue k a)
    → Yields (ReadyWithin bound) (scan_popped around next s a)
Popped-Within around next s bound step (valid, balanced, sound) low (none, q) (inl (_, same)) =
    let own : q ≡ s.queue = ap (λ (a : Option Job × Queue). a.1) same in
    rw own (Yields-some _ ((valid, balanced, sound), low))
Popped-Within around next s bound step ready low (none, q) (inr (k, p)) =
    absurd (let taken = p.taken in cc)
Popped-Within around next s bound step ready low (some j, q) (inl (_, same)) =
    absurd (let nothing = ap (λ (a : Option Job × Queue). a.0) same in cc)
Popped-Within around next s bound step (valid, balanced, sound) low (some j, q) (inr (k, p)) =
    let u = record s { queue = q } in
    Yields-bind _ next (scan_job-Handled around j u (p.valid, balanced, sound))
      λ t (fine, moved). step t fine (omega (arith, moved_load j u t moved, length-Perm p.same))

scan-Within :
    (around : Surroundings) (n : ℕ) (s : SchedSystem) (bound : ℕ)
    → IsReady s
    → load s ≤ bound
    → Yields (ReadyWithin bound) (scan around n s)
unfolding scan
scan-Within around zero s bound ready low = Yields-some _ (ready, low)
scan-Within around (suc n) s bound ready low =
    if_cases (Yields (ReadyWithin bound)) s.is_running _ _
      (λ _. Yields-bind _ _ (queue_try_pop-Popped s.queue ready.0) (
        Popped-Within around (λ t. scan around n t) s bound
          (λ t fine small. scan-Within around n t bound fine small) ready low))
      (λ _. Yields-some _ (ready, low))

-- The scan ends without a read out of the queue's array, keeps the invariants of the queue, the allocator
-- and the executor, and never leaves more jobs in the queue and under way than there were before.
pub scan_queue-Within :
    (around : Surroundings) (s : SchedSystem)
    → IsReady s
    → Yields (λ t. IsReady t × (load t ≤ load s)) (scan_queue around s)
unfolding scan_queue
scan_queue-Within around s ready =
    scan-Within around (queue_size s.queue) s (load s) ready (omega arith)

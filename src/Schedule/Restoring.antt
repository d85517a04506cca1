-- ===== src/Schedule/Restoring.antt =====
-- `scheduler_init`: the queue against the table of jobs.
use mathlib.Core.List.Perm
use mathlib.Core.List.{perm_middle, append-nil}
use bhc_scheduler.Common.{
  ltb, suc, ◌≡◌, refl, ◌∙◌, Bool, true, false, Option, some, List, [], ◌∷◌, ◌++◌, length, arith,
  inl, inr, Perm, Bool-cases, if_cases,
}
use bhc_scheduler.Common.Fallible.{Yields, Yields-some, Yields-bind, Yields-weaken}
use bhc_scheduler.Common.Rc.{Rc, ok, error, conflict}
use bhc_scheduler.Job.{JobStatus, Job, queued}
use bhc_scheduler.Db.{Db, NoFailure}
use bhc_scheduler.Queue.{Queue, queue_create}
use bhc_scheduler.Queue.Contents.{IsValid, Pushed, queue_push-Pushed}
use bhc_scheduler.Recovery.{db_recover_after_restart}
use bhc_scheduler.Schedule.Tick.{SchedSystem, db_of, with_db}
use bhc_scheduler.Schedule.Control.{
  row_before, insert_row, sort_rows, rows_with, db_load_jobs_by_status, restore_pushed,
  restore_queue, restore_loaded, scheduler_init,
}

insert_row-Perm : (j : Job) (rows : List Job) → Perm (insert_row j rows) (j ∷ rows)
insert_row-Perm j [] = Perm.refl (j ∷ [])
insert_row-Perm j (k ∷ rows) =
    if_cases (λ (l : List Job). Perm l (j ∷ k ∷ rows)) (row_before k j) _ _
      (λ _. Perm.trans (Perm.cons k (insert_row-Perm j rows)) (Perm.swap j k rows))
      (λ _. Perm.refl (j ∷ k ∷ rows))

sort_rows-Perm : (rows : List Job) → Perm (sort_rows rows) rows
sort_rows-Perm [] = Perm.refl []
sort_rows-Perm (j ∷ rows) =
    Perm.trans (insert_row-Perm j (sort_rows rows)) (Perm.cons j (sort_rows-Perm rows))

empty_rows : (rows : List Job) → ltb 0 (length rows) ≡ false → rows ≡ []
empty_rows [] h = refl
empty_rows (j ∷ rows) h = absurd (ground arith)

-- Where no statement fails, the rows with the status are loaded.
db_load-Perm :
    (status : JobStatus) (d : Db)
    → NoFailure d
    → (rows : List Job) × ((db_load_jobs_by_status true status d).0 ≡ some rows)
      × Perm rows (rows_with status d.tables.jobs)
unfolding db_load_jobs_by_status
db_load-Perm status d fine =
    let rows = rows_with status d.tables.jobs in
    let n = d.statements in
    elim (Bool-cases (ltb 0 (length rows))) [
      | inl more ↦
          rw (fine n, fine (suc n), more, fine (suc (suc n)), fine (suc (suc (suc n))))
            (sort_rows rows, refl, sort_rows-Perm rows)
      | inr empty ↦
          rw (fine n, fine (suc n), empty) ([], refl, rw (empty_rows rows empty) (Perm.refl []))
    ]

-- A queue that takes every job.
abbrev TakesAll : SchedSystem → Type 0
TakesAll s = IsValid s.queue × (s.queue.shutdown ≡ false) × (s.queue_memory ≡ true)

abbrev Holding : List Job → SchedSystem → Type 0
Holding jobs t = TakesAll t × Perm t.queue.heap jobs

Pushed-Holding :
    (j : Job) (s : SchedSystem) (r : Rc × Queue)
    → TakesAll s
    → Pushed s.queue_memory s.queue j r
    → Holding (j ∷ s.queue.heap) (restore_pushed j s r)
Pushed-Holding j s (ok, q) (_, opened, memory) (valid, inl (_, _, same, kept)) =
    ((valid, kept ∙ opened, memory), same)
Pushed-Holding j s (rc, q) (_, opened, memory) (valid, inr (_, _, inl shut)) = absurd (cc)
Pushed-Holding j s (rc, q) (_, opened, memory) (valid, inr (_, _, inr (_, stuck))) = absurd (cc)
Pushed-Holding j s (error, q) (_, opened, memory) (valid, inl (done, _, _, _)) = absurd (cc)
Pushed-Holding j s (conflict, q) (_, opened, memory) (valid, inl (done, _, _, _)) = absurd (cc)

restore_queue-Holding :
    (memory : Job → Bool) (jobs : List Job) (s : SchedSystem)
    → ((j : Job) → memory j ≡ true)
    → TakesAll s
    → Yields (Holding (jobs ++ s.queue.heap)) (restore_queue memory jobs s)
unfolding restore_queue
restore_queue-Holding memory [] s all takes = Yields-some _ (takes, Perm.refl s.queue.heap)
restore_queue-Holding memory (j ∷ jobs) s all takes = rw (all j) (
    Yields-bind _ _ (queue_push-Pushed s.queue_memory s.queue j takes.0) λ r pushed.
      let (more, there) = Pushed-Holding j s r takes pushed in
      Yields-weaken _ (restore_queue-Holding memory jobs (restore_pushed j s r) all more)
        λ t (full, held). (
          full,
          Perm.trans held
              (Perm.trans (Perm.append_left jobs there) (perm_middle jobs s.queue.heap)),
        ))

loaded-Holding :
    (memory : Job → Bool) (s : SchedSystem) (o : Option (List Job)) (rows : List Job)
    → ((j : Job) → memory j ≡ true)
    → TakesAll s
    → o ≡ some rows
    → Yields (Holding (rows ++ s.queue.heap)) (restore_loaded memory s o)
loaded-Holding memory s o rows all takes e = rw e (restore_queue-Holding memory rows s all takes)

pub created-IsValid : IsValid (queue_create 64)
unfolding queue_create
created-IsValid = record {
  heap = λ c p q. absurd (omega arith);
  fits = omega arith;
  room = omega arith;
}

-- If memory is found, and no statement after the recovery fails, `scheduler_init` leaves an open queue of
-- exactly the jobs that the recovered database has as QUEUED.
pub scheduler_init-Holding :
    (memory : Job → Bool) (s : SchedSystem)
    → ((j : Job) → memory j ≡ true)
    → s.queue_memory ≡ true
    → NoFailure (db_recover_after_restart (db_of s)).1
    → Yields
        (λ t.
          IsValid t.queue
          × (t.queue.shutdown ≡ false)
          × Perm t.queue.heap (rows_with queued (db_recover_after_restart (db_of s)).1.tables.jobs))
        (scheduler_init true memory s)
unfolding scheduler_init queue_create
scheduler_init-Holding memory s all grows fine =
    let recovered = (db_recover_after_restart (db_of s)).1 in
    let (rows, loaded, same) = db_load-Perm queued recovered fine in
    let fresh : SchedSystem =
      with_db (db_load_jobs_by_status true queued recovered).1
        (record s { queue = queue_create 64 }) in
    Yields-weaken _
      (loaded-Holding memory fresh (db_load_jobs_by_status true queued recovered).0 rows all
        (created-IsValid, refl, grows) loaded)
      λ t ((valid, opened, _), held). (valid, opened, Perm.trans held (rw (append-nil rows) same))

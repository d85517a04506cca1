-- ===== src/Recovery/Outcome.antt =====
-- What the tables hold after a recovery.
use bhc_scheduler.Common.{
  ℕ, ◌≡◌, refl, ap, ◌∙◌, inl, inr, true, false, some, List, [], ◌∷◌, map, arith, Bool-cases,
}
use mathlib.Core.Option
use bhc_scheduler.Common.Text.{CText, str_same}
use bhc_scheduler.Common.Rc.{Rc, ok, error, conflict}
use bhc_scheduler.Job.{Job}
use bhc_scheduler.Db.{Db, Tables, AllocationRow, execute, db_begin, db_commit, find_job}
use bhc_scheduler.Recovery.{
  is_running, interrupted, interrupt_all, released_row, release_all, running_count,
  recover_committed, recover_released, recover_interrupted, recover_begun, db_recover_after_restart,
}

executed :
    (f : Tables → Tables) (d : Db) → (execute f d).0 ≡ ok → (execute f d).1.tables ≡ f d.tables
unfolding execute
executed f d h = ground arith

commit_ok : (d : Db) → (db_commit d).0 ≡ ok → (db_commit d).1.tables ≡ d.tables
unfolding db_commit
commit_ok d h = ground arith

begin_ok :
    (d : Db)
    → (db_begin d).0 ≡ ok
    → ((db_begin d).1.tables ≡ d.tables) × ((db_begin d).1.now ≡ d.now)
unfolding db_begin
begin_ok d h = ground arith

committed :
    (n m : ℕ) (r : Rc × Db)
    → (recover_committed n r).0 ≡ some m
    → (n ≡ m) × (r.0 ≡ ok) × ((recover_committed n r).1 ≡ r.1)
committed n m (ok, d) h = (cc, refl, refl)
committed n m (error, d) h = cc
committed n m (conflict, d) h = cc

released :
    (n m : ℕ) (r : Rc × Db)
    → (recover_released n r).0 ≡ some m
    → (n ≡ m) × (r.0 ≡ ok) × ((recover_released n r).1.tables ≡ r.1.tables)
released n m (ok, d) h =
    let (same, done, e) = committed n m (db_commit d) h in
    (same, refl, ap (λ (x : Db). x.tables) e ∙ commit_ok d done)
released n m (error, d) h = cc
released n m (conflict, d) h = cc

marked :
    (n m : ℕ) (r : Rc × Db)
    → (recover_interrupted n r).0 ≡ some m
    → (n ≡ m) × (r.0 ≡ ok) × ((recover_interrupted n r).1.tables ≡ release_all r.1.tables)
marked n m (ok, d) h =
    let (same, done, e) = released n m (execute release_all d) h in
    (same, refl, e ∙ executed release_all d done)
marked n m (error, d) h = cc
marked n m (conflict, d) h = cc

begun :
    (m : ℕ) (r : Rc × Db)
    → (recover_begun r).0 ≡ some m
    → (r.0 ≡ ok)
      × (running_count r.1.tables.jobs ≡ m)
      × ((recover_begun r).1.tables ≡ release_all (interrupt_all r.1.now r.1.tables))
begun m (ok, d) h =
    let (same, done, e) =
      marked (running_count d.tables.jobs) m (execute (interrupt_all d.now) d) h in
    (refl, same, e ∙ ap release_all (executed (interrupt_all d.now) d done))
begun m (error, d) h = cc
begun m (conflict, d) h = cc

-- No job is running, and every allocation is released.
abbrev pub NoneRunning : List Job → Type 0
NoneRunning [] = Unit {0}
NoneRunning (j ∷ js) = (is_running j ≡ false) × NoneRunning js

abbrev pub AllReleased : List AllocationRow → Type 0
AllReleased [] = Unit {0}
AllReleased (a ∷ rows) = (a.released ≡ true) × AllReleased rows

interrupted_stops : (now : ℕ) (j : Job) → is_running (interrupted now j) ≡ false
interrupted_stops now j = ground arith

interrupted-NoneRunning : (now : ℕ) (js : List Job) → NoneRunning (map (interrupted now) js)
interrupted-NoneRunning now [] = tt
interrupted-NoneRunning now (j ∷ js) = (interrupted_stops now j, interrupted-NoneRunning now js)

released-AllReleased : (rows : List AllocationRow) → AllReleased (map released_row rows)
released-AllReleased [] = tt
released-AllReleased (a ∷ rows) = (refl, released-AllReleased rows)

interrupted_id : (now : ℕ) (j : Job) → (interrupted now j).id ≡ j.id
interrupted_id now j = ground arith

find-interrupted :
    (now : ℕ) (k : CText) (js : List Job)
    → find_job k (map (interrupted now) js) ≡ Option.map (interrupted now) (find_job k js)
unfolding find_job
find-interrupted now k [] = refl
find-interrupted now k (j ∷ js) = elim (Bool-cases (str_same j.id k)) [
  | inl e ↦ rw (interrupted_id now j, e) refl
  | inr e ↦ rw (interrupted_id now j, e) (find-interrupted now k js)
]

-- When `db_recover_after_restart` succeeds, it returns the number of jobs that were running; afterwards
-- no job is running and every allocation is released, and each job is found as before, but for one that
-- was running: that one has failed, with exit code -1, the time, and the reason.
pub db_recover_after_restart-NoneRunning :
    (d : Db) (n : ℕ)
    → (db_recover_after_restart d).0 ≡ some n
    → let after = (db_recover_after_restart d).1.tables in
      (running_count d.tables.jobs ≡ n)
      × NoneRunning after.jobs
      × AllReleased after.allocations
      × ((k : CText)
          → find_job k after.jobs ≡ Option.map (interrupted d.now) (find_job k d.tables.jobs))
unfolding db_recover_after_restart db_begin find_job
db_recover_after_restart-NoneRunning d n h =
    let (done, count, e) = begun n (db_begin d) h in
    let (tables, now) = begin_ok d done in
    let result = rw (now, tables) at e in
    rw result (
      rw tables at count,
      interrupted-NoneRunning d.now d.tables.jobs,
      released-AllReleased d.tables.allocations,
      λ k. find-interrupted d.now k d.tables.jobs,
    )

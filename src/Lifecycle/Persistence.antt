-- ===== src/Lifecycle/Persistence.antt =====
-- What a status change leaves in the `jobs` table.
use mathlib.Core.Option
use bhc_scheduler.Common.{
  ℕ, suc, ◌≡◌, refl, ap, ◌∙◌, true, false, Option, none, some, List, [], ◌∷◌, inl, inr, arith,
  Bool-cases, if◌then◌else◌,
}
use bhc_scheduler.Common.Text.{is_empty, CText, str_same, str_same_refl, str_same_iff}
use bhc_scheduler.Common.Int.{pos}
use bhc_scheduler.Common.Rc.{Rc}
use bhc_scheduler.Job.{JobStatus, Job, queued, transition_allowed}
use bhc_scheduler.Db.{
  Db, fate_of, execute, find_job, update_job, db_update_job_status, db_update_status_reason,
}
use bhc_scheduler.Lifecycle.Transitions.{job_set_status_r-cases}
use bhc_scheduler.Lifecycle.{
  World, is_terminal, text_or, marked, persist_status, persist_reason, push_event, job_set_status_r,
}

-- An update that keeps the key changes the row with the id asked for and no other.
pub find_job-update :
    (id k : CText) (f : Job → Job) (js : List Job)
    → ((j : Job) → (f j).id ≡ j.id)
    → find_job k (update_job id f js)
      ≡ (if str_same k id then Option.map f (find_job k js) else find_job k js)
unfolding find_job update_job
find_job-update id k f [] keep = ground arith
find_job-update id k f (j ∷ js) keep = ground (
  arith,
  keep j,
  str_same_iff j.id id,
  str_same_iff j.id k,
  str_same_iff k id,
  find_job-update id k f js keep,
)

-- The row of a job after its status was changed.
abbrev pub row_after : Job → JobStatus → CText → ℕ → Job → Job
row_after j s reason now row = record row {
  status = s;
  exit_code = if is_terminal s then j.exit_code else pos 0;
  ended_at = if is_terminal s then now else 0;
  status_reason = if is_empty reason then row.status_reason else reason;
}

abbrev status_columns : Job → JobStatus → ℕ → Job → Job
status_columns j s now row = record row {
  status = s;
  exit_code = if is_terminal s then j.exit_code else pos 0;
  ended_at = if is_terminal s then now else 0;
}

abbrev jobs_of : World → List Job
jobs_of w = w.db.tables.jobs

marked_key : (j : Job) (s : JobStatus) (r : Option CText) (t : ℕ) → (marked j s r t).id ≡ j.id
unfolding marked
marked_key j s r t = ground arith

marked_exit :
    (j : Job) (s : JobStatus) (r : Option CText) (t : ℕ) → (marked j s r t).exit_code ≡ j.exit_code
unfolding marked
marked_exit j s r t = ground arith

-- The statement that writes the status, when it succeeds.
persist_status-jobs :
    (j : Job) (s : JobStatus) (d : Db)
    → fate_of d ≡ true
    → ((persist_status j s d).tables.jobs
        ≡ update_job j.id (status_columns j s d.now) d.tables.jobs)
      × (fate_of (persist_status j s d) ≡ d.fate (suc d.statements))
unfolding persist_status db_update_job_status execute is_terminal
persist_status-jobs j queued d h = rw h (refl, refl)
persist_status-jobs j _ d h = rw h (refl, refl)

persist_reason-jobs :
    (j : Job) (r : CText) (d : Db)
    → fate_of d ≡ true
    → (persist_reason j r d).tables.jobs ≡ (
        if is_empty r
        then d.tables.jobs
        else update_job j.id (λ row. record row { status_reason = r }) d.tables.jobs)
unfolding persist_reason db_update_status_reason execute
persist_reason-jobs j [] d h = refl
persist_reason-jobs j (b ∷ r) d h = rw h

push_event-db : (j : Job) (s : JobStatus) (r : CText) (w : World) → (push_event j s r w).db ≡ w.db
unfolding push_event
push_event-db j s r w = ground arith

-- The database after an accepted change.
change-db :
    (j : Job) (s : JobStatus) (reason : Option CText) (w : World)
    → transition_allowed j.status s ≡ true
    → (job_set_status_r j s reason w).2.db
      ≡ persist_reason
          (marked j s reason w.db.now)
          (text_or reason)
          (persist_status (marked j s reason w.db.now) s w.db)
unfolding job_set_status_r
change-db j s reason w h = rw (h, push_event-db) refl

find_job-update_hit :
    (id : CText) (f : Job → Job) (js : List Job) (row : Job)
    → ((j : Job) → (f j).id ≡ j.id)
    → find_job id js ≡ some row
    → find_job id (update_job id f js) ≡ some (f row)
find_job-update_hit id f js row keep there =
    rw (find_job-update id id f js keep, str_same_refl id, there) refl

reason_row :
    (id : CText) (r : CText) (js : List Job) (row : Job)
    → find_job id js ≡ some row
    → find_job id
        (if is_empty r then js else update_job id (λ x. record x { status_reason = r }) js)
      ≡ some (record row { status_reason = if is_empty r then row.status_reason else r })
reason_row id [] js row there = there
reason_row id (b ∷ r) js row there = find_job-update_hit id _ js row (λ _. refl) there

update_missing :
    (id : CText) (f : Job → Job) (js : List Job)
    → ((j : Job) → (f j).id ≡ j.id)
    → find_job id js ≡ none
    → find_job id (update_job id f js) ≡ none
update_missing id f js keep missing =
    rw (find_job-update id id f js keep, str_same_refl id, missing) refl

reason_missing :
    (id : CText) (r : CText) (js : List Job)
    → find_job id js ≡ none
    → find_job id
        (if is_empty r then js else update_job id (λ x. record x { status_reason = r }) js)
      ≡ none
reason_missing id [] js missing = missing
reason_missing id (b ∷ r) js missing = update_missing id _ js (λ _. refl) missing

-- An accepted change whose statements succeed leaves the status, the exit code, the end time and the
-- whole reason in the job's row; the other columns keep their values.
pub accepted_persists :
    (j : Job) (s : JobStatus) (reason : Option CText) (w : World) (row : Job)
    → transition_allowed j.status s ≡ true
    → w.db.fate w.db.statements ≡ true
    → w.db.fate (suc w.db.statements) ≡ true
    → find_job j.id (jobs_of w) ≡ some row
    → find_job j.id (jobs_of (job_set_status_r j s reason w).2)
      ≡ some (row_after j s (text_or reason) w.db.now row)
accepted_persists j s reason w row allowed first second there =
    let m = marked j s reason w.db.now in
    let step = persist_status-jobs m s w.db first in
    let key = marked_key j s reason w.db.now in
    ap (λ (d : Db). find_job j.id d.tables.jobs) (change-db j s reason w allowed)
    ∙ rw
        (
          persist_reason-jobs m (text_or reason) (persist_status m s w.db) (step.1 ∙ second),
          step.0,
          key,
          marked_exit j s reason w.db.now,
        )
        (reason_row j.id (text_or reason) _ _ (
          find_job-update_hit j.id (status_columns j s w.db.now) (jobs_of w) row (λ _. refl) there))

-- The row with the job's id, if there is one, after an accepted change whose statements succeed.
pub accepted_row :
    (j : Job) (s : JobStatus) (reason : Option CText) (w : World)
    → transition_allowed j.status s ≡ true
    → w.db.fate w.db.statements ≡ true
    → w.db.fate (suc w.db.statements) ≡ true
    → find_job j.id (jobs_of (job_set_status_r j s reason w).2)
      ≡ Option.map (row_after j s (text_or reason) w.db.now) (find_job j.id (jobs_of w))
unfolding marked
accepted_row j s reason w allowed first second = by_row (find_job j.id (jobs_of w)) refl
  where
    by_row :
        (o : Option Job)
        → find_job j.id (jobs_of w) ≡ o
        → find_job j.id (jobs_of (job_set_status_r j s reason w).2)
          ≡ Option.map (row_after j s (text_or reason) w.db.now) (find_job j.id (jobs_of w))
    by_row (some row) there =
        rw there (accepted_persists j s reason w row allowed first second there)
    by_row none missing =
        let m = marked j s reason w.db.now in
        let step = persist_status-jobs m s w.db first in
        let key = marked_key j s reason w.db.now in
        let once : find_job j.id (persist_status m s w.db).tables.jobs ≡ none =
          rw (step.0, key)
            (update_missing j.id (status_columns m s w.db.now) (jobs_of w) (λ _. refl) missing) in
        rw missing (
          ap (λ (d : Db). find_job j.id d.tables.jobs) (change-db j s reason w allowed)
          ∙ rw
              (
                persist_reason-jobs m (text_or reason) (persist_status m s w.db) (step.1 ∙ second),
                key,
              )
              (reason_missing j.id (text_or reason) (persist_status m s w.db).tables.jobs once))

persist_status-other :
    (j : Job) (s : JobStatus) (d : Db) (k : CText)
    → str_same k j.id ≡ false
    → find_job k (persist_status j s d).tables.jobs ≡ find_job k d.tables.jobs
unfolding persist_status db_update_job_status execute
persist_status-other j s d k differs =
    let kept = find_job-update j.id k (status_columns j s d.now) d.tables.jobs (λ _. refl) in
    ground (arith, rw differs at kept)

persist_reason-other :
    (j : Job) (r : CText) (d : Db) (k : CText)
    → str_same k j.id ≡ false
    → find_job k (persist_reason j r d).tables.jobs ≡ find_job k d.tables.jobs
unfolding persist_reason db_update_status_reason execute
persist_reason-other j [] d k differs = refl
persist_reason-other j (b ∷ r) d k differs = elim (Bool-cases (fate_of d)) [
  | inl e ↦ rw e (
      rw differs at (
        find_job-update j.id k (λ row. record row { status_reason = b ∷ r }) d.tables.jobs
          (λ _. refl)))
  | inr e ↦ rw e refl
]

-- Whatever happens to its statements, a status change of one job leaves the rows of all others alone.
pub other_rows_kept :
    (j : Job) (s : JobStatus) (reason : Option CText) (w : World) (k : CText)
    → str_same k j.id ≡ false
    → find_job k (jobs_of (job_set_status_r j s reason w).2) ≡ find_job k (jobs_of w)
other_rows_kept j s reason w k differs = elim (job_set_status_r-cases j s reason w) [
  | inl (_, e) ↦ ap (λ (r : Rc × Job × World). find_job k (jobs_of r.2)) e
  | inr (allowed, _, _) ↦
      let m = marked j s reason w.db.now in
      let apart = rw (← marked_key j s reason w.db.now) at differs in
      ap (λ (d : Db). find_job k d.tables.jobs) (change-db j s reason w allowed)
      ∙ persist_reason-other m (text_or reason) (persist_status m s w.db) k apart
      ∙ persist_status-other m s w.db k apart
]

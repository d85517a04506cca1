-- ===== src/Lifecycle/Creation.antt =====
-- What `job_create_ex` returns and stores.
use bhc_scheduler.Common.{
  ℕ, ◌≡◌, refl, true, false, none, some, List, [], ◌∷◌, ◌++◌, ◌⊎◌, inl, inr, arith, Option-cases,
  Bool-cases, length, get_or,
}
use bhc_scheduler.Common.Int.{pos, ltb_ℤ}
use bhc_scheduler.Common.Text.{CText, str_same, str_same_refl}
use bhc_scheduler.Common.Rc.{ok, error}
use bhc_scheduler.Job.{Job, queued, gen_uuid}
use bhc_scheduler.Db.{Db, fate_of, execute, find_job, inserted, db_insert_job, is_none}
use bhc_scheduler.Lifecycle.{JobSpec, new_job, job_create_ex}

-- A random identifier has 36 characters, the version digit 4, and 8, 9, a or b for its variant.
pub uuid_shape :
    (b : ℕ → ℕ)
    → (length (gen_uuid b) ≡ 36)
      × (get_or (gen_uuid b) 14 0 ≡ b'4')
      × ((get_or (gen_uuid b) 19 0 ≡ b'8')
          ⊎ (get_or (gen_uuid b) 19 0 ≡ b'9')
          ⊎ (get_or (gen_uuid b) 19 0 ≡ b'a')
          ⊎ (get_or (gen_uuid b) 19 0 ≡ b'b'))
unfolding gen_uuid
uuid_shape b = (refl, ground arith, ground arith)

find_job-append :
    (id : CText) (js : List Job) (j : Job)
    → find_job id js ≡ none
    → str_same j.id id ≡ true
    → find_job id (js ++ j ∷ []) ≡ some j
unfolding find_job
find_job-append id [] j h same = rw same
find_job-append id (k ∷ js) j h same = ground (arith, find_job-append id js j)

-- An insertion fails without a trace, or the row is there.
insert_cases :
    (j : Job) (d : Db)
    → let r = db_insert_job j d in
      ((r.0 ≡ error) × (r.1.tables ≡ d.tables))
      ⊎ ((r.0 ≡ ok) × (find_job j.id r.1.tables.jobs ≡ some (inserted j)))
unfolding db_insert_job execute
insert_cases j d = elim (Option-cases (find_job j.id d.tables.jobs)) [
  | inr (row, e) ↦ inl (rw (e, is_none) refl, rw (e, is_none) refl)
  | inl e ↦ elim (Bool-cases (fate_of d)) [
    | inl done ↦ inr (
      rw (e, is_none, done) refl,
      rw (e, is_none, done)
          (find_job-append j.id d.tables.jobs (inserted j) e (str_same_refl j.id)),
    )
    | inr lost ↦ inl (rw (e, is_none, lost) refl, rw (e, is_none, lost) refl)
  ]
]

new_job_amounts :
    (work_dir : CText) (random : ℕ → ℕ) (now : ℕ) (spec : JobSpec)
    → let j = new_job work_dir random now spec in
      (j.status ≡ queued)
      × (ltb_ℤ (pos 0) j.req_cores ≡ true)
      × (ltb_ℤ j.req_gpu (pos 0) ≡ false)
      × (ltb_ℤ j.req_ram_mb (pos 0) ≡ false)
      × (ltb_ℤ j.req_disk_mb (pos 0) ≡ false)
unfolding new_job
new_job_amounts work_dir random now spec =
    (refl, ground arith, ground arith, ground arith, ground arith)

-- `job_create_ex` either stores the new job as a row that a later read finds under its identifier,
-- or returns NULL and leaves the tables as they were. The new job is QUEUED, asks for at least one
-- core and for no negative amount of anything.
pub job_create_ex-cases :
    (work_dir : CText) (random : ℕ → ℕ) (spec : JobSpec) (d : Db)
    → let made = job_create_ex work_dir random spec d in
      let j = new_job work_dir random d.now spec in
      ((made.0 ≡ none) × (made.1.tables ≡ d.tables))
      ⊎ ((made.0 ≡ some j)
          × (find_job j.id made.1.tables.jobs ≡ some (inserted j))
          × (j.status ≡ queued)
          × (ltb_ℤ (pos 0) j.req_cores ≡ true)
          × (ltb_ℤ j.req_gpu (pos 0) ≡ false)
          × (ltb_ℤ j.req_ram_mb (pos 0) ≡ false)
          × (ltb_ℤ j.req_disk_mb (pos 0) ≡ false))
unfolding job_create_ex
job_create_ex-cases work_dir random spec d =
    let (a, b, c, e, f) = new_job_amounts work_dir random d.now spec in
    elim (insert_cases (new_job work_dir random d.now spec) d) [
      | inl (failed, kept) ↦ inl (rw failed refl, rw failed kept)
      | inr (done, found) ↦ inr (rw done refl, rw done found, a, b, c, e, f)
    ]

-- ===== src/Schedule/Held.antt =====
-- src/core/scheduler.c: the jobs that are held as CREATED until what they wait for is there.
-- `HeldCalls` holds what the rest answers: the decision core (the action, the text and, where cJSON finds
-- zones in the text, those that are objects), the files that can be opened, and the random bytes of
-- new jobs. Copying the outputs of parents touches files only.
use bhc_scheduler.Common.{
  ℕ, zero, suc, ◌+◌, ◌/◌, ◌%◌, Bool, ◌&&◌, ◌||◌, not, Option, none, some, List, [], ◌∷◌, ◌++◌, ltb,
  leb, take, if◌then◌else◌,
}
use bhc_scheduler.Common.Fallible.{◌>>=◌}
use bhc_scheduler.Common.Int.{ℤ, pos, negsuc, ltb_ℤ, ◌+ℤ◌}
use bhc_scheduler.Common.Text.{CText, c_text, copy_field, is_empty, has_text}
use bhc_scheduler.Job.{Job, queued, failed, created}
use bhc_scheduler.Db.{Db, db_get_job, db_update_job_status, db_update_depends_on}
use bhc_scheduler.Lifecycle.{JobSpec, job_create_ex, store_dir}
use bhc_scheduler.Dependencies.{
  Readiness, ready, waiting, broken, tokens, trimmed, db_check_deps_status,
}
use bhc_scheduler.Executor.{change_status}
use bhc_scheduler.Schedule.{count_expected_files}
use bhc_scheduler.Schedule.Tick.{SchedSystem, db_of, with_db, note_reason, requeue}
use bhc_scheduler.Schedule.Control.{db_load_jobs_by_status}

pub data Action : Type 0 where
  no_action run_pre_sim run_coarse_sim run_fine_sim refine migrate defer : Action

-- A zone of the text, with the defaults where a number is missing.
pub record Zone : Type 0 where
  pub req_cores : ℤ
  pub fidelity : ℤ
  pub zone : ℤ

pub record Decision : Type 0 where
  pub action : Action
  pub target_cores : ℕ
  pub allocation_json : CText
  pub zones : List Zone

pub record HeldCalls : Type 0 where
  pub decide : Job → Option Decision
  pub can_open : CText → Bool
  pub random : CText → ℕ → ℕ → ℕ
  pub work_dir : CText

-- The tokens of the list whose file can be opened.
abbrev pub count_openable : (CText → Bool) → CText → List CText → ℕ
count_openable can_open dir [] = zero
count_openable can_open dir (t ∷ ts) =
    let later = count_openable can_open dir ts in
    if can_open (take 767 (dir ++ b'/' ∷ trimmed t)) then suc later else later

-- `count_present_files`
unfoldable pub count_present_files : (CText → Bool) → CText → CText → ℕ
count_present_files can_open dir files =
    count_openable can_open dir (tokens [] (copy_field 2048 files))

-- `%d`; a number has at most as many digits as its value, plus one.
unfoldable pub digits : ℕ → ℕ → CText
digits zero n = []
digits (suc fuel) n =
    let front = digits fuel (n / 10) in
    if ltb n 10 then (48 + n) ∷ [] else front ++ (48 + n % 10) ∷ []

abbrev pub print_int : ℤ → CText
print_int (pos n) = digits (suc n) n
print_int (negsuc n) = b'-' ∷ digits (suc (suc n)) (suc n)

abbrev pub child_spec : Job → Zone → JobSpec
child_spec j z = record {
  command = take 1023 (
      j.command
      ++ c_text " --refine-zone="
      ++ print_int z.zone
      ++ c_text " --fidelity="
      ++ print_int z.fidelity);
  priority = j.priority +ℤ pos 5;
  req_cores = if ltb_ℤ (pos 0) z.req_cores then z.req_cores else pos 1;
  req_gpu = j.req_gpu;
  req_ram_mb = j.req_ram_mb;
  req_disk_mb = j.req_disk_mb;
  user_id = some j.user_id;
  app_id = some j.app_id;
}

-- `depends_buf` after one more child, cut to its 4096 bytes.
abbrev pub listed : CText → CText → CText
listed [] id = take 4095 id
listed (c ∷ cs) id = take 4095 (take 4095 ((c ∷ cs) ++ b',' ∷ []) ++ id)

abbrev pub child_made : CText → SchedSystem → Option Job × Db → Option (CText × SchedSystem)
child_made names s (none, d) = some (names, with_db d s)
child_made names s (some child, d) =
    requeue child (with_db d s) >>= λ t. some (listed names child.id, t)

-- `reqc <= 0 && fidelity <= 1`
abbrev pub skips : Zone → Bool
skips z = not (ltb_ℤ (pos 0) z.req_cores) && not (ltb_ℤ (pos 1) z.fidelity)

-- The loop over the zones: each child is created and queued.
unfoldable pub refine_zones :
    HeldCalls → Job → List Zone → ℕ → CText → SchedSystem → Option (CText × SchedSystem)
refine_zones calls j [] i names s = some (names, s)
refine_zones calls j (z ∷ zones) i names s =
    let made = job_create_ex calls.work_dir (calls.random j.id i) (child_spec j z) (db_of s) in
    let next = λ (r : CText × SchedSystem). refine_zones calls j zones (suc i) r.0 r.1 in
    let skipped = refine_zones calls j zones (suc i) names s in
    let child = child_made names s made >>= next in if skips z then skipped else child

-- The parent is marked as waiting; the loop goes on with it all the same.
abbrev pub refined : Job → CText × SchedSystem → SchedSystem
refined j (names, s) =
    let linked = (db_update_depends_on j.id names (db_of s)).1 in
    let back = (db_update_job_status j.id created (pos 0) 0 linked).1 in
    if has_text names
    then note_reason j.id (c_text "Waiting for refinement subjobs") (with_db back s)
    else s

abbrev pub with_children : HeldCalls → Job → Decision → SchedSystem → Option SchedSystem
with_children calls j decision s =
    let children = refine_zones calls j decision.zones 0 [] s >>= λ r. some (refined j r) in
    if has_text decision.allocation_json then children else some s

abbrev pub act : HeldCalls → Job → Decision → Action → SchedSystem → Option SchedSystem
act calls j decision refine s = with_children calls j decision s
act calls j decision defer s = some (note_reason j.id (c_text "Deferred by decision core") s)
act calls j decision migrate s =
    some (note_reason j.id (c_text "Migration requested by decision core") s)
act calls j decision run_coarse_sim s =
    some (note_reason j.id (c_text "Strategy: run coarse simulation") s)
act calls j decision run_fine_sim s =
    some (note_reason j.id (c_text "Strategy: run fine simulation") s)
act calls j decision _ s = some s

abbrev pub decided : HeldCalls → Job → Option Decision → SchedSystem → Option SchedSystem
decided calls j none s = some s
decided calls j (some decision) s =
    let noted = note_reason j.id decision.allocation_json s in
    act calls j decision decision.action (if has_text decision.allocation_json then noted else s)

-- The row is read again, set to QUEUED and queued, whatever the result of the change.
abbrev pub release_row : CText → SchedSystem → Option Job → Option SchedSystem
release_row reason s none = some s
release_row reason s (some full) =
    let (_, j, e) = change_status full queued reason s.exec in requeue j (record s { exec = e })

unfoldable pub release_held : Job → SchedSystem → Option SchedSystem
release_held j s =
    let (row, d) = db_get_job j.id (db_of s) in
    release_row
      (if has_text j.input_files
        then c_text "Dependencies satisfied, all input files received"
        else c_text "All dependencies satisfied")
      (with_db d s) row

unfoldable pub files_ready : HeldCalls → Job → Bool
unfolding count_present_files count_expected_files
files_ready calls j =
    is_empty j.input_files
    || leb (count_expected_files j.input_files) (
        count_present_files calls.can_open (store_dir calls.work_dir j.id (c_text "input"))
          j.input_files)

abbrev pub check_files : HeldCalls → Job → SchedSystem → Option SchedSystem
check_files calls j s = if files_ready calls j then release_held j s else some s

-- A dependency failed or was cancelled.
abbrev pub fail_held : Job → SchedSystem → SchedSystem
fail_held j s =
    let marked = (db_update_job_status j.id failed (negsuc 0) (db_of s).now (db_of s)).1 in
    note_reason j.id (c_text "Dependency failed or was cancelled") (with_db marked s)

-- All dependencies are finished.
abbrev pub satisfied : HeldCalls → Job → SchedSystem → Option SchedSystem
satisfied calls j s =
    let free : Job = record j { depends_on = [] } in
    let unlinked = with_db (db_update_depends_on j.id [] (db_of s)).1 s in
    decided calls free (calls.decide free) unlinked >>= check_files calls free

abbrev pub check_dependencies : HeldCalls → Job → Readiness × Db → SchedSystem → Option SchedSystem
check_dependencies calls j (broken, d) s = some (fail_held j (with_db d s))
check_dependencies calls j (waiting, d) s = some (with_db d s)
check_dependencies calls j (ready, d) s = satisfied calls j (with_db d s)

-- The body of the loop.
unfoldable pub check_held : HeldCalls → Job → SchedSystem → Option SchedSystem
unfolding release_held files_ready refine_zones
check_held calls j s =
    if has_text j.depends_on
    then check_dependencies calls j (db_check_deps_status j.depends_on (db_of s)) s
    else check_files calls j s

unfoldable pub check_held_each : HeldCalls → List Job → SchedSystem → Option SchedSystem
unfolding check_held
check_held_each calls [] s = some s
check_held_each calls (j ∷ jobs) s = check_held calls j s >>= λ t. check_held_each calls jobs t

abbrev pub held_loaded : HeldCalls → SchedSystem → Option (List Job) → Option SchedSystem
held_loaded calls s none = some s
held_loaded calls s (some jobs) = check_held_each calls jobs s

-- `scheduler_check_held_jobs`
unfoldable pub scheduler_check_held_jobs : Bool → HeldCalls → SchedSystem → Option SchedSystem
scheduler_check_held_jobs memory calls s =
    let (jobs, d) = db_load_jobs_by_status memory created (db_of s) in
    held_loaded calls (with_db d s) jobs

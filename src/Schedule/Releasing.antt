-- ===== src/Schedule/Releasing.antt =====
-- When a held job is released.
use bhc_scheduler.Common.{
  ℕ, suc, ◌≡◌, refl, ◌∙◌, true, false, Option, none, some, List, [], ◌∷◌, inl, inr, ◌⊎◌, if_cases,
}
use bhc_scheduler.Common.Fallible.{Yields, Yields-some, Yields-bind, Yields-weaken}
use bhc_scheduler.Common.Text.{CText, has_text}
use bhc_scheduler.Common.Int.{pos, negsuc}
use bhc_scheduler.Queue.{Queue}
use bhc_scheduler.Job.{Job, created, failed}
use bhc_scheduler.Lifecycle.{job_create_ex}
use bhc_scheduler.Db.{Db, db_get_job, db_update_depends_on, db_update_job_status}
use bhc_scheduler.Alloc.Balance.{same-IsBalanced}
use bhc_scheduler.Dependencies.{Readiness, ready, waiting, broken, db_check_deps_status}
use bhc_scheduler.Dependencies.Verdict.{AllSucceeded, names_of, db_check_deps_status-AllSucceeded}
use bhc_scheduler.Schedule.Tick.{SchedSystem, db_of, with_db, requeue, note_reason}
use bhc_scheduler.Schedule.Soundness.{IsReady, requeue-Requeued, with_db-IsReady}
use bhc_scheduler.Schedule.Held.{
  Action, Decision, Zone, HeldCalls, refine, defer, migrate, run_coarse_sim, run_fine_sim,
  run_pre_sim, no_action, skips, child_spec, child_made, refine_zones, refined, act, with_children,
  decided, release_row, release_held, files_ready, check_files, check_dependencies, satisfied,
  check_held,
}

abbrev Fine : Option SchedSystem → Type 0
Fine r = Yields IsReady r

requeue-IsReady : (j : Job) (s : SchedSystem) → IsReady s → Fine (requeue j s)
requeue-IsReady j s fine = Yields-weaken _ (requeue-Requeued j s fine) λ t (kept, _, _). kept

release_row-IsReady :
    (reason : CText) (s : SchedSystem) (row : Option Job)
    → IsReady s
    → Fine (release_row reason s row)
release_row-IsReady reason s none fine = Yields-some s fine
release_row-IsReady reason s (some full) (valid, balanced, sound) =
    requeue-IsReady _ _ (valid, same-IsBalanced s.exec.alloc _ refl refl balanced, sound)

release_held-IsReady : (j : Job) (s : SchedSystem) → IsReady s → Fine (release_held j s)
unfolding release_held
release_held-IsReady j s fine =
    release_row-IsReady _ _ (db_get_job j.id (db_of s)).0 (with_db-IsReady _ s fine)

child_made-IsReady :
    (names : CText) (s : SchedSystem) (made : Option Job × Db)
    → IsReady s
    → Yields (λ r. IsReady r.1) (child_made names s made)
child_made-IsReady names s (none, d) fine = Yields-some _ (with_db-IsReady d s fine)
child_made-IsReady names s (some child, d) fine =
    Yields-bind _ _ (requeue-IsReady child (with_db d s) (with_db-IsReady d s fine))
      λ t kept. Yields-some _ kept

zones-IsReady :
    (calls : HeldCalls) (j : Job) (zones : List Zone) (i : ℕ) (names : CText) (s : SchedSystem)
    → IsReady s
    → Yields (λ r. IsReady r.1) (refine_zones calls j zones i names s)
unfolding refine_zones
zones-IsReady calls j [] i names s fine = Yields-some _ fine
zones-IsReady calls j (z ∷ zones) i names s fine =
    let made = job_create_ex calls.work_dir (calls.random j.id i) (child_spec j z) (db_of s) in
    if_cases (Yields (λ (r : CText × SchedSystem). IsReady r.1)) (skips z) _ _
      (λ _. zones-IsReady calls j zones (suc i) names s fine)
      (λ _.
        Yields-bind _ _ (child_made-IsReady names s made fine)
          λ (more, t) kept. zones-IsReady calls j zones (suc i) more t kept)

refined-IsReady :
    (j : Job) (names : CText) (s : SchedSystem) → IsReady s → IsReady (refined j (names, s))
refined-IsReady j names s fine =
    let linked = (db_update_depends_on j.id names (db_of s)).1 in
    let back = (db_update_job_status j.id created (pos 0) 0 linked).1 in
    if_cases IsReady (has_text names) _ _
      (λ _. with_db-IsReady _ (with_db back s) (with_db-IsReady back s fine)) (λ _. fine)

-- The decision core asks for a refinement, which queues children of the job.
abbrev pub Refines : HeldCalls → Job → Type 0
Refines calls j =
    (decision : Decision) × (calls.decide j ≡ some decision) × (decision.action ≡ refine)

-- What an action leaves: only a refinement touches the queue.
abbrev Acted : Action → SchedSystem → SchedSystem → Type 0
Acted a s t = IsReady t × ((t.queue ≡ s.queue) ⊎ (a ≡ refine))

noted :
    (a : Action) (d : Db) (s : SchedSystem) → IsReady s → Yields (Acted a s) (some (with_db d s))
noted a d s fine = Yields-some _ (with_db-IsReady d s fine, inl refl)

children-IsReady :
    (calls : HeldCalls) (j : Job) (decision : Decision) (s : SchedSystem)
    → IsReady s
    → Fine (with_children calls j decision s)
children-IsReady calls j decision s fine =
    if_cases Fine (has_text decision.allocation_json) _ _
      (λ _.
        Yields-bind _ _ (zones-IsReady calls j decision.zones 0 [] s fine)
          λ (names, t) kept. Yields-some _ (refined-IsReady j names t kept))
      (λ _. Yields-some s fine)

act-Acted :
    (calls : HeldCalls) (j : Job) (decision : Decision) (a : Action) (s : SchedSystem)
    → IsReady s
    → Yields (Acted a s) (act calls j decision a s)
act-Acted calls j decision refine s fine =
    Yields-weaken _ (children-IsReady calls j decision s fine) λ t kept. (kept, inr refl)
act-Acted calls j decision defer s fine = noted defer _ s fine
act-Acted calls j decision migrate s fine = noted migrate _ s fine
act-Acted calls j decision run_coarse_sim s fine = noted run_coarse_sim _ s fine
act-Acted calls j decision run_fine_sim s fine = noted run_fine_sim _ s fine
act-Acted calls j decision no_action s fine = Yields-some s (fine, inl refl)
act-Acted calls j decision run_pre_sim s fine = Yields-some s (fine, inl refl)

abbrev Decided : HeldCalls → Job → SchedSystem → SchedSystem → Type 0
Decided calls j s t = IsReady t × ((t.queue ≡ s.queue) ⊎ Refines calls j)

by_decision :
    (calls : HeldCalls) (j : Job) (decision : Decision) {q p : Queue}
    → calls.decide j ≡ some decision
    → (q ≡ p) ⊎ (decision.action ≡ refine)
    → (q ≡ p) ⊎ Refines calls j
by_decision calls j decision e (inl same) = inl same
by_decision calls j decision e (inr asks) = inr (decision, e, asks)

decided-Decided :
    (calls : HeldCalls) (j : Job) (s : SchedSystem) (o : Option Decision)
    → calls.decide j ≡ o
    → IsReady s
    → Yields (Decided calls j s) (decided calls j o s)
decided-Decided calls j s none e fine = Yields-some s (fine, inl refl)
decided-Decided calls j s (some decision) e fine =
    let start = note_reason j.id decision.allocation_json s in
    if_cases
      (λ (u : SchedSystem). Yields (Decided calls j s) (act calls j decision decision.action u))
      (has_text decision.allocation_json) _ _
      (λ _.
        Yields-weaken _
          (act-Acted calls j decision decision.action start (with_db-IsReady _ s fine))
          λ t (kept, how). (kept, by_decision calls j decision e how))
      (λ _.
        Yields-weaken _ (act-Acted calls j decision decision.action s fine)
          λ t (kept, how). (kept, by_decision calls j decision e how))

-- The queue changes only if the files are there.
abbrev Checked : HeldCalls → Job → SchedSystem → SchedSystem → Type 0
Checked calls j s t = IsReady t × ((t.queue ≡ s.queue) ⊎ (files_ready calls j ≡ true))

check_files-Checked :
    (calls : HeldCalls) (j : Job) (s : SchedSystem)
    → IsReady s
    → Yields (Checked calls j s) (check_files calls j s)
check_files-Checked calls j s fine =
    if_cases (Yields (Checked calls j s)) (files_ready calls j) _ _
      (λ there. Yields-weaken _ (release_held-IsReady j s fine) λ t kept. (kept, inr there))
      (λ _. Yields-some s (fine, inl refl))

abbrev pub without_dependencies : Job → Job
without_dependencies j = record j { depends_on = [] }

-- The files are there, or the decision core asks for a refinement.
abbrev pub Supplied : HeldCalls → Job → Type 0
Supplied calls j = (files_ready calls j ≡ true) ⊎ Refines calls (without_dependencies j)

satisfied-Supplied :
    (calls : HeldCalls) (j : Job) (s : SchedSystem)
    → IsReady s
    → Yields (λ t. IsReady t × ((t.queue ≡ s.queue) ⊎ Supplied calls j)) (satisfied calls j s)
unfolding files_ready
satisfied-Supplied calls j s fine =
    let free = without_dependencies j in
    let d = (db_update_depends_on j.id [] (db_of s)).1 in
    Yields-bind _ _
      (decided-Decided calls free (with_db d s) (calls.decide free) refl (with_db-IsReady d s fine))
      λ t (kept, how). Yields-weaken _ (check_files-Checked calls free t kept) λ u (sound, end). (
        sound,
        elim end [
          | inr there ↦ inr (inl there)
          | inl same ↦ elim how [ inl before ↦ inl (same ∙ before) | inr asked ↦ inr (inr asked) ]
        ],
      )

-- Every name in the job's list of dependencies is of a job that has succeeded.
abbrev pub DependenciesDone : Job → SchedSystem → Type 0
DependenciesDone j s =
    (has_text j.depends_on ≡ false) ⊎ AllSucceeded (names_of j.depends_on) (db_of s).tables.jobs

abbrev pub ReleasedRightly : HeldCalls → Job → SchedSystem → SchedSystem → Type 0
ReleasedRightly calls j s t =
    IsReady t × ((t.queue ≡ s.queue) ⊎ (DependenciesDone j s × Supplied calls j))

by_verdict :
    (calls : HeldCalls) (j : Job) (s : SchedSystem) (v : Readiness × Db)
    → (v.0 ≡ ready → DependenciesDone j s)
    → IsReady s
    → Yields (ReleasedRightly calls j s) (check_dependencies calls j v s)
by_verdict calls j s (broken, d) done fine =
    let marked = (db_update_job_status j.id failed (negsuc 0) d.now d).1 in
    Yields-some _ (with_db-IsReady _ (with_db marked s) (with_db-IsReady marked s fine), inl refl)
by_verdict calls j s (waiting, d) done fine = Yields-some _ (with_db-IsReady d s fine, inl refl)
by_verdict calls j s (ready, d) done fine =
    Yields-weaken _ (satisfied-Supplied calls j (with_db d s) (with_db-IsReady d s fine))
      λ t (kept, how). (kept, elim how [ inl same ↦ inl same | inr given ↦ inr (done refl, given) ])

-- The check of a held job ends and keeps the invariants of the queue, the allocator and the executor.
-- Whatever the queries of the database do, it changes the queue only if every dependency of the job has
-- succeeded, and its input files are there or the decision core asks for a refinement.
pub check_held-ReleasedRightly :
    (calls : HeldCalls) (j : Job) (s : SchedSystem)
    → IsReady s
    → Yields (ReleasedRightly calls j s) (check_held calls j s)
unfolding check_held
check_held-ReleasedRightly calls j s fine =
    if_cases (Yields (ReleasedRightly calls j s)) (has_text j.depends_on) _ _
      (λ _.
        by_verdict calls j s (db_check_deps_status j.depends_on (db_of s))
          (λ h. inr (db_check_deps_status-AllSucceeded j.depends_on (db_of s) h)) fine)
      (λ none_left. Yields-weaken _ (check_files-Checked calls j s fine) λ t (kept, how).
        (kept, elim how [ inl same ↦ inl same | inr there ↦ inr (inl none_left, inl there) ]))

-- ===== src/Lifecycle/Transitions.antt =====
-- The state machine of src/core/job.c over sequences of requests.
use bhc_scheduler.Common.{
  ℕ, suc, ◌+◌, ◌≤◌, ◌<◌, ◌≡◌, refl, true, false, Option, List, [], ◌∷◌, ◌⊎◌, inl, inr, arith, ap,
  Bool-cases,
}
use bhc_scheduler.Common.Text.{CText}
use bhc_scheduler.Common.Rc.{Rc, ok, error}
use bhc_scheduler.Job.{JobStatus, Job, queued, running, created, transition_allowed}
use bhc_scheduler.Lifecycle.{World, is_terminal, marked, job_set_status_r}

-- How far along its life a job is.
pub rank : JobStatus → ℕ
rank created = 0
rank queued = 1
rank running = 2
rank _ = 3

pub allowed_climbs : (s t : JobStatus) → transition_allowed s t ≡ true → rank s < rank t
unfolding transition_allowed rank
allowed_climbs s t h = ground arith

pub rank-le : (s : JobStatus) → rank s ≤ 3
unfolding rank
rank-le s = ground arith

-- A request to change the status, with its reason.
abbrev pub Request : Type 0
Request = JobStatus × Option CText

abbrev pub count_ok : Rc → ℕ → ℕ
count_ok ok n = suc n
count_ok _ n = n

-- A history of requests on one job: how many were accepted, and what is left.
pub requests : Job → List Request → World → ℕ × Job × World
requests j [] w = (0, j, w)
requests j ((s, reason) ∷ rs) w =
    let (rc, j', w') = job_set_status_r j s reason w in
    let (n, k, v) = requests j' rs w' in (count_ok rc n, k, v)

-- A call either is refused and changes nothing, or sets the status asked for.
pub job_set_status_r-cases :
    (j : Job) (s : JobStatus) (reason : Option CText) (w : World)
    → ((transition_allowed j.status s ≡ false) × (job_set_status_r j s reason w ≡ (error, j, w)))
      ⊎ ((transition_allowed j.status s ≡ true)
          × ((job_set_status_r j s reason w).0 ≡ ok)
          × ((job_set_status_r j s reason w).1 ≡ marked j s reason w.db.now))
unfolding job_set_status_r
job_set_status_r-cases j s reason w = elim (Bool-cases (transition_allowed j.status s)) [
  | inl yes_case ↦ inr (yes_case, rw yes_case refl, rw yes_case refl)
  | inr no_case ↦ inl (no_case, rw no_case refl)
]

marked_status : (j : Job) (s : JobStatus) (r : Option CText) (t : ℕ) → (marked j s r t).status ≡ s
unfolding marked
marked_status j s r t = ground arith

-- Of any sequence of calls of `job_set_status_r` on one job object, starting from the status it has, at
-- most three are accepted from CREATED, two from QUEUED, one from RUNNING, none from a terminal status.
pub accepted_bounded :
    (j : Job) (rs : List Request) (w : World) → (requests j rs w).0 + rank j.status ≤ 3
unfolding requests
accepted_bounded j [] w = omega (arith, rank-le j.status)
accepted_bounded j ((s, reason) ∷ rs) w = elim (job_set_status_r-cases j s reason w) [
  | inl (_, e) ↦ rw e (accepted_bounded j rs w)
  | inr (allowed, e, e') ↦
      let after = (job_set_status_r j s reason w).1 in
      let status : after.status ≡ s = rw e' (marked_status j s reason w.db.now) in
      let rest = accepted_bounded after rs (job_set_status_r j s reason w).2 in
      rw e (omega (arith, rest, ap rank status, allowed_climbs j.status s allowed))
]

terminal-refuses : (s t : JobStatus) → is_terminal s ≡ true → transition_allowed s t ≡ false
unfolding is_terminal transition_allowed
terminal-refuses s t h = ground arith

-- Once a job has ended, no history of requests changes it, its database rows or the event stream.
pub terminal_absorbs :
    (j : Job) (rs : List Request) (w : World)
    → is_terminal j.status ≡ true
    → requests j rs w ≡ (0, j, w)
unfolding requests
terminal_absorbs j [] w h = refl
terminal_absorbs j ((s, reason) ∷ rs) w h = elim (job_set_status_r-cases j s reason w) [
  | inl (_, e) ↦ rw (e, terminal_absorbs j rs w h)
  | inr (allowed, _, _) ↦ absurd (ground (arith, terminal-refuses j.status s h))
]

-- ===== src/Executor/Contract.antt =====
-- What the executor promises of its table, without addresses, processes and job records: which jobs
-- are active, and for each the outcome that was asked for first.
use bhc_scheduler.Common.{
  ℕ, ◌≡◌, refl, ap, sym, true, false, none, some, List, [], ◌∷◌, arith, inl, inr, Bool-cases, ◌==◌,
  if◌then◌else◌,
}
use bhc_scheduler.Common.Text.{CText, str_same, copy_field}
use bhc_scheduler.Job.{JobStatus}
use bhc_scheduler.Executor.{ActiveExecution, find_active, put}
use bhc_scheduler.Executor.Table.{find_active-below, Seen, views, view_of, Descending, ◌↘◌}
use bhc_scheduler.Executor.Effects.{Stopped}

-- The first request counts.
abbrev pub asked : JobStatus → CText → Seen → Seen
asked status reason (id, none) = (id, some (status, reason))
asked status reason (id, some outcome) = (id, some outcome)

abbrev pub ask_first : CText → JobStatus → CText → List Seen → List Seen
ask_first id status reason [] = []
ask_first id status reason (x ∷ xs) =
    let rest = ask_first id status reason xs in
    if str_same x.0 id then asked status reason x ∷ xs else x ∷ rest

abbrev pub ask_all : JobStatus → CText → List Seen → List Seen
ask_all status reason [] = []
ask_all status reason (x ∷ xs) = asked status reason x ∷ ask_all status reason xs

infix 40 ◌⇝◌
pub data ◌⇝◌ : List Seen → List Seen → Type 0 where
  begin : {id : CText} {t : List Seen} → t ⇝ ((id, none) ∷ t)
  ask :
      {t : List Seen} (id : CText) (status : JobStatus) (reason : CText)
      → t ⇝ ask_first id status reason t
  ask_everyone : {t : List Seen} (status : JobStatus) (reason : CText) → t ⇝ ask_all status reason t
  leave : {t u : List Seen} → t ↘ u → t ⇝ u
  stay : {t : List Seen} → t ⇝ t

pub Stopped-view :
    (status : JobStatus) (reason : CText) (e x : ActiveExecution)
    → Stopped status reason e x
    → e.termination_requested ≡ false
    → view_of x ≡ asked status (copy_field 256 reason) (view_of e)
Stopped-view status reason e x (_, _, id, req, st, re, _) first = rw (id, req, st, re, first) refl

pub asked_again :
    (status : JobStatus) (reason : CText) (e : ActiveExecution)
    → e.termination_requested ≡ true
    → asked status reason (view_of e) ≡ view_of e
asked_again status reason e before = rw before refl

pub found_views :
    (id : CText) (status : JobStatus) (reason : CText) (b : ℕ) (es : List ActiveExecution)
    → (e x : ActiveExecution) → Descending b es
    → find_active id es ≡ some e
    → x.handle ≡ e.handle
    → view_of x ≡ asked status reason (view_of e)
    → views (put x es) ≡ ask_first id status reason (views es)
unfolding find_active put
found_views id status reason b [] e x d found same seen = cc
found_views id status reason b (y ∷ es) e x (low, d) found same seen =
    elim (Bool-cases (str_same y.job.id id)) [
      | inl here ↦
          let own : y ≡ e = ground arith in
          let hit : (y.handle == x.handle) ≡ true = rw own (ground arith) in
          rw (hit, here, own, seen) refl
      | inr there ↦
          let later : find_active id es ≡ some e = rw there at found in
          let lower = find_active-below id y.handle es e d later in
          let miss : (y.handle == x.handle) ≡ false = ground arith in
          rw (miss, there)
            (ap (λ t. view_of y ∷ t)
              (found_views id status reason y.handle es e x d later same seen))
    ]

pub kept_views :
    (id : CText) (status : JobStatus) (reason : CText) (es : List ActiveExecution)
    → (e : ActiveExecution) → find_active id es ≡ some e
    → e.termination_requested ≡ true
    → views es ≡ ask_first id status reason (views es)
unfolding find_active
kept_views id status reason [] e found before = cc
kept_views id status reason (y ∷ es) e found before = elim (Bool-cases (str_same y.job.id id)) [
  | inl here ↦
      let own : y ≡ e = ground arith in
      rw (here, own) (ap (λ x. x ∷ views es) (sym (asked_again status reason e before)))
  | inr there ↦
      rw there
        (ap (λ t. view_of y ∷ t) (kept_views id status reason es e (rw there at found) before))
]

pub missing_views :
    (id : CText) (status : JobStatus) (reason : CText) (es : List ActiveExecution)
    → find_active id es ≡ none
    → views es ≡ ask_first id status reason (views es)
unfolding find_active
missing_views id status reason [] missing = refl
missing_views id status reason (y ∷ es) missing = elim (Bool-cases (str_same y.job.id id)) [
  | inl here ↦ absurd (ground arith)
  | inr there ↦
      rw there (ap (λ t. view_of y ∷ t) (missing_views id status reason es (rw there at missing)))
]

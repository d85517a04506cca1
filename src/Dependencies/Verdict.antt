-- ===== src/Dependencies/Verdict.antt =====
-- When a held job is ready, and when it is given up.
use bhc_scheduler.Common.{
  suc, ◌≡◌, refl, ◌⊎◌, inl, inr, true, false, Option, none, some, List, [], ◌∷◌, arith, Bool-cases,
  Option-cases, ◌↔◌,
}
use bhc_scheduler.Common.Text.{CText, copy_field, is_empty}
use bhc_scheduler.Job.{JobStatus, Job, succeeded, failed, cancelled}
use bhc_scheduler.Db.{NoFailure, Db, find_job}
use bhc_scheduler.Dependencies.{
  Readiness, ready, broken, tokens, trimmed, status_in, settle, query_status, judge, check_tokens,
  db_check_deps_status,
}

-- Every name that is not blank is the identifier of a job that has succeeded.
abbrev pub AllSucceeded : List CText → List Job → Type 0
AllSucceeded [] jobs = Unit {0}
AllSucceeded (t ∷ ts) jobs =
    ((is_empty (trimmed t) ≡ true)
      ⊎ ((j : Job) × (find_job (trimmed t) jobs ≡ some j) × (j.status ≡ succeeded)))
    × AllSucceeded ts jobs

-- One of the names is of no job, or of one that failed or was cancelled.
abbrev pub SomeBroken : List CText → List Job → Type 0
SomeBroken [] jobs = ⊥
SomeBroken (t ∷ ts) jobs =
    ((is_empty (trimmed t) ≡ false)
      × ((find_job (trimmed t) jobs ≡ none)
          ⊎ ((j : Job) × (find_job (trimmed t) jobs ≡ some j)
              × ((j.status ≡ failed) ⊎ (j.status ≡ cancelled)))))
    ⊎ SomeBroken ts jobs

-- The names in the text of a job's `depends_on`.
abbrev pub names_of : CText → List CText
names_of depends_on = tokens [] (copy_field 2048 depends_on)

query-tables : (id : CText) (d : Db) → (query_status id d).1.tables ≡ d.tables
unfolding query_status
query-tables id d = ground arith

query_found :
    (id : CText) (d : Db) (s : JobStatus)
    → (query_status id d).0 ≡ some (some s)
    → (j : Job) × (find_job id d.tables.jobs ≡ some j) × (j.status ≡ s)
unfolding query_status
query_found id d s h = elim (Option-cases (find_job id d.tables.jobs)) [
  | inl e ↦ absurd (ground arith)
  | inr (j, e) ↦ (j, e, ground arith)
]

settle_ready :
    (q : Option (Option JobStatus)) (d : Db) (rest : Readiness × Db)
    → (settle (judge q) d rest).0 ≡ ready
    → (q ≡ some (some succeeded)) × (rest.0 ≡ ready)
unfolding judge
settle_ready q d rest h = ground arith

tokens_ready :
    (ts : List CText) (d : Db) → (check_tokens ts d).0 ≡ ready → AllSucceeded ts d.tables.jobs
unfolding check_tokens
tokens_ready [] d h = tt
tokens_ready (t ∷ ts) d h = elim (Bool-cases (is_empty (trimmed t))) [
  | inl e ↦ (inl e, tokens_ready ts d (rw e at h))
  | inr e ↦
      let asked = query_status (trimmed t) d in
      let (found, more) = settle_ready asked.0 asked.1 (check_tokens ts asked.1) (rw e at h) in
      let later = tokens_ready ts asked.1 more in
      (inr (query_found (trimmed t) d succeeded found), rw (query-tables (trimmed t) d) at later)
]

-- Whatever its queries do, `db_check_deps_status` reports that a job may run only if every name in its
-- list is the identifier of a job that has succeeded.
pub db_check_deps_status-AllSucceeded :
    (depends_on : CText) (d : Db)
    → (db_check_deps_status depends_on d).0 ≡ ready
    → AllSucceeded (names_of depends_on) d.tables.jobs
unfolding db_check_deps_status
db_check_deps_status-AllSucceeded depends_on d h = tokens_ready (names_of depends_on) d h

query_fine :
    (id : CText) (d : Db)
    → NoFailure d
    → ((query_status id d).0 ≡ some (status_in (find_job id d.tables.jobs)))
      × NoFailure (query_status id d).1
unfolding query_status
query_fine id d fine = rw (fine d.statements, fine (suc d.statements)) (refl, fine)

succeeded_ready :
    (ts : List CText) (d : Db)
    → NoFailure d
    → AllSucceeded ts d.tables.jobs
    → (check_tokens ts d).0 ≡ ready
unfolding check_tokens judge
succeeded_ready [] d fine h = refl
succeeded_ready (t ∷ ts) d fine (here, later) = elim (Bool-cases (is_empty (trimmed t))) [
  | inl e ↦ rw e (succeeded_ready ts d fine later)
  | inr e ↦ elim here [
    | inl blank ↦ absurd (grind arith)
    | inr (j, found, done) ↦
        let (asked, fine') = query_fine (trimmed t) d fine in
        let after = (query_status (trimmed t) d).1 in
        let rest = succeeded_ready ts after fine' (rw (query-tables (trimmed t) d) later) in
        rw (e, asked, found, done) rest
  ]
]

-- Where no query fails, a job may run exactly if every name in its list is of a job that succeeded.
pub db_check_deps_status_iff :
    (depends_on : CText) (d : Db)
    → NoFailure d
    → ((db_check_deps_status depends_on d).0 ≡ ready)
      ↔ AllSucceeded (names_of depends_on) d.tables.jobs
unfolding db_check_deps_status
db_check_deps_status_iff depends_on d fine =
    (tokens_ready (names_of depends_on) d, succeeded_ready (names_of depends_on) d fine)

settle_broken :
    (o : Option JobStatus) (d : Db) (rest : Readiness × Db)
    → (settle (judge (some o)) d rest).0 ≡ broken
    → (o ≡ none) ⊎ (o ≡ some failed) ⊎ (o ≡ some cancelled) ⊎ (rest.0 ≡ broken)
unfolding judge
settle_broken o d rest h = ground arith

tokens_broken :
    (ts : List CText) (d : Db)
    → NoFailure d
    → (check_tokens ts d).0 ≡ broken
    → SomeBroken ts d.tables.jobs
unfolding check_tokens
tokens_broken [] d fine h = absurd (let e : ready ≡ broken = h in cc)
tokens_broken (t ∷ ts) d fine h = elim (Bool-cases (is_empty (trimmed t))) [
  | inl e ↦ inr (tokens_broken ts d fine (rw e at h))
  | inr e ↦
      let (asked, fine') = query_fine (trimmed t) d fine in
      let after = (query_status (trimmed t) d).1 in
      let job = find_job (trimmed t) d.tables.jobs in
      elim (settle_broken (status_in job) after (check_tokens ts after) (rw (e, asked) at h)) [
        | inl gone ↦ inl (e, inl (no_status job gone))
        | inr (inl bad) ↦
            inl (e, inr (let (j, found, s) = has_status job failed bad in (j, found, inl s)))
        | inr (inr (inl bad)) ↦
            inl (e, inr (let (j, found, s) = has_status job cancelled bad in (j, found, inr s)))
        | inr (inr (inr more)) ↦
            inr (rw (query-tables (trimmed t) d) at (tokens_broken ts after fine' more))
      ]
]
  where
    no_status : (o : Option Job) → status_in o ≡ none → o ≡ none
    no_status none h = refl
    no_status (some j) h = cc

    has_status :
        (o : Option Job) (s : JobStatus)
        → status_in o ≡ some s
        → (j : Job) × (o ≡ some j) × (j.status ≡ s)
    has_status none s h = cc
    has_status (some j) s h = (j, refl, cc)

-- Where no query fails, a job is given up only if one of the names in its list is of no job, or of one
-- that failed or was cancelled.
pub db_check_deps_status-SomeBroken :
    (depends_on : CText) (d : Db)
    → NoFailure d
    → (db_check_deps_status depends_on d).0 ≡ broken
    → SomeBroken (names_of depends_on) d.tables.jobs
unfolding db_check_deps_status
db_check_deps_status-SomeBroken depends_on d fine h = tokens_broken (names_of depends_on) d fine h

-- ===== src/Quota/Limits.antt =====
-- What a job that passes the check may rely on.
use bhc_scheduler.Common.{
  ℕ, suc, ◌<◌, ◌%◌, ltb, ◌||◌, ◌≡◌, refl, sym, ◌∙◌, Bool, true, false, ◌&&◌, not, Option, none,
  some, List, [], ◌∷◌, arith, if◌then◌else◌,
}
use bhc_scheduler.Common.Int.{ℤ, pos, negsuc, ◌+ℤ◌}
use bhc_scheduler.Common.Text.{CText, has_text}
use bhc_scheduler.Job.{Job}
use bhc_scheduler.Db.{NoFailure, Db, Quota}
use bhc_scheduler.Quota.{
  find_quota, db_get_quota, attempt, resolve_quota, Usage, usage_of, as_int, exceeds, over_limit,
  with_job, is_counted, check_resolved, db_quota_check,
}

-- The first of two optional quotas.
abbrev pub first_of : Option Quota → Option Quota → Option Quota
first_of (some q) later = some q
first_of none later = later

-- The quota that the documentation promises: the most specific that there is.
abbrev pub most_specific : CText → CText → List Quota → Option Quota
most_specific user app qs =
    first_of (if has_text user && has_text app then find_quota user app qs else none) (
      first_of (if has_text user then find_quota user [] qs else none)
        (first_of (if has_text app then find_quota [] app qs else none) (find_quota [] [] qs)))

-- The database as it was but for the count of its statements.
abbrev SameBut : Db → Db → Type 0
SameBut d e = (e.tables ≡ d.tables) × (e.fate ≡ d.fate)

attempt_is :
    (asked : Bool) (user app : CText) (d : Db) (o : Option Quota) (e : Db)
    → NoFailure d
    → SameBut d e
    → ((attempt asked user app (o, e)).0
        ≡ first_of o (if asked then find_quota user app d.tables.quotas else none))
      × SameBut d (attempt asked user app (o, e)).1
unfolding attempt db_get_quota
attempt_is asked user app d (some q) e fine same = (refl, same)
attempt_is true user app d none e fine (tables, fate) =
    (rw (fate, fine e.statements, tables) refl, (tables, fate))
attempt_is false user app d none e fine same = (refl, same)

attempts :
    (asked : Bool) (user app : CText) (d : Db) (r : Option Quota × Db)
    → NoFailure d
    → SameBut d r.1
    → ((attempt asked user app r).0
        ≡ first_of r.0 (if asked then find_quota user app d.tables.quotas else none))
      × SameBut d (attempt asked user app r).1
attempts asked user app d (o, e) = attempt_is asked user app d o e

regrouped :
    (a b c e : Option Quota)
    → first_of (first_of (first_of a b) c) e ≡ first_of a (first_of b (first_of c e))
regrouped none none c e = refl
regrouped none (some q) c e = refl
regrouped (some q) b c e = refl

resolved :
    (user app : CText) (d : Db)
    → NoFailure d
    → ((resolve_quota user app d).0 ≡ most_specific user app d.tables.quotas)
      × SameBut d (resolve_quota user app d).1
unfolding resolve_quota
resolved user app d fine =
    let exact = attempt (has_text user && has_text app) user app (none, d) in
    let of_user = attempt (has_text user) user [] exact in
    let of_app = attempt (has_text app) [] app of_user in
    let (e1, s1) =
      attempts (has_text user && has_text app) user app d (none, d) fine (refl, refl) in
    let (e2, s2) = attempts (has_text user) user [] d exact fine s1 in
    let (e3, s3) = attempts (has_text app) [] app d of_user fine s2 in
    let (e4, s4) = attempts true [] [] d of_app fine s3 in
    let qs = d.tables.quotas in
    (
      rw (e4, e3, e2, e1)
          (regrouped (if has_text user && has_text app then find_quota user app qs else none)
            (if has_text user then find_quota user [] qs else none)
            (if has_text app then find_quota [] app qs else none) (find_quota [] [] qs)),
      s4,
    )

-- Where no query fails, the quota that `resolve_quota` finds is the most specific one that the table
-- has: for the user and the application, else for the user, else for the application, else the default.
pub resolve_quota-most_specific :
    (user app : CText) (d : Db)
    → NoFailure d
    → (resolve_quota user app d).0 ≡ most_specific user app d.tables.quotas
resolve_quota-most_specific user app d fine = (resolved user app d fine).0

-- No limit of the quota that is set is passed.
abbrev pub Within : Quota → Usage → Type 0
Within q u =
    (exceeds (pos u.running_jobs) q.max_jobs ≡ false)
    × (exceeds (pos u.running_jobs) q.max_concurrent ≡ false)
    × (exceeds u.used_cores q.max_cores ≡ false)
    × (exceeds u.used_ram q.max_ram_mb ≡ false)

+ℤ_comm : (a b : ℤ) → a +ℤ b ≡ b +ℤ a
unfolding ◌+ℤ◌
+ℤ_comm a b = ground arith

-- The four tests, on numbers of any size.
abbrev over_limit_exact : Quota → Usage → Bool
over_limit_exact q u =
    exceeds (pos u.running_jobs) q.max_jobs
    || exceeds (pos u.running_jobs) q.max_concurrent
    || exceeds u.used_cores q.max_cores
    || exceeds u.used_ram q.max_ram_mb

-- An `int` holds the number.
abbrev pub FitsInt : ℤ → Type 0
FitsInt (pos n) = n < 2147483648
FitsInt (negsuc n) = n < 2147483648

abbrev pub FitsInts : Usage → Type 0
FitsInts u = (u.running_jobs < 2147483648) × FitsInt u.used_cores × FitsInt u.used_ram

as_int-fits : (z : ℤ) → FitsInt z → as_int z ≡ z
unfolding as_int
as_int-fits (pos n) h =
    let low : n % 4294967296 ≡ n = omega arith in
    let small : ltb n 2147483648 ≡ true = ground arith in rw (low, small) refl
as_int-fits (negsuc n) h =
    let low : n % 4294967296 ≡ n = omega arith in
    let small : ltb n 2147483648 ≡ true = ground arith in rw (low, small) refl

next_int : (n : ℕ) → pos n +ℤ pos 1 ≡ pos (suc n)
unfolding ◌+ℤ◌
next_int n = ground arith

under_limit :
    (q : Quota) (u : Usage) (j : Job)
    → FitsInts u
    → FitsInts (with_job j u)
    → over_limit q u j.req_cores j.req_ram_mb ≡ false
    → Within q (with_job j u)
unfolding over_limit
under_limit q u j (few, cores, ram) (few', cores', ram') h =
    let more : over_limit_exact q (with_job j u) ≡ false =
      rw
        (
          as_int-fits (pos u.running_jobs) few,
          next_int u.running_jobs,
          as_int-fits (pos (suc u.running_jobs)) few',
          as_int-fits u.used_cores cores,
          as_int-fits u.used_ram ram,
          +ℤ_comm u.used_cores j.req_cores,
          +ℤ_comm u.used_ram j.req_ram_mb,
          as_int-fits (j.req_cores +ℤ u.used_cores) cores',
          as_int-fits (j.req_ram_mb +ℤ u.used_ram) ram',
        )
        at h in
    ground arith

checked :
    (user app : CText) (c m : ℤ) (d : Db) (q : Quota) (r : Option Quota × Db)
    → NoFailure d
    → r.0 ≡ some q
    → SameBut d r.1
    → (check_resolved user app c m r).0 ≡ not (over_limit q (usage_of user app d.tables.jobs) c m)
checked user app c m d q (none, e) fine found same = cc
checked user app c m d q (some p, e) fine found (tables, fate) =
    let same : p ≡ q = cc in
    rw (fate, fine e.statements, fine (suc e.statements), tables, same) refl

usage_with :
    (user app : CText) (j : Job) (js : List Job)
    → is_counted user app j ≡ true
    → usage_of user app (j ∷ js) ≡ with_job j (usage_of user app js)
unfolding usage_of
usage_with user app j js h = rw h refl

-- Where no query fails, a quota applies, and the numbers of jobs, cores and MB fit an `int` with the job and
-- without: if the check lets a job run, then the running jobs that have both its user and its application,
-- with this one among them, pass none of the quota's limits.
pub db_quota_check-Within :
    (user app : CText) (j : Job) (d : Db) (q : Quota)
    → NoFailure d
    → most_specific user app d.tables.quotas ≡ some q
    → is_counted user app j ≡ true
    → FitsInts (usage_of user app d.tables.jobs)
    → FitsInts (usage_of user app (j ∷ d.tables.jobs))
    → (db_quota_check user app j.req_cores j.req_ram_mb d).0 ≡ true
    → Within q (usage_of user app (j ∷ d.tables.jobs))
unfolding db_quota_check
db_quota_check-Within user app j d q fine applies counts before after allowed =
    let (found, same) = resolved user app d fine in
    let verdict =
      checked user app j.req_cores j.req_ram_mb d q (resolve_quota user app d) fine
        (found ∙ applies) same in
    rw (usage_with user app j d.tables.jobs counts) (
      under_limit q (usage_of user app d.tables.jobs) j before
        (rw (usage_with user app j d.tables.jobs counts) at after)
        (not_true (sym verdict ∙ allowed)))
  where
    not_true : {b : Bool} → not b ≡ true → b ≡ false
    not_true h = ground arith

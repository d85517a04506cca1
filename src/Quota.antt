-- ===== src/Quota.antt =====
-- src/persistence/db.c: the limits on what a user and an application may run at once.
-- The sums of SQLite are read as `int` (`sqlite3_column_int` keeps the low 32 bits). An addition that
-- overflows is undefined in C; here it wraps, and the theorem on the limits asks for sums that fit.
pub mod Limits
pub mod Edit
mod Tests
use bhc_scheduler.Common.{
  ℕ, suc, ◌-◌, ◌%◌, ltb, Bool, true, false, ◌&&◌, ◌||◌, not, Option, none, some, List, [], ◌∷◌,
  if◌then◌else◌,
}
use bhc_scheduler.Common.Int.{ℤ, pos, negsuc, ltb_ℤ, ◌+ℤ◌}
use bhc_scheduler.Common.Text.{CText, str_same, has_text}
use bhc_scheduler.Job.{Job, is_under_way}
use bhc_scheduler.Db.{Db, Quota, fate_of, counted}

-- `WHERE user_id=? AND app_id=?`
unfoldable pub find_quota : CText → CText → List Quota → Option Quota
find_quota user app [] = none
find_quota user app (q ∷ qs) =
    let later = find_quota user app qs in
    if str_same q.user_id user && str_same q.app_id app then some q else later

-- `db_get_quota`: the result 0 is `some`.
unfoldable pub db_get_quota : CText → CText → Db → Option Quota × Db
unfolding find_quota
db_get_quota user app d =
    (if fate_of d then find_quota user app d.tables.quotas else none, counted d)

-- One of the attempts of `resolve_quota`: it is made if `asked` holds and no earlier one succeeded.
unfoldable pub attempt : Bool → CText → CText → Option Quota × Db → Option Quota × Db
attempt asked user app (some q, d) = (some q, d)
attempt asked user app (none, d) = if asked then db_get_quota user app d else (none, d)

-- `resolve_quota`: user and application, then the user, then the application, then the default.
unfoldable pub resolve_quota : CText → CText → Db → Option Quota × Db
unfolding attempt
resolve_quota user app d =
    let exact = attempt (has_text user && has_text app) user app (none, d) in
    let of_user = attempt (has_text user) user [] exact in
    let of_app = attempt (has_text app) [] app of_user in attempt true [] [] of_app

-- `status IN (1,2) AND (? = '' OR user_id = ?) AND (? = '' OR app_id = ?)`
unfoldable pub is_counted : CText → CText → Job → Bool
is_counted user app j =
    is_under_way j.status
    && (not (has_text user) || str_same j.user_id user)
    && (not (has_text app) || str_same j.app_id app)

-- The row that the query gives.
pub record Usage : Type 0 where
  pub running_jobs : ℕ
  pub used_cores : ℤ
  pub used_ram : ℤ

abbrev pub no_usage : Usage
no_usage = record { running_jobs = 0; used_cores = pos 0; used_ram = pos 0 }

abbrev pub with_job : Job → Usage → Usage
with_job j u = record {
  running_jobs = suc u.running_jobs;
  used_cores = j.req_cores +ℤ u.used_cores;
  used_ram = j.req_ram_mb +ℤ u.used_ram;
}

unfoldable pub usage_of : CText → CText → List Job → Usage
unfolding is_counted
usage_of user app [] = no_usage
usage_of user app (j ∷ js) =
    let rest = usage_of user app js in if is_counted user app j then with_job j rest else rest

-- What `sqlite3_column_int` makes of a number.
unfoldable pub as_int : ℤ → ℤ
as_int (pos n) =
    let low = n % 4294967296 in if ltb low 2147483648 then pos low else negsuc (4294967295 - low)
as_int (negsuc n) =
    let low = n % 4294967296 in if ltb low 2147483648 then negsuc low else pos (4294967295 - low)

-- `max > 0 && used > max`
abbrev pub exceeds : ℤ → ℤ → Bool
exceeds used max = ltb_ℤ (pos 0) max && ltb_ℤ max used

-- The four tests; `true` is the result -1.
unfoldable pub over_limit : Quota → Usage → ℤ → ℤ → Bool
unfolding as_int
over_limit q u req_cores req_ram_mb =
    let jobs = as_int (as_int (pos u.running_jobs) +ℤ pos 1) in
    let cores = as_int (as_int u.used_cores +ℤ req_cores) in
    let ram = as_int (as_int u.used_ram +ℤ req_ram_mb) in
    exceeds jobs q.max_jobs
    || exceeds jobs q.max_concurrent
    || exceeds cores q.max_cores
    || exceeds ram q.max_ram_mb

abbrev pub check_resolved : CText → CText → ℤ → ℤ → Option Quota × Db → Bool × Db
check_resolved user app req_cores req_ram_mb (none, d) = (true, d)
check_resolved user app req_cores req_ram_mb (some q, d) =
    let prepared = fate_of d in
    let u = if fate_of (counted d) then usage_of user app d.tables.jobs else no_usage in
    if prepared
    then (not (over_limit q u req_cores req_ram_mb), counted (counted d))
    else (true, counted d)

-- `db_quota_check`: `true` is the result 0, the job may run. A query that cannot be prepared allows it,
-- and one that cannot be executed counts nothing.
unfoldable pub db_quota_check : CText → CText → ℤ → ℤ → Db → Bool × Db
unfolding resolve_quota usage_of over_limit
db_quota_check user app req_cores req_ram_mb d =
    check_resolved user app req_cores req_ram_mb (resolve_quota user app d)

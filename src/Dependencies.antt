-- ===== src/Dependencies.antt =====
-- src/persistence/db.c: `db_check_deps_status`, by which a held job waits for the jobs it depends on.
-- A query has two steps that can fail, its preparation and its execution; each asks the database's
-- `fate`.
pub mod Verdict
mod Tests
use bhc_scheduler.Common.{
  ℕ, suc, ◌+◌, Bool, true, false, ◌||◌, Option, none, some, List, [], ◌∷◌, ◌++◌, ◌==◌,
  if◌then◌else◌,
}
use bhc_scheduler.Common.Text.{CText, copy_field, is_empty}
use bhc_scheduler.Job.{JobStatus, Job, succeeded, failed, cancelled, same_status}
use bhc_scheduler.Db.{Db, fate_of, counted, find_job}

-- The results 0, 1 and -1.
pub data Readiness : Type 0 where
  ready waiting broken : Readiness

-- A token ends: `strtok` gives out no empty ones.
abbrev pub close_token : CText → List CText → List CText
close_token [] later = later
close_token (c ∷ cs) later = (c ∷ cs) ∷ later

-- `strtok(buf, ",")` until it returns NULL; `current` is the token that is being read.
unfoldable pub tokens : CText → CText → List CText
tokens current [] = close_token current []
tokens current (c ∷ cs) = elim (c == b',') [
  | true ↦ close_token current (tokens [] cs)
  | false ↦ tokens (current ++ c ∷ []) cs
]

-- `while (*tok == ' ') tok++;`
unfoldable pub skip_spaces : CText → CText
skip_spaces [] = []
skip_spaces (c ∷ cs) = let rest = skip_spaces cs in if c == b' ' then rest else c ∷ cs

-- `while (tlen > 0 && tok[tlen-1] == ' ') tok[--tlen] = '\0';`
unfoldable pub cut_spaces : CText → CText
cut_spaces [] = []
cut_spaces (c ∷ cs) =
    let rest = cut_spaces cs in
    if c == b' ' then (if is_empty rest then [] else c ∷ rest) else c ∷ rest

unfoldable pub trimmed : CText → CText
unfolding skip_spaces cut_spaces
trimmed t = cut_spaces (skip_spaces t)

abbrev pub status_in : Option Job → Option JobStatus
status_in none = none
status_in (some j) = some j.status

-- `SELECT status FROM jobs WHERE id=?`: `none` if it cannot be prepared; no status if it cannot be
-- executed, or there is no row.
unfoldable pub query_status : CText → Db → Option (Option JobStatus) × Db
query_status id d =
    if fate_of d
    then (
      some (if fate_of (counted d) then status_in (find_job id d.tables.jobs) else none),
      counted (counted d),
    )
    else (none, counted d)

-- What one dependency settles; `none` goes on to the next.
unfoldable pub judge : Option (Option JobStatus) → Option Readiness
judge none = some waiting
judge (some none) = some broken
judge (some (some s)) =
    if same_status s failed || same_status s cancelled
    then some broken
    else if same_status s succeeded
    then none
    else some waiting

abbrev pub settle : Option Readiness → Db → Readiness × Db → Readiness × Db
settle none d rest = rest
settle (some r) d rest = (r, d)

-- The loop over the tokens.
unfoldable pub check_tokens : List CText → Db → Readiness × Db
check_tokens [] d = (ready, d)
check_tokens (t ∷ ts) d =
    let asked = query_status (trimmed t) d in
    let skipped = check_tokens ts d in
    let rest = check_tokens ts asked.1 in
    if is_empty (trimmed t) then skipped else settle (judge asked.0) asked.1 rest

-- `db_check_deps_status`
unfoldable pub db_check_deps_status : CText → Db → Readiness × Db
unfolding tokens
db_check_deps_status depends_on d = check_tokens (tokens [] (copy_field 2048 depends_on)) d

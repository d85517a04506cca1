-- ===== src/Quota/Edit.antt =====
-- The statements of src/persistence/db.c that edit the table of quotas; (user_id, app_id) is its key.
use bhc_scheduler.Common.{
  ◌≡◌, refl, inl, inr, Bool, true, false, ◌&&◌, Option, none, some, List, [], ◌∷◌, ◌++◌, arith,
  Bool-cases, if◌then◌else◌,
}
use bhc_scheduler.Common.Text.{CText, str_same, str_same_refl}
use bhc_scheduler.Common.Rc.{Rc, ok, error}
use bhc_scheduler.Db.{Db, Tables, Quota, counted, execute, is_none}
use bhc_scheduler.Quota.{find_quota}

abbrev pub on_quotas : (List Quota → List Quota) → Tables → Tables
on_quotas f t = record t { quotas = f t.quotas }

-- `WHERE user_id=? AND app_id=?`
abbrev pub has_key : CText → CText → Quota → Bool
has_key user app q = str_same q.user_id user && str_same q.app_id app

-- `db_insert_quota`: the primary key refuses a second quota for the same user and application.
unfoldable pub db_insert_quota : Quota → Db → Rc × Db
unfolding execute
db_insert_quota q d =
    if is_none (find_quota q.user_id q.app_id d.tables.quotas)
    then execute (on_quotas (λ qs. qs ++ q ∷ [])) d
    else (error, counted d)

unfoldable pub replace_quota : Quota → List Quota → List Quota
replace_quota new [] = []
replace_quota new (q ∷ qs) =
    (if has_key new.user_id new.app_id q then new else q) ∷ replace_quota new qs

unfoldable pub without_quota : CText → CText → List Quota → List Quota
without_quota user app [] = []
without_quota user app (q ∷ qs) =
    let rest = without_quota user app qs in if has_key user app q then rest else q ∷ rest

-- The result 0 needs a row that was changed: `sqlite3_changes(s_db) > 0`.
abbrev pub if_changed : Bool → Rc × Db → Rc × Db
if_changed found (ok, d) = (if found then ok else error, d)
if_changed found (_, d) = (error, d)

abbrev pub is_found : Option Quota → Bool
is_found none = false
is_found (some _) = true

-- `db_update_quota`
unfoldable pub db_update_quota : Quota → Db → Rc × Db
db_update_quota q d =
    if_changed (is_found (find_quota q.user_id q.app_id d.tables.quotas))
      (execute (on_quotas (replace_quota q)) d)

-- `db_delete_quota`
unfoldable pub db_delete_quota : CText → CText → Db → Rc × Db
db_delete_quota user app d =
    if_changed (is_found (find_quota user app d.tables.quotas))
      (execute (on_quotas (without_quota user app)) d)

executed :
    (f : Tables → Tables) (d : Db) (found : Bool)
    → (if_changed found (execute f d)).0 ≡ ok
    → (found ≡ true) × ((if_changed found (execute f d)).1.tables ≡ f d.tables)
unfolding execute
executed f d found h = ground arith

find-replaced :
    (new : Quota) (qs : List Quota)
    → is_found (find_quota new.user_id new.app_id qs) ≡ true
    → find_quota new.user_id new.app_id (replace_quota new qs) ≡ some new
unfolding find_quota replace_quota
find-replaced new [] h = cc
find-replaced new (q ∷ qs) h = elim (Bool-cases (has_key new.user_id new.app_id q)) [
  | inl e ↦ rw (e, str_same_refl new.user_id, str_same_refl new.app_id) refl
  | inr e ↦ rw e (rw e (find-replaced new qs (rw e at h)))
]

find-without :
    (user app : CText) (qs : List Quota) → find_quota user app (without_quota user app qs) ≡ none
unfolding find_quota without_quota
find-without user app [] = refl
find-without user app (q ∷ qs) = elim (Bool-cases (has_key user app q)) [
  | inl e ↦ rw e (find-without user app qs)
  | inr e ↦ rw e (rw e (find-without user app qs))
]

-- When `db_update_quota` succeeds, the quota is the one found under its user and its application.
pub db_update_quota-find :
    (q : Quota) (d : Db)
    → (db_update_quota q d).0 ≡ ok
    → find_quota q.user_id q.app_id (db_update_quota q d).1.tables.quotas ≡ some q
unfolding db_update_quota
db_update_quota-find q d h =
    let (found, e) =
      executed (on_quotas (replace_quota q)) d
        (is_found (find_quota q.user_id q.app_id d.tables.quotas)) h in
    rw e (find-replaced q d.tables.quotas found)

-- When `db_delete_quota` succeeds, no quota is found for the user and the application.
pub db_delete_quota-find :
    (user app : CText) (d : Db)
    → (db_delete_quota user app d).0 ≡ ok
    → find_quota user app (db_delete_quota user app d).1.tables.quotas ≡ none
unfolding db_delete_quota
db_delete_quota-find user app d h =
    let (found, e) =
      executed (on_quotas (without_quota user app)) d
        (is_found (find_quota user app d.tables.quotas)) h in
    rw e (find-without user app d.tables.quotas)

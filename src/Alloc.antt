-- ===== src/Alloc.antt =====
-- src/resources/allocator.c: which machine a job gets, and the record of what it holds there.
-- `AllocSystem` is what the functions share: the registry, the allocator's own table, and the
-- database. The allocator's lock is held throughout each function.
pub mod Fit
pub mod Books
pub mod Records
pub mod Machines
pub mod Balance
pub mod Multi
pub mod Diagnosis
pub mod Spread
pub mod History
pub mod Rollback
mod Tests
use bhc_scheduler.Common.{
  ℕ, zero, suc, ◌+◌, ◌-◌, ◌*◌, Bool, true, false, ◌&&◌, not, Option, none, some, List, [], ◌∷◌,
  ◌++◌, ltb, leb, ◌==◌, if◌then◌else◌, length, set, get_or,
}
use bhc_scheduler.Common.Int.{ℤ, pos, negsuc, ltb_ℤ}
use bhc_scheduler.Common.Text.{CText, str_same, copy_field}
use bhc_scheduler.Common.Rc.{Rc, ok, error, conflict}
use bhc_scheduler.Registry.{
  Machine, Demand, is_online, registry_snapshot, registry_get_copy, registry_reserve,
  registry_release,
}
use bhc_scheduler.Db.{
  Db, db_begin, db_commit, db_rollback, db_insert_allocation, db_release_allocation,
}

pub record AllocSlot : Type 0 where
  pub machine_id : CText
  pub demand : Demand

-- `n_slots` is the length of `slots`.
pub record AllocRecord : Type 0 where
  pub job_id : CText
  pub slots : List AllocSlot
  pub active : Bool

-- A record after `memset`.
abbrev pub zeroed_record : AllocRecord
zeroed_record = record { job_id = []; slots = []; active = false }

-- `allocs` holds the `s_alloc_count` records in use; `memory` says whether the next allocations of
-- memory succeed.
pub record AllocSystem : Type 0 where
  pub machines : List Machine
  pub allocs : List AllocRecord
  pub capacity : ℕ
  pub db : Db
  pub memory : Bool

-- `non_negative(total - reserved - min)` on amounts that are not negative: subtraction that stops at 0.
unfoldable pub free_cores : Machine → ℕ
free_cores m = m.cores_total - m.cores_reserved - m.cores_min

unfoldable pub free_gpu : Machine → ℕ
free_gpu m = m.gpu_count_total - m.gpu_count_reserved

unfoldable pub free_ram : Machine → ℕ
free_ram m = m.ram_mb_total - m.ram_mb_reserved - m.ram_mb_min

unfoldable pub free_disk : Machine → ℕ
free_disk m = m.disk_mb_total - m.disk_mb_reserved - m.disk_mb_min

-- `free >= amount`
abbrev pub covers : ℕ → ℤ → Bool
covers free (pos n) = leb n free
covers free (negsuc n) = true

unfoldable pub machine_can_fit : Machine → Demand → Bool
unfolding free_cores free_gpu free_ram free_disk
machine_can_fit m d =
    m.enabled
    && is_online m.probe_status
    && covers (free_cores m) d.cores
    && covers (free_gpu m) d.gpu
    && covers (free_ram m) d.ram_mb
    && covers (free_disk m) d.disk_mb

-- The machines that a loop over a snapshot sees: none where the snapshot failed.
abbrev pub seen : Option (List Machine) → List Machine
seen none = []
seen (some ms) = ms

-- The first machine of the snapshot that fits.
unfoldable pub first_fit : Demand → List Machine → Option Machine
first_fit d [] = none
first_fit d (m ∷ ms) = if machine_can_fit m d then some m else first_fit d ms

abbrev pub is_some {ℓ} : {A : Type ℓ} → Option A → Bool
is_some none = false
is_some (some _) = true

-- `alloc_can_fit`
unfoldable pub alloc_can_fit : Demand → AllocSystem → Bool
alloc_can_fit d s = is_some (first_fit d (seen (registry_snapshot s.memory s.machines)))

-- `s_allocs[i].active && strcmp(s_allocs[i].job_id, job_id) == 0`
abbrev pub holds_job : CText → AllocRecord → Bool
holds_job job_id r = r.active && str_same r.job_id job_id

unfoldable pub has_active : CText → List AllocRecord → Bool
has_active job_id [] = false
has_active job_id (r ∷ rs) = elim (holds_job job_id r) [
  | true ↦ true
  | false ↦ has_active job_id rs
]

abbrev pub fresh_record : CText → AllocRecord
fresh_record job_id = record { job_id = copy_field 37 job_id; slots = []; active = true }

-- The first inactive record, taken for the job.
unfoldable pub reuse : CText → List AllocRecord → ℕ → Option (ℕ × List AllocRecord)
reuse job_id [] i = none
reuse job_id (r ∷ rs) i =
    let later = reuse job_id rs (suc i) in
    if not r.active
    then some (i, fresh_record job_id ∷ rs)
    else elim later [ none ↦ none | some (at, rest) ↦ some (at, r ∷ rest) ]

abbrev pub extended : CText → AllocSystem → ℕ → ℕ × AllocSystem
extended job_id s capacity = (
  length s.allocs,
  record s { allocs = s.allocs ++ fresh_record job_id ∷ []; capacity = capacity },
)

-- A record at the end of the table, which doubles when it is full.
abbrev pub grow : CText → AllocSystem → Option (ℕ × AllocSystem)
grow job_id s =
    if length s.allocs == s.capacity
    then (if s.memory
        then some (extended job_id s (if s.capacity == 0 then 64 else s.capacity * 2))
        else none)
    else some (extended job_id s s.capacity)

abbrev pub reuse_or_grow :
    CText → AllocSystem → Option (ℕ × List AllocRecord) → Option (ℕ × AllocSystem)
reuse_or_grow job_id s (some (i, allocs)) = some (i, record s { allocs = allocs })
reuse_or_grow job_id s none = grow job_id s

-- `alloc_record_acquire`: the index of the record, for the pointer that the C function returns.
unfoldable pub alloc_record_acquire : CText → AllocSystem → Option (ℕ × AllocSystem)
unfolding has_active reuse
alloc_record_acquire job_id s =
    if has_active job_id s.allocs then none else reuse_or_grow job_id s (reuse job_id s.allocs 0)

-- The inserts of `persist_record`; `none` after one that failed.
unfoldable pub persist_slots : CText → List AllocSlot → Db → Rc × Db
persist_slots job_id [] d = (ok, d)
persist_slots job_id (slot ∷ slots) d =
    let first =
      db_insert_allocation job_id slot.machine_id slot.demand.cores slot.demand.gpu
        slot.demand.ram_mb slot.demand.disk_mb d in
    let rest = persist_slots job_id slots first.1 in elim first.0 [ ok ↦ rest | _ ↦ first ]

abbrev pub commit_or_roll_back : Rc × Db → Rc × Db
commit_or_roll_back (ok, d) = db_commit d
commit_or_roll_back (_, d) = (error, (db_rollback d).1)

abbrev pub persist_begun : AllocRecord → Rc × Db → Rc × Db
persist_begun r (ok, d) = commit_or_roll_back (persist_slots r.job_id r.slots d)
persist_begun r (_, d) = (error, d)

-- `persist_record`
unfoldable pub persist_record : AllocRecord → Db → Rc × Db
persist_record r d = persist_begun r (db_begin d)

-- `apply_slot(slot, -1)` for each slot of a record.
unfoldable pub release_slots : List AllocSlot → List Machine → List Machine
release_slots [] ms = ms
release_slots (slot ∷ slots) ms =
    release_slots slots (registry_release slot.machine_id slot.demand ms).1

-- `discard_record` on the record at index `i`.
unfoldable pub discard_record : ℕ → AllocRecord → AllocSystem → AllocSystem
discard_record i r s = record s {
  machines = release_slots r.slots s.machines;
  allocs = set s.allocs i zeroed_record;
}

abbrev pub filled_record : CText → CText → Demand → AllocRecord
filled_record job_id machine_id d = record {
  job_id = copy_field 37 job_id;
  slots = record { machine_id = copy_field 64 machine_id; demand = d } ∷ [];
  active = true;
}

-- `reserve_single` once the record is acquired and the registry has answered.
unfoldable pub record_booked : ℕ → AllocRecord → AllocSystem → Rc × List Machine → Rc × AllocSystem
unfolding discard_record
record_booked i r s (ok, machines) =
    let held = record s { machines = machines; allocs = set s.allocs i r } in
    let saved = persist_record r s.db in
    elim saved.0 [
      | ok ↦ (ok, record held { db = saved.1 })
      | _ ↦ (error, discard_record i r (record held { db = saved.1 }))
    ]
record_booked i r s (_, machines) = (error, record s { allocs = set s.allocs i zeroed_record })

abbrev pub reserve_acquired :
    CText → CText → Demand → AllocSystem → Option (ℕ × AllocSystem) → Rc × AllocSystem
reserve_acquired job_id machine_id d s none = (error, s)
reserve_acquired job_id machine_id d s (some (i, t)) =
    record_booked i (filled_record job_id machine_id d) t
      (registry_reserve (copy_field 64 machine_id) d t.machines)

-- `reserve_single`
unfoldable pub reserve_single : CText → CText → Demand → AllocSystem → Rc × AllocSystem
reserve_single job_id machine_id d s =
    reserve_acquired job_id machine_id d s (alloc_record_acquire job_id s)

abbrev pub reserve_chosen :
    CText → Demand → AllocSystem → Option Machine → Rc × Option CText × AllocSystem
reserve_chosen job_id d s none = (error, none, s)
reserve_chosen job_id d s (some m) =
    let r = reserve_single job_id m.id d s in
    (r.0, elim r.0 [ ok ↦ some (copy_field 64 m.id) | _ ↦ none ], r.1)

-- `alloc_reserve`: the result, and the machine id that is written out on success.
unfoldable pub alloc_reserve : CText → Demand → AllocSystem → Rc × Option CText × AllocSystem
alloc_reserve job_id d s =
    if ltb_ℤ (pos 0) d.cores
    then reserve_chosen job_id d s (first_fit d (seen (registry_snapshot s.memory s.machines)))
    else (error, none, s)

abbrev pub reserve_target : CText → Demand → AllocSystem → Option Machine → Rc × AllocSystem
reserve_target job_id d s none = (error, s)
reserve_target job_id d s (some m) =
    if machine_can_fit m d then reserve_single job_id m.id d s else (error, s)

-- `alloc_reserve_on`
unfoldable pub alloc_reserve_on : CText → CText → Demand → AllocSystem → Rc × AllocSystem
alloc_reserve_on job_id target d s =
    if ltb_ℤ (pos 0) d.cores
    then reserve_target job_id d s (registry_get_copy target s.machines)
    else (error, s)

-- The first active record of the job, with its index.
unfoldable pub find_record : CText → List AllocRecord → ℕ → Option (ℕ × AllocRecord)
find_record job_id [] i = none
find_record job_id (r ∷ rs) i =
    let later = find_record job_id rs (suc i) in if holds_job job_id r then some (i, r) else later

abbrev pub release_found : AllocSystem → Option (ℕ × AllocRecord) → ℕ × AllocSystem
release_found s none = (0, s)
release_found s (some (i, r)) = (length r.slots, discard_record i r s)

-- `alloc_release`
unfoldable pub alloc_release : CText → AllocSystem → Rc × AllocSystem
alloc_release job_id s =
    let freed = release_found s (find_record job_id s.allocs 0) in
    let saved = db_release_allocation job_id freed.1.db in
    (if ltb 0 freed.0 then ok else saved.0, record (freed.1) { db = saved.1 })

-- `alloc_shutdown`
unfoldable pub alloc_shutdown : AllocSystem → AllocSystem
alloc_shutdown s = record s { allocs = []; capacity = 0 }

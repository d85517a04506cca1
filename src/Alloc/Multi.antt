-- ===== src/Alloc/Multi.antt =====
-- src/resources/allocator.c: reservation of one job over several machines.
use bhc_scheduler.Common.{
  ℕ, zero, suc, ◌-◌, ◌/◌, Bool, true, ◌&&◌, ◌||◌, not, Option, none, some, List, [], ◌∷◌, ◌++◌, ltb,
  ◌==◌, if◌then◌else◌, length, set,
}
use bhc_scheduler.Common.Int.{ℤ, pos, negsuc, pos_part, ltb_ℤ, ◌+ℤ◌}
use bhc_scheduler.Common.Text.{CText, copy_field}
use bhc_scheduler.Common.Rc.{Rc, ok, error}
use bhc_scheduler.Registry.{
  Machine, Demand, is_online, registry_snapshot, registry_get_copy, registry_reserve,
}
use bhc_scheduler.Db.{db_release_allocation}
use bhc_scheduler.Alloc.{
  AllocSlot, AllocRecord, AllocSystem, zeroed_record, free_cores, free_ram, free_disk, covers,
  alloc_record_acquire, persist_record, release_slots, discard_record,
}

-- `ALLOC_MAX_MACHINES_PER_JOB`
abbrev pub max_slots : ℕ
max_slots = 16

abbrev pub minus : ℕ → ℤ
minus zero = pos 0
minus (suc n) = negsuc n

-- C's division of an `int` by a positive one rounds towards 0.
abbrev pub quotient : ℤ → ℕ → ℤ
quotient (pos a) n = pos (a / n)
quotient (negsuc a) n = minus (suc a / n)

-- `(amount + n - 1) / n`
unfoldable pub share : ℤ → ℕ → ℤ
share amount n = quotient (amount +ℤ pos (n - 1)) n

abbrev pub usable : Machine → Bool
usable m = m.enabled && is_online m.probe_status && ltb 0 (free_cores m)

abbrev pub smaller : ℕ → ℕ → ℕ
smaller a b = if ltb a b then a else b

abbrev pub core_slot : Machine → ℕ → AllocSlot
core_slot m cores = record {
  machine_id = copy_field 64 m.id;
  demand = record { cores = pos cores; gpu = pos 0; ram_mb = pos 0; disk_mb = pos 0 };
}

-- The loop that spreads the cores: `room` slots are left, and `remaining` cores.
unfoldable pub spread : ℕ → ℕ → List Machine → List AllocSlot × ℕ
spread room remaining [] = ([], remaining)
spread room remaining (m ∷ ms) =
    let cores = smaller (free_cores m) remaining in
    let skipped = spread room remaining ms in
    let rest = spread (room - 1) (remaining - cores) ms in
    if ltb 0 room && ltb 0 remaining
    then (if usable m then (core_slot m cores ∷ rest.0, rest.1) else skipped)
    else ([], remaining)

-- The memory and disk of one slot, where its machine has them free.
abbrev pub filled_slot : ℤ → ℤ → List Machine → AllocSlot → Option AllocSlot
filled_slot ram disk ms slot = elim (registry_get_copy slot.machine_id ms) [
  | none ↦ none
  | some m ↦
      if covers (free_ram m) ram && covers (free_disk m) disk
      then some (record {
        machine_id = slot.machine_id;
        demand = record {
          cores = slot.demand.cores;
          gpu = slot.demand.gpu;
          ram_mb = ram;
          disk_mb = disk;
        };
      })
      else none
]

abbrev pub cons_slot : Option AllocSlot → Option (List AllocSlot) → Option (List AllocSlot)
cons_slot (some slot) (some slots) = some (slot ∷ slots)
cons_slot _ _ = none

-- The second loop; `none` where a machine has not enough.
unfoldable pub fill_slots : ℤ → ℤ → List Machine → List AllocSlot → Option (List AllocSlot)
fill_slots ram disk ms [] = some []
fill_slots ram disk ms (slot ∷ slots) =
    cons_slot (filled_slot ram disk ms slot) (fill_slots ram disk ms slots)

-- The third loop: each slot is booked; after one that is refused, those that were are given back.
unfoldable pub apply_slots : List AllocSlot → List AllocSlot → List Machine → Rc × List Machine
apply_slots applied [] ms = (ok, ms)
apply_slots applied (slot ∷ slots) ms =
    let booked = registry_reserve slot.machine_id slot.demand ms in
    let rest = apply_slots (applied ++ slot ∷ []) slots booked.1 in
    let undone = release_slots applied booked.1 in elim booked.0 [ ok ↦ rest | _ ↦ (error, undone) ]

-- The identifiers, with commas between them.
abbrev pub joined : List AllocSlot → CText
joined [] = []
joined (slot ∷ []) = slot.machine_id
joined (slot ∷ next ∷ slots) = slot.machine_id ++ b',' ∷ joined (next ∷ slots)

abbrev pub MultiResult : Type 0
MultiResult = Rc × CText × ℕ × AllocSystem

abbrev pub refused : AllocSystem → MultiResult
refused s = (error, [], 0, s)

-- The record at index `i` is zeroed.
abbrev pub cleared : ℕ → AllocSystem → AllocSystem
cleared i s = record s { allocs = set s.allocs i zeroed_record }

-- The identifiers are written to 1024 bytes; where they do not fit, everything is given back.
unfoldable pub report : CText → ℕ → AllocRecord → AllocSystem → MultiResult
report job_id i r s =
    let freed = discard_record i r s in
    if ltb (length (joined r.slots)) 1024
    then (ok, joined r.slots, length r.slots, s)
    else refused (record freed { db = (db_release_allocation job_id freed.db).1 })

-- What follows the third loop.
unfoldable pub multi_booked :
    CText → ℕ → AllocRecord → AllocSystem → Rc × List Machine → MultiResult
multi_booked job_id i r s (ok, machines) =
    let saved = persist_record r s.db in
    let t = record s { machines = machines; allocs = set s.allocs i r; db = saved.1 } in
    elim saved.0 [ ok ↦ report job_id i r t | _ ↦ refused (discard_record i r t) ]
multi_booked job_id i r s (_, machines) = refused (cleared i (record s { machines = machines }))

abbrev pub job_record : CText → List AllocSlot → AllocRecord
job_record job_id slots = record { job_id = copy_field 37 job_id; slots = slots; active = true }

abbrev pub multi_filled : CText → ℕ → AllocSystem → Option (List AllocSlot) → MultiResult
multi_filled job_id i s none = refused (cleared i s)
multi_filled job_id i s (some slots) =
    multi_booked job_id i (job_record job_id slots) s (apply_slots [] slots s.machines)

abbrev pub multi_spread :
    CText → ℤ → ℤ → ℕ → AllocSystem → List Machine → List AllocSlot × ℕ → MultiResult
multi_spread job_id ram disk i s ms (slots, remaining) =
    let n = length slots in
    if ltb 0 remaining || n == 0
    then refused (cleared i s)
    else multi_filled job_id i s (fill_slots (share ram n) (share disk n) ms slots)

abbrev pub multi_acquired :
    CText → Demand → Option (List Machine) → AllocSystem → Option (ℕ × AllocSystem) → MultiResult
multi_acquired job_id d snapshot s none = refused s
multi_acquired job_id d none s (some (i, t)) = refused (cleared i t)
multi_acquired job_id d (some ms) s (some (i, t)) =
    multi_spread job_id d.ram_mb d.disk_mb i t ms (spread max_slots (pos_part d.cores) ms)

-- `alloc_reserve_multi`: the result, the identifiers and the number of machines that are written out.
unfoldable pub alloc_reserve_multi : CText → Demand → AllocSystem → MultiResult
alloc_reserve_multi job_id d s =
    if ltb_ℤ (pos 0) d.gpu || not (ltb_ℤ (pos 0) d.cores)
    then refused s
    else multi_acquired job_id d (registry_snapshot s.memory s.machines) s
        (alloc_record_acquire job_id s)

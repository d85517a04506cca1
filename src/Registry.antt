-- ===== src/Registry.antt =====
-- src/resources/registry.c: the table of machines and what is reserved on each.
-- The four amounts that the C functions pass side by side are one `Demand`. The amounts of a stored
-- machine are never negative (`registry_upsert` checks the totals and minimums, and
-- `registry_release` cuts the reserved ones at 0), so they are natural numbers; arguments are `int`.
-- Each function holds the registry's lock throughout.
pub mod Changes
pub mod Booking
pub mod Invariant
pub mod Upsert
pub mod Removal
pub mod Calls
pub mod Samples
mod Tests
use bhc_scheduler.Common.{
  ℕ, zero, suc, ◌+◌, ◌-◌, Bool, true, false, ◌&&◌, ◌||◌, not, Option, none, some, List, [], ◌∷◌,
  ◌++◌, ltb, leb, ◌==◌, if◌then◌else◌, length, set, take, get_or,
}
use bhc_scheduler.Common.Int.{ℤ, pos, negsuc, pos_part, ltb_ℤ}
use bhc_scheduler.Common.Text.{CText, str_same}
use bhc_scheduler.Common.Rc.{Rc, ok, error, conflict}

pub data MachineStatus : Type 0 where
  online offline probing : MachineStatus

pub data MachineType : Type 0 where
  static cloud : MachineType

pub record Machine : Type 0 where
  pub id : CText
  pub hostname : CText
  pub ip : CText
  pub enabled : Bool
  pub cores_total : ℕ
  pub gpu_count_total : ℕ
  pub ram_mb_total : ℕ
  pub disk_mb_total : ℕ
  pub cores_reserved : ℕ
  pub gpu_count_reserved : ℕ
  pub ram_mb_reserved : ℕ
  pub disk_mb_reserved : ℕ
  pub probe_status : MachineStatus
  pub last_probe_time : ℕ
  pub probe_fail_count : ℕ
  pub type : MachineType
  pub cloud_provider : CText
  pub cloud_instance_id : CText
  pub cores_min : ℕ
  pub ram_mb_min : ℕ
  pub disk_mb_min : ℕ
  pub mac_address : CText

-- `MAX_MACHINES`
abbrev pub max_machines : ℕ
max_machines = 1024

pub record Demand : Type 0 where
  pub cores : ℤ
  pub gpu : ℤ
  pub ram_mb : ℤ
  pub disk_mb : ℤ

abbrev pub is_negative : ℤ → Bool
is_negative (pos n) = false
is_negative (negsuc n) = true

-- `cores < 0 || gpu < 0 || ram_mb < 0 || disk_mb < 0`
unfoldable pub any_negative : Demand → Bool
any_negative d =
    is_negative d.cores || is_negative d.gpu || is_negative d.ram_mb || is_negative d.disk_mb

-- The loop that all operations share: the first machine with the id is changed, and the loop ends.
unfoldable pub on_machine : CText → (Machine → Rc × Machine) → List Machine → Rc × List Machine
on_machine id f [] = (error, [])
on_machine id f (m ∷ ms) =
    let rest = on_machine id f ms in
    if str_same m.id id then ((f m).0, (f m).1 ∷ ms) else (rest.0, m ∷ rest.1)

-- `registry_get_copy`
unfoldable pub registry_get_copy : CText → List Machine → Option Machine
registry_get_copy id [] = none
registry_get_copy id (m ∷ ms) = if str_same m.id id then some m else registry_get_copy id ms

-- `registry_snapshot`: `memory` says whether `malloc` succeeds; `none` is the result -1.
unfoldable pub registry_snapshot : Bool → List Machine → Option (List Machine)
registry_snapshot memory [] = some []
registry_snapshot memory (m ∷ ms) = if memory then some (m ∷ ms) else none

abbrev pub is_online : MachineStatus → Bool
is_online online = true
is_online _ = false

-- The test of `registry_reserve`: `total - reserved - min >= amount`, which could be negative on the
-- left, is written as a sum.
unfoldable pub has_room : Machine → Demand → Bool
has_room m d =
    m.enabled
    && is_online m.probe_status
    && leb (m.cores_reserved + m.cores_min + pos_part d.cores) m.cores_total
    && leb (m.gpu_count_reserved + pos_part d.gpu) m.gpu_count_total
    && leb (m.ram_mb_reserved + m.ram_mb_min + pos_part d.ram_mb) m.ram_mb_total
    && leb (m.disk_mb_reserved + m.disk_mb_min + pos_part d.disk_mb) m.disk_mb_total

unfoldable pub add_reserved : Machine → Demand → Machine
add_reserved m d = record m {
  cores_reserved = m.cores_reserved + pos_part d.cores;
  gpu_count_reserved = m.gpu_count_reserved + pos_part d.gpu;
  ram_mb_reserved = m.ram_mb_reserved + pos_part d.ram_mb;
  disk_mb_reserved = m.disk_mb_reserved + pos_part d.disk_mb;
}

-- The body of the loop of `registry_reserve`.
unfoldable pub reserve_on : Demand → Machine → Rc × Machine
unfolding has_room add_reserved
reserve_on d m = if has_room m d then (ok, add_reserved m d) else (error, m)

-- `registry_reserve`
unfoldable pub registry_reserve : CText → Demand → List Machine → Rc × List Machine
registry_reserve id d ms = if any_negative d then (error, ms) else on_machine id (reserve_on d) ms

-- `reserved -= amount; if (reserved < 0) reserved = 0;` is subtraction that stops at 0.
unfoldable pub release_on : Demand → Machine → Rc × Machine
release_on d m = (
  ok,
  record m {
    cores_reserved = m.cores_reserved - pos_part d.cores;
    gpu_count_reserved = m.gpu_count_reserved - pos_part d.gpu;
    ram_mb_reserved = m.ram_mb_reserved - pos_part d.ram_mb;
    disk_mb_reserved = m.disk_mb_reserved - pos_part d.disk_mb;
  },
)

-- `registry_release`
unfoldable pub registry_release : CText → Demand → List Machine → Rc × List Machine
registry_release id d ms = if any_negative d then (error, ms) else on_machine id (release_on d) ms

-- `if (reachable > 0) fails = 0; else if (reachable == 0) fails++;`
unfoldable pub probe_on : MachineStatus → ℕ → ℤ → Machine → Rc × Machine
probe_on status probe_time reachable m = (
  ok,
  record m {
    probe_status = status;
    last_probe_time = probe_time;
    probe_fail_count =
        if ltb_ℤ (pos 0) reachable
        then 0
        else if is_negative reachable
        then m.probe_fail_count
        else m.probe_fail_count + 1;
  },
)

-- `registry_update_probe`
unfoldable pub registry_update_probe :
    CText → MachineStatus → ℕ → ℤ → List Machine → Rc × List Machine
registry_update_probe id status probe_time reachable =
    on_machine id (probe_on status probe_time reachable)

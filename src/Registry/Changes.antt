-- ===== src/Registry/Changes.antt =====
-- src/resources/registry.c: `registry_upsert` and `registry_remove`, which change the set of machines.
use bhc_scheduler.Common.{
  ℕ, suc, ◌+◌, ◌-◌, Bool, true, ◌&&◌, ◌||◌, not, Option, none, some, List, [], ◌∷◌, ltb, leb, ◌==◌,
  if◌then◌else◌, length, set, take, get_elem?,
}
use bhc_scheduler.Common.Int.{ℤ, pos, pos_part, ltb_ℤ}
use bhc_scheduler.Common.Text.{CText, str_same, has_text}
use bhc_scheduler.Common.Fallible.{◌>>=◌}
use bhc_scheduler.Common.Rc.{Rc, ok, error, conflict}
use bhc_scheduler.Registry.{Machine, MachineStatus, MachineType, max_machines, is_negative}

-- The machine that `registry_upsert` is given. Every caller (src/http/routes.c:2851,
-- src/cloud/cloud.c:130) zeroes the record first and leaves the reserved amounts and the probe
-- counters at 0, so they are not part of it; its amounts are `int`.
pub record MachineSpec : Type 0 where
  pub id : CText
  pub hostname : CText
  pub ip : CText
  pub enabled : Bool
  pub cores_total : ℤ
  pub gpu_count_total : ℤ
  pub ram_mb_total : ℤ
  pub disk_mb_total : ℤ
  pub cores_min : ℤ
  pub ram_mb_min : ℤ
  pub disk_mb_min : ℤ
  pub probe_status : MachineStatus
  pub type : MachineType
  pub cloud_provider : CText
  pub cloud_instance_id : CText
  pub mac_address : CText

in_range : ℕ → ℕ → ℕ → Bool
in_range lo hi c = leb lo c && leb c hi

safe_char : ℕ → Bool
unfolding in_range
safe_char c =
    in_range b'a' b'z' c
    || in_range b'A' b'Z' c
    || in_range b'0' b'9' c
    || c == b'.'
    || c == b'_'
    || c == b'-'
    || c == b':'

-- `safe_machine_text`
unfoldable pub safe_machine_text : CText → Bool
unfolding safe_char
safe_machine_text [] = true
safe_machine_text (c ∷ cs) = safe_char c && safe_machine_text cs

-- The checks at the head of `registry_upsert`.
unfoldable pub valid_spec : MachineSpec → Bool
valid_spec s =
    has_text s.id
    && safe_machine_text s.id
    && ltb_ℤ (pos 0) s.cores_total
    && not (is_negative s.gpu_count_total)
    && not (is_negative s.ram_mb_total)
    && not (is_negative s.disk_mb_total)
    && not (is_negative s.cores_min)
    && not (is_negative s.ram_mb_min)
    && not (is_negative s.disk_mb_min)
    && not (ltb_ℤ s.cores_total s.cores_min)
    && not (ltb_ℤ s.ram_mb_total s.ram_mb_min)
    && not (ltb_ℤ s.disk_mb_total s.disk_mb_min)

-- `*m`, once its amounts are known not to be negative.
unfoldable pub machine_of : MachineSpec → Machine
machine_of s = record {
  id = s.id;
  hostname = s.hostname;
  ip = s.ip;
  enabled = s.enabled;
  cores_total = pos_part s.cores_total;
  gpu_count_total = pos_part s.gpu_count_total;
  ram_mb_total = pos_part s.ram_mb_total;
  disk_mb_total = pos_part s.disk_mb_total;
  cores_reserved = 0;
  gpu_count_reserved = 0;
  ram_mb_reserved = 0;
  disk_mb_reserved = 0;
  probe_status = s.probe_status;
  last_probe_time = 0;
  probe_fail_count = 0;
  type = s.type;
  cloud_provider = s.cloud_provider;
  cloud_instance_id = s.cloud_instance_id;
  cores_min = pos_part s.cores_min;
  ram_mb_min = pos_part s.ram_mb_min;
  disk_mb_min = pos_part s.disk_mb_min;
  mac_address = s.mac_address;
}

-- The new totals must hold what is reserved and what is kept back.
unfoldable pub holds_reserved : Machine → Machine → Bool
holds_reserved new old =
    leb (old.cores_reserved + new.cores_min) new.cores_total
    && leb old.gpu_count_reserved new.gpu_count_total
    && leb (old.ram_mb_reserved + new.ram_mb_min) new.ram_mb_total
    && leb (old.disk_mb_reserved + new.disk_mb_min) new.disk_mb_total

-- The machine that takes the place of `old`.
unfoldable pub keep_state : Machine → Machine → Machine
keep_state new old = record new {
  cores_reserved = old.cores_reserved;
  gpu_count_reserved = old.gpu_count_reserved;
  ram_mb_reserved = old.ram_mb_reserved;
  disk_mb_reserved = old.disk_mb_reserved;
  probe_status = old.probe_status;
  last_probe_time = old.last_probe_time;
  probe_fail_count = old.probe_fail_count;
}

-- The loop of `registry_upsert`, and what follows it; `count` is `s_count`.
unfoldable pub upsert_loop : Machine → ℕ → List Machine → Rc × List Machine
upsert_loop new count [] = if leb max_machines count then (error, []) else (ok, new ∷ [])
upsert_loop new count (m ∷ ms) =
    let rest = upsert_loop new count ms in
    if str_same m.id new.id
    then (if holds_reserved new m then (ok, keep_state new m ∷ ms) else (conflict, m ∷ ms))
    else (rest.0, m ∷ rest.1)

-- `registry_upsert`
unfoldable pub registry_upsert : MachineSpec → List Machine → Rc × List Machine
registry_upsert s ms =
    if valid_spec s then upsert_loop (machine_of s) (length ms) ms else (error, ms)

-- `strcmp(s_machines[i].id, machine_id) == 0`, for the first such `i`.
unfoldable pub machine_index : CText → List Machine → ℕ → Option ℕ
machine_index id [] i = none
machine_index id (m ∷ ms) i = if str_same m.id id then some i else machine_index id ms (suc i)

unfoldable pub is_reserved : Machine → Bool
is_reserved m =
    ltb 0 m.cores_reserved
    || ltb 0 m.gpu_count_reserved
    || ltb 0 m.ram_mb_reserved
    || ltb 0 m.disk_mb_reserved

-- `s_machines[i] = s_machines[--s_count]`; a read out of the table is `none`.
unfoldable pub drop_machine : List Machine → ℕ → Option (List Machine)
drop_machine ms i = do
  last ← get_elem? ms (length ms - 1)
  some (take (length ms - 1) (set ms i last))

unfoldable pub remove_found : List Machine → ℕ → Option (Rc × List Machine)
remove_found ms i = do
  m ← get_elem? ms i
  if is_reserved m then some (conflict, ms) else (do rest ← drop_machine ms i; some (ok, rest))

abbrev pub remove_at : List Machine → Option ℕ → Option (Rc × List Machine)
remove_at ms none = some (error, ms)
remove_at ms (some i) = remove_found ms i

-- `registry_remove`
unfoldable pub registry_remove : CText → List Machine → Option (Rc × List Machine)
registry_remove id ms = remove_at ms (machine_index id ms 0)

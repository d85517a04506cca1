-- ===== src/Alloc/Diagnosis.antt =====
-- src/resources/allocator.c: `alloc_diagnose`, which says why a job waits, and `alloc_can_fit_multi`.
use bhc_scheduler.Common.{
  ℕ, suc, ◌+◌, ◌-◌, ◌≤◌, ◌≡◌, Bool, true, ◌&&◌, ◌||◌, not, List, [], ◌∷◌, arith, ltb, ◌==◌,
  if◌then◌else◌, length,
}
use bhc_scheduler.Common.Int.{ℤ, pos, ltb_ℤ}
use bhc_scheduler.Registry.{Machine, Demand, is_online, registry_snapshot}
use bhc_scheduler.Alloc.{AllocSystem, free_cores, free_gpu, free_ram, free_disk, covers, seen}
use bhc_scheduler.Alloc.Multi.{max_slots, usable, share}

-- The counters and the running maxima of the loop.
pub record Survey : Type 0 where
  pub enabled : ℕ
  pub online : ℕ
  pub best_cores : ℕ
  pub best_gpu : ℕ
  pub best_ram : ℕ
  pub best_disk : ℕ

abbrev pub larger : ℕ → ℕ → ℕ
larger a best = if ltb best a then a else best

-- One round of the loop.
unfoldable pub surveyed : Machine → Survey → Survey
surveyed m s =
    let counted = record s { enabled = suc s.enabled } in
    if not m.enabled then s else if not (is_online m.probe_status) then counted else record {
      enabled = suc s.enabled;
      online = suc s.online;
      best_cores = larger (free_cores m) s.best_cores;
      best_gpu = larger (free_gpu m) s.best_gpu;
      best_ram = larger (free_ram m) s.best_ram;
      best_disk = larger (free_disk m) s.best_disk;
    }

abbrev pub start : Survey
start = record {
  enabled = 0;
  online = 0;
  best_cores = 0;
  best_gpu = 0;
  best_ram = 0;
  best_disk = 0;
}

unfoldable pub survey : Survey → List Machine → Survey
unfolding surveyed
survey s [] = s
survey s (m ∷ ms) = survey (surveyed m s) ms

-- The four texts, with the numbers that are printed in them.
pub data Diagnosis : Type 0 where
  no_machines : Diagnosis
  all_disabled : ℕ → Diagnosis
  none_online : Diagnosis
  none_fits : Demand → Survey → Diagnosis

abbrev pub diagnosis_of : Demand → ℕ → Survey → Diagnosis
diagnosis_of d count s =
    if s.enabled == 0
    then all_disabled count
    else if s.online == 0
    then none_online
    else none_fits d s

-- `alloc_diagnose`
unfoldable pub alloc_diagnose : Demand → AllocSystem → Diagnosis
unfolding survey
alloc_diagnose d s =
    let ms = seen (registry_snapshot s.memory s.machines) in
    if length ms == 0 then no_machines else diagnosis_of d (length ms) (survey start ms)

-- The candidates of `alloc_can_fit_multi`, at most `room`, and the cores they have free beyond
-- `available`; the loop ends once that is enough.
unfoldable pub candidates : ℕ → ℕ → ℤ → List Machine → List Machine × ℕ
candidates room available cores [] = ([], available)
candidates room available cores (m ∷ ms) =
    let total = available + free_cores m in
    let skipped = candidates room available cores ms in
    let rest = candidates (room - 1) total cores ms in
    if ltb 0 room
    then (if usable m
        then (if covers total cores then (m ∷ [], total) else (m ∷ rest.0, rest.1))
        else skipped)
    else ([], available)

unfoldable pub all_cover : ℤ → ℤ → List Machine → Bool
all_cover ram disk [] = true
all_cover ram disk (m ∷ ms) =
    covers (free_ram m) ram && covers (free_disk m) disk && all_cover ram disk ms

abbrev pub fit_count : Demand → List Machine × ℕ → ℕ
fit_count d (ms, available) =
    let n = length ms in
    if not (covers available d.cores) || n == 0
    then 0
    else if all_cover (share d.ram_mb n) (share d.disk_mb n) ms
    then n
    else 0

-- `alloc_can_fit_multi`: the number of machines, 0 if the job does not fit.
unfoldable pub alloc_can_fit_multi : Demand → AllocSystem → ℕ
unfolding candidates all_cover
alloc_can_fit_multi d s =
    if ltb_ℤ (pos 0) d.gpu
    then 0
    else fit_count d (candidates max_slots 0 d.cores (seen (registry_snapshot s.memory s.machines)))

-- A machine that counts: enabled and online.
abbrev pub Counts : Machine → Type 0
Counts m = (m.enabled ≡ true) × (is_online m.probe_status ≡ true)

-- Every machine of the list that counts has no more free than the survey's best.
abbrev pub Bounded : Survey → List Machine → Type 0
Bounded s [] = Unit {0}
Bounded s (m ∷ ms) =
    (Counts m
      → (free_cores m ≤ s.best_cores)
        × (free_gpu m ≤ s.best_gpu)
        × (free_ram m ≤ s.best_ram)
        × (free_disk m ≤ s.best_disk))
    × Bounded s ms

-- The survey only grows.
abbrev Grows : Survey → Survey → Type 0
Grows s t =
    (s.best_cores ≤ t.best_cores)
    × (s.best_gpu ≤ t.best_gpu)
    × (s.best_ram ≤ t.best_ram)
    × (s.best_disk ≤ t.best_disk)

surveyed-Grows : (m : Machine) (s : Survey) → Grows s (surveyed m s)
unfolding surveyed
surveyed-Grows m s = ground arith

survey-Grows : (ms : List Machine) (s : Survey) → Grows s (survey s ms)
unfolding survey
survey-Grows [] s = omega arith
survey-Grows (m ∷ ms) s =
    let a = surveyed-Grows m s in
    let b = survey-Grows ms (surveyed m s) in
    (
      omega (arith, a.0, b.0),
      omega (arith, a.1, b.1),
      omega (arith, a.2, b.2),
      omega (arith, a.3, b.3),
    )

surveyed-Counts :
    (m : Machine) (s : Survey)
    → Counts m
    → (free_cores m ≤ (surveyed m s).best_cores)
      × (free_gpu m ≤ (surveyed m s).best_gpu)
      × (free_ram m ≤ (surveyed m s).best_ram)
      × (free_disk m ≤ (surveyed m s).best_disk)
unfolding surveyed
surveyed-Counts m s (e, f) = rw (e, f) (ground arith)

-- Each of the four best amounts that `alloc_diagnose` reports bounds what any enabled machine that is
-- online has free.
pub survey-Bounded : (ms : List Machine) (s : Survey) → Bounded (survey s ms) ms
unfolding survey
survey-Bounded [] s = tt
survey-Bounded (m ∷ ms) s = (
  λ c.
      let a = surveyed-Counts m s c in
      let b = survey-Grows ms (surveyed m s) in
      (
        omega (arith, a.0, b.0),
        omega (arith, a.1, b.1),
        omega (arith, a.2, b.2),
        omega (arith, a.3, b.3),
      ),
  survey-Bounded ms (surveyed m s),
)

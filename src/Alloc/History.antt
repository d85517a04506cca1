-- ===== src/Alloc/History.antt =====
-- Any history of calls on the allocator and on the registry under it.
use mathlib.Core.Path.{subst}
use bhc_scheduler.Common.{
  Bool-cases, inl, inr, ℕ, ◌+◌, ◌≤◌, ◌≡◌, Bool, Option, none, some, List, [], ◌∷◌, arith,
}
use bhc_scheduler.Common.Int.{ℤ}
use bhc_scheduler.Common.Text.{CText, str_same}
use bhc_scheduler.Common.Fallible.{◌>>=◌, Yields, Yields-some, Yields-bind, Yields-weaken}
use bhc_scheduler.Db.{Db}
use bhc_scheduler.Registry.{
  Machine, MachineStatus, Demand, registry_get_copy, registry_update_probe,
}
use bhc_scheduler.Registry.Changes.{MachineSpec, registry_upsert, registry_remove}
use bhc_scheduler.Registry.Invariant.{Fits, AllFit}
use bhc_scheduler.Registry.Upsert.{upsert-IsValid}
use bhc_scheduler.Registry.Removal.{registry_remove-Removed}
use bhc_scheduler.Registry.Calls.{Removed-IsValid, probe-IsValid}
use bhc_scheduler.Alloc.{AllocRecord, AllocSystem, alloc_reserve, alloc_reserve_on, alloc_release}
use bhc_scheduler.Alloc.Books.{held}
use bhc_scheduler.Alloc.Machines.{upsert-Books, Removed-Books, probe-Books}
use bhc_scheduler.Alloc.Multi.{alloc_reserve_multi}
use bhc_scheduler.Alloc.Spread.{alloc_reserve_multi-IsBalanced}
use bhc_scheduler.Alloc.Balance.{
  IsBalanced, alloc_reserve-IsBalanced, alloc_reserve_on-IsBalanced, alloc_release-IsBalanced,
}

-- The calls that other threads make, in the order in which they get the locks. `memory_turns` and
-- `database_turns` are what the environment does between calls: allocations of memory begin or stop
-- to fail, and other code writes to the database.
pub data AllocCall : Type 0 where
  reserves : CText → Demand → AllocCall
  reserves_on : CText → CText → Demand → AllocCall
  reserves_multi : CText → Demand → AllocCall
  releases : CText → AllocCall
  machine_upserts : MachineSpec → AllocCall
  machine_removes : CText → AllocCall
  machine_probes : CText → MachineStatus → ℕ → ℤ → AllocCall
  memory_turns : Bool → AllocCall
  database_turns : Db → AllocCall

pub alloc_step : AllocCall → AllocSystem → Option AllocSystem
alloc_step (reserves job_id d) s = some (alloc_reserve job_id d s).2
alloc_step (reserves_on job_id target d) s = some (alloc_reserve_on job_id target d s).1
alloc_step (reserves_multi job_id d) s = some (alloc_reserve_multi job_id d s).3
alloc_step (releases job_id) s = some (alloc_release job_id s).1
alloc_step (machine_upserts m) s = some (record s { machines = (registry_upsert m s.machines).1 })
alloc_step (machine_removes id) s = do
  r ← registry_remove id s.machines
  some (record s { machines = r.1 })
alloc_step (machine_probes id status t x) s =
    some (record s { machines = (registry_update_probe id status t x s.machines).1 })
alloc_step (memory_turns b) s = some (record s { memory = b })
alloc_step (database_turns d) s = some (record s { db = d })

unfoldable pub alloc_run : List AllocCall → AllocSystem → Option AllocSystem
alloc_run [] s = some s
alloc_run (c ∷ cs) s = do t ← alloc_step c s; alloc_run cs t

alloc_step-IsBalanced :
    (c : AllocCall) (s : AllocSystem) → IsBalanced s → Yields IsBalanced (alloc_step c s)
unfolding alloc_step registry_update_probe
alloc_step-IsBalanced (reserves job_id d) s b =
    Yields-some _ (alloc_reserve-IsBalanced job_id d s b)
alloc_step-IsBalanced (reserves_on job_id target d) s b =
    Yields-some _ (alloc_reserve_on-IsBalanced job_id target d s b)
alloc_step-IsBalanced (reserves_multi job_id d) s b =
    Yields-some _ (alloc_reserve_multi-IsBalanced job_id d s b)
alloc_step-IsBalanced (releases job_id) s b = Yields-some _ (alloc_release-IsBalanced job_id s b)
alloc_step-IsBalanced (machine_upserts m) s b = Yields-some _ (record {
  registry = upsert-IsValid m s.machines b.registry;
  books = upsert-Books (λ k. held k s.allocs) m s.machines b.books;
  tidy = b.tidy;
})
alloc_step-IsBalanced (machine_removes id) s b =
    Yields-bind (registry_remove id s.machines) _ (registry_remove-Removed id s.machines b.registry)
      λ r h. Yields-some _ (record {
        registry = Removed-IsValid id s.machines r b.registry h;
        books = Removed-Books (λ k. held k s.allocs) id s.machines r h b.books;
        tidy = b.tidy;
      })
alloc_step-IsBalanced (machine_probes id status t x) s b = Yields-some _ (record {
  registry = probe-IsValid id status t x s.machines b.registry;
  books = probe-Books (λ k. held k s.allocs) id status t x s.machines b.books;
  tidy = b.tidy;
})
alloc_step-IsBalanced (memory_turns m) s b =
    Yields-some _ (record { registry = b.registry; books = b.books; tidy = b.tidy })
alloc_step-IsBalanced (database_turns d) s b =
    Yields-some _ (record { registry = b.registry; books = b.books; tidy = b.tidy })

-- Whatever sequence of calls is made on a balanced system, through failures of memory, of the
-- database and of the registry, it runs to its end and the system is balanced again: the registry is
-- valid, and on every machine it has reserved exactly the sum of what the allocator's records hold
-- there.
pub alloc_run-IsBalanced :
    (cs : List AllocCall) (s : AllocSystem) → IsBalanced s → Yields IsBalanced (alloc_run cs s)
unfolding alloc_run
alloc_run-IsBalanced [] s b = Yields-some s b
alloc_run-IsBalanced (c ∷ cs) s b =
    Yields-bind (alloc_step c s) _ (alloc_step-IsBalanced c s b)
      λ t bt. alloc_run-IsBalanced cs t bt

found-Fits :
    (k : CText) (ms : List Machine) (m : Machine)
    → AllFit ms
    → registry_get_copy k ms ≡ some m
    → Fits m
unfolding registry_get_copy
found-Fits k [] m h e = absurd (let bad : none ≡ some m = e in cc)
found-Fits k (x ∷ ms) m h e = elim (Bool-cases (str_same x.id k)) [
  | inl own ↦ let same : some x ≡ some m = rw own at e in subst Fits (some_eq same) h.0
  | inr apart ↦ found-Fits k ms m h.1 (rw apart at e)
]
  where
    some_eq : {x m : Machine} → some x ≡ some m → x ≡ m
    some_eq h = cc

-- What the records hold on the machine, and what it keeps back, fits its totals.
abbrev pub HeldFits : List AllocRecord → CText → Machine → Type 0
HeldFits allocs k m =
    ((held k allocs).cores + m.cores_min ≤ m.cores_total)
    × ((held k allocs).gpu ≤ m.gpu_count_total)
    × ((held k allocs).ram_mb + m.ram_mb_min ≤ m.ram_mb_total)
    × ((held k allocs).disk_mb + m.disk_mb_min ≤ m.disk_mb_total)

balanced-HeldFits :
    (s : AllocSystem) (k : CText) (m : Machine)
    → IsBalanced s
    → registry_get_copy k s.machines ≡ some m
    → HeldFits s.allocs k m
balanced-HeldFits s k m b e =
    let fits = found-Fits k s.machines m b.registry.fit e in
    let here = rw e at (b.books k) in
    (
      omega (arith, fits.cores, here.0),
      omega (arith, fits.gpu, here.1),
      omega (arith, fits.ram, here.2),
      omega (arith, fits.disk, here.3),
    )

-- After any history of calls on a balanced system, on every machine that the registry finds, the sum of
-- what the allocator's records hold there and what the machine keeps back fits its totals.
pub never_overbooked :
    (cs : List AllocCall) (s : AllocSystem)
    → IsBalanced s
    → Yields
        (λ t.
          (k : CText) (m : Machine)
          → registry_get_copy k t.machines ≡ some m
          → HeldFits t.allocs k m)
        (alloc_run cs s)
never_overbooked cs s b =
    Yields-weaken (alloc_run cs s) (alloc_run-IsBalanced cs s b)
      λ t bt k m e. balanced-HeldFits t k m bt e

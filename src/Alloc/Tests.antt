-- ===== src/Alloc/Tests.antt =====
-- Runs of the allocator, and its theorems at a concrete system.
use bhc_scheduler.Common.{
  ℕ, ◌≡◌, refl, inl, inr, Bool, true, false, none, some, List, [], ◌∷◌, Bool-cases,
}
use bhc_scheduler.Common.Int.{◌+ℤ◌, negsuc, pos}
use bhc_scheduler.Common.Text.{CText, c_text, str_same}
use bhc_scheduler.Common.Rc.{ok}
use bhc_scheduler.Common.Fallible.{Yields}
use bhc_scheduler.Db.{Db, db_begin, db_commit, db_insert_allocation}
use bhc_scheduler.Registry.{
  Machine, registry_get_copy, has_room, any_negative, on_machine, reserve_on, registry_snapshot,
  registry_reserve,
}
use bhc_scheduler.Registry.Samples.{
  machine, two_machines, demand, two_machines-IsValid, machine-Fits,
}
use bhc_scheduler.Alloc.{
  free_cores, free_ram, free_disk, AllocSystem, machine_can_fit, alloc_reserve, first_fit,
  reserve_single, alloc_record_acquire, record_booked, persist_record, persist_slots,
}
use bhc_scheduler.Alloc.Multi.{
  alloc_reserve_multi, spread, fill_slots, share, apply_slots, multi_booked, report,
}
use bhc_scheduler.Alloc.Books.{◌⊕◌, held, Books}
use bhc_scheduler.Alloc.Balance.{IsBalanced}
use bhc_scheduler.Alloc.Fit.{machine_can_fit-has_room}
use bhc_scheduler.Alloc.History.{
  AllocCall, alloc_run, alloc_run-IsBalanced, HeldFits, never_overbooked,
}
use bhc_scheduler.Alloc.Rollback.{ReservedOrNot, alloc_reserve-ReservedOrNot}

-- A database whose statements succeed as `fate` says.
abbrev database : (ℕ → Bool) → Db
database fate = record {
  tables = record { jobs = []; allocations = []; quotas = [] };
  saved = none;
  transaction_active = false;
  fate = fate;
  statements = 0;
  now = 100;
}

abbrev system : AllocSystem
system = record {
  machines = two_machines;
  allocs = [];
  capacity = 0;
  db = database (λ _. true);
  memory = true;
}

system-Books : Books (λ k. held k system.allocs) two_machines
unfolding registry_get_copy
system-Books k = elim (Bool-cases (str_same (c_text "a") k)) [
  | inl e ↦ rw e (refl, refl, refl, refl)
  | inr e ↦ rw e (elim (Bool-cases (str_same (c_text "b") k)) [
    | inl f ↦ rw f (refl, refl, refl, refl)
    | inr f ↦ rw f refl
  ])
]

system-IsBalanced : IsBalanced system
system-IsBalanced = record { registry = two_machines-IsValid; books = system-Books; tidy = tt }

abbrev job_1 : CText
job_1 = c_text "j1"

-- Reserved twice, moved, refused for want of memory, released twice, and a machine removed.
abbrev calls : List AllocCall
calls =
    AllocCall.reserves job_1 demand
    ∷ AllocCall.machine_removes (c_text "b")
    ∷ AllocCall.reserves_on (c_text "j2") (c_text "a")
        (record { cores = pos 2; gpu = pos 0; ram_mb = pos 5; disk_mb = pos 0 })
    ∷ AllocCall.database_turns (database (λ _. false))
    ∷ AllocCall.memory_turns false
    ∷ AllocCall.reserves (c_text "j3") demand
    ∷ AllocCall.reserves_multi (c_text "j4")
        (record { cores = pos 9; gpu = pos 0; ram_mb = pos 100; disk_mb = pos 7 })
    ∷ AllocCall.releases job_1
    ∷ AllocCall.machine_removes (c_text "b")
    ∷ AllocCall.releases (c_text "j2")
    ∷ []

alloc_run-IsBalanced_example : Yields IsBalanced (alloc_run calls system)
alloc_run-IsBalanced_example = alloc_run-IsBalanced calls system system-IsBalanced

never_overbooked_example :
    Yields
      (λ t.
        (k : CText) (m : Machine) → registry_get_copy k t.machines ≡ some m → HeldFits t.allocs k m)
      (alloc_run calls system)
never_overbooked_example = never_overbooked calls system system-IsBalanced

alloc_reserve-ReservedOrNot_example :
    ReservedOrNot job_1 demand system (alloc_reserve job_1 demand system)
alloc_reserve-ReservedOrNot_example = alloc_reserve-ReservedOrNot job_1 demand system tt

machine_can_fit-has_room_example :
    machine_can_fit (machine (c_text "a") 4) demand ≡ has_room (machine (c_text "a") 4) demand
unfolding any_negative
machine_can_fit-has_room_example =
    machine_can_fit-has_room (machine (c_text "a") 4) demand (machine-Fits (c_text "a") 3) refl

reserves_b :
    let r = alloc_reserve job_1 demand system in
    (r.0 ≡ ok) × (r.1 ≡ some (c_text "b")) × ((held (c_text "b") r.2.allocs).cores ≡ 5)
unfolding alloc_reserve first_fit registry_snapshot machine_can_fit reserve_single
    alloc_record_acquire record_booked registry_reserve any_negative on_machine str_same reserve_on
    persist_record db_begin db_commit persist_slots db_insert_allocation ◌⊕◌
reserves_b = (refl, refl, refl)

-- Nine cores over both machines: three on the first, which keeps one back, and six on the second.
spreads_nine :
    let r =
      alloc_reserve_multi job_1
        (record { cores = pos 9; gpu = pos 0; ram_mb = pos 5; disk_mb = negsuc 0 })
        system in
    (r.0 ≡ ok)
    × (r.1 ≡ c_text "a,b")
    × (r.2 ≡ 2)
    × ((held (c_text "b") r.3.allocs).cores ≡ 6)
    × ((held (c_text "b") r.3.allocs).ram_mb ≡ 3)
unfolding alloc_reserve_multi registry_snapshot alloc_record_acquire spread fill_slots share ◌+ℤ◌
    registry_get_copy apply_slots multi_booked report free_cores free_ram free_disk registry_reserve
    any_negative on_machine str_same reserve_on persist_record db_begin db_commit persist_slots
    db_insert_allocation ◌⊕◌
spreads_nine = (refl, refl, refl, refl, refl)

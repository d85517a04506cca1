-- ===== src/Alloc/Rollback.antt =====
-- A reservation is made whole or not at all.
use bhc_scheduler.Common.{
  ℕ, ◌≡◌, refl, sym, ◌⊎◌, inl, inr, Option, none, some, List, Bool-cases, if_cases, set,
}
use bhc_scheduler.Common.Int.{pos, ltb_ℤ}
use bhc_scheduler.Common.Text.{CText, copy_field}
use bhc_scheduler.Common.Rc.{Rc, ok, error, conflict}
use bhc_scheduler.Registry.{
  Machine, Demand, registry_snapshot, registry_get_copy, registry_reserve, registry_release,
}
use bhc_scheduler.Registry.Booking.{release-reserve}
use bhc_scheduler.Alloc.{
  AllocRecord, AllocSystem, persist_record, release_slots, discard_record, fresh_record,
  filled_record, record_booked, alloc_record_acquire, reserve_acquired, reserve_single,
  reserve_chosen, reserve_target, machine_can_fit, alloc_reserve, alloc_reserve_on, first_fit, seen,
}
use bhc_scheduler.Alloc.Records.{At, AllTidy, set-At, Acquired, acquire-Acquired}

-- Refused, with the registry as it was; or accepted, with the machine's booking in the registry and
-- the job's record in the table.
abbrev pub AllOrNothing : CText → CText → Demand → List Machine → Rc × AllocSystem → Type 0
AllOrNothing job_id machine_id d ms r =
    ((r.0 ≡ error) × (r.1.machines ≡ ms))
    ⊎ ((r.0 ≡ ok)
        × (registry_reserve (copy_field 64 machine_id) d ms ≡ (ok, r.1.machines))
        × ((i : ℕ) × At r.1.allocs i (filled_record job_id machine_id d)))

module _ (job_id machine_id : CText) (d : Demand) where
  one_slot :
      (i : ℕ) (s : AllocSystem) (ms : List Machine)
      → registry_release (copy_field 64 machine_id) d s.machines ≡ (ok, ms)
      → (discard_record i (filled_record job_id machine_id d) s).machines ≡ ms
  unfolding discard_record release_slots
  one_slot i s ms h = rw h refl

  settled :
      (i : ℕ) (ms : List Machine) (t : AllocSystem) (rc : Rc)
      → At t.allocs i (filled_record job_id machine_id d)
      → registry_reserve (copy_field 64 machine_id) d ms ≡ (ok, t.machines)
      → AllOrNothing job_id machine_id d ms (
          let r : Rc × AllocSystem = elim rc [
            | ok ↦ (ok, t)
            | _ ↦ (error, discard_record i (filled_record job_id machine_id d) t)
          ] in
          r)
  settled i ms t ok here booked = inr (refl, booked, (i, here))
  settled i ms t error here booked =
      inl
        (refl, one_slot i t ms (release-reserve (copy_field 64 machine_id) d ms t.machines booked))
  settled i ms t conflict here booked =
      inl
        (refl, one_slot i t ms (release-reserve (copy_field 64 machine_id) d ms t.machines booked))

  record_booked-AllOrNothing :
      (i : ℕ) (x : AllocRecord) (s : AllocSystem)
      → At s.allocs i x
      → (a : Rc × List Machine) → registry_reserve (copy_field 64 machine_id) d s.machines ≡ a
      → AllOrNothing job_id machine_id d s.machines
          (record_booked i (filled_record job_id machine_id d) s a)
  unfolding record_booked
  record_booked-AllOrNothing i x s here (error, ms) h = inl (refl, refl)
  record_booked-AllOrNothing i x s here (conflict, ms) h = inl (refl, refl)
  record_booked-AllOrNothing i x s here (ok, ms) h =
      let r = filled_record job_id machine_id d in
      let saved = persist_record r s.db in
      settled i s.machines (record s { machines = ms; allocs = set s.allocs i r; db = saved.1 })
        saved.0 (set-At s.allocs i x r here) h

  reserve_acquired-AllOrNothing :
      (s : AllocSystem) (o : Option (ℕ × AllocSystem))
      → ((a : ℕ × AllocSystem) → o ≡ some a → Acquired job_id s a)
      → AllOrNothing job_id machine_id d s.machines (reserve_acquired job_id machine_id d s o)
  reserve_acquired-AllOrNothing s none h = inl (refl, refl)
  reserve_acquired-AllOrNothing s (some (i, t)) h =
      let (machines, _, (here, _, _)) = h (i, t) refl in
      rw (sym machines) (
        record_booked-AllOrNothing i (fresh_record job_id) t here
          (registry_reserve (copy_field 64 machine_id) d t.machines) refl)

  pub reserve_single-AllOrNothing :
      (s : AllocSystem)
      → AllTidy s.allocs
      → AllOrNothing job_id machine_id d s.machines (reserve_single job_id machine_id d s)
  unfolding reserve_single
  reserve_single-AllOrNothing s tidy =
      reserve_acquired-AllOrNothing s (alloc_record_acquire job_id s)
        (acquire-Acquired job_id s tidy)

-- The two ways in which `alloc_reserve` ends.
abbrev pub ReservedOrNot : CText → Demand → AllocSystem → Rc × Option CText × AllocSystem → Type 0
ReservedOrNot job_id d s r =
    ((r.0 ≡ error) × (r.1 ≡ none) × (r.2.machines ≡ s.machines))
    ⊎ ((r.0 ≡ ok)
        × ((m : Machine) × (first_fit d (seen (registry_snapshot s.memory s.machines)) ≡ some m)
            × (r.1 ≡ some (copy_field 64 m.id))
            × (registry_reserve (copy_field 64 m.id) d s.machines ≡ (ok, r.2.machines))
            × ((i : ℕ) × At r.2.allocs i (filled_record job_id m.id d))))

chosen-ReservedOrNot :
    (job_id : CText) (d : Demand) (s : AllocSystem) (o : Option Machine)
    → AllTidy s.allocs
    → first_fit d (seen (registry_snapshot s.memory s.machines)) ≡ o
    → ReservedOrNot job_id d s (reserve_chosen job_id d s o)
chosen-ReservedOrNot job_id d s none t h = inl (refl, refl, refl)
chosen-ReservedOrNot job_id d s (some m) t h =
    elim (reserve_single-AllOrNothing job_id m.id d s t) [
      | inl (failed, same) ↦ inl (failed, rw (reserve_chosen, failed) refl, same)
      | inr (done, booked, stands) ↦
          inr (done, (m, h, rw (reserve_chosen, done) refl, booked, stands))
    ]

-- On a tidy table `alloc_reserve` fails, names no machine and leaves the registry as it was, whichever
-- of its steps failed; or it succeeds on the first machine of the snapshot that fits, which it names:
-- the registry accepted the booking there, and the table has the job's record of it.
pub alloc_reserve-ReservedOrNot :
    (job_id : CText) (d : Demand) (s : AllocSystem)
    → AllTidy s.allocs
    → ReservedOrNot job_id d s (alloc_reserve job_id d s)
unfolding alloc_reserve
alloc_reserve-ReservedOrNot job_id d s t = elim (Bool-cases (ltb_ℤ (pos 0) d.cores)) [
  | inr e ↦ rw e (inl (refl, refl, refl))
  | inl e ↦ rw e (chosen-ReservedOrNot job_id d s _ t refl)
]

-- Accepted, or refused with the registry as it was.
abbrev pub BookedOrSame : AllocSystem → Rc × AllocSystem → Type 0
BookedOrSame s r = (r.0 ≡ ok) ⊎ ((r.0 ≡ error) × (r.1.machines ≡ s.machines))

target-OrSame :
    (job_id : CText) (d : Demand) (s : AllocSystem) (o : Option Machine)
    → AllTidy s.allocs
    → BookedOrSame s (reserve_target job_id d s o)
target-OrSame job_id d s none t = inr (refl, refl)
target-OrSame job_id d s (some m) t =
    if_cases (BookedOrSame s) (machine_can_fit m d) _ _
      (λ _. elim (reserve_single-AllOrNothing job_id m.id d s t) [
        | inl (failed, same) ↦ inr (failed, same)
        | inr (done, _, _) ↦ inl done
      ])
      (λ _. inr (refl, refl))

-- `alloc_reserve_on` is accepted, or leaves the registry as it was.
pub alloc_reserve_on-OrSame :
    (job_id target : CText) (d : Demand) (s : AllocSystem)
    → AllTidy s.allocs
    → BookedOrSame s (alloc_reserve_on job_id target d s)
unfolding alloc_reserve_on
alloc_reserve_on-OrSame job_id target d s t =
    if_cases (BookedOrSame s) (ltb_ℤ (pos 0) d.cores) _ _
      (λ _. target-OrSame job_id d s (registry_get_copy target s.machines) t)
      (λ _. inr (refl, refl))

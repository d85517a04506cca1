-- ===== src/Alloc/Balance.antt =====
-- The allocator's operations keep its table and the registry in step.
use mathlib.Core.Path.{subst}
use bhc_scheduler.Common.{
  ℕ, ◌≡◌, refl, ap, sym, ◌∙◌, inl, inr, true, false, Option, none, some, List, [], ◌∷◌, arith,
  Bool-cases, set,
}
use bhc_scheduler.Common.Int.{pos, ltb_ℤ}
use bhc_scheduler.Common.Text.{CText, copy_field}
use bhc_scheduler.Common.Rc.{Rc, ok, error, conflict}
use bhc_scheduler.Db.{db_release_allocation}
use bhc_scheduler.Registry.{Machine, Demand, any_negative, registry_reserve, registry_release}
use bhc_scheduler.Registry.Invariant.{IsValid}
use bhc_scheduler.Registry.Calls.{reserve-IsValid, release-IsValid}
use bhc_scheduler.Alloc.{
  AllocSlot, AllocRecord, AllocSystem, zeroed_record, fresh_record, persist_record, release_slots,
  discard_record, filled_record, record_booked, alloc_record_acquire, reserve_acquired,
  reserve_single, reserve_chosen, alloc_reserve, reserve_target, alloc_reserve_on, find_record,
  release_found, alloc_release, machine_can_fit,
}
use bhc_scheduler.Alloc.Books.{
  ◌⊕◌, ⊕_zero, on_slot, on_slots, held, Books, Books-ext, Sound, reserve-Books, release_slots-Books,
}
use bhc_scheduler.Alloc.Records.{
  At, IsTidy, AllTidy, set-AllTidy, set-At, At-Sound, held-set, Acquired, acquire-Acquired,
  find_record-At,
}

-- The registry is valid, it has reserved exactly what the records hold, and the records are tidy.
pub record IsBalanced (s : AllocSystem) : Type 0 where
  pub registry : IsValid s.machines
  pub books : Books (λ k. held k s.allocs) s.machines
  pub tidy : AllTidy s.allocs

zeroed-IsTidy : IsTidy zeroed_record
zeroed-IsTidy = (tt, λ h. refl)

pub release_slots-IsValid :
    (slots : List AllocSlot) (ms : List Machine) → IsValid ms → IsValid (release_slots slots ms)
unfolding release_slots
release_slots-IsValid [] ms v = v
release_slots-IsValid (slot ∷ slots) ms v =
    release_slots-IsValid slots (registry_release slot.machine_id slot.demand ms).1
      (release-IsValid slot.machine_id slot.demand ms v)

-- What a record held is taken off when it is zeroed.
held_without :
    (k : CText) (l : List AllocRecord) (i : ℕ) (r : AllocRecord)
    → At l i r
    → held k l ≡ held k (set l i zeroed_record) ⊕ on_slots k r.slots
held_without k l i r here = sym (⊕_zero (held k l)) ∙ sym (held-set k l i r zeroed_record here)

pub discard-IsBalanced :
    (i : ℕ) (r : AllocRecord) (s : AllocSystem)
    → At s.allocs i r
    → IsBalanced s
    → IsBalanced (discard_record i r s)
unfolding discard_record
discard-IsBalanced i r s here b = record {
  registry = release_slots-IsValid r.slots s.machines b.registry;
  books =
      let after = λ (k : CText). held k (set s.allocs i zeroed_record) in
      release_slots-Books after r.slots s.machines (At-Sound s.allocs i r b.tidy here) (
        Books-ext (λ k. held k s.allocs) (λ k. after k ⊕ on_slots k r.slots) s.machines
          (λ k. held_without k s.allocs i r here) b.books);
  tidy = set-AllTidy s.allocs i zeroed_record b.tidy zeroed-IsTidy;
}

-- The fields that the invariant reads.
pub same-IsBalanced :
    (s t : AllocSystem)
    → t.machines ≡ s.machines
    → t.allocs ≡ s.allocs
    → IsBalanced s
    → IsBalanced t
same-IsBalanced s t m a b = record {
  registry = rw m b.registry;
  books = rw (m, a) b.books;
  tidy = rw a b.tidy;
}

module _ (i : ℕ) (x : AllocRecord) (slot : AllocSlot) (r : AllocRecord) (s : AllocSystem) where
  abbrev Booked : List Machine → AllocSystem
  Booked ms = record s { machines = ms; allocs = set s.allocs i r }

  filled :
      (k : CText)
      → At s.allocs i x
      → x.slots ≡ []
      → r.slots ≡ slot ∷ []
      → held k s.allocs ⊕ on_slot k slot ≡ held k (set s.allocs i r)
  filled k here empty one =
      let before = held k s.allocs in
      let after = held k (set s.allocs i r) in
      ap (λ z. before ⊕ z) (sym (⊕_zero (on_slot k slot)))
      ∙ ap (λ z. before ⊕ on_slots k z) (sym one)
      ∙ sym (held-set k s.allocs i x r here)
      ∙ ap (λ z. after ⊕ on_slots k z) empty
      ∙ ⊕_zero after

  booked-IsBalanced :
      At s.allocs i x
      → x.slots ≡ []
      → r.slots ≡ slot ∷ []
      → r.active ≡ true
      → IsBalanced s
      → (ms : List Machine) → IsValid ms
      → Books (λ k. held k s.allocs ⊕ on_slot k slot) ms × (any_negative slot.demand ≡ false)
      → IsBalanced (Booked ms)
  booked-IsBalanced here empty one active b ms v (books, good) = record {
    registry = v;
    books =
        Books-ext (λ k. held k s.allocs ⊕ on_slot k slot) (λ k. held k (set s.allocs i r)) ms
          (λ k. filled k here empty one) books;
    tidy =
        set-AllTidy s.allocs i r b.tidy
          (subst Sound (sym one) (good, tt), λ h. absurd (grind arith));
  }

-- What a reservation that the registry answered with `a` may assume of the answer.
abbrev Answer : AllocSystem → AllocSlot → Rc × List Machine → Type 0
Answer s slot a =
    IsValid a.1
    × (a.0 ≡ ok
        → Books (λ k. held k s.allocs ⊕ on_slot k slot) a.1 × (any_negative slot.demand ≡ false))

pub emptied-IsBalanced :
    (i : ℕ) (x : AllocRecord) (s : AllocSystem)
    → At s.allocs i x
    → x.slots ≡ []
    → IsBalanced s
    → IsBalanced (record s { allocs = set s.allocs i zeroed_record })
emptied-IsBalanced i x s here empty b = record {
  registry = b.registry;
  books =
      Books-ext (λ k. held k s.allocs) (λ k. held k (set s.allocs i zeroed_record)) s.machines
        (λ k.
          held_without k s.allocs i x here
          ∙ ap (λ z. held k (set s.allocs i zeroed_record) ⊕ on_slots k z) empty
          ∙ ⊕_zero (held k (set s.allocs i zeroed_record)))
        b.books;
  tidy = set-AllTidy s.allocs i zeroed_record b.tidy zeroed-IsTidy;
}

-- A record is kept where it was saved, and discarded where it was not.
settled-IsBalanced :
    (i : ℕ) (r : AllocRecord) (t : AllocSystem)
    → At t.allocs i r
    → IsBalanced t
    → (rc : Rc)
    → IsBalanced
        (let r : Rc × AllocSystem = elim rc [ ok ↦ (ok, t) | _ ↦ (error, discard_record i r t) ] in
          r).1
settled-IsBalanced i r t here b ok = b
settled-IsBalanced i r t here b error = discard-IsBalanced i r t here b
settled-IsBalanced i r t here b conflict = discard-IsBalanced i r t here b

record_booked-IsBalanced :
    (i : ℕ) (x : AllocRecord) (slot : AllocSlot) (r : AllocRecord) (s : AllocSystem)
    → At s.allocs i x
    → x.slots ≡ []
    → r.slots ≡ slot ∷ []
    → r.active ≡ true
    → IsBalanced s
    → (a : Rc × List Machine) → Answer s slot a
    → IsBalanced (record_booked i r s a).1
unfolding record_booked
record_booked-IsBalanced i x slot r s here empty one active b (error, ms) h =
    emptied-IsBalanced i x s here empty b
record_booked-IsBalanced i x slot r s here empty one active b (conflict, ms) h =
    emptied-IsBalanced i x s here empty b
record_booked-IsBalanced i x slot r s here empty one active b (ok, ms) (v, h) =
    let t = record s { machines = ms; allocs = set s.allocs i r; db = (persist_record r s.db).1 } in
    settled-IsBalanced i r t (set-At s.allocs i x r here)
      (same-IsBalanced (Booked i x slot r s ms) t refl refl
        (booked-IsBalanced i x slot r s here empty one active b ms v (h refl)))
      (persist_record r s.db).0

pub Acquired-IsBalanced :
    (job_id : CText) (s t : AllocSystem) (i : ℕ)
    → Acquired job_id s (i, t)
    → IsBalanced s
    → IsBalanced t
Acquired-IsBalanced job_id s t i (machines, db, (here, same, tidy)) b = record {
  registry = rw machines b.registry;
  books =
      Books-ext (λ k. held k s.allocs) (λ k. held k t.allocs) t.machines (λ k. sym (same k))
        (rw machines b.books);
  tidy = tidy b.tidy;
}

reserve_acquired-IsBalanced :
    (job_id machine_id : CText) (d : Demand) (s : AllocSystem) (o : Option (ℕ × AllocSystem))
    → IsBalanced s
    → ((a : ℕ × AllocSystem) → o ≡ some a → Acquired job_id s a)
    → IsBalanced (reserve_acquired job_id machine_id d s o).1
reserve_acquired-IsBalanced job_id machine_id d s none b h = b
reserve_acquired-IsBalanced job_id machine_id d s (some (i, t)) b h =
    let acquired = h (i, t) refl in
    let slot : AllocSlot = record { machine_id = copy_field 64 machine_id; demand = d } in
    let bt = Acquired-IsBalanced job_id s t i acquired b in
    record_booked-IsBalanced i (fresh_record job_id) slot (filled_record job_id machine_id d) t
      acquired.2.0 refl refl refl bt (registry_reserve slot.machine_id d t.machines)
      (
        reserve-IsValid slot.machine_id d t.machines bt.registry,
        reserve-Books (λ k. held k t.allocs) slot t.machines bt.books,
      )

reserve_single-IsBalanced :
    (job_id machine_id : CText) (d : Demand) (s : AllocSystem)
    → IsBalanced s
    → IsBalanced (reserve_single job_id machine_id d s).1
unfolding reserve_single
reserve_single-IsBalanced job_id machine_id d s b =
    reserve_acquired-IsBalanced job_id machine_id d s (alloc_record_acquire job_id s) b
      (acquire-Acquired job_id s b.tidy)

reserve_chosen-IsBalanced :
    (job_id : CText) (d : Demand) (s : AllocSystem) (o : Option Machine)
    → IsBalanced s
    → IsBalanced (reserve_chosen job_id d s o).2
reserve_chosen-IsBalanced job_id d s none b = b
reserve_chosen-IsBalanced job_id d s (some m) b = reserve_single-IsBalanced job_id m.id d s b

pub alloc_reserve-IsBalanced :
    (job_id : CText) (d : Demand) (s : AllocSystem)
    → IsBalanced s
    → IsBalanced (alloc_reserve job_id d s).2
unfolding alloc_reserve
alloc_reserve-IsBalanced job_id d s b = elim (Bool-cases (ltb_ℤ (pos 0) d.cores)) [
  | inl e ↦ rw e (reserve_chosen-IsBalanced job_id d s _ b)
  | inr e ↦ rw e b
]

reserve_target-IsBalanced :
    (job_id : CText) (d : Demand) (s : AllocSystem) (o : Option Machine)
    → IsBalanced s
    → IsBalanced (reserve_target job_id d s o).1
reserve_target-IsBalanced job_id d s none b = b
reserve_target-IsBalanced job_id d s (some m) b = elim (Bool-cases (machine_can_fit m d)) [
  | inl e ↦ rw e (reserve_single-IsBalanced job_id m.id d s b)
  | inr e ↦ rw e b
]

pub alloc_reserve_on-IsBalanced :
    (job_id target : CText) (d : Demand) (s : AllocSystem)
    → IsBalanced s
    → IsBalanced (alloc_reserve_on job_id target d s).1
unfolding alloc_reserve_on
alloc_reserve_on-IsBalanced job_id target d s b = elim (Bool-cases (ltb_ℤ (pos 0) d.cores)) [
  | inl e ↦ rw e (reserve_target-IsBalanced job_id d s _ b)
  | inr e ↦ rw e b
]

release_found-IsBalanced :
    (job_id : CText) (s : AllocSystem) (o : Option (ℕ × AllocRecord))
    → find_record job_id s.allocs 0 ≡ o
    → IsBalanced s
    → IsBalanced (release_found s o).1
release_found-IsBalanced job_id s none h b = b
release_found-IsBalanced job_id s (some (i, r)) h b =
    discard-IsBalanced i r s (find_record-At job_id s.allocs i r h) b

pub alloc_release-IsBalanced :
    (job_id : CText) (s : AllocSystem) → IsBalanced s → IsBalanced (alloc_release job_id s).1
unfolding alloc_release
alloc_release-IsBalanced job_id s b =
    let freed = release_found s (find_record job_id s.allocs 0) in
    same-IsBalanced (freed.1)
      (record (freed.1) { db = (db_release_allocation job_id freed.1.db).1 }) refl refl
      (release_found-IsBalanced job_id s _ refl b)

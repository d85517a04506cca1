-- ===== src/Alloc/Spread.antt =====
-- Reservation over several machines keeps the allocator's table and the registry in step.
use mathlib.Core.Path.{subst}
use mathlib.Core.List.{append-nil}
use bhc_scheduler.Common.{
  ℕ, ◌≡◌, refl, ap, sym, ◌∙◌, ◌⊎◌, inl, inr, true, false, Option, none, some, List, [], ◌∷◌, ◌++◌,
  ◌||◌, not, arith, Bool-cases, set, length, ltb, ◌==◌,
}
use bhc_scheduler.Common.Int.{ℤ, pos, pos_part, ltb_ℤ}
use bhc_scheduler.Common.Text.{CText}
use bhc_scheduler.Common.Rc.{Rc, ok, error, conflict}
use bhc_scheduler.Db.{db_release_allocation}
use bhc_scheduler.Registry.{Machine, Demand, any_negative, registry_snapshot, registry_reserve}
use bhc_scheduler.Registry.Booking.{registry_reserve-cases}
use bhc_scheduler.Registry.Invariant.{IsValid}
use bhc_scheduler.Registry.Calls.{reserve-IsValid}
use bhc_scheduler.Alloc.{
  AllocSlot, AllocRecord, AllocSystem, fresh_record, persist_record, release_slots, discard_record,
  alloc_record_acquire,
}
use bhc_scheduler.Alloc.Books.{
  Amounts, nothing_held, ◌⊕◌, ⊕_assoc, ⊕_comm, ⊕_zero, on_slot, on_slots, held, Books, Books-ext,
  Sound, reserve-Books, release_slots-Books,
}
use bhc_scheduler.Alloc.Records.{At, set-AllTidy, set-At, held-set, Acquired, acquire-Acquired}
use bhc_scheduler.Alloc.Balance.{
  IsBalanced, release_slots-IsValid, discard-IsBalanced, same-IsBalanced, emptied-IsBalanced,
  Acquired-IsBalanced,
}
use bhc_scheduler.Alloc.Multi.{
  MultiResult, joined, max_slots, spread, apply_slots, refused, report, multi_booked, job_record,
  multi_filled, multi_spread, multi_acquired, alloc_reserve_multi,
}

-- One more slot at the end of a list.
on_slots-snoc :
    (k : CText) (slots : List AllocSlot) (slot : AllocSlot)
    → on_slots k (slots ++ slot ∷ []) ≡ on_slots k slots ⊕ on_slot k slot
on_slots-snoc k [] slot = ⊕_comm (on_slot k slot) nothing_held
on_slots-snoc k (x ∷ slots) slot =
    ap (λ z. on_slot k x ⊕ z) (on_slots-snoc k slots slot)
    ∙ sym (⊕_assoc (on_slot k x) (on_slots k slots) (on_slot k slot))

Sound-snoc :
    (slots : List AllocSlot) (slot : AllocSlot)
    → Sound slots
    → any_negative slot.demand ≡ false
    → Sound (slots ++ slot ∷ [])
Sound-snoc [] slot h good = (good, tt)
Sound-snoc (x ∷ slots) slot (head, rest) good = (head, Sound-snoc slots slot rest good)

snoc_cons :
    (a : List AllocSlot) (x : AllocSlot) (b : List AllocSlot) → (a ++ x ∷ []) ++ b ≡ a ++ x ∷ b
snoc_cons [] x b = refl
snoc_cons (y ∷ a) x b = ap (◌∷◌ y) (snoc_cons a x b)

-- The registry with all slots of `slots` booked, or as it was.
abbrev Applied : (CText → Amounts) → List AllocSlot → Rc × List Machine → Type 0
Applied h slots (ok, ms) = IsValid ms × Books (λ k. h k ⊕ on_slots k slots) ms × Sound slots
Applied h slots (_, ms) = IsValid ms × Books h ms

reserve_kept :
    (slot : AllocSlot) (ms : List Machine)
    → ((registry_reserve slot.machine_id slot.demand ms).0 ≡ ok)
      ⊎ (registry_reserve slot.machine_id slot.demand ms ≡ (error, ms))
reserve_kept slot ms = elim (registry_reserve-cases slot.machine_id slot.demand ms) [
  | inl (e, _) ↦ inr e
  | inr (e, _, _) ↦ inl e
]

module _ (applied : List AllocSlot) (slot : AllocSlot) (slots : List AllocSlot)
    (ms : List Machine) where
  accepted_step :
      (registry_reserve slot.machine_id slot.demand ms).0 ≡ ok
      → apply_slots applied (slot ∷ slots) ms
        ≡ apply_slots
            (applied ++ slot ∷ [])
            slots
            (registry_reserve slot.machine_id slot.demand ms).1
  unfolding apply_slots
  accepted_step done = rw (apply_slots, done) refl

  refused_step :
      registry_reserve slot.machine_id slot.demand ms ≡ (error, ms)
      → apply_slots applied (slot ∷ slots) ms ≡ (error, release_slots applied ms)
  unfolding apply_slots
  refused_step same =
      rw (apply_slots, ap (λ r. r.0) same)
        (ap (λ (r : Rc × List Machine). (error, release_slots applied r.1)) same)

apply_slots-Applied :
    (h : CText → Amounts) (applied slots : List AllocSlot) (ms : List Machine)
    → IsValid ms
    → Sound applied
    → Books (λ k. h k ⊕ on_slots k applied) ms
    → Applied h (applied ++ slots) (apply_slots applied slots ms)
unfolding apply_slots
apply_slots-Applied h applied [] ms v good b =
    subst (λ l. Applied h l (ok, ms)) (sym (append-nil applied)) (v, b, good)
apply_slots-Applied h applied (slot ∷ slots) ms v good b = elim (reserve_kept slot ms) [
  | inl done ↦
      let next = (registry_reserve slot.machine_id slot.demand ms).1 in
      let (books, fine) = reserve-Books (λ k. h k ⊕ on_slots k applied) slot ms b done in
      let rest =
        apply_slots-Applied h (applied ++ slot ∷ []) slots next
          (reserve-IsValid slot.machine_id slot.demand ms v) (Sound-snoc applied slot good fine)
          (Books-ext (λ k. h k ⊕ on_slots k applied ⊕ on_slot k slot)
            (λ k. h k ⊕ on_slots k (applied ++ slot ∷ [])) next
            (λ k.
              ⊕_assoc (h k) (on_slots k applied) (on_slot k slot)
              ∙ ap (λ z. h k ⊕ z) (sym (on_slots-snoc k applied slot)))
            books) in
      subst (Applied h (applied ++ slot ∷ slots)) (sym (accepted_step applied slot slots ms done)) (
        subst (λ l. Applied h l (apply_slots (applied ++ slot ∷ []) slots next))
          (snoc_cons applied slot slots) rest)
  | inr same ↦
      subst (Applied h (applied ++ slot ∷ slots)) (sym (refused_step applied slot slots ms same))
        (release_slots-IsValid applied ms v, release_slots-Books h applied ms good b)
]

abbrev Final : MultiResult → AllocSystem
Final r = r.3

report-IsBalanced :
    (job_id : CText) (i : ℕ) (r : AllocRecord) (s : AllocSystem)
    → At s.allocs i r
    → IsBalanced s
    → IsBalanced (Final (report job_id i r s))
unfolding report
report-IsBalanced job_id i r s here b = elim (Bool-cases (ltb (length (joined r.slots)) 1024)) [
  | inl e ↦ rw e b
  | inr e ↦
      let freed = discard_record i r s in
      rw e (
        same-IsBalanced freed (record freed { db = (db_release_allocation job_id freed.db).1 }) refl
          refl (discard-IsBalanced i r s here b))
]

saved_or_refused :
    (job_id : CText) (i : ℕ) (r : AllocRecord) (t : AllocSystem)
    → At t.allocs i r
    → IsBalanced t
    → (rc : Rc)
    → IsBalanced (
        Final (
          let x : MultiResult = elim rc [
            | ok ↦ report job_id i r t
            | _ ↦ refused (discard_record i r t)
          ] in
          x))
saved_or_refused job_id i r t here b ok = report-IsBalanced job_id i r t here b
saved_or_refused job_id i r t here b error = discard-IsBalanced i r t here b
saved_or_refused job_id i r t here b conflict = discard-IsBalanced i r t here b

-- An empty record at `i` is written over, and the slots of `r` are booked.
held_whole :
    (k : CText) (i : ℕ) (x r : AllocRecord) (l : List AllocRecord)
    → At l i x
    → x.slots ≡ []
    → held k l ⊕ on_slots k r.slots ≡ held k (set l i r)
held_whole k i x r l here empty =
    sym (held-set k l i x r here)
    ∙ ap (λ z. held k (set l i r) ⊕ on_slots k z) empty
    ∙ ⊕_zero (held k (set l i r))

multi_booked-IsBalanced :
    (job_id : CText) (i : ℕ) (x r : AllocRecord) (s : AllocSystem)
    → At s.allocs i x
    → x.slots ≡ []
    → r.active ≡ true
    → IsBalanced s
    → (a : Rc × List Machine) → Applied (λ k. held k s.allocs) r.slots a
    → IsBalanced (Final (multi_booked job_id i r s a))
unfolding multi_booked
multi_booked-IsBalanced job_id i x r s here empty active b (ok, ms) (v, books, good) =
    let t = record s { machines = ms; allocs = set s.allocs i r; db = (persist_record r s.db).1 } in
    saved_or_refused job_id i r t (set-At s.allocs i x r here)
      (record {
        registry = v;
        books =
            Books-ext (λ k. held k s.allocs ⊕ on_slots k r.slots) (λ k. held k (set s.allocs i r))
              ms (λ k. held_whole k i x r s.allocs here empty) books;
        tidy = set-AllTidy s.allocs i r b.tidy (good, λ h. absurd (grind arith));
      })
      (persist_record r s.db).0
multi_booked-IsBalanced job_id i x r s here empty active b (error, ms) (v, books) =
    emptied-IsBalanced i x (record s { machines = ms }) here empty
      (record { registry = v; books = books; tidy = b.tidy })
multi_booked-IsBalanced job_id i x r s here empty active b (conflict, ms) (v, books) =
    emptied-IsBalanced i x (record s { machines = ms }) here empty
      (record { registry = v; books = books; tidy = b.tidy })

module _ (job_id : CText) (i : ℕ) (x : AllocRecord) (s : AllocSystem) (here : At s.allocs i x)
    (empty : x.slots ≡ []) (b : IsBalanced s) where
  multi_filled-IsBalanced :
      (o : Option (List AllocSlot)) → IsBalanced (Final (multi_filled job_id i s o))
  multi_filled-IsBalanced none = emptied-IsBalanced i x s here empty b
  multi_filled-IsBalanced (some slots) =
      multi_booked-IsBalanced job_id i x (job_record job_id slots) s here empty refl b
        (apply_slots [] slots s.machines)
        (apply_slots-Applied (λ k. held k s.allocs) [] slots s.machines b.registry tt
          (Books-ext (λ k. held k s.allocs) (λ k. held k s.allocs ⊕ nothing_held) s.machines
            (λ k. sym (⊕_zero (held k s.allocs))) b.books))

  multi_spread-IsBalanced :
      (ram disk : ℤ) (ms : List Machine) (p : List AllocSlot × ℕ)
      → IsBalanced (Final (multi_spread job_id ram disk i s ms p))
  multi_spread-IsBalanced ram disk ms (slots, remaining) =
      elim (Bool-cases (ltb 0 remaining || length slots == 0)) [
        | inl e ↦ rw e (emptied-IsBalanced i x s here empty b)
        | inr e ↦ rw e (multi_filled-IsBalanced _)
      ]

multi_acquired-IsBalanced :
    (job_id : CText) (d : Demand) (snapshot : Option (List Machine)) (s : AllocSystem)
    (o : Option (ℕ × AllocSystem))
    → IsBalanced s
    → ((a : ℕ × AllocSystem) → o ≡ some a → Acquired job_id s a)
    → IsBalanced (Final (multi_acquired job_id d snapshot s o))
multi_acquired-IsBalanced job_id d snapshot s none b h = b
multi_acquired-IsBalanced job_id d none s (some (i, t)) b h =
    let acquired = h (i, t) refl in
    emptied-IsBalanced i (fresh_record job_id) t acquired.2.0 refl
      (Acquired-IsBalanced job_id s t i acquired b)
multi_acquired-IsBalanced job_id d (some ms) s (some (i, t)) b h =
    let acquired = h (i, t) refl in
    multi_spread-IsBalanced job_id i (fresh_record job_id) t acquired.2.0 refl
      (Acquired-IsBalanced job_id s t i acquired b) d.ram_mb d.disk_mb ms
      (spread max_slots (pos_part d.cores) ms)

pub alloc_reserve_multi-IsBalanced :
    (job_id : CText) (d : Demand) (s : AllocSystem)
    → IsBalanced s
    → IsBalanced (alloc_reserve_multi job_id d s).3
unfolding alloc_reserve_multi
alloc_reserve_multi-IsBalanced job_id d s b =
    elim (Bool-cases (ltb_ℤ (pos 0) d.gpu || not (ltb_ℤ (pos 0) d.cores))) [
      | inl e ↦ rw e b
      | inr e ↦ rw e (
          multi_acquired-IsBalanced job_id d (registry_snapshot s.memory s.machines) s
            (alloc_record_acquire job_id s) b (acquire-Acquired job_id s b.tidy))
    ]

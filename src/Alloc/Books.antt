-- ===== src/Alloc/Books.antt =====
-- What the registry has reserved on each machine, against what is held there.
use bhc_scheduler.Common.{
  ℕ, ◌+◌, ◌≡◌, refl, ap, sym, ◌∙◌, inl, inr, false, Option, none, some, List, [], ◌∷◌, arith,
  Bool-cases, if◌then◌else◌,
}
use bhc_scheduler.Common.Int.{pos_part}
use bhc_scheduler.Common.Text.{CText, str_same, str_same_iff}
use bhc_scheduler.Common.Rc.{ok}
use bhc_scheduler.Registry.{
  Machine, Demand, any_negative, add_reserved, release_on, registry_get_copy, registry_reserve,
  registry_release,
}
use bhc_scheduler.Registry.Booking.{
  registry_reserve-cases, on_machine-Changed, release_on-id, release_is,
}
use bhc_scheduler.Alloc.{AllocSlot, AllocRecord, release_slots}

pub record Amounts : Type 0 where
  pub cores : ℕ
  pub gpu : ℕ
  pub ram_mb : ℕ
  pub disk_mb : ℕ

abbrev pub nothing_held : Amounts
nothing_held = record { cores = 0; gpu = 0; ram_mb = 0; disk_mb = 0 }

abbrev pub amounts_of : Demand → Amounts
amounts_of d = record {
  cores = pos_part d.cores;
  gpu = pos_part d.gpu;
  ram_mb = pos_part d.ram_mb;
  disk_mb = pos_part d.disk_mb;
}

infixl 65 ◌⊕◌
unfoldable pub ◌⊕◌ : Amounts → Amounts → Amounts
a ⊕ b = record {
  cores = a.cores + b.cores;
  gpu = a.gpu + b.gpu;
  ram_mb = a.ram_mb + b.ram_mb;
  disk_mb = a.disk_mb + b.disk_mb;
}

pub ⊕_comm : (a b : Amounts) → a ⊕ b ≡ b ⊕ a
unfolding ◌⊕◌
⊕_comm a b = ground arith

pub ⊕_assoc : (a b c : Amounts) → a ⊕ b ⊕ c ≡ a ⊕ (b ⊕ c)
unfolding ◌⊕◌
⊕_assoc a b c = ground arith

pub ⊕_zero : (a : Amounts) → a ⊕ nothing_held ≡ a
unfolding ◌⊕◌
⊕_zero a = ground arith

pub ⊕_cancel : (a b c : Amounts) → a ⊕ c ≡ b ⊕ c → a ≡ b
unfolding ◌⊕◌
⊕_cancel a b c h = ground arith

-- What a slot, a list of slots, and the records of the table hold on machine `k`.
abbrev pub on_slot : CText → AllocSlot → Amounts
on_slot k slot = if str_same slot.machine_id k then amounts_of slot.demand else nothing_held

abbrev pub on_slots : CText → List AllocSlot → Amounts
on_slots k [] = nothing_held
on_slots k (slot ∷ slots) = on_slot k slot ⊕ on_slots k slots

abbrev pub held : CText → List AllocRecord → Amounts
held k [] = nothing_held
held k (r ∷ rs) = on_slots k r.slots ⊕ held k rs

-- The machine found under an id has exactly these amounts reserved; where there is none, so is nothing.
abbrev pub Matches : Option Machine → Amounts → Type 0
Matches none a = a ≡ nothing_held
Matches (some m) a =
    (m.cores_reserved ≡ a.cores)
    × (m.gpu_count_reserved ≡ a.gpu)
    × (m.ram_mb_reserved ≡ a.ram_mb)
    × (m.disk_mb_reserved ≡ a.disk_mb)

abbrev pub Books : (CText → Amounts) → List Machine → Type 0
Books h ms = (k : CText) → Matches (registry_get_copy k ms) (h k)

pub Books-ext :
    (h h' : CText → Amounts) (ms : List Machine)
    → ((k : CText) → h k ≡ h' k)
    → Books h ms
    → Books h' ms
Books-ext h h' ms e b k = rw (e k) at (b k)

added :
    (m : Machine) (d : Demand) (a : Amounts)
    → Matches (some m) a
    → Matches (some (add_reserved m d)) (a ⊕ amounts_of d)
unfolding add_reserved ◌⊕◌
added m d a h = ground arith

taken_off :
    (m : Machine) (d : Demand) (a : Amounts)
    → Matches (some m) (a ⊕ amounts_of d)
    → Matches (some (release_on d m).1) a
unfolding release_on ◌⊕◌
taken_off m d a h = ground arith

zero_left : (a b : Amounts) → a ⊕ b ≡ nothing_held → a ≡ nothing_held
unfolding ◌⊕◌
zero_left a b h = ground arith

-- An accepted reservation adds exactly its slot.
pub reserve-Books :
    (h : CText → Amounts) (slot : AllocSlot) (ms : List Machine)
    → Books h ms
    → (registry_reserve slot.machine_id slot.demand ms).0 ≡ ok
    → Books (λ k. h k ⊕ on_slot k slot) (registry_reserve slot.machine_id slot.demand ms).1
      × (any_negative slot.demand ≡ false)
reserve-Books h slot ms b done = elim (registry_reserve-cases slot.machine_id slot.demand ms) [
  | inl (refused, _) ↦ absurd (let e = rw refused at done in cc)
  | inr (_, good, (m, found, room, now, others)) ↦ (
    λ k. elim (Bool-cases (str_same slot.machine_id k)) [
      | inl e ↦
          let same : slot.machine_id ≡ k = (str_same_iff slot.machine_id k).0 e in
          let before = rw found at (b slot.machine_id) in
          rw (e, ← same) (rw now (added m slot.demand (h slot.machine_id) before))
      | inr e ↦ rw (e, others k e, ⊕_zero (h k)) (b k)
    ],
    good,
  )
]

apart_zero :
    (a : Amounts) (k : CText) (slot : AllocSlot)
    → str_same slot.machine_id k ≡ false
    → a ⊕ on_slot k slot ≡ a
apart_zero a k slot e = rw e (⊕_zero a)

on_own :
    (a : Amounts) (slot : AllocSlot) → a ⊕ on_slot slot.machine_id slot ≡ a ⊕ amounts_of slot.demand
on_own a slot = rw ((str_same_iff slot.machine_id slot.machine_id).1 refl)

-- A release takes exactly its slot off.
pub release-Books :
    (h : CText → Amounts) (slot : AllocSlot) (ms : List Machine)
    → any_negative slot.demand ≡ false
    → Books (λ k. h k ⊕ on_slot k slot) ms
    → Books h (registry_release slot.machine_id slot.demand ms).1
release-Books h slot ms good b k =
    let id = slot.machine_id in
    let d = slot.demand in
    rw (release_is id d ms good) (elim (on_machine-Changed id (release_on d) (release_on-id d) ms) [
      | inl (missing, same) ↦ rw same (elim (Bool-cases (str_same id k)) [
        | inl e ↦
            let own : id ≡ k = (str_same_iff id k).0 e in
            let none_held = rw missing at (b id) in
            rw (← own, missing) (zero_left (h id) (on_slot id slot) none_held)
        | inr e ↦ rw (apart_zero (h k) k slot e) at (b k)
      ])
      | inr (m, found, rc, now, others) ↦ elim (Bool-cases (str_same id k)) [
        | inl e ↦
            let own : id ≡ k = (str_same_iff id k).0 e in
            let before = rw (found, on_own (h id) slot) at (b id) in
            rw (← own, now) (taken_off m d (h id) before)
        | inr e ↦ rw (others k e) (rw (apart_zero (h k) k slot e) at (b k))
      ]
    ])

-- No slot of the list has a negative amount.
abbrev pub Sound : List AllocSlot → Type 0
Sound [] = Unit
Sound (slot ∷ slots) = (any_negative slot.demand ≡ false) × Sound slots

pub release_slots-Books :
    (h : CText → Amounts) (slots : List AllocSlot) (ms : List Machine)
    → Sound slots
    → Books (λ k. h k ⊕ on_slots k slots) ms
    → Books h (release_slots slots ms)
unfolding release_slots
release_slots-Books h [] ms good b = Books-ext (λ k. h k ⊕ nothing_held) h ms (λ k. ⊕_zero (h k)) b
release_slots-Books h (slot ∷ slots) ms (good, rest) b =
    release_slots-Books h slots (registry_release slot.machine_id slot.demand ms).1 rest (
      release-Books (λ k. h k ⊕ on_slots k slots) slot ms good
        (Books-ext (λ k. h k ⊕ (on_slot k slot ⊕ on_slots k slots))
          (λ k. h k ⊕ on_slots k slots ⊕ on_slot k slot) ms
          (λ k.
            ap (λ x. h k ⊕ x) (⊕_comm (on_slot k slot) (on_slots k slots))
            ∙ sym (⊕_assoc (h k) (on_slots k slots) (on_slot k slot)))
          b))

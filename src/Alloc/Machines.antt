-- ===== src/Alloc/Machines.antt =====
-- The registry's own operations, against what the allocator's records hold.
use bhc_scheduler.Common.{
  ℕ, ◌≡◌, refl, inl, inr, false, some, List, [], ◌∷◌, arith, Bool-cases, leb, length,
}
use bhc_scheduler.Common.Int.{ℤ}
use bhc_scheduler.Common.Text.{CText, str_same, str_same_iff}
use bhc_scheduler.Common.Rc.{Rc}
use bhc_scheduler.Registry.{
  Machine, MachineStatus, max_machines, on_machine, probe_on, registry_get_copy,
}
use bhc_scheduler.Registry.Booking.{on_machine-Changed}
use bhc_scheduler.Registry.Changes.{
  MachineSpec, valid_spec, machine_of, holds_reserved, keep_state, upsert_loop, registry_upsert,
  is_reserved,
}
use bhc_scheduler.Registry.Removal.{Removed}
use bhc_scheduler.Alloc.Books.{Amounts, nothing_held, Matches, Books}

kept :
    (new old : Machine) (a : Amounts) → Matches (some old) a → Matches (some (keep_state new old)) a
unfolding keep_state
kept new old a h = h

keep_state-id : (new old : Machine) → (keep_state new old).id ≡ new.id
unfolding keep_state
keep_state-id new old = refl

module _ (new : Machine) (count : ℕ) (k : CText) (a : Amounts)
    (fresh : Matches (some new) nothing_held) where
  upsert_loop-Matches :
      (ms : List Machine)
      → Matches (registry_get_copy k ms) a
      → Matches (registry_get_copy k (upsert_loop new count ms).1) a
  unfolding upsert_loop registry_get_copy
  upsert_loop-Matches [] h = elim (Bool-cases (leb max_machines count)) [
    | inl e ↦ rw e h
    | inr e ↦
        rw (e, h)
          (elim (Bool-cases (str_same new.id k)) [
            | inl own ↦ rw own fresh
            | inr apart ↦ rw apart refl
          ])
  ]
  upsert_loop-Matches (m ∷ ms) h = elim (Bool-cases (str_same m.id new.id)) [
    | inr e ↦ rw e (elim (Bool-cases (str_same m.id k)) [
      | inl own ↦ rw own (rw own at h)
      | inr apart ↦ rw apart (upsert_loop-Matches ms (rw apart at h))
    ])
    | inl e ↦ elim (Bool-cases (holds_reserved new m)) [
      | inr full ↦ rw (e, full) h
      | inl room ↦
          let named = (str_same_iff m.id new.id).0 e in
          rw (e, room, keep_state-id new m)
            (elim (Bool-cases (str_same new.id k)) [
              | inl own ↦ rw own (kept new m a (rw (named, own) at h))
              | inr apart ↦ rw apart (rw (named, apart) at h)
            ])
    ]
  ]

-- A machine that joins has nothing reserved, and one that is replaced keeps what is reserved.
pub upsert-Books :
    (h : CText → Amounts) (s : MachineSpec) (ms : List Machine)
    → Books h ms
    → Books h (registry_upsert s ms).1
unfolding registry_upsert
upsert-Books h s ms b k = elim (Bool-cases (valid_spec s)) [
  | inr bad ↦ rw bad (b k)
  | inl good ↦ rw good (
      upsert_loop-Matches (machine_of s) (length ms) k (h k)
        (unfold machine_of in (refl, refl, refl, refl)) ms (b k))
]

idle_zero :
    (m : Machine) (a : Amounts) → is_reserved m ≡ false → Matches (some m) a → a ≡ nothing_held
unfolding is_reserved
idle_zero m a e h = ground arith

-- Nothing is held on a machine that can be removed.
pub Removed-Books :
    (h : CText → Amounts) (id : CText) (ms : List Machine) (r : Rc × List Machine)
    → Removed id ms r
    → Books h ms
    → Books h r.1
Removed-Books h id ms r (inl (e, _)) b k = rw e (b k)
Removed-Books h id ms r (inr (m, _, inl (e, _))) b k = rw e (b k)
Removed-Books h id ms r (inr (m, found, inr (_, idle, w))) b k = elim (Bool-cases (str_same id k)) [
  | inl own ↦
      let same = (str_same_iff id k).0 own in
      let before = rw found at (b id) in
      rw (w.2 k, own) (rw (← same) (idle_zero m (h id) idle before))
  | inr apart ↦ rw (w.2 k, apart) (b k)
]

probed :
    (s : MachineStatus) (t : ℕ) (x : ℤ) (m : Machine) (a : Amounts)
    → Matches (some m) a
    → Matches (some (probe_on s t x m).1) a
unfolding probe_on
probed s t x m a h = h

probe_on-id : (s : MachineStatus) (t : ℕ) (x : ℤ) (m : Machine) → (probe_on s t x m).1.id ≡ m.id
unfolding probe_on
probe_on-id s t x m = refl

pub probe-Books :
    (h : CText → Amounts) (id : CText) (s : MachineStatus) (t : ℕ) (x : ℤ) (ms : List Machine)
    → Books h ms
    → Books h (on_machine id (probe_on s t x) ms).1
probe-Books h id s t x ms b k =
    elim (on_machine-Changed id (probe_on s t x) (probe_on-id s t x) ms) [
      | inl (missing, same) ↦ rw same (b k)
      | inr (m, found, rc, now, others) ↦ elim (Bool-cases (str_same id k)) [
        | inl own ↦
            let same = (str_same_iff id k).0 own in
            let before = rw found at (b id) in rw (← same, now) (probed s t x m (h id) before)
        | inr apart ↦ rw (others k apart) (b k)
      ]
    ]

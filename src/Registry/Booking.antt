-- ===== src/Registry/Booking.antt =====
-- `registry_reserve` and `registry_release`, as bookings on one machine.
use bhc_scheduler.Common.{
  ◌≡◌, refl, ◌⊎◌, inl, inr, true, false, none, some, List, [], ◌∷◌, arith, Bool-cases,
}
use bhc_scheduler.Common.Text.{CText, str_same, str_same_iff}
use bhc_scheduler.Common.Rc.{Rc, ok, error}
use bhc_scheduler.Registry.{
  Machine, Demand, any_negative, on_machine, has_room, add_reserved, reserve_on, release_on,
  registry_get_copy, registry_reserve, registry_release,
}

-- What a call that changes one machine did: it failed and changed nothing, or the machine with the
-- id was there, is changed as `f` says, and a lookup of any other id finds what it found before.
abbrev pub Changed : CText → (Machine → Rc × Machine) → List Machine → Rc × List Machine → Type 0
Changed id f ms r =
    (m : Machine) × (registry_get_copy id ms ≡ some m)
    × (r.0 ≡ (f m).0)
    × (registry_get_copy id r.1 ≡ some (f m).1)
    × ((k : CText) → str_same id k ≡ false → registry_get_copy k r.1 ≡ registry_get_copy k ms)

pub on_machine-Changed :
    (id : CText) (f : Machine → Rc × Machine)
    → ((m : Machine) → (f m).1.id ≡ m.id)
    → (ms : List Machine)
    → ((registry_get_copy id ms ≡ none) × (on_machine id f ms ≡ (error, ms)))
      ⊎ Changed id f ms (on_machine id f ms)
unfolding on_machine registry_get_copy
on_machine-Changed id f keep [] = inl (refl, refl)
on_machine-Changed id f keep (m ∷ ms) = elim (Bool-cases (str_same m.id id)) [
  | inl e ↦ inr (
    m,
    rw e refl,
    rw e refl,
    rw (e, keep m) (rw e refl),
    λ k apart. rw (e, keep m) (ground (arith, str_same_iff m.id id)),
  )
  | inr e ↦ elim (on_machine-Changed id f keep ms) [
    | inl (missing, same) ↦ inl (rw e missing, rw (e, same) refl)
    | inr (x, found, rc, now, others) ↦
        inr (
          x,
          rw e found,
          rw e rc,
          rw e (rw e now),
          λ k apart. rw e (ground (arith, others k apart)),
        )
  ]
]

reserve_on-id : (d : Demand) (m : Machine) → (reserve_on d m).1.id ≡ m.id
unfolding reserve_on
reserve_on-id d m = ground arith

pub release_on-id : (d : Demand) (m : Machine) → (release_on d m).1.id ≡ m.id
unfolding release_on
release_on-id d m = refl

pub release_is :
    (id : CText) (d : Demand) (ms : List Machine)
    → any_negative d ≡ false
    → registry_release id d ms ≡ on_machine id (release_on d) ms
unfolding registry_release
release_is id d ms h = rw h

on_machine_refused :
    (id : CText) (f : Machine → Rc × Machine) (ms : List Machine) (m : Machine)
    → registry_get_copy id ms ≡ some m
    → f m ≡ (error, m)
    → on_machine id f ms ≡ (error, ms)
unfolding on_machine registry_get_copy
on_machine_refused id f [] m found refused = cc
on_machine_refused id f (x ∷ ms) m found refused = elim (Bool-cases (str_same x.id id)) [
  | inl e ↦ let same : x ≡ m = ground arith in rw (e, same, refused) refl
  | inr e ↦ rw (e, on_machine_refused id f ms m (ground arith) refused) refl
]

full_refuses : (d : Demand) (m : Machine) → has_room m d ≡ false → reserve_on d m ≡ (error, m)
unfolding reserve_on
full_refuses d m h = rw h

room_adds :
    (d : Demand) (m : Machine) → has_room m d ≡ true → reserve_on d m ≡ (ok, add_reserved m d)
unfolding reserve_on
room_adds d m h = rw h

-- `registry_reserve` succeeds exactly where no amount is negative and the machine is there, enabled,
-- online, and has every amount free beyond what it keeps back. Then the amounts are added on that
-- machine and every other is as it was; otherwise nothing changes.
pub registry_reserve-cases :
    (id : CText) (d : Demand) (ms : List Machine)
    → let r = registry_reserve id d ms in
      ((r ≡ (error, ms))
        × ((m : Machine)
            → registry_get_copy id ms ≡ some m
            → any_negative d ≡ false
            → has_room m d ≡ false))
      ⊎ ((r.0 ≡ ok)
          × (any_negative d ≡ false)
          × ((m : Machine) × (registry_get_copy id ms ≡ some m)
              × (has_room m d ≡ true)
              × (registry_get_copy id r.1 ≡ some (add_reserved m d))
              × ((k : CText)
                  → str_same id k ≡ false
                  → registry_get_copy k r.1 ≡ registry_get_copy k ms)))
unfolding registry_reserve
registry_reserve-cases id d ms = elim (Bool-cases (any_negative d)) [
  | inl bad ↦ rw bad (inl (refl, λ m e h. absurd (ground arith)))
  | inr good ↦ rw good (elim (on_machine-Changed id (reserve_on d) (reserve_on-id d) ms) [
    | inl (missing, same) ↦ inl (same, λ m e _. absurd (let h = missing in cc))
    | inr (m, found, rc, now, others) ↦ elim (Bool-cases (has_room m d)) [
      | inr full ↦ inl (
        on_machine_refused id (reserve_on d) ms m found (full_refuses d m full),
        λ x e _. let same : m ≡ x = ground arith in rw same at full,
      )
      | inl room ↦
          let added = room_adds d m room in
          inr (rw added at rc, refl, (m, found, room, rw added at now, others))
    ]
  ])
]

module _ (id : CText) (f g : Machine → Rc × Machine) where
  on_machine_undone :
      ((m : Machine) → (f m).1.id ≡ m.id)
      → ((m : Machine) → (f m).0 ≡ ok → g (f m).1 ≡ (ok, m))
      → (ms : List Machine) → (on_machine id f ms).0 ≡ ok
      → on_machine id g (on_machine id f ms).1 ≡ (ok, ms)
  unfolding on_machine
  on_machine_undone keep back [] h = cc
  on_machine_undone keep back (m ∷ ms) h = elim (Bool-cases (str_same m.id id)) [
    | inl e ↦
        let here : str_same (f m).1.id id ≡ true = rw (keep m) e in
        let undone = back m (rw e at h) in rw e (rw here (ground arith))
    | inr e ↦ rw e (rw (e, on_machine_undone keep back ms (rw e at h)) refl)
  ]

reserve_undone :
    (d : Demand) (m : Machine) → (reserve_on d m).0 ≡ ok → release_on d (reserve_on d m).1 ≡ (ok, m)
unfolding reserve_on release_on
reserve_undone d m h = ground arith

-- A release of what was just reserved brings the whole registry back.
pub release-reserve :
    (id : CText) (d : Demand) (ms ms' : List Machine)
    → registry_reserve id d ms ≡ (ok, ms')
    → registry_release id d ms' ≡ (ok, ms)
unfolding registry_reserve registry_release
release-reserve id d ms ms' h = elim (Bool-cases (any_negative d)) [
  | inl bad ↦ absurd (let e = rw bad at h in cc)
  | inr good ↦
      let booked : on_machine id (reserve_on d) ms ≡ (ok, ms') = rw good at h in
      let done =
        on_machine_undone id (reserve_on d) (release_on d) (reserve_on-id d) (reserve_undone d) ms
          (rw booked refl) in
      rw good (rw booked at done)
]

-- ===== src/Registry/Upsert.antt =====
-- `registry_upsert` keeps the invariant.
use bhc_scheduler.Common.{
  ℕ, suc, ◌<◌, ◌≡◌, refl, ◌⊎◌, inl, inr, true, false, List, [], ◌∷◌, arith, Bool-cases, length, leb,
}
use bhc_scheduler.Common.Text.{CText, str_same, str_same_iff}
use bhc_scheduler.Registry.{Machine, max_machines}
use bhc_scheduler.Registry.Changes.{
  MachineSpec, valid_spec, machine_of, holds_reserved, keep_state, upsert_loop, registry_upsert,
}
use bhc_scheduler.Registry.Invariant.{Fits, AllFit, Absent, Distinct, IsValid}

keep_state-Fits :
    (new old : Machine) → Fits old → holds_reserved new old ≡ true → Fits (keep_state new old)
unfolding holds_reserved keep_state
keep_state-Fits new old h e = ground arith

machine_of-Fits : (s : MachineSpec) → valid_spec s ≡ true → Fits (machine_of s)
unfolding valid_spec machine_of
machine_of-Fits s h = ground arith

module _ (new : Machine) (count : ℕ) where
  upsert-AllFit : Fits new → (ms : List Machine) → AllFit ms → AllFit (upsert_loop new count ms).1
  unfolding upsert_loop
  upsert-AllFit fits [] h = elim (Bool-cases (leb max_machines count)) [
    | inl e ↦ rw e tt
    | inr e ↦ rw e (fits, tt)
  ]
  upsert-AllFit fits (m ∷ ms) h = elim (Bool-cases (str_same m.id new.id)) [
    | inr e ↦ rw e (h.0, upsert-AllFit fits ms h.1)
    | inl e ↦ elim (Bool-cases (holds_reserved new m)) [
      | inl room ↦ rw (e, room) (keep_state-Fits new m h.0 room, h.1)
      | inr none_left ↦ rw (e, none_left) h
    ]
  ]

  keep_state-id : (m : Machine) → (keep_state new m).id ≡ new.id
  unfolding keep_state
  keep_state-id m = refl

  upsert-Absent :
      (k : CText)
      → str_same new.id k ≡ false
      → (ms : List Machine) → Absent k ms
      → Absent k (upsert_loop new count ms).1
  unfolding upsert_loop
  upsert-Absent k differs [] h = elim (Bool-cases (leb max_machines count)) [
    | inl e ↦ rw e tt
    | inr e ↦ rw e (differs, tt)
  ]
  upsert-Absent k differs (m ∷ ms) h = elim (Bool-cases (str_same m.id new.id)) [
    | inr e ↦ rw e (h.0, upsert-Absent k differs ms h.1)
    | inl e ↦ elim (Bool-cases (holds_reserved new m)) [
      | inl room ↦ rw (e, room, keep_state-id m) (differs, h.1)
      | inr none_left ↦ rw (e, none_left) h
    ]
  ]

  str_same_swap : (a b : CText) → str_same a b ≡ false → str_same b a ≡ false
  str_same_swap a b h = ground (arith, str_same_iff a b, str_same_iff b a)

  upsert-Distinct : (ms : List Machine) → Distinct ms → Distinct (upsert_loop new count ms).1
  unfolding upsert_loop
  upsert-Distinct [] h = elim (Bool-cases (leb max_machines count)) [
    | inl e ↦ rw e tt
    | inr e ↦ rw e (tt, tt)
  ]
  upsert-Distinct (m ∷ ms) h = elim (Bool-cases (str_same m.id new.id)) [
    | inr e ↦ rw e (upsert-Absent m.id (str_same_swap m.id new.id e) ms h.0, upsert-Distinct ms h.1)
    | inl e ↦ elim (Bool-cases (holds_reserved new m)) [
      | inl room ↦
          let same = (str_same_iff m.id new.id).0 e in
          rw (e, room, keep_state-id m) (rw same at h.0, h.1)
      | inr none_left ↦ rw (e, none_left) h
    ]
  ]

  upsert-length :
      (ms : List Machine)
      → (length (upsert_loop new count ms).1 ≡ length ms)
        ⊎ ((count < max_machines) × (length (upsert_loop new count ms).1 ≡ suc (length ms)))
  unfolding upsert_loop
  upsert-length [] = ground arith
  upsert-length (m ∷ ms) = ground (arith, upsert-length ms)

-- An accepted or refused `registry_upsert` leaves a valid registry.
pub upsert-IsValid :
    (s : MachineSpec) (ms : List Machine) → IsValid ms → IsValid (registry_upsert s ms).1
unfolding registry_upsert
upsert-IsValid s ms v = elim (Bool-cases (valid_spec s)) [
  | inr bad ↦ rw bad v
  | inl good ↦
      let new = machine_of s in
      rw good (record {
        fit = upsert-AllFit new (length ms) (machine_of-Fits s good) ms v.fit;
        distinct = upsert-Distinct new (length ms) ms v.distinct;
        bounded = omega (arith, upsert-length new (length ms) ms, v.bounded);
      })
]

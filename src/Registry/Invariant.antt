-- ===== src/Registry/Invariant.antt =====
-- What every operation of the registry keeps.
use bhc_scheduler.Common.{
  ℕ, ◌+◌, ◌≤◌, ◌≡◌, refl, inl, inr, false, List, [], ◌∷◌, arith, Bool-cases, length,
}
use bhc_scheduler.Common.Int.{ℤ}
use bhc_scheduler.Common.Text.{CText, str_same}
use bhc_scheduler.Common.Rc.{Rc}
use bhc_scheduler.Registry.{
  Machine, MachineStatus, Demand, max_machines, on_machine, reserve_on, release_on, probe_on,
}

-- What is reserved on a machine, and what it keeps back, fits its totals.
pub record Fits (m : Machine) : Type 0 where
  pub cores : m.cores_reserved + m.cores_min ≤ m.cores_total
  pub gpu : m.gpu_count_reserved ≤ m.gpu_count_total
  pub ram : m.ram_mb_reserved + m.ram_mb_min ≤ m.ram_mb_total
  pub disk : m.disk_mb_reserved + m.disk_mb_min ≤ m.disk_mb_total

abbrev pub AllFit : List Machine → Type 0
AllFit [] = Unit {0}
AllFit (m ∷ ms) = Fits m × AllFit ms

abbrev pub Absent : CText → List Machine → Type 0
Absent id [] = Unit {0}
Absent id (m ∷ ms) = (str_same m.id id ≡ false) × Absent id ms

abbrev pub Distinct : List Machine → Type 0
Distinct [] = Unit {0}
Distinct (m ∷ ms) = Absent m.id ms × Distinct ms

pub record IsValid (ms : List Machine) : Type 0 where
  pub fit : AllFit ms
  pub distinct : Distinct ms
  pub bounded : length ms ≤ max_machines

-- A change of one machine that keeps it fitting, and keeps its id.
abbrev pub Keeps : (Machine → Rc × Machine) → Type 0
Keeps f = (m : Machine) → Fits m → Fits (f m).1 × ((f m).1.id ≡ m.id)

abbrev pub KeepsId : (Machine → Rc × Machine) → Type 0
KeepsId f = (m : Machine) → (f m).1.id ≡ m.id

pub reserve_on-Fits : (d : Demand) (m : Machine) → Fits m → Fits (reserve_on d m).1
unfolding reserve_on
reserve_on-Fits d m h = ground arith

pub release_on-Fits : (d : Demand) (m : Machine) → Fits m → Fits (release_on d m).1
unfolding release_on
release_on-Fits d m h = ground arith

pub probe_on-Fits :
    (s : MachineStatus) (t : ℕ) (r : ℤ) (m : Machine) → Fits m → Fits (probe_on s t r m).1
unfolding probe_on
probe_on-Fits s t r m h = ground arith

-- `on_machine` with a change that keeps the id.
module _ (id : CText) (f : Machine → Rc × Machine) where
  on_machine-AllFit :
      ((m : Machine) → Fits m → Fits (f m).1)
      → (ms : List Machine) → AllFit ms
      → AllFit (on_machine id f ms).1
  unfolding on_machine
  on_machine-AllFit keep [] h = tt
  on_machine-AllFit keep (m ∷ ms) h = elim (Bool-cases (str_same m.id id)) [
    | inl e ↦ rw e (keep m h.0, h.1)
    | inr e ↦ rw e (h.0, on_machine-AllFit keep ms h.1)
  ]

  on_machine-Absent :
      KeepsId f → (k : CText) (ms : List Machine) → Absent k ms → Absent k (on_machine id f ms).1
  unfolding on_machine
  on_machine-Absent keep k [] h = tt
  on_machine-Absent keep k (m ∷ ms) h = elim (Bool-cases (str_same m.id id)) [
    | inl e ↦ rw (e, keep m) h
    | inr e ↦ rw e (h.0, on_machine-Absent keep k ms h.1)
  ]

  on_machine-Distinct :
      KeepsId f → (ms : List Machine) → Distinct ms → Distinct (on_machine id f ms).1
  unfolding on_machine
  on_machine-Distinct keep [] h = tt
  on_machine-Distinct keep (m ∷ ms) h = elim (Bool-cases (str_same m.id id)) [
    | inl e ↦ rw (e, keep m) h
    | inr e ↦ rw e (on_machine-Absent keep m.id ms h.0, on_machine-Distinct keep ms h.1)
  ]

  pub length-on_machine : (ms : List Machine) → length (on_machine id f ms).1 ≡ length ms
  unfolding on_machine
  length-on_machine [] = refl
  length-on_machine (m ∷ ms) = ground (arith, length-on_machine ms)

  pub on_machine-IsValid :
      ((m : Machine) → Fits m → Fits (f m).1)
      → KeepsId f
      → (ms : List Machine) → IsValid ms
      → IsValid (on_machine id f ms).1
  on_machine-IsValid fits keep ms v = record {
    fit = on_machine-AllFit fits ms v.fit;
    distinct = on_machine-Distinct keep ms v.distinct;
    bounded = omega (arith, length-on_machine ms, v.bounded);
  }

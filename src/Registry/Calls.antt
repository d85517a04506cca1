-- ===== src/Registry/Calls.antt =====
-- Any history of calls on the registry.
use bhc_scheduler.Common.{ℕ, inl, inr, refl, Option, some, List, [], ◌∷◌, Bool-cases, arith}
use bhc_scheduler.Common.Int.{ℤ}
use bhc_scheduler.Common.Text.{CText}
use bhc_scheduler.Common.Rc.{Rc}
use bhc_scheduler.Common.Fallible.{◌>>=◌, Yields, Yields-some, Yields-bind, Yields-weaken}
use bhc_scheduler.Registry.{
  Machine, MachineStatus, Demand, any_negative, reserve_on, release_on, probe_on, registry_reserve,
  registry_release, registry_update_probe,
}
use bhc_scheduler.Registry.Changes.{MachineSpec, registry_upsert, registry_remove}
use bhc_scheduler.Registry.Invariant.{
  IsValid, KeepsId, on_machine-IsValid, reserve_on-Fits, release_on-Fits, probe_on-Fits,
}
use bhc_scheduler.Registry.Upsert.{upsert-IsValid}
use bhc_scheduler.Registry.Removal.{Removed, registry_remove-Removed}

-- The calls that change the registry.
pub data Call : Type 0 where
  upserts : MachineSpec → Call
  removes : CText → Call
  reserves releases : CText → Demand → Call
  probes : CText → MachineStatus → ℕ → ℤ → Call

pub step : Call → List Machine → Option (Rc × List Machine)
step (upserts s) ms = some (registry_upsert s ms)
step (removes id) ms = registry_remove id ms
step (reserves id d) ms = some (registry_reserve id d ms)
step (releases id d) ms = some (registry_release id d ms)
step (probes id s t r) ms = some (registry_update_probe id s t r ms)

pub run : List Call → List Machine → Option (List Machine)
run [] ms = some ms
run (c ∷ cs) ms = do (rc, after) ← step c ms; run cs after

reserve_on-KeepsId : (d : Demand) → KeepsId (reserve_on d)
unfolding reserve_on
reserve_on-KeepsId d m = ground arith

release_on-KeepsId : (d : Demand) → KeepsId (release_on d)
unfolding release_on
release_on-KeepsId d m = refl

probe_on-KeepsId : (s : MachineStatus) (t : ℕ) (r : ℤ) → KeepsId (probe_on s t r)
unfolding probe_on
probe_on-KeepsId s t r m = refl

pub Removed-IsValid :
    (id : CText) (ms : List Machine) (r : Rc × List Machine)
    → IsValid ms
    → Removed id ms r
    → IsValid r.1
Removed-IsValid id ms r v (inl (e, _)) = rw e v
Removed-IsValid id ms r v (inr (m, _, inl (e, _))) = rw e v
Removed-IsValid id ms r v (inr (m, _, inr (_, _, w))) = w.0

pub reserve-IsValid :
    (id : CText) (d : Demand) (ms : List Machine)
    → IsValid ms
    → IsValid (registry_reserve id d ms).1
unfolding registry_reserve
reserve-IsValid id d ms v = elim (Bool-cases (any_negative d)) [
  | inl bad ↦ rw bad v
  | inr good ↦
      rw good (on_machine-IsValid id (reserve_on d) (reserve_on-Fits d) (reserve_on-KeepsId d) ms v)
]

pub release-IsValid :
    (id : CText) (d : Demand) (ms : List Machine)
    → IsValid ms
    → IsValid (registry_release id d ms).1
unfolding registry_release
release-IsValid id d ms v = elim (Bool-cases (any_negative d)) [
  | inl bad ↦ rw bad v
  | inr good ↦
      rw good (on_machine-IsValid id (release_on d) (release_on-Fits d) (release_on-KeepsId d) ms v)
]

pub probe-IsValid :
    (id : CText) (s : MachineStatus) (t : ℕ) (r : ℤ) (ms : List Machine)
    → IsValid ms
    → IsValid (registry_update_probe id s t r ms).1
unfolding registry_update_probe
probe-IsValid id s t r =
    on_machine-IsValid id (probe_on s t r) (probe_on-Fits s t r) (probe_on-KeepsId s t r)

pub remove-IsValid :
    (id : CText) (ms : List Machine)
    → IsValid ms
    → Yields (λ r. IsValid r.1) (registry_remove id ms)
remove-IsValid id ms v =
    Yields-weaken (registry_remove id ms) (registry_remove-Removed id ms v)
      λ r h. Removed-IsValid id ms r v h

step-IsValid : (c : Call) (ms : List Machine) → IsValid ms → Yields (λ r. IsValid r.1) (step c ms)
unfolding step
step-IsValid (upserts s) ms v = Yields-some _ (upsert-IsValid s ms v)
step-IsValid (removes id) ms v = remove-IsValid id ms v
step-IsValid (reserves id d) ms v = Yields-some _ (reserve-IsValid id d ms v)
step-IsValid (releases id d) ms v = Yields-some _ (release-IsValid id d ms v)
step-IsValid (probes id s t r) ms v = Yields-some _ (probe-IsValid id s t r ms v)

-- Every history of calls on a valid registry runs to its end, without a read out of the table, and
-- leaves a valid one: at most 1024 machines with distinct ids, and on each of them what is reserved
-- and what is kept back fits the totals.
pub run-IsValid : (cs : List Call) (ms : List Machine) → IsValid ms → Yields IsValid (run cs ms)
unfolding run
run-IsValid [] ms v = Yields-some ms v
run-IsValid (c ∷ cs) ms v =
    Yields-bind (step c ms) _ (step-IsValid c ms v) λ r v'. run-IsValid cs r.1 v'

-- ===== src/Registry/Tests.antt =====
-- Runs of the registry, and its theorems at a concrete registry of two machines.
use bhc_scheduler.Common.{◌≡◌, refl, ◌⊎◌, true, false, some, List, [], ◌∷◌}
use bhc_scheduler.Common.Text.{CText, c_text, str_same}
use bhc_scheduler.Common.Rc.{ok, error}
use bhc_scheduler.Common.Fallible.{Yields}
use bhc_scheduler.Registry.{
  Machine, any_negative, has_room, add_reserved, registry_get_copy, registry_reserve, on_machine,
  reserve_on, registry_release,
}
use bhc_scheduler.Registry.Changes.{registry_remove}
use bhc_scheduler.Registry.Booking.{registry_reserve-cases, release-reserve}
use bhc_scheduler.Registry.Invariant.{IsValid}
use bhc_scheduler.Registry.Removal.{Removed, registry_remove-Removed}
use bhc_scheduler.Registry.Samples.{machine, two_machines, demand, two_machines-IsValid}
use bhc_scheduler.Registry.Calls.{Call, run, run-IsValid}

abbrev booked_machines : List Machine
booked_machines =
    machine (c_text "a") 4
    ∷ record (machine (c_text "b") 8) {
      cores_reserved = 5;
      gpu_count_reserved = 1;
      ram_mb_reserved = 200;
      disk_mb_reserved = 10;
    }
    ∷ []

books_b : registry_reserve (c_text "b") demand two_machines ≡ (ok, booked_machines)
unfolding registry_reserve any_negative on_machine str_same reserve_on
books_b = refl

refuses_a : registry_reserve (c_text "a") demand two_machines ≡ (error, two_machines)
unfolding registry_reserve any_negative on_machine str_same reserve_on
refuses_a = refl

registry_reserve-cases_example :
    let r = registry_reserve (c_text "b") demand two_machines in
    ((r ≡ (error, two_machines))
      × ((m : Machine)
          → registry_get_copy (c_text "b") two_machines ≡ some m
          → any_negative demand ≡ false
          → has_room m demand ≡ false))
    ⊎ ((r.0 ≡ ok)
        × (any_negative demand ≡ false)
        × ((m : Machine) × (registry_get_copy (c_text "b") two_machines ≡ some m)
            × (has_room m demand ≡ true)
            × (registry_get_copy (c_text "b") r.1 ≡ some (add_reserved m demand))
            × ((k : CText)
                → str_same (c_text "b") k ≡ false
                → registry_get_copy k r.1 ≡ registry_get_copy k two_machines)))
registry_reserve-cases_example = registry_reserve-cases (c_text "b") demand two_machines

release-reserve_example : registry_release (c_text "b") demand booked_machines ≡ (ok, two_machines)
release-reserve_example = release-reserve (c_text "b") demand two_machines booked_machines books_b

registry_remove-Removed_example :
    Yields (Removed (c_text "a") two_machines) (registry_remove (c_text "a") two_machines)
registry_remove-Removed_example =
    registry_remove-Removed (c_text "a") two_machines two_machines-IsValid

abbrev history : List Call
history =
    Call.reserves (c_text "b") demand
    ∷ Call.removes (c_text "b")
    ∷ Call.releases (c_text "b") demand
    ∷ Call.removes (c_text "a")
    ∷ []

run-IsValid_example : Yields IsValid (run history two_machines)
run-IsValid_example = run-IsValid history two_machines two_machines-IsValid

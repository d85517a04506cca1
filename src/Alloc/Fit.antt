-- ===== src/Alloc/Fit.antt =====
-- When a machine fits: the allocator's test against the registry's.
use bhc_scheduler.Common.{ℕ, ◌+◌, ◌≤◌, ◌≡◌, false, arith, leb, ◌-◌}
use bhc_scheduler.Common.Int.{ℤ, pos, negsuc, pos_part}
use bhc_scheduler.Registry.{Machine, Demand, any_negative, is_negative, has_room}
use bhc_scheduler.Registry.Invariant.{Fits}
use bhc_scheduler.Alloc.{covers, machine_can_fit}

covers_room :
    (total reserved kept : ℕ) (x : ℤ)
    → reserved + kept ≤ total
    → is_negative x ≡ false
    → covers (total - reserved - kept) x ≡ leb (reserved + kept + pos_part x) total
covers_room total reserved kept (pos n) h e = ground arith
covers_room total reserved kept (negsuc n) h e = cc

covers_gpu :
    (total reserved : ℕ) (x : ℤ)
    → reserved ≤ total
    → is_negative x ≡ false
    → covers (total - reserved) x ≡ leb (reserved + pos_part x) total
covers_gpu total reserved (pos n) h e = ground arith
covers_gpu total reserved (negsuc n) h e = cc

not_negative :
    (d : Demand)
    → any_negative d ≡ false
    → (is_negative d.cores ≡ false)
      × (is_negative d.gpu ≡ false)
      × (is_negative d.ram_mb ≡ false)
      × (is_negative d.disk_mb ≡ false)
unfolding any_negative
not_negative d h = ground arith

-- On a machine that holds no more than it has, and for amounts that are not negative, the test that
-- the allocator makes on its snapshot is the test by which the registry accepts the reservation.
pub machine_can_fit-has_room :
    (m : Machine) (d : Demand)
    → Fits m
    → any_negative d ≡ false
    → machine_can_fit m d ≡ has_room m d
unfolding machine_can_fit has_room
machine_can_fit-has_room m d v h =
    let (c, g, r, k) = not_negative d h in
    rw (
      covers_room m.cores_total m.cores_reserved m.cores_min d.cores v.cores c,
      covers_gpu m.gpu_count_total m.gpu_count_reserved d.gpu v.gpu g,
      covers_room m.ram_mb_total m.ram_mb_reserved m.ram_mb_min d.ram_mb v.ram r,
      covers_room m.disk_mb_total m.disk_mb_reserved m.disk_mb_min d.disk_mb v.disk k,
    )

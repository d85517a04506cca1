-- ===== src/Registry/Samples.antt =====
-- A registry of two machines on which nothing is reserved, for tests.
use bhc_scheduler.Common.{ℕ, suc, refl, true, List, [], ◌∷◌, arith}
use bhc_scheduler.Common.Int.{pos}
use bhc_scheduler.Common.Text.{CText, c_text, str_same}
use bhc_scheduler.Registry.{Machine, MachineType, MachineStatus, Demand}
use bhc_scheduler.Registry.Invariant.{Fits, IsValid}

abbrev pub machine : CText → ℕ → Machine
machine id cores = record {
  id = id;
  hostname = id;
  ip = [];
  enabled = true;
  cores_total = cores;
  gpu_count_total = 1;
  ram_mb_total = 1000;
  disk_mb_total = 1000;
  cores_reserved = 0;
  gpu_count_reserved = 0;
  ram_mb_reserved = 0;
  disk_mb_reserved = 0;
  probe_status = MachineStatus.online;
  last_probe_time = 0;
  probe_fail_count = 0;
  type = MachineType.static;
  cloud_provider = [];
  cloud_instance_id = [];
  cores_min = 1;
  ram_mb_min = 0;
  disk_mb_min = 0;
  mac_address = [];
}

abbrev pub two_machines : List Machine
two_machines = machine (c_text "a") 4 ∷ machine (c_text "b") 8 ∷ []

abbrev pub demand : Demand
demand = record { cores = pos 5; gpu = pos 1; ram_mb = pos 200; disk_mb = pos 10 }

pub machine-Fits : (id : CText) (n : ℕ) → Fits (machine id (suc n))
machine-Fits id n = record {
  cores = omega arith;
  gpu = omega arith;
  ram = omega arith;
  disk = omega arith;
}

pub two_machines-IsValid : IsValid two_machines
unfolding str_same
two_machines-IsValid = record {
  fit = (machine-Fits (c_text "a") 3, (machine-Fits (c_text "b") 7, tt));
  distinct = ((refl, tt), (tt, tt));
  bounded = omega arith;
}

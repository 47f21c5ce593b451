-- ===== src/Machines/Tests.antt =====
-- Runs of core/machine_management/MachineManagement.py, and the theorems there.
use test_looper.Common.{List, not, keys, ℕ, ◌+◌, ◌≡◌, refl, ◌&&◌, some, [], ◌∷◌, elem, Assoc}
use test_looper.Machines.{
  Hardware, OsConfig, linux_with_docker, Limits, Machines, no_machines, can_boot, add_machine,
  machine_booted, worker_alive,
}
use test_looper.Machines.Dummy.{dummy_boot, synchronize_workers}
use test_looper.Machines.Aws.{aws_synchronize}
use test_looper.Machines.Capacity.{
  DummyRuns, idle, boots, IsOrderly, DummyRuns-IsOrderly, synchronize_workers-DummyRuns,
}
use test_looper.Machines.Recount.{known_cores, booked_cores, aws_synchronize_recounts}

abbrev limits : Limits
limits = record { max_ram_gb = 32; max_cores = 8; max_workers = 2 }

abbrev small : Hardware
small = record { cores = 4; ram_gb = 16 }

abbrev one_up : Machines
one_up = add_machine 5 small linux_with_docker no_machines

one_up-DummyRuns : DummyRuns limits one_up
unfolding dummy_boot machine_booted can_boot
one_up-DummyRuns = boots 5 small linux_with_docker idle refl refl

DummyRuns-IsOrderly_example : IsOrderly limits one_up
DummyRuns-IsOrderly_example = DummyRuns-IsOrderly limits one_up one_up-DummyRuns

synchronize_workers-DummyRuns_example :
    (dead : List ℕ) × (m' : Machines) × (synchronize_workers (6 ∷ []) one_up ≡ some (dead, m'))
    × ((i : ℕ) → worker_alive i m' ≡ (elem i (keys one_up.running_machines) && elem i (6 ∷ [])))
    × ((i : ℕ) → elem i (keys m'.running_machines) ≡ worker_alive i m')
    × ((i : ℕ) → elem i dead ≡ (elem i (6 ∷ []) && not (elem i (keys m'.running_machines))))
synchronize_workers-DummyRuns_example =
    synchronize_workers-DummyRuns limits one_up (6 ∷ []) one_up-DummyRuns

abbrev known : Assoc (Hardware × OsConfig)
known = (5, (small, linux_with_docker)) ∷ []

aws_synchronize_recounts_example :
    (m' : Machines) × (aws_synchronize (5 ∷ []) known one_up ≡ some ([], m'))
    × (m'.cores_booted ≡ one_up.cores_booted + known_cores known)
    × (booked_cores m' ≡ booked_cores one_up)
aws_synchronize_recounts_example =
    aws_synchronize_recounts (5 ∷ []) known one_up ((refl, unfold add_machine in refl), tt)

-- ===== src/Machines/Dummy.antt =====
-- `DummyMachineManagement` and `LocalMachineManagement` of
-- core/machine_management/MachineManagement.py. The worker object that Local starts and stops, and
-- the docker containers that it removes, are outside of the model.
use text.Mathlib.Text.{starts_with}
use test_looper.Common.{
  ℕ, Bool, true, false, not, ◌||◌, Option, none, some, List, [], ◌∷◌, if◌then◌else◌, elem, has_key,
  keys,
}
use test_looper.Machines.{
  Hardware, OsConfig, windows_vm, linux_with_docker, Limits, Machines, same_hardware, can_boot,
  machine_booted, machine_removed, not_running,
}

pub data Boot : Type 0 where
  booted : ℕ → Machines → Boot
  -- UnbootableWorkerCombination
  unbootable : Boot
  -- a failed assertion
  refused : Boot

unfoldable pub booted_or_refused : ℕ → Option Machines → Boot
booted_or_refused id none = refused
booted_or_refused id (some m) = booted id m

-- `hardware in self.all_hardware_configs()`
abbrev pub offers : List Hardware → Hardware → Bool
offers [] h = false
offers (o ∷ os) h = same_hardware o h || offers os h

abbrev pub dummy_hardware : List Hardware
dummy_hardware = record { cores = 1; ram_gb = 4 } ∷ record { cores = 4; ram_gb = 16 } ∷ []

abbrev pub local_hardware : List Hardware
local_hardware = record { cores = 1; ram_gb = 4 } ∷ []

-- `os_config.matches.WindowsVM and not os_config.ami.startswith("ami-")`
is_bad_ami : OsConfig → Bool
is_bad_ami (windows_vm ami _) = not (starts_with "ami-" ami)
is_bad_ami _ = false

-- `boot_worker`; `id` is the new identifier. The call passes `True` as the machine, so that the
-- capacity is checked.
unfoldable pub dummy_boot : Limits → ℕ → Hardware → OsConfig → Machines → Boot
unfolding same_hardware can_boot is_bad_ami machine_booted booted_or_refused
dummy_boot limits id hardware os m =
    if not (offers dummy_hardware hardware)
    then refused
    else if is_bad_ami os
    then unbootable
    else booted_or_refused id (machine_booted false (can_boot limits hardware m) id hardware os m)

unfoldable pub is_windows_vm : OsConfig → Bool
is_windows_vm (windows_vm _ _) = true
is_windows_vm _ = false

unfoldable pub is_linux_docker : OsConfig → Bool
is_linux_docker linux_with_docker = true
is_linux_docker _ = false

-- `LocalMachineManagement.boot_worker`: a fake one-shot for Windows, a worker for Linux with Docker.
unfoldable pub local_boot : Limits → ℕ → Hardware → OsConfig → Machines → Boot
unfolding same_hardware can_boot is_windows_vm is_linux_docker machine_booted booted_or_refused
local_boot limits id hardware os m =
    if not (offers local_hardware hardware)
    then refused
    else if is_windows_vm os || is_linux_docker os
    then booted_or_refused id (machine_booted false (can_boot limits hardware m) id hardware os m)
    else unbootable

-- The loop of `synchronize_workers` over the running machines.
unfoldable pub remove_unknown : List ℕ → List ℕ → Machines → Option Machines
remove_unknown known [] m = some m
remove_unknown known (id ∷ ids) m = elim (elem id known) [
  | true ↦ remove_unknown known ids m
  | false ↦ elim (machine_removed id m) [ none ↦ none | some m' ↦ remove_unknown known ids m' ]
]

-- `synchronize_workers`: the machines that appear dead, and the new state
unfoldable pub synchronize_workers : List ℕ → Machines → Option (List ℕ × Machines)
unfolding remove_unknown not_running
synchronize_workers known m = elim (remove_unknown known (keys m.running_machines) m) [
  | none ↦ none
  | some m' ↦ some (not_running known m', m')
]

-- `DummyMachineManagement.terminate_worker`
unfoldable pub dummy_terminate : ℕ → Machines → Option Machines
dummy_terminate id m = if has_key m.running_machines id then machine_removed id m else none

-- `LocalMachineManagement.terminate_worker`
unfoldable pub local_terminate : ℕ → Machines → Option Machines
local_terminate id m = if has_key m.running_machines id then machine_removed id m else some m
